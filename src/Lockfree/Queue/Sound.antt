-- ===== src/Lockfree/Queue/Sound.antt =====
-- The links, the head and the tail against the order in which nodes were linked, as long as no
-- `pop` stores null in the head and no thread goes astray.
use codelab.Base.{
  ℕ, suc, ◌≤◌, ◌<◌, ◌≡◌, ◌≢◌, ◌⊎◌, sym, ◌∙◌, arith, ℕ_discrete, dec_lt, true, inl, refl,
}
use codelab.Lockfree.Stack.{update}
use codelab.Lockfree.Queue.{
  Pc, idle, pushing, got_tail, got_tail_next, linked, got_head, got_head_next, got_both, taken,
  owned, System, at_pc,
}

-- A node in the hands of a pusher was never linked.
abbrev pub IsNew : (node next : ℕ → ℕ) → (last x : ℕ) → Type 0
IsNew node next last x = (0 < x) × (next x ≡ 0) × ((k : ℕ) → k ≤ last → node k ≢ x)

-- What a thread read from the link of the node at `p`.
abbrev pub Follows : (node : ℕ → ℕ) → (last p n : ℕ) → Type 0
Follows node last p n = n ≢ 0 → (n ≡ node (suc p)) × (p < last)

abbrev pub PcOk : (node next : ℕ → ℕ) → (first tail_at last : ℕ) → Pc → Type 0
PcOk node next first tail_at last (pushing x) = IsNew node next last x
PcOk node next first tail_at last (got_tail x t p) =
    IsNew node next last x × (t ≡ node p) × (p ≤ tail_at)
PcOk node next first tail_at last (got_tail_next x t p n) =
    IsNew node next last x × (t ≡ node p) × (p ≤ tail_at) × Follows node last p n
PcOk node next first tail_at last (linked x t p) =
    (x ≡ node (suc p)) × (t ≡ node p) × (p ≤ tail_at) × (p < last)
PcOk node next first tail_at last (got_head h q) = (h ≡ node q) × (q ≤ first)
PcOk node next first tail_at last (got_head_next h q n) =
    (h ≡ node q) × (q ≤ first) × Follows node last q n
PcOk node next first tail_at last (got_both h q n t p) =
    (h ≡ node q) × (q ≤ first) × Follows node last q n × (t ≡ node p) × (p ≤ tail_at) × (q ≤ p)
PcOk node next first tail_at last _ = Unit {0}

-- The shared memory: links lead from each node to the one linked next.
pub record IsLinked (s : System) : Type 0 where
  pub head : s.head ≡ s.node s.first
  pub tail : s.tail ≡ s.node s.tail_at
  pub first_tail : s.first ≤ s.tail_at
  pub tail_last : s.tail_at ≤ s.last
  pub last_tail : s.last ≤ suc s.tail_at
  pub link : (k : ℕ) → k < s.last → s.next (s.node k) ≡ s.node (suc k)
  pub end : s.next (s.node s.last) ≡ 0
  pub nonzero : (k : ℕ) → k ≤ s.last → 0 < s.node k
  pub unique : (j k : ℕ) → j ≤ s.last → k ≤ s.last → s.node j ≡ s.node k → j ≡ k
  pub results : (k : ℕ) → k < s.first → s.results k ≡ s.value (s.node k)

pub record Sound (s : System) : Type 0 where
  pub shared : IsLinked s
  pub thread : (i : ℕ) → PcOk s.node s.next s.first s.tail_at s.last (s.pc i)
  pub apart : (i j : ℕ) → i ≢ j → owned (s.pc i) ≢ 0 → owned (s.pc i) ≢ owned (s.pc j)

module _ (s : System) (v : Sound s) (i : ℕ) where
  -- A step that changes the thread alone, which owns no other node than before.
  pub move-Sound :
      (c : Pc)
      → PcOk s.node s.next s.first s.tail_at s.last c
      → (owned c ≡ 0) ⊎ (owned c ≡ owned (s.pc i))
      → Sound (at_pc s i c)
  move-Sound c ok own = record {
    shared = record {
      head = v.shared.head;
      tail = v.shared.tail;
      first_tail = v.shared.first_tail;
      tail_last = v.shared.tail_last;
      last_tail = v.shared.last_tail;
      link = v.shared.link;
      end = v.shared.end;
      nonzero = v.shared.nonzero;
      unique = v.shared.unique;
      results = v.shared.results;
    };
    thread = λ j. ground (arith, v.thread j);
    apart = λ j k ne h. ground (arith, v.apart j k ne, v.apart i k, v.apart j i);
  }

  pub push-Sound :
      (x : ℕ)
      → s.pc i ≡ idle
      → 0 < x
      → s.next x ≡ 0
      → ((k : ℕ) → k ≤ s.last → s.node k ≢ x)
      → ((j : ℕ) → owned (s.pc j) ≢ x)
      → Sound (at_pc s i (pushing x))
  push-Sound x e pos null new free = record {
    shared = record {
      head = v.shared.head;
      tail = v.shared.tail;
      first_tail = v.shared.first_tail;
      tail_last = v.shared.tail_last;
      last_tail = v.shared.last_tail;
      link = v.shared.link;
      end = v.shared.end;
      nonzero = v.shared.nonzero;
      unique = v.shared.unique;
      results = v.shared.results;
    };
    thread = λ j. elim (ℕ_discrete i j) [
      | yes here ↦ ground (arith, new)
      | no other ↦ ground (arith, v.thread j)
    ];
    apart = λ j k ne h. ground (arith, v.apart j k ne, free j, free k);
  }

  -- A pointer to the node at `p`, read while the head or the tail stood there.
  pub Follows-link : (t p : ℕ) → t ≡ s.node p → p ≤ s.last → Follows s.node s.last p (s.next t)
  Follows-link t p e le nonnull = elim (dec_lt p s.last) [
    | yes lt ↦ ground (arith, v.shared.link p lt)
    | no ge ↦ ground (arith, v.shared.end)
  ]

  -- The tail moves from the node at `p` to the next one.
  pub tail-Sound :
      (n p : ℕ) (c : Pc)
      → n ≡ s.node (suc p)
      → p < s.last
      → s.tail ≡ s.node p
      → owned c ≡ 0 ⊎ (owned c ≡ owned (s.pc i))
      → PcOk s.node s.next s.first (suc p) s.last c
      → Sound (record s { tail = n; tail_at = suc p; pc = update s.pc i c })
  tail-Sound n p c e lt t own ok =
      let at : s.tail_at ≡ p =
        v.shared.unique s.tail_at p v.shared.tail_last (omega arith) (sym v.shared.tail ∙ t) in
      record {
        shared = record {
          head = v.shared.head;
          tail = e;
          first_tail = omega (arith, v.shared.first_tail);
          tail_last = lt;
          last_tail = omega (arith, v.shared.last_tail);
          link = v.shared.link;
          end = v.shared.end;
          nonzero = v.shared.nonzero;
          unique = v.shared.unique;
          results = v.shared.results;
        };
        thread = λ j. ground (arith, v.thread j);
        apart = λ j k ne h. ground (arith, v.apart j k ne, v.apart i k, v.apart j i);
      }

  -- The compare-exchange of `pop` on the head.
  pub swap-Sound :
      (h q n t p : ℕ)
      → PcOk s.node s.next s.first s.tail_at s.last (got_both h q n t p)
      → t ≢ h
      → n ≢ 0
      → s.head ≡ h
      → Sound (record s {
        head = n;
        pc = update s.pc i (taken h);
        first = suc s.first;
        results = update s.results s.first (s.value h);
      })
  swap-Sound h q n t p (e, le, f, e', le', lt) ne nonnull head =
      let at : s.first ≡ q =
        v.shared.unique s.first q (omega (arith, v.shared.first_tail, v.shared.tail_last))
          (omega (arith, v.shared.first_tail, v.shared.tail_last)) (sym v.shared.head ∙ head ∙ e) in
      let (next, inside) = f nonnull in
      let p_above : q ≢ p = λ same. ne (ground arith) in
      record {
        shared = record {
          head = ground arith;
          tail = v.shared.tail;
          first_tail = omega arith;
          tail_last = v.shared.tail_last;
          last_tail = v.shared.last_tail;
          link = v.shared.link;
          end = v.shared.end;
          nonzero = v.shared.nonzero;
          unique = v.shared.unique;
          results = λ k lt'. ground (arith, v.shared.results k);
        };
        thread = λ j. ground (arith, v.thread j);
        apart = λ j k ne' own. ground (arith, v.apart j k ne');
      }

  pub delete-Sound :
      (h : ℕ) → Sound (record s { deleted = update s.deleted h true; pc = update s.pc i idle })
  delete-Sound h =
      let w = move-Sound idle tt (inl refl) in
      record {
        shared = record {
          head = w.shared.head;
          tail = w.shared.tail;
          first_tail = w.shared.first_tail;
          tail_last = w.shared.tail_last;
          last_tail = w.shared.last_tail;
          link = w.shared.link;
          end = w.shared.end;
          nonzero = w.shared.nonzero;
          unique = w.shared.unique;
          results = w.shared.results;
        };
        thread = w.thread;
        apart = w.apart;
      }
