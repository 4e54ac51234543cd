-- ===== src/Lockfree/Stack/Tagged/Safety.antt =====
-- The tags keep a stale compare-exchange from succeeding: the linked nodes are always the stack.
use codelab.Base.{
  ℕ, suc, ◌+◌, ◌%◌, ◌^◌, ◌<◌, ◌≡◌, ◌≢◌, true, List, [], ◌∷◌, ◌++◌, ◌==◌, arith, refl, sym, ◌∙◌, ap,
  subst, Bool-cases, inl, inr, ◌⊎◌,
}
use codelab.Lockfree.TagPtr.{get_ptr, get_tag, get_next_tag, is_set}
use codelab.Lockfree.TagPtr.Packing.{pack_ptr_fields, tag_of_pack, get_next_tag_lem, is_set_lem}
use codelab.Lockfree.Stack.{update}
use codelab.Lockfree.Stack.Chains.{Chain, Distinct, Chain-small, Chain-update, top_only}
use codelab.Lockfree.Stack.Tagged.{
  Pc, idle, pushing, linked, popping, unlinking, owned, System, pushed_head, popped_head, rest_of,
  Step, push_load, push_link, push_swap, push_fail, pop_load, pop_null, pop_next, pop_swap,
  pop_fail, Reach, here, later, init,
}
use codelab.Lockfree.Stack.Tagged.Frame.{IsNode, Tail, Behind, PcOk, PcOk-link, PcOk-push, PcOk-pop}

pub record Sound (s : System) : Type 0 where
  pub chain : Chain s.next (get_ptr s.head) s.stack
  pub distinct : Distinct s.stack
  pub tag : get_tag s.head ≡ s.pops % 2 ^ 16
  ok : (i : ℕ) → PcOk s.next s.stack s.pops (s.pc i)
  apart : (i j : ℕ) → i ≢ j → 0 < owned (s.pc i) → owned (s.pc i) ≢ owned (s.pc j)

-- What holds of the thread that moved and of all others.
update_all :
    (P : Pc → Type 0) (pc : ℕ → Pc) (i : ℕ) (p : Pc)
    → P p
    → ((j : ℕ) → i ≢ j → P (pc j))
    → (j : ℕ) → P (update pc i p j)
update_all P pc i p mine others j = elim (Bool-cases (i == j)) [
  | inl e ↦ rw e mine
  | inr e ↦ rw e (others j (ground arith))
]

module _ (s : System) (v : Sound s) where
  -- A step that changes the thread alone, and takes no node in hand.
  private_step :
      (i : ℕ) (p : Pc)
      → PcOk s.next s.stack s.pops p
      → ((owned p ≡ 0) ⊎ (owned p ≡ owned (s.pc i)))
      → Sound (record s { pc = update s.pc i p })
  private_step i p good keeps = record {
    chain = v.chain;
    distinct = v.distinct;
    tag = v.tag;
    ok = update_all (PcOk s.next s.stack s.pops) s.pc i p good (λ j _. v.ok j);
    apart = λ a b ne. ground (arith, v.apart a b ne, keeps);
  }

  load-Sound :
      (i node : ℕ)
      → IsNode node s.stack
      → ((j : ℕ) → owned (s.pc j) ≢ node)
      → Sound (record s { pc = update s.pc i (pushing node s.head) })
  load-Sound i node good free = record {
    chain = v.chain;
    distinct = v.distinct;
    tag = v.tag;
    ok = update_all (PcOk s.next s.stack s.pops) s.pc i (pushing node s.head) good (λ j _. v.ok j);
    apart = λ a b ne. ground (arith, v.apart a b ne, free a, free b);
  }

  snapshot : PcOk s.next s.stack s.pops (popping s.head s.pops)
  snapshot = (omega arith, v.tag, λ _. ([], s.stack, refl, v.chain))

  link-Sound :
      (i node old : ℕ)
      → s.pc i ≡ pushing node old
      → Sound (record s {
        next = update s.next node (get_ptr old);
        pc = update s.pc i (linked node old (pushed_head node old));
      })
  link-Sound i node old e =
      let good : IsNode node s.stack = subst (PcOk s.next s.stack s.pops) e (v.ok i) in
      record {
        chain = Chain-update s.next (get_ptr s.head) s.stack node (get_ptr old) good.2 v.chain;
        distinct = v.distinct;
        tag = v.tag;
        ok =
            update_all (PcOk (update s.next node (get_ptr old)) s.stack s.pops) s.pc i
              (linked node old (pushed_head node old)) (good, ground arith, refl)
              (λ j ne.
                PcOk-link s.next s.stack s.pops node (get_ptr old) (s.pc j) good.2
                  (ground (arith, v.apart i j ne, good.0)) (v.ok j));
        apart = λ a b ne. ground (arith, v.apart a b ne);
      }

  push_swap-Sound :
      (i node old new : ℕ)
      → s.pc i ≡ linked node old new
      → s.head ≡ old
      → Sound (record s { head = new; pc = update s.pc i idle; stack = node ∷ s.stack })
  push_swap-Sound i node old new e same =
      let (good, link, is_new) = subst (PcOk s.next s.stack s.pops) e (v.ok i) in
      let top : get_ptr new ≡ node =
        ap get_ptr is_new ∙ (pack_ptr_fields node (get_tag old) good.1).0 in
      let behind : get_ptr s.head ≡ s.next node = ap get_ptr same ∙ sym link in
      record {
        chain = (top, good.0, good.1, subst (λ q. Chain s.next q s.stack) behind v.chain);
        distinct = (good.2, v.distinct);
        tag =
            omega
              (arith, ap get_tag is_new, tag_of_pack node (get_tag old), ap get_tag same, v.tag);
        ok = update_all (PcOk s.next (node ∷ s.stack) s.pops) s.pc i idle tt (λ j ne.
            PcOk-push s.next s.stack s.pops node (s.pc j) (ground (arith, v.apart i j ne, good.0))
              (v.ok j));
        apart = λ a b ne. ground (arith, v.apart a b ne);
      }

  -- Behind a word whose pointer is set and leads to a tail of the stack is the rest of that tail.
  popped_head-Behind :
      (old : ℕ)
      → is_set old ≡ true
      → Tail s.next s.stack (get_ptr old)
      → Behind s.next s.stack (get_ptr old) (get_ptr (popped_head s.next old))
  popped_head-Behind old set (ys, [], e, c) = absurd (ground (arith, is_set_lem old))
  popped_head-Behind old set (ys, z ∷ zs, e, c) =
      let small : s.next (get_ptr old) < 2 ^ 48 =
        subst (λ q. s.next q < 2 ^ 48) (sym c.0) (Chain-small s.next (s.next z) zs c.3) in
      let new : get_ptr (popped_head s.next old) ≡ s.next (get_ptr old) =
        (pack_ptr_fields (s.next (get_ptr old)) (get_next_tag old) small).0 in
      (
        ys,
        zs,
        e ∙ ap (λ q. ys ++ q ∷ zs) (sym c.0),
        subst (λ q. Chain s.next q zs) (ap s.next (sym c.0) ∙ sym new) c.3,
      )

  next_ok :
      (old seen : ℕ)
      → PcOk s.next s.stack s.pops (popping old seen)
      → is_set old ≡ true
      → PcOk s.next s.stack s.pops (unlinking old (popped_head s.next old) seen)
  next_ok old seen (past, tag, tail) set = (
    past,
    tag,
    omega (arith, tag_of_pack (s.next (get_ptr old)) (get_next_tag old), get_next_tag_lem old, tag),
    λ e. popped_head-Behind old set (tail e),
  )

  -- A node that the head leads to and that is in the stack is its top.
  top_is :
      (old new : ℕ)
      → s.head ≡ old
      → Behind s.next s.stack (get_ptr old) (get_ptr new)
      → (zs : List ℕ) × (s.stack ≡ get_ptr old ∷ zs) × Chain s.next (get_ptr new) zs
  top_is old new same (ys, zs, st, rest) =
      let bare : ys ≡ [] =
        top_only s.next (get_ptr old) ys zs
          (subst (λ l. Chain s.next (get_ptr old) l) st
            (subst (λ w. Chain s.next (get_ptr w) s.stack) same v.chain))
          (subst Distinct st v.distinct) in
      (zs, st ∙ ap (λ l. l ++ get_ptr old ∷ zs) bare, rest)

  pop_swap-Sound :
      (i old new seen : ℕ)
      → s.pc i ≡ unlinking old new seen
      → s.pops < seen + 2 ^ 16
      → s.head ≡ old
      → Sound (record s {
        head = new;
        pc = update s.pc i idle;
        stack = rest_of s.stack;
        pops = suc s.pops;
      })
  pop_swap-Sound i old new seen e few same =
      let (past, tag, new_tag, behind) = subst (PcOk s.next s.stack s.pops) e (v.ok i) in
      let now : seen ≡ s.pops = omega (arith, v.tag, ap get_tag same, past, tag) in
      let (zs, st, rest) = top_is old new same (behind now) in
      subst
        (λ l.
          Sound (record s {
            head = new;
            pc = update s.pc i idle;
            stack = rest_of l;
            pops = suc s.pops;
          }))
        (sym st)
        (record {
          chain = rest;
          distinct = (subst Distinct st v.distinct).1;
          tag = omega (arith, new_tag, now);
          ok = update_all (PcOk s.next zs (suc s.pops)) s.pc i idle tt (λ j _.
              PcOk-pop s.next (get_ptr old) zs s.pops (s.pc j)
                (subst (λ l. PcOk s.next l s.pops (s.pc j)) st (v.ok j)));
          apart = λ a b ne. ground (arith, v.apart a b ne);
        })

Step-Sound : {s t : System} → Step s t → Sound s → Sound t
Step-Sound {s} (push_load i node e pos small a free) v = load-Sound s v i node (pos, small, a) free
Step-Sound {s} (push_link i node old e) v = link-Sound s v i node old e
Step-Sound {s} (push_swap i node old new e same) v = push_swap-Sound s v i node old new e same
Step-Sound {s} (push_fail i node old new e) v =
    private_step s v i (pushing node s.head) (subst (PcOk s.next s.stack s.pops) e (v.ok i)).0
      (inr (sym (ap owned e)))
Step-Sound {s} (pop_load i e) v =
    private_step s v i (popping s.head s.pops) (snapshot s v) (inl refl)
Step-Sound {s} (pop_null i old seen e unset) v = private_step s v i idle tt (inl refl)
Step-Sound {s} (pop_next i old seen e set) v =
    private_step s v i (unlinking old (popped_head s.next old) seen)
      (next_ok s v old seen (subst (PcOk s.next s.stack s.pops) e (v.ok i)) set) (inl refl)
Step-Sound {s} (pop_swap i old new seen e few same) v = pop_swap-Sound s v i old new seen e few same
Step-Sound {s} (pop_fail i old new seen e) v =
    private_step s v i (popping s.head s.pops) (snapshot s v) (inl refl)

Reach-Sound : {s t : System} → Sound s → Reach s t → Sound t
Reach-Sound v here = v
Reach-Sound v (later r st) = Step-Sound st (Reach-Sound v r)

-- However any number of threads interleave their calls, if no thread's head is 2^16 pops old when
-- its compare-exchange is tried, and nodes are pushed only when they are in no thread's hands and
-- not in the stack, following the links from the head always gives exactly the stack of completed
-- pushes and pops, with no node twice.
pub Reach-Chain :
    {s t : System} → Sound s → Reach s t → Chain t.next (get_ptr t.head) t.stack × Distinct t.stack
Reach-Chain v r = let w = Reach-Sound v r in (w.chain, w.distinct)

-- In such an interleaving, the node that a `Pop` takes off when its compare-exchange succeeds is the
-- top of the stack, and the head that it stores leads to the rest.
pub pop_swap-top :
    {s t : System} (i old new seen : ℕ)
    → Sound s
    → Reach s t
    → t.pc i ≡ unlinking old new seen
    → t.pops < seen + 2 ^ 16
    → t.head ≡ old
    → (zs : List ℕ) × (t.stack ≡ get_ptr old ∷ zs) × Chain t.next (get_ptr new) zs
pop_swap-top {t} i old new seen start r e few same =
    let v = Reach-Sound start r in
    let (past, tag, new_tag, behind) = subst (PcOk t.next t.stack t.pops) e (v.ok i) in
    top_is t v old new same (behind (omega (arith, v.tag, ap get_tag same, past, tag)))

pub init-Sound : (next : ℕ → ℕ) → Sound (init next)
init-Sound next = record {
  chain = (pack_ptr_fields 0 0 (omega arith)).0;
  distinct = tt;
  tag = tag_of_pack 0 0;
  ok = λ i. tt;
  apart = λ i j ne pos. absurd (omega arith);
}
