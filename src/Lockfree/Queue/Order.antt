-- ===== src/Lockfree/Queue/Order.antt =====
-- Any interleaving in which no `pop` stores null in the head and no deleted node is read or written.
use codelab.Base.{ℕ, ◌<◌, ◌≡◌, inl, inr, refl, sym, ap, ◌∙◌, subst, Bool, true, false, ◌==◌, arith}
use codelab.Lockfree.Queue.{
  Pc, idle, pushing, got_tail, got_tail_next, linked, popping, got_head, got_head_next, got_both,
  owned, System, Step, push, push_tail, push_next, push_next_deleted, push_link_deleted,
  pop_next_deleted, push_link, push_link_fail, push_help, push_help_fail, push_swing,
  push_swing_fail, pop, pop_head, pop_next, pop_tail, pop_null, pop_help, pop_help_fail, pop_swap,
  pop_delete, pop_swap_fail, Reach, here, later, init,
}
use codelab.Lockfree.Queue.Sound.{
  PcOk, IsLinked, Sound, move-Sound, push-Sound, Follows-link, tail-Sound, swap-Sound, delete-Sound,
}
use codelab.Lockfree.Queue.Link.{link-Sound}

abbrev pub goes_wrong : {s t : System} → Step s t → Bool
goes_wrong (pop_swap i h q n t p e ne f) = n == 0
goes_wrong (push_next_deleted i x t p e f) = true
goes_wrong (push_link_deleted i x t p e f) = true
goes_wrong (pop_next_deleted i h q e f) = true
goes_wrong _ = false

-- No `pop` read a null link and then found the tail elsewhere, and no thread went astray.
abbrev pub IsWhole : {s t : System} → Reach s t → Type 0
IsWhole here = Unit {0}
IsWhole (later r st) = IsWhole r × (goes_wrong st ≡ false)

module _ (s : System) (v : Sound s) where
  pub thread_at : (i : ℕ) (c : Pc) → s.pc i ≡ c → PcOk s.node s.next s.first s.tail_at s.last c
  thread_at i c e = subst (PcOk s.node s.next s.first s.tail_at s.last) e (v.thread i)

  owner_at : (i : ℕ) (c d : Pc) → s.pc i ≡ c → owned d ≡ owned c → owned d ≡ owned (s.pc i)
  owner_at i c d e own = own ∙ sym (ap owned e)

pub Step-Sound : {s t : System} (st : Step s t) → goes_wrong st ≡ false → Sound s → Sound t
Step-Sound {s} (push i x e pos null new free) n v = push-Sound s v i x e pos null new free
Step-Sound {s} (push_tail i x e) n v =
    move-Sound s v i (got_tail x s.tail s.tail_at)
      (thread_at s v i (pushing x) e, v.shared.tail, omega arith)
      (inr (owner_at s v i (pushing x) (got_tail x s.tail s.tail_at) e refl))
Step-Sound {s} (push_next i x t p e alive) n v =
    let (new, at, le) = thread_at s v i (got_tail x t p) e in
    move-Sound s v i (got_tail_next x t p (s.next t))
      (new, at, le, Follows-link s v i t p at (omega (arith, v.shared.tail_last)))
      (inr (owner_at s v i (got_tail x t p) (got_tail_next x t p (s.next t)) e refl))
Step-Sound {s} (push_link i x t p e alive null) n v =
    let (new, at, le, f) = thread_at s v i (got_tail_next x t p 0) e in
    link-Sound s v i x t p new at le null (ap owned e)
Step-Sound {s} (push_link_fail i x t p e alive) n v =
    move-Sound s v i (pushing x) (thread_at s v i (got_tail_next x t p 0) e).0
      (inr (owner_at s v i (got_tail_next x t p 0) (pushing x) e refl))
Step-Sound {s} (push_help i x t p m e nonnull tail) n v =
    let (new, at, le, f) = thread_at s v i (got_tail_next x t p m) e in
    let (next, lt) = f nonnull in
    tail-Sound s v i m p (pushing x) next lt (tail ∙ at)
      (inr (owner_at s v i (got_tail_next x t p m) (pushing x) e refl)) new
Step-Sound {s} (push_help_fail i x t p m e nonnull) n v =
    move-Sound s v i (pushing x) (thread_at s v i (got_tail_next x t p m) e).0
      (inr (owner_at s v i (got_tail_next x t p m) (pushing x) e refl))
Step-Sound {s} (push_swing i x t p e tail) n v =
    let (next, at, le, lt) = thread_at s v i (linked x t p) e in
    tail-Sound s v i x p idle next lt (tail ∙ at) (inl refl) tt
Step-Sound {s} (push_swing_fail i x t p e) n v = move-Sound s v i idle tt (inl refl)
Step-Sound {s} (pop i e) n v = move-Sound s v i popping tt (inl refl)
Step-Sound {s} (pop_head i e) n v =
    move-Sound s v i (got_head s.head s.first) (v.shared.head, omega arith) (inl refl)
Step-Sound {s} (pop_next i h q e alive) n v =
    let (at, le) = thread_at s v i (got_head h q) e in
    move-Sound s v i (got_head_next h q (s.next h))
      (at, le, Follows-link s v i h q at (omega (arith, v.shared.first_tail, v.shared.tail_last)))
      (inl refl)
Step-Sound {s} (pop_tail i h q m e) n v =
    let (at, le, f) = thread_at s v i (got_head_next h q m) e in
    move-Sound s v i (got_both h q m s.tail s.tail_at)
      (at, le, f, v.shared.tail, omega arith, omega (arith, v.shared.first_tail)) (inl refl)
Step-Sound {s} (push_next_deleted i x t p e f) n v = absurd (ground arith)
Step-Sound {s} (push_link_deleted i x t p e f) n v = absurd (ground arith)
Step-Sound {s} (pop_next_deleted i h q e f) n v = absurd (ground arith)
Step-Sound {s} (pop_null i h q t p e same) n v = move-Sound s v i idle tt (inl refl)
Step-Sound {s} (pop_help i h q m t p e same nonnull tail) n v =
    let (at, le, f, at', le', lt) = thread_at s v i (got_both h q m t p) e in
    let (next, inside) = f nonnull in
    let both : q ≡ p =
      v.shared.unique q p (omega arith) (omega (arith, v.shared.tail_last))
        (sym at ∙ sym same ∙ at') in
    tail-Sound s v i m p popping (ground arith) (omega arith) (tail ∙ at') (inl refl) tt
Step-Sound {s} (pop_help_fail i h q m t p e same nonnull) n v =
    move-Sound s v i popping tt (inl refl)
Step-Sound {s} (pop_swap i h q m t p e ne head) n v =
    swap-Sound s v i h q m t p (thread_at s v i (got_both h q m t p) e) ne (ground arith) head
Step-Sound {s} (pop_delete i h e) n v = delete-Sound s v i h
Step-Sound {s} (pop_swap_fail i h q m t p e ne) n v = move-Sound s v i popping tt (inl refl)

pub init-Sound : (dummy : ℕ) (value : ℕ → ℕ) → 0 < dummy → Sound (init dummy value)
init-Sound dummy value pos = record {
  shared = record {
    head = refl;
    tail = refl;
    first_tail = omega arith;
    tail_last = omega arith;
    last_tail = omega arith;
    link = λ k lt. absurd (omega arith);
    end = refl;
    nonzero = λ k le. pos;
    unique = λ j k lj lk e. omega arith;
    results = λ k lt. absurd (omega arith);
  };
  thread = λ i. tt;
  apart = λ i j ne own. absurd (own refl);
}

Reach-Sound :
    (dummy : ℕ) (value : ℕ → ℕ) {s : System} (r : Reach (init dummy value) s)
    → 0 < dummy
    → IsWhole r
    → Sound s
Reach-Sound dummy value here pos whole = init-Sound dummy value pos
Reach-Sound dummy value (later r st) pos (whole, n) =
    Step-Sound st n (Reach-Sound dummy value r pos whole)

-- However threads interleave, if each node is pushed with a null link and only once, no `pop` stores
-- null in the head, and no thread reads or writes a deleted node: links lead from the dummy node to
-- the nodes that were pushed, each once and in the order in which they were linked, and end in null;
-- the head and the tail are in this order, the tail not before the head and the last node but one or
-- the last; and of the results of `pop` the first is the value of the dummy node, and each later one
-- that of the node that was pushed one before.
pub Reach-IsLinked :
    (dummy : ℕ) (value : ℕ → ℕ) {s : System} (r : Reach (init dummy value) s)
    → 0 < dummy
    → IsWhole r
    → IsLinked s
Reach-IsLinked dummy value r pos whole = (Reach-Sound dummy value r pos whole).shared
