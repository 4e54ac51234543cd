-- ===== src/Lockfree/Queue/Helpless/Settled.antt =====
-- The thread that is about to move the tail.
use codelab.Base.{ℕ, Bool-cases, inl, inr, suc, ◌<◌, ◌≡◌, refl, ap, Bool, true, false, arith}
use codelab.Lockfree.Stack.{update}
use codelab.Lockfree.Queue.{
  Pc, idle, pushing, got_tail, got_tail_next, linked, popping, got_head, got_head_next, got_both,
  System,
}
use codelab.Lockfree.Queue.{
  push, push_tail, push_next, push_link, push_link_fail, push_help_fail, push_swing,
  push_swing_fail, pop, pop_head, pop_next, pop_tail, pop_swap, pop_delete, taken, pop_swap_fail,
}
use codelab.Lockfree.Queue.Sound.{Sound, move-Sound}
use codelab.Lockfree.Queue.Link.{at_end}
use codelab.Lockfree.Queue.Order.{Step-Sound, thread_at}
use codelab.Lockfree.Queue.Helpless.{
  Step, begin_push, load_tail, load_next, load_next_deleted, link_deleted, load_head_next_deleted,
  link_node, link_fails, next_is_set, swing_tail, swing_fails, begin_pop, load_head, load_head_next,
  load_both, pop_empty, take_head, delete_head, take_fails, goes_wrong,
}

-- The steps are among those of the parent, or end a `pop`.
step-Sound : {s t : System} (st : Step s t) → goes_wrong st ≡ false → Sound s → Sound t
step-Sound (begin_push i x e a b c d) n v = Step-Sound (push i x e a b c d) refl v
step-Sound (load_tail i x e) n v = Step-Sound (push_tail i x e) refl v
step-Sound (load_next i x t p e a) n v = Step-Sound (push_next i x t p e a) refl v
step-Sound (load_next_deleted i x t p e a) n v = absurd (ground arith)
step-Sound (link_deleted i x t p e a) n v = absurd (ground arith)
step-Sound (load_head_next_deleted i h q e a) n v = absurd (ground arith)
step-Sound (link_node i x t p e a f) n v = Step-Sound (push_link i x t p e a f) refl v
step-Sound (link_fails i x t p e a) n v = Step-Sound (push_link_fail i x t p e a) refl v
step-Sound (next_is_set i x t p m e f) n v = Step-Sound (push_help_fail i x t p m e f) refl v
step-Sound (swing_tail i x t p e f) n v = Step-Sound (push_swing i x t p e f) refl v
step-Sound (swing_fails i x t p e f) n v = Step-Sound (push_swing_fail i x t p e) refl v
step-Sound (begin_pop i e) n v = Step-Sound (pop i e) refl v
step-Sound (load_head i e) n v = Step-Sound (pop_head i e) refl v
step-Sound (load_head_next i h q e a) n v = Step-Sound (pop_next i h q e a) refl v
step-Sound (load_both i h q m e) n v = Step-Sound (pop_tail i h q m e) refl v
step-Sound {s} (pop_empty i h q m t p e f) n v = move-Sound s v i idle tt (inl refl)
step-Sound (take_head i h q m t p e f g) n v = Step-Sound (pop_swap i h q m t p e f g) n v
step-Sound (delete_head i h e) n v = Step-Sound (pop_delete i h e) refl v
step-Sound (take_fails i h q m t p e f) n v = Step-Sound (pop_swap_fail i h q m t p e f) refl v

abbrev pub is_linked : Pc → Bool
is_linked (linked x t p) = true
is_linked _ = false

-- A thread that linked its node is the only one, and the tail is where it found it.
pub record Settled (s : System) : Type 0 where
  pub sound : Sound s
  pub behind : (i : ℕ) → is_linked (s.pc i) ≡ true → s.tail_at < s.last
  pub place : (i x t p : ℕ) → s.pc i ≡ linked x t p → p ≡ s.tail_at
  pub one : (i j : ℕ) → is_linked (s.pc i) ≡ true → is_linked (s.pc j) ≡ true → i ≡ j

-- A thread that is not about to move the tail goes on, and the tail and the last node stay.
move-Settled :
    {s t : System} (i : ℕ) (c : Pc)
    → Settled s
    → Sound t
    → is_linked c ≡ false
    → t.tail_at ≡ s.tail_at
    → t.last ≡ s.last
    → t.pc ≡ update s.pc i c
    → Settled t
move-Settled {s} {t} i c v w off same same' pcs = record {
  sound = w;
  behind = λ j e. ground (arith, v.behind j, ap (λ f. f j) pcs);
  place = λ j x u p e. ground (arith, v.place j x u p, ap (λ f. f j) pcs);
  one = λ j k e f. ground (arith, v.one j k, ap (λ f. f j) pcs, ap (λ f. f k) pcs);
}

module _ (s : System) (v : Settled s) where
  -- A link that is set is that of the last node, and the tail is there.
  pub link_at :
      (i x t p : ℕ)
      → s.pc i ≡ got_tail_next x t p 0
      → s.next t ≡ 0
      → (p ≡ s.last) × (s.tail_at ≡ s.last)
  link_at i x t p e null =
      let (new, at, le, f) = thread_at s v.sound i (got_tail_next x t p 0) e in
      let end : p ≡ s.last = at_end s v.sound i x t p new at le null in
      (end, omega (arith, v.sound.shared.tail_last))

  none_linked : s.tail_at ≡ s.last → (j : ℕ) → is_linked (s.pc j) ≡ false
  none_linked same j = elim (Bool-cases (is_linked (s.pc j))) [
    | inl e ↦ absurd (omega (arith, v.behind j e))
    | inr e ↦ e
  ]

  link_node-Settled :
      (i x t p : ℕ) (e : s.pc i ≡ got_tail_next x t p 0) (alive : s.deleted t ≡ false)
      (null : s.next t ≡ 0)
      → Settled (record s {
        next = update s.next t x;
        pc = update s.pc i (linked x t p);
        node = update s.node (suc s.last) x;
        last = suc s.last;
      })
  link_node-Settled i x t p e alive null =
      let (end, same) = link_at i x t p e null in
      record {
        sound = step-Sound (link_node i x t p e alive null) refl v.sound;
        behind = λ j f. omega arith;
        place = λ j y u q f. ground (arith, none_linked same j);
        one = λ j k f g. ground (arith, none_linked same j, none_linked same k);
      }

  swing_tail-Settled :
      (i x t p : ℕ) (e : s.pc i ≡ linked x t p) (f : s.tail ≡ t)
      → Settled (record s { tail = x; tail_at = suc p; pc = update s.pc i idle })
  swing_tail-Settled i x t p e f =
      let others : (j : ℕ) → is_linked (update s.pc i idle j) ≡ false =
        λ j. ground (arith, v.one i j) in
      record {
        sound = step-Sound (swing_tail i x t p e f) refl v.sound;
        behind = λ j g. ground (arith, others j);
        place = λ j y u q g. ground (arith, others j);
        one = λ j k g h. ground (arith, others j);
      }

pub step-Settled : {s t : System} (st : Step s t) → goes_wrong st ≡ false → Settled s → Settled t
step-Settled (begin_push i x e a b c d) n v =
    move-Settled i (pushing x) v (step-Sound (begin_push i x e a b c d) n v.sound) refl refl refl
      refl
step-Settled {s} (load_tail i x e) n v =
    move-Settled i (got_tail x s.tail s.tail_at) v (step-Sound (load_tail i x e) n v.sound) refl
      refl refl refl
step-Settled {s} (load_next i x t p e a) n v =
    move-Settled i (got_tail_next x t p (s.next t)) v (step-Sound (load_next i x t p e a) n v.sound)
      refl refl refl refl
step-Settled {s} (link_node i x t p e a f) n v = link_node-Settled s v i x t p e a f
step-Settled (load_next_deleted i x t p e a) n v = absurd (ground arith)
step-Settled (link_deleted i x t p e a) n v = absurd (ground arith)
step-Settled (load_head_next_deleted i h q e a) n v = absurd (ground arith)
step-Settled (link_fails i x t p e a) n v =
    move-Settled i (pushing x) v (step-Sound (link_fails i x t p e a) n v.sound) refl refl refl refl
step-Settled (next_is_set i x t p m e f) n v =
    move-Settled i (pushing x) v (step-Sound (next_is_set i x t p m e f) n v.sound) refl refl refl
      refl
step-Settled {s} (swing_tail i x t p e f) n v = swing_tail-Settled s v i x t p e f
step-Settled (swing_fails i x t p e f) n v =
    move-Settled i idle v (step-Sound (swing_fails i x t p e f) n v.sound) refl refl refl refl
step-Settled (begin_pop i e) n v =
    move-Settled i popping v (step-Sound (begin_pop i e) n v.sound) refl refl refl refl
step-Settled {s} (load_head i e) n v =
    move-Settled i (got_head s.head s.first) v (step-Sound (load_head i e) n v.sound) refl refl refl
      refl
step-Settled {s} (load_head_next i h q e a) n v =
    move-Settled i (got_head_next h q (s.next h)) v
      (step-Sound (load_head_next i h q e a) n v.sound) refl refl refl refl
step-Settled {s} (load_both i h q m e) n v =
    move-Settled i (got_both h q m s.tail s.tail_at) v (step-Sound (load_both i h q m e) n v.sound)
      refl refl refl refl
step-Settled (pop_empty i h q m t p e f) n v =
    move-Settled i idle v (step-Sound (pop_empty i h q m t p e f) n v.sound) refl refl refl refl
step-Settled (take_head i h q m t p e f g) n v =
    move-Settled i (taken h) v (step-Sound (take_head i h q m t p e f g) n v.sound) refl refl refl
      refl
step-Settled (delete_head i h e) n v =
    move-Settled i idle v (step-Sound (delete_head i h e) n v.sound) refl refl refl refl
step-Settled (take_fails i h q m t p e f) n v =
    move-Settled i popping v (step-Sound (take_fails i h q m t p e f) n v.sound) refl refl refl refl
