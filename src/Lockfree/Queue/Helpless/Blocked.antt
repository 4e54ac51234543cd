-- ===== src/Lockfree/Queue/Helpless/Blocked.antt =====
-- What other threads can do while one has linked its node and not yet moved the tail.
use codelab.Base.{ℕ, ◌<◌, ◌≡◌, ◌≢◌, refl, ◌∙◌, arith}
use codelab.Lockfree.Queue.{linked, System, init}
use codelab.Lockfree.Queue.Order.{init-Sound}
use codelab.Lockfree.Queue.Helpless.{
  Step, begin_push, load_tail, load_next, load_next_deleted, link_deleted, load_head_next_deleted,
  link_node, link_fails, next_is_set, swing_tail, swing_fails, begin_pop, load_head, load_head_next,
  load_both, pop_empty, take_head, delete_head, take_fails, Reach, here, later, thread_of, IsWhole,
  IsWithout,
}
use codelab.Lockfree.Queue.Helpless.Settled.{Settled, link_at, step-Settled}

init-Settled : (dummy : ℕ) (value : ℕ → ℕ) → 0 < dummy → Settled (init dummy value)
init-Settled dummy value pos = record {
  sound = init-Sound dummy value pos;
  behind = λ i e. absurd (ground arith);
  place = λ i x t p e. absurd (ground arith);
  one = λ i j e f. absurd (ground arith);
}

Reach-Settled : {s t : System} (r : Reach s t) → IsWhole r → Settled s → Settled t
Reach-Settled here w v = v
Reach-Settled (later r st) (w, n) v = step-Settled st n (Reach-Settled r w v)

module _ (i x u p : ℕ) where
  -- As many nodes are linked, the tail is the same, and the thread stands where it did.
  abbrev pub SameTail : System → System → Type 0
  SameTail s t = (t.last ≡ s.last) × (t.tail ≡ s.tail) × (t.pc i ≡ linked x u p)

  step-SameTail :
      {s t : System} (st : Step s t)
      → Settled s
      → s.pc i ≡ linked x u p
      → thread_of st ≢ i
      → SameTail s t
  step-SameTail (begin_push j y e a b c d) v at ne = (refl, refl, ground arith)
  step-SameTail (load_tail j y e) v at ne = (refl, refl, ground arith)
  step-SameTail (load_next j y t q e a) v at ne = (refl, refl, ground arith)
  step-SameTail (load_next_deleted j y t q e a) v at ne = (refl, refl, ground arith)
  step-SameTail (link_deleted j y t q e a) v at ne = (refl, refl, ground arith)
  step-SameTail (load_head_next_deleted j h q e a) v at ne = (refl, refl, ground arith)
  step-SameTail {s} (link_node j y t q e a f) v at ne =
      absurd (omega (arith, (link_at s v j y t q e f).1, v.behind i (ground (arith, at))))
  step-SameTail (link_fails j y t q e a) v at ne = (refl, refl, ground arith)
  step-SameTail (next_is_set j y t q m e f) v at ne = (refl, refl, ground arith)
  step-SameTail (swing_tail j y t q e f) v at ne =
      absurd (ne (v.one j i (ground arith) (ground arith)))
  step-SameTail (swing_fails j y t q e f) v at ne = (refl, refl, ground arith)
  step-SameTail (begin_pop j e) v at ne = (refl, refl, ground arith)
  step-SameTail (load_head j e) v at ne = (refl, refl, ground arith)
  step-SameTail (load_head_next j h q e a) v at ne = (refl, refl, ground arith)
  step-SameTail (load_both j h q m e) v at ne = (refl, refl, ground arith)
  step-SameTail (pop_empty j h q m t r e f) v at ne = (refl, refl, ground arith)
  step-SameTail (take_head j h q m t r e f g) v at ne = (refl, refl, ground arith)
  step-SameTail (delete_head j h e) v at ne = (refl, refl, ground arith)
  step-SameTail (take_fails j h q m t r e f) v at ne = (refl, refl, ground arith)

  Reach-SameTail :
      {s t : System} (r : Reach s t)
      → IsWhole r
      → IsWithout i r
      → Settled s
      → s.pc i ≡ linked x u p
      → SameTail s t
  Reach-SameTail here w o v at = (refl, refl, at)
  Reach-SameTail (later r st) (w, n) (o, ne) v at =
      let (last, tail, at') = Reach-SameTail r w o v at in
      let (last', tail', at'') = step-SameTail st (Reach-Settled r w v) at' ne in
      (last' ∙ last, tail' ∙ tail, at'')

  -- From a new queue, if each node is pushed with a null link and only once, no `pop` stores null in
  -- the head, and no thread reads or writes a deleted node: once a thread has linked its node and not
  -- yet moved the tail, then for as long as it takes no step, no other thread links a node or moves
  -- the tail, however they interleave, so that none of their calls of `push` ends.
  pub Reach-blocked :
      (dummy : ℕ) (value : ℕ → ℕ) {s t : System} (before : Reach (init dummy value) s)
      (after : Reach s t)
      → 0 < dummy
      → IsWhole before
      → s.pc i ≡ linked x u p
      → IsWhole after
      → IsWithout i after
      → SameTail s t
  Reach-blocked dummy value before after pos w at w' o =
      Reach-SameTail after w' o (Reach-Settled before w (init-Settled dummy value pos)) at
