-- ===== src/Lockfree/Queue/Null.antt =====
-- `pop` reads the link of the head before it reads the tail.
use codelab.Base.{ℕ, ◌<◌, ◌≡◌, ◌≢◌, refl, sym, arith, true, false}
use codelab.Lockfree.Stack.{update}
use codelab.Lockfree.Queue.{
  idle, pushing, got_tail, got_tail_next, linked, popping, got_head, got_head_next, got_both,
  System, at_pc, push, push_tail, push_next, push_link, push_swing, pop, pop_head, pop_next,
  pop_tail, pop_swap, pop_delete, taken, Reach, here, later, init,
}

module _ (dummy x : ℕ) (value : ℕ → ℕ) (pos : 0 < x) (ne : dummy ≢ x) where
  -- Thread 0 has read the null link of the dummy node.
  abbrev saw_null : System
  saw_null =
      at_pc (at_pc (at_pc (init dummy value) 0 popping) 0 (got_head dummy 0)) 0
        (got_head_next dummy 0 0)

  saw_null-Reach : Reach (init dummy value) saw_null
  saw_null-Reach =
      later (later (later here (pop 0 refl)) (pop_head 0 refl)) (pop_next 0 dummy 0 refl refl)

  -- Thread 1 has pushed `x` since.
  abbrev before_link : System
  before_link =
      at_pc (at_pc (at_pc saw_null 1 (pushing x)) 1 (got_tail x dummy 0)) 1
        (got_tail_next x dummy 0 0)

  before_link-Reach : Reach (init dummy value) before_link
  before_link-Reach =
      later
        (later (later saw_null-Reach (push 1 x refl pos refl (λ k le. ne) (λ j. ground arith)))
          (push_tail 1 x refl))
        (push_next 1 x dummy 0 refl refl)

  abbrev after_push : System
  after_push = record before_link {
    next = update (λ _. 0) dummy x;
    node = update (λ _. dummy) 1 x;
    last = 1;
    tail = x;
    tail_at = 1;
    pc = update (update before_link.pc 1 (linked x dummy 0)) 1 idle;
  }

  after_push-Reach : Reach (init dummy value) after_push
  after_push-Reach =
      later (later before_link-Reach (push_link 1 x dummy 0 refl refl refl))
        (push_swing 1 x dummy 0 refl refl)

  -- The compare-exchange of thread 0 then succeeds.
  abbrev broken : System
  broken = record after_push {
    head = 0;
    deleted = update (λ _. false) dummy true;
    pc = update (update (update after_push.pc 0 (got_both dummy 0 0 x 1)) 0 (taken dummy)) 0 idle;
    first = 1;
    results = update (λ _. 0) 0 (value dummy);
  }

  broken-Reach : Reach (init dummy value) broken
  broken-Reach =
      later
        (later (later after_push-Reach (pop_tail 0 dummy 0 0 refl))
          (pop_swap 0 dummy 0 0 x 1 refl (λ e. ne (sym e)) refl))
        (pop_delete 0 dummy refl)

  -- From a new queue, with any two nodes, two threads can reach a state in which the head is null
  -- and no thread is in a call, though the other node was pushed last and is the tail.
  pub pop_swap-null :
      (s : System) × Reach (init dummy value) s
      × (s.head ≡ 0)
      × (s.tail ≡ x)
      × (s.node s.last ≡ x)
      × ((i : ℕ) → s.pc i ≡ idle)
  pop_swap-null = (broken, broken-Reach, refl, refl, refl, λ i. ground arith)
