-- ===== src/Lockfree/Queue/Deleted.antt =====
-- `pop` reads the link of a head that another `pop` has deleted.
use codelab.Base.{ℕ, ◌<◌, ◌≡◌, ◌≢◌, refl, sym, true, false, arith}
use codelab.Lockfree.Stack.{update}
use codelab.Lockfree.Queue.{
  idle, pushing, got_tail, got_tail_next, linked, popping, got_head, got_head_next, got_both,
  astray, System, at_pc, Step, push, push_tail, push_next, push_link, push_swing, pop, pop_head,
  pop_next, pop_next_deleted, pop_tail, pop_swap, pop_delete, taken, Reach, here, later, init,
}

module _ (dummy x : ℕ) (value : ℕ → ℕ) (pos : 0 < x) (ne : dummy ≢ x) where
  -- Thread 0 has loaded the head, and thread 1 has pushed `x` since.
  abbrev loaded : System
  loaded = at_pc (at_pc (init dummy value) 0 popping) 0 (got_head dummy 0)

  abbrev before_link : System
  before_link =
      at_pc (at_pc (at_pc loaded 1 (pushing x)) 1 (got_tail x dummy 0)) 1
        (got_tail_next x dummy 0 0)

  before_link-Reach : Reach (init dummy value) before_link
  before_link-Reach =
      later
        (later
          (later (later (later here (pop 0 refl)) (pop_head 0 refl))
            (push 1 x refl pos refl (λ k le. ne) (λ j. ground arith)))
          (push_tail 1 x refl))
        (push_next 1 x dummy 0 refl refl)

  abbrev pushed : System
  pushed = record before_link {
    next = update (λ _. 0) dummy x;
    node = update (λ _. dummy) 1 x;
    last = 1;
    tail = x;
    tail_at = 1;
    pc = update (update before_link.pc 1 (linked x dummy 0)) 1 idle;
  }

  pushed-Reach : Reach (init dummy value) pushed
  pushed-Reach =
      later (later before_link-Reach (push_link 1 x dummy 0 refl refl refl))
        (push_swing 1 x dummy 0 refl refl)

  -- Thread 1 is about to take the dummy node off.
  abbrev before_swap : System
  before_swap =
      at_pc
        (at_pc (at_pc (at_pc pushed 1 popping) 1 (got_head dummy 0)) 1
          (got_head_next dummy 0 (pushed.next dummy)))
        1 (got_both dummy 0 (pushed.next dummy) x 1)

  before_swap-Reach : Reach (init dummy value) before_swap
  before_swap-Reach =
      later
        (later (later (later pushed-Reach (pop 1 refl)) (pop_head 1 refl))
          (pop_next 1 dummy 0 refl refl))
        (pop_tail 1 dummy 0 (pushed.next dummy) refl)

  abbrev popped : System
  popped = record before_swap {
    head = pushed.next dummy;
    deleted = update (λ _. false) dummy true;
    pc = update (update before_swap.pc 1 (taken dummy)) 1 idle;
    first = 1;
    results = update (λ _. 0) 0 (value dummy);
  }

  popped-Reach : Reach (init dummy value) popped
  popped-Reach =
      later
        (later before_swap-Reach
          (pop_swap 1 dummy 0 (pushed.next dummy) x 1 refl (λ e. ne (sym e)) refl))
        (pop_delete 1 dummy refl)

  dummy_deleted : popped.deleted dummy ≡ true
  dummy_deleted = ground arith

  abbrev gone : System
  gone = at_pc popped 0 astray

  -- From a new queue, with any two nodes, two threads can pop so that one of them reads a deleted
  -- node: it has loaded the head, and before it loads its link the other thread pushes a node and
  -- pops, which deletes the head.
  pub pop_next-deleted :
      (s : System) × (t : System) × Reach (init dummy value) s
      × Step s t
      × (s.pc 0 ≡ got_head dummy 0)
      × (s.deleted dummy ≡ true)
      × (t.pc 0 ≡ astray)
  pop_next-deleted = (
    popped,
    gone,
    popped-Reach,
    pop_next_deleted 0 dummy 0 refl dummy_deleted,
    refl,
    dummy_deleted,
    refl,
  )
