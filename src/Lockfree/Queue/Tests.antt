-- ===== src/Lockfree/Queue/Tests.antt =====
-- One push and one pop on a queue whose dummy node is at 8, and the theorems there.
use codelab.Base.{ℕ, ◌+◌, ◌≡◌, ◌≢◌, refl, sym, arith, ◌==◌, if◌then◌else◌, true}
use codelab.Lockfree.Stack.{update}
use codelab.Lockfree.Queue.{
  idle, pushing, got_tail, got_tail_next, linked, popping, got_head, got_head_next, got_both,
  System, push, push_tail, push_next, push_link, push_swing, pop, pop_head, pop_next, pop_tail,
  pop_swap, pop_delete, taken, Step, astray, Reach, here, later, init,
}
use codelab.Lockfree.Queue.Sound.{IsLinked}
use codelab.Lockfree.Queue.Order.{Reach-IsLinked}
use codelab.Lockfree.Queue.Deleted.{pop_next-deleted}
use codelab.Lockfree.Queue.Null.{pop_swap-null}

abbrev values : ℕ → ℕ
values x = if x == 9 then 70 else 5

differ : (8 + 0) ≢ 9
differ e = ground arith

none_owned : (0 + 0) ≢ 9
none_owned e = ground arith

-- Thread 1 pushes the node at 9.
abbrev pushed : System
pushed = record (init 8 values) {
  next = update (λ _. 0) 8 9;
  node = update (λ _. 8) 1 9;
  last = 1;
  tail = 9;
  tail_at = 1;
  pc =
      update
        (update
          (update (update (update (λ _. idle) 1 (pushing 9)) 1 (got_tail 9 8 0)) 1
            (got_tail_next 9 8 0 0))
          1 (linked 9 8 0))
        1 idle;
}

abbrev pushed-Reach : Reach (init 8 values) pushed
pushed-Reach =
    later
      (later
        (later
          (later (later here (push 1 9 refl (omega arith) refl (λ k le. differ) (λ j. none_owned)))
            (push_tail 1 9 refl))
          (push_next 1 9 8 0 refl refl))
        (push_link 1 9 8 0 refl refl refl))
      (push_swing 1 9 8 0 refl refl)

-- Thread 0 pops, and gets what the dummy node holds.
abbrev popped : System
popped = record pushed {
  head = 9;
  first = 1;
  results = update (λ _. 0) 0 5;
  pc =
      update
        (update
          (update (update (update pushed.pc 0 popping) 0 (got_head 8 0)) 0 (got_head_next 8 0 9)) 0
          (got_both 8 0 9 9 1))
        0 (taken 8);
}

abbrev popped-Reach : Reach (init 8 values) popped
popped-Reach =
    later
      (later
        (later (later (later pushed-Reach (pop 0 refl)) (pop_head 0 refl))
          (pop_next 0 8 0 refl refl))
        (pop_tail 0 8 0 9 refl))
      (pop_swap 0 8 0 9 9 1 refl (λ e. differ (sym e)) refl)

-- It deletes the dummy node.
abbrev after_delete : System
after_delete = record popped {
  deleted = update popped.deleted 8 true;
  pc = update popped.pc 0 idle;
}

Reach-IsLinked_example : IsLinked after_delete
Reach-IsLinked_example =
    Reach-IsLinked 8 values (later popped-Reach (pop_delete 0 8 refl)) (omega arith)
      (((((((((((tt, refl), refl), refl), refl), refl), refl), refl), refl), refl), refl), refl)

pop_swap-null_example :
    (s : System) × Reach (init 8 values) s
    × (s.head ≡ 0)
    × (s.tail ≡ 9)
    × (s.node s.last ≡ 9)
    × ((i : ℕ) → s.pc i ≡ idle)
pop_swap-null_example = pop_swap-null 8 9 values (omega arith) (λ e. ground arith)

pop_next-deleted_example :
    (s : System) × (t : System) × Reach (init 8 values) s
    × Step s t
    × (s.pc 0 ≡ got_head 8 0)
    × (s.deleted 8 ≡ true)
    × (t.pc 0 ≡ astray)
pop_next-deleted_example = pop_next-deleted 8 9 values (omega arith) (λ e. ground arith)
