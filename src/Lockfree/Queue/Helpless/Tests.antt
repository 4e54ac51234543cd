-- ===== src/Lockfree/Queue/Helpless/Tests.antt =====
-- Thread 1 stops before it moves the tail, and thread 0 tries to push.
use codelab.Base.{ℕ, ◌+◌, ◌≢◌, ◌≤◌, refl, arith}
use codelab.Lockfree.Stack.{update}
use codelab.Lockfree.Queue.{
  owned, idle, pushing, got_tail, got_tail_next, linked, System, init, at_pc,
}
use codelab.Lockfree.Queue.Helpless.{
  begin_push, load_tail, load_next, link_node, next_is_set, Reach, here, later,
}
use codelab.Lockfree.Queue.Helpless.Blocked.{SameTail, Reach-blocked}

abbrev values : ℕ → ℕ
values x = x

not_nine : (k : ℕ) → k ≤ 0 → (init 8 values).node k ≢ 9
not_nine k le e = ground arith

none_owns_nine : (j : ℕ) → owned ((init 8 values).pc j) ≢ 9
none_owns_nine j e = ground arith

abbrev linking : System
linking = record (init 8 values) {
  next = update (λ _. 0) 8 9;
  node = update (λ _. 8) 1 9;
  last = 1;
  pc =
      update
        (update (update (update (λ _. idle) 1 (pushing 9)) 1 (got_tail 9 8 0)) 1
          (got_tail_next 9 8 0 0))
        1 (linked 9 8 0);
}

abbrev linking-Reach : Reach (init 8 values) linking
linking-Reach =
    later
      (later
        (later (later here (begin_push 1 9 refl (omega arith) refl not_nine none_owns_nine))
          (load_tail 1 9 refl))
        (load_next 1 9 8 0 refl refl))
      (link_node 1 9 8 0 refl refl refl)

not_seven : (k : ℕ) → k ≤ 1 → linking.node k ≢ 7
not_seven k le e = ground arith

none_owns_seven : (j : ℕ) → owned (linking.pc j) ≢ 7
none_owns_seven j e = ground arith

nine_set : (9 + 0) ≢ 0
nine_set e = ground arith

abbrev trying : System
trying =
    at_pc (at_pc (at_pc (at_pc linking 0 (pushing 7)) 0 (got_tail 7 8 0)) 0 (got_tail_next 7 8 0 9))
      0 (pushing 7)

abbrev trying-Reach : Reach linking trying
trying-Reach =
    later
      (later
        (later (later here (begin_push 0 7 refl (omega arith) refl not_seven none_owns_seven))
          (load_tail 0 7 refl))
        (load_next 0 7 8 0 refl refl))
      (next_is_set 0 7 8 0 9 refl nine_set)

Reach-blocked_example : SameTail 1 9 8 0 linking trying
Reach-blocked_example =
    Reach-blocked 1 9 8 0 8 values linking-Reach trying-Reach (omega arith)
      ((((tt, refl), refl), refl), refl) refl ((((tt, refl), refl), refl), refl)
      ((((tt, (λ e. ground arith)), (λ e. ground arith)), (λ e. ground arith)), (λ e. ground arith))
