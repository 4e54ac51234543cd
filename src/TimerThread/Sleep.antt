-- ===== src/TimerThread/Sleep.antt =====
-- `TimerThread::run`, with the threads that call `schedule` in between: one critical section or
-- shared access a step. What the clock says and which tasks are unscheduled is left open. The heap
-- of `std::push_heap` is a list of which `top` is the element that `tasks[0]` names.
pub mod Deadline
use Prim.Native.Nat.{min}
use codelab.Base.{
  ℕ, zero, suc, ◌<◌, ◌≤◌, ◌≡◌, ◌≢◌, ◌⊎◌, Bool, true, false, List, [], ◌∷◌, ◌++◌, ◌==◌, ltb,
  if◌then◌else◌,
}
use codelab.TimerThread.{max_time, Task, Bucket, new_bucket, consume_tasks, link_task}

-- Where the timer thread stands: at the head of its loop, before the `i`-th bucket, running tasks,
-- before its last critical section, in the wait for a time, or behind the loop.
pub data Pc : Type 0 where
  resetting : Pc
  consuming : (i : ℕ) → Pc
  executing : Pc
  deciding : Pc
  waiting : (next_run_time : ℕ) → Pc
  stopped : Pc

-- `pending` holds the times of the calls of `schedule` that have found their task the earliest of
-- its bucket and have not yet entered the second critical section. `signalled` says whether
-- `wake_up_sleep_thread` was called since the thread last settled what to wait for.
pub record System : Type 0 where
  pub buckets : ℕ → Bucket
  pub nearest_run_time : ℕ
  pub tasks : List Task
  pub pc : Pc
  pub pending : List ℕ
  pub signalled : Bool
  pub stop : Bool

abbrev pub update {ℓ} : {A : Type ℓ} → (ℕ → A) → ℕ → A → ℕ → A
update f p a q = if p == q then a else f q

-- The least run time, or the greatest number there is.
abbrev pub earliest : List Task → ℕ
earliest [] = max_time
earliest (t ∷ ts) = min t.run_time (earliest ts)

-- The tasks that `try_delete` lets through.
abbrev pub keep : (Task → Bool) → List Task → List Task
keep live [] = []
keep live (t ∷ ts) = if live t then t ∷ keep live ts else keep live ts

-- The second critical section of `schedule`.
unfoldable pub notify : ℕ → System → System
notify run_time s =
    if ltb run_time s.nearest_run_time
    then record s { nearest_run_time = run_time; signalled = true }
    else s

pub data Step (num_buckets : ℕ) (s : System) : System → Type 0 where
  schedule_link :
      (j : ℕ) (t : Task)
      → t.run_time ≤ max_time
      → Step num_buckets s (record s {
        buckets = update s.buckets j (link_task t (s.buckets j)).0;
        pending = if (link_task t (s.buckets j)).1 then t.run_time ∷ s.pending else s.pending;
      })
  schedule_notify :
      (xs ys : List ℕ) (run_time : ℕ)
      → s.pending ≡ xs ++ run_time ∷ ys
      → Step num_buckets s (record (notify run_time s) { pending = xs ++ ys })
  reset :
      s.pc ≡ resetting
      → s.stop ≡ false
      → Step num_buckets s (record s { nearest_run_time = max_time; pc = consuming 0 })
  consume :
      (i : ℕ) (live : Task → Bool)
      → s.pc ≡ consuming i
      → i < num_buckets
      → Step num_buckets s (record s {
        buckets = update s.buckets i (consume_tasks (s.buckets i)).1;
        tasks = keep live (consume_tasks (s.buckets i)).0 ++ s.tasks;
        pc = consuming (suc i);
      })
  consumed : s.pc ≡ consuming num_buckets → Step num_buckets s (record s { pc = executing })
  -- The top was unscheduled, or its time has come.
  take_top :
      (xs ys : List Task) (t : Task) (now : ℕ) (deleted : Bool)
      → s.pc ≡ executing
      → s.tasks ≡ xs ++ t ∷ ys
      → t.run_time ≡ earliest s.tasks
      → (deleted ≡ true) ⊎ (t.run_time ≤ now)
      → Step num_buckets s (record s { tasks = xs ++ ys })
  none_due :
      (now : ℕ)
      → s.pc ≡ executing
      → (s.tasks ≡ []) ⊎ (now < earliest s.tasks)
      → Step num_buckets s (record s { pc = deciding })
  look_again :
      s.pc ≡ deciding
      → s.nearest_run_time < earliest s.tasks
      → Step num_buckets s (record s { pc = resetting })
  wait :
      s.pc ≡ deciding
      → earliest s.tasks ≤ s.nearest_run_time
      → Step num_buckets s (record s {
        nearest_run_time = earliest s.tasks;
        pc = waiting (earliest s.tasks);
        signalled = false;
      })
  wake : (t : ℕ) → s.pc ≡ waiting t → Step num_buckets s (record s { pc = resetting })
  stop_and_join :
      Step num_buckets s (record s { stop = true; nearest_run_time = 0; signalled = true })
  leave : s.pc ≡ resetting → s.stop ≡ true → Step num_buckets s (record s { pc = stopped })

pub data Reach (num_buckets : ℕ) (s : System) : System → Type 0 where
  here : Reach num_buckets s s
  later : {t u : System} → Reach num_buckets s t → Step num_buckets t u → Reach num_buckets s u

-- What `start` leaves.
abbrev pub started : System
started = record {
  buckets = λ _. new_bucket;
  nearest_run_time = max_time;
  tasks = [];
  pc = resetting;
  pending = [];
  signalled = false;
  stop = false;
}
