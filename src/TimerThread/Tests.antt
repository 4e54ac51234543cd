-- ===== src/TimerThread/Tests.antt =====
-- One task and one bucket, and the theorems at concrete inputs.
use codelab.Base.{ℕ, ◌+◌, ◌*◌, ◌^◌, ◌<◌, ◌≤◌, ◌≡◌, refl, true, false, [], arith, inr}
use codelab.TimerThread.{
  Task, version_of_task_id, unschedule, begin_run, link_task, consume_tasks, new_bucket,
}
use codelab.TimerThread.Lifecycle
use codelab.TimerThread.Lifecycle.{
  Life, scheduled, unscheduled, begun, ended, Reach-once, unschedule-result, calling, returned,
  queued,
}
use codelab.TimerThread.Sleep.{
  System, Reach, here, later, started, schedule_link, schedule_notify, reset, consume, consumed,
  none_due, wait, waiting, earliest, notify,
}
use codelab.TimerThread.Sleep.Deadline.{waiting-earliest}

-- Version 4 of slot 9.
abbrev id : ℕ
id = 4 * 2 ^ 32 + 9

-- The timer thread calls the function while another thread tries to unschedule the task.
raced : (t : Life) × Lifecycle.Reach id (scheduled id) t × (t.phase ≡ returned)
unfolding begin_run unschedule version_of_task_id
raced = (
  _,
  Lifecycle.later (Lifecycle.later (Lifecycle.later Lifecycle.here (begun refl refl)) unscheduled)
      (ended refl),
  refl,
)

Reach-once_example :
    (raced.0.runs + raced.0.removals ≤ 1)
    × (raced.0.phase ≡ returned → raced.0.runs + raced.0.removals ≡ 1)
Reach-once_example = Reach-once id raced.1

abbrev at_50 : Task
at_50 = record { run_time = 50; fn = 1; arg = 2; task_id = id }

-- A task is scheduled behind the reset; the thread takes it from the bucket before the other
-- thread has looked at the nearest time, and waits for it.
asleep :
    (s : System) × Reach 1 started s
    × (s.pc ≡ waiting 50)
    × (s.signalled ≡ false)
    × (s.pending ≡ [])
unfolding link_task consume_tasks new_bucket notify
asleep = (
  _,
  later
      (later
        (later
          (later
            (later (later (later here (reset refl refl)) (schedule_link 0 at_50 (omega arith)))
              (consume 0 (λ _. true) refl (omega arith)))
            (consumed refl))
          (schedule_notify [] [] 50 refl))
        (none_due 10 refl (inr (omega arith))))
      (wait refl (omega arith)),
  refl,
  refl,
  refl,
)

waiting-earliest_example :
    (50 ≤ earliest asleep.0.tasks) × ((j : ℕ) → j < 1 → 50 ≤ earliest (asleep.0.buckets j).tasks)
waiting-earliest_example = waiting-earliest 50 asleep.1 asleep.2 asleep.3 asleep.4
