-- ===== src/ThreadPool/Tests.antt =====
-- A pool of two workers, of which one is woken for a task.
use codelab.Base.{◌<◌, ◌≡◌, refl, [], ◌∷◌, ◌++◌, arith}
use codelab.ThreadPool.{
  ready, asleep, System, push_task, notify_one, wait, Reach, here, later, new_threads,
}
use codelab.ThreadPool.Tasks.{Reach-ordered}
use codelab.ThreadPool.Wakeups.{count, one_ready, Reach-awake}

abbrev notified : System
notified = record (new_threads 2) { queue = 7 ∷ []; workers = ready ∷ asleep ∷ []; added = 7 ∷ [] }

notified-Reach : Reach (new_threads 2) notified
notified-Reach =
    later (later (later (later here (wait 0 refl refl refl)) (wait 1 refl refl refl)) (push_task 7))
      (notify_one 0 0 refl refl)

Reach-ordered_example : notified.begun ++ notified.queue ≡ notified.added
Reach-ordered_example = Reach-ordered 2 notified-Reach

Reach-awake_example : 0 < count one_ready notified.workers
Reach-awake_example = Reach-awake 2 notified-Reach refl refl (omega arith) (omega arith)
