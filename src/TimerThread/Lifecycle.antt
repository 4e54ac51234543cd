-- ===== src/TimerThread/Lifecycle.antt =====
-- One task from its scheduling on: any threads that unschedule it, and the timer thread.
use codelab.Base.{ℕ, zero, ◌+◌, ◌^◌, ◌<◌, ◌≤◌, ◌≡◌, ◌≢◌, true, ◌==◌, if◌then◌else◌, arith, refl}
use codelab.Base.Int.{ℤ, pos, negsuc}
use codelab.TimerThread.{
  add32, version_of_task_id, unschedule, running, removed, begin_run, end_run, try_delete,
}

-- Whether the timer thread still has the task, is calling its function, or has given its slot back.
pub data Phase : Type 0 where
  queued calling returned : Phase

-- The version of the slot; how often the function was called; how often `unschedule` returned 0.
pub record Life : Type 0 where
  pub version : ℕ
  pub phase : Phase
  pub runs : ℕ
  pub removals : ℕ

abbrev pub scheduled : ℕ → Life
scheduled id = record { version = version_of_task_id id; phase = queued; runs = 0; removals = 0 }

abbrev pub removal_of : ℤ → ℕ
removal_of (pos zero) = 1
removal_of _ = 0

pub data Step (id : ℕ) (s : Life) : Life → Type 0 where
  unscheduled : Step id s (record s {
    version = (unschedule id s.version).0;
    removals = s.removals + removal_of (unschedule id s.version).1;
  })
  deleted :
      s.phase ≡ queued → try_delete id s.version ≡ true → Step id s (record s { phase = returned })
  begun :
      s.phase ≡ queued
      → (begin_run id s.version).1 ≡ running
      → Step id s
          (record s { version = (begin_run id s.version).0; phase = calling; runs = s.runs + 1 })
  dropped :
      s.phase ≡ queued
      → (begin_run id s.version).1 ≡ removed
      → Step id s (record s { phase = returned })
  ended : s.phase ≡ calling → Step id s (record s { version = end_run id; phase = returned })

-- Until the slot is reused.
pub data Reach (id : ℕ) (s : Life) : Life → Type 0 where
  here : Reach id s s
  later : {t u : Life} → Reach id s t → Step id t u → Reach id s u

-- What has happened to the task.
pub data Stage : Type 0 where
  waiting called cancelled finished : Stage

-- What the state is at each stage.
abbrev pub IsAt : ℕ → Life → Stage → Type 0
IsAt id s waiting =
    (s.version ≡ version_of_task_id id) × (s.phase ≡ queued) × (s.runs ≡ 0) × (s.removals ≡ 0)
IsAt id s called =
    (s.version ≡ add32 (version_of_task_id id) 1)
    × (s.phase ≡ calling)
    × (s.runs ≡ 1)
    × (s.removals ≡ 0)
IsAt id s cancelled =
    (s.version ≡ add32 (version_of_task_id id) 2)
    × (s.phase ≢ calling)
    × (s.runs ≡ 0)
    × (s.removals ≡ 1)
IsAt id s finished =
    (s.version ≡ add32 (version_of_task_id id) 2)
    × (s.phase ≡ returned)
    × (s.runs ≡ 1)
    × (s.removals ≡ 0)

version_lt : (id : ℕ) → version_of_task_id id < 2 ^ 32
unfolding version_of_task_id
version_lt id = omega arith

-- The versions of the stages differ, though they wrap.
versions_differ : (v : ℕ) → v < 2 ^ 32 → (v ≢ add32 v 1) × (v ≢ add32 v 2) × (add32 v 1 ≢ add32 v 2)
versions_differ v h = (omega arith, omega arith, omega arith)

module _ (id : ℕ) (s : Life) where
  differ :
      (version_of_task_id id ≢ add32 (version_of_task_id id) 1)
      × (version_of_task_id id ≢ add32 (version_of_task_id id) 2)
      × (add32 (version_of_task_id id) 1 ≢ add32 (version_of_task_id id) 2)
  differ = versions_differ (version_of_task_id id) (version_lt id)

  after_unschedule :
      (g : Stage)
      → IsAt id s g
      → (h : Stage) × IsAt id
          (record s {
            version = (unschedule id s.version).0;
            removals = s.removals + removal_of (unschedule id s.version).1;
          })
          h
  unfolding unschedule
  after_unschedule waiting a = (cancelled, ground arith)
  after_unschedule called a = (called, ground (arith, differ))
  after_unschedule cancelled a = (cancelled, ground (arith, differ))
  after_unschedule finished a = (finished, ground (arith, differ))

  after_return :
      (g : Stage)
      → IsAt id s g
      → s.phase ≡ queued
      → s.version ≢ version_of_task_id id
      → (h : Stage) × IsAt id (record s { phase = returned }) h
  after_return waiting a p e = absurd (e a.0)
  after_return called a p e = ground arith
  after_return cancelled a p e = (cancelled, ground arith)
  after_return finished a p e = ground arith

  after_begin :
      (g : Stage)
      → IsAt id s g
      → s.phase ≡ queued
      → (begin_run id s.version).1 ≡ running
      → (h : Stage) × IsAt id
          (record s { version = (begin_run id s.version).0; phase = calling; runs = s.runs + 1 })
          h
  unfolding begin_run
  after_begin waiting a p e = (called, ground arith)
  after_begin called a p e = ground arith
  after_begin cancelled a p e = absurd (ground (arith, differ))
  after_begin finished a p e = ground arith

  after_end :
      (g : Stage)
      → IsAt id s g
      → s.phase ≡ calling
      → (h : Stage) × IsAt id (record s { version = end_run id; phase = returned }) h
  unfolding end_run
  after_end waiting a p = ground arith
  after_end called a p = (finished, ground arith)
  after_end cancelled a p = absurd (a.1 p)
  after_end finished a p = ground arith

Step-IsAt :
    (id : ℕ) {s t : Life} (g : Stage) → Step id s t → IsAt id s g → (h : Stage) × IsAt id t h
unfolding try_delete begin_run
Step-IsAt id {s} g unscheduled a = after_unschedule id s g a
Step-IsAt id {s} g (deleted p e) a = after_return id s g a p (λ q. ground arith)
Step-IsAt id {s} g (begun p e) a = after_begin id s g a p e
Step-IsAt id {s} g (dropped p e) a = after_return id s g a p (λ q. ground arith)
Step-IsAt id {s} g (ended p) a = after_end id s g a p

Reach-IsAt : (id : ℕ) {t : Life} → Reach id (scheduled id) t → (h : Stage) × IsAt id t h
Reach-IsAt id here = (waiting, (refl, refl, refl, refl))
Reach-IsAt id (later r st) = let (g, a) = Reach-IsAt id r in Step-IsAt id g st a

-- However threads interleave, a scheduled task is called once or removed by an `unschedule` that
-- returns 0, never both and never twice; and once the timer thread has given its slot back, exactly
-- one of the two has happened.
pub Reach-once :
    (id : ℕ) {t : Life}
    → Reach id (scheduled id) t
    → (t.runs + t.removals ≤ 1) × (t.phase ≡ returned → t.runs + t.removals ≡ 1)
Reach-once id r = once (Reach-IsAt id r)
  where
    once :
        {t : Life}
        → (h : Stage) × IsAt id t h
        → (t.runs + t.removals ≤ 1) × (t.phase ≡ returned → t.runs + t.removals ≡ 1)
    once (waiting, a) = ground arith
    once (called, a) = ground arith
    once (cancelled, a) = ground arith
    once (finished, a) = ground arith

-- And `unschedule` tells: 0 where neither had happened, 1 while the function runs, and -1
-- where the task was called or removed before.
pub unschedule-result :
    (id : ℕ) {t : Life}
    → Reach id (scheduled id) t
    → (unschedule id t.version).1 ≡ (
        if t.runs + t.removals == 0 then pos 0 else elim t.phase [ calling ↦ pos 1 | _ ↦ negsuc 0 ])
unfolding unschedule
unschedule-result id {t} r = told (Reach-IsAt id r)
  where
    told :
        (h : Stage) × IsAt id t h
        → (unschedule id t.version).1 ≡ (
            if t.runs + t.removals == 0
            then pos 0
            else elim t.phase [ calling ↦ pos 1 | _ ↦ negsuc 0 ])
    told (waiting, a) = ground arith
    told (called, a) = ground (arith, differ id t)
    told (cancelled, a) = ground (arith, differ id t)
    told (finished, a) = ground (arith, differ id t)
