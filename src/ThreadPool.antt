-- ===== src/ThreadPool.antt =====
-- idea/thread_pool.cpp: the workers and any callers of AddTask, in critical sections. A task is
-- named by a number.
pub mod Tasks
pub mod Wakeups
mod Tests
use codelab.Base.{
  ℕ, suc, ◌+◌, ◌≡◌, ◌≢◌, Bool, true, false, List, [], ◌∷◌, ◌++◌, some, get_elem?, set, map,
  replicate,
}

-- A worker about to test the condition with the mutex, in the wait, calling a task, and at the
-- end of its thread.
pub data Worker : Type 0 where
  ready asleep : Worker
  calling : (task : ℕ) → Worker
  ended : Worker

-- `notices` counts the calls of AddTask between the push and notify_one. `added` and `begun` are
-- the tasks pushed and taken so far, in order.
pub record System : Type 0 where
  pub stop : Bool
  pub queue : List ℕ
  pub workers : List Worker
  pub notices : ℕ
  pub added : List ℕ
  pub begun : List ℕ

abbrev pub awake : Worker → Worker
awake asleep = ready
awake w = w

pub data Step (s : System) : System → Type 0 where
  push_task :
      (t : ℕ)
      → Step s (record s {
        queue = s.queue ++ t ∷ [];
        notices = suc s.notices;
        added = s.added ++ t ∷ [];
      })
  -- `notify_one` wakes some worker that waits, and does nothing if none does.
  notify_one :
      (n i : ℕ)
      → s.notices ≡ suc n
      → get_elem? s.workers i ≡ some asleep
      → Step s (record s { notices = n; workers = set s.workers i ready })
  notify_none :
      (n : ℕ)
      → s.notices ≡ suc n
      → ((i : ℕ) → get_elem? s.workers i ≢ some asleep)
      → Step s (record s { notices = n })
  wait :
      (i : ℕ)
      → get_elem? s.workers i ≡ some ready
      → s.stop ≡ false
      → s.queue ≡ []
      → Step s (record s { workers = set s.workers i asleep })
  -- A wait may end with no notice.
  wake :
      (i : ℕ)
      → get_elem? s.workers i ≡ some asleep
      → Step s (record s { workers = set s.workers i ready })
  take_task :
      (i t : ℕ) (rest : List ℕ)
      → get_elem? s.workers i ≡ some ready
      → s.stop ≡ false
      → s.queue ≡ t ∷ rest
      → Step s (record s {
        queue = rest;
        workers = set s.workers i (calling t);
        begun = s.begun ++ t ∷ [];
      })
  task_done :
      (i t : ℕ)
      → get_elem? s.workers i ≡ some (calling t)
      → Step s (record s { workers = set s.workers i ready })
  -- The destructor.
  set_stop : Step s (record s { stop = true })
  notify_all : s.stop ≡ true → Step s (record s { workers = map awake s.workers })
  leave :
      (i : ℕ)
      → get_elem? s.workers i ≡ some ready
      → s.stop ≡ true
      → Step s (record s { workers = set s.workers i ended })

pub data Reach (s : System) : System → Type 0 where
  here : Reach s s
  later : {t u : System} → Reach s t → Step t u → Reach s u

abbrev pub new_threads : ℕ → System
new_threads pool_size = record {
  stop = false;
  queue = [];
  workers = replicate pool_size ready;
  notices = 0;
  added = [];
  begun = [];
}
