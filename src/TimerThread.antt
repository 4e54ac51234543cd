-- ===== src/TimerThread.antt =====
-- idea/timer_thread.cpp: tasks with a version each, buckets of scheduled tasks, and the thread that
-- runs them. Times are microseconds as numbers below 2^63. The links between the tasks of a bucket
-- are a list. `butil::get_resource` and `pthread_self` are not in the repository: the slot that
-- the one returns and the number that the other returns are arguments.
pub mod Ids
pub mod Lifecycle
pub mod Sleep
mod Tests
use Prim.Native.Nat.{bit_and, bit_or}
use codelab.Base.{
  ℕ, suc, ◌+◌, ◌-◌, ◌*◌, ◌/◌, ◌%◌, ◌^◌, Bool, true, false, List, [], ◌∷◌, ◌==◌, ltb, if◌then◌else◌,
}
use codelab.Base.Int.{ℤ, pos, negsuc}

abbrev pub max_time : ℕ
max_time = 2 ^ 63 - 1

-- `uint32_t` addition, and `uint64_t << 32`.
abbrev pub add32 : ℕ → ℕ → ℕ
add32 a b = (a + b) % 2 ^ 32

abbrev pub shl32 : ℕ → ℕ
shl32 a = a * 2 ^ 32 % 2 ^ 64

pub make_task_id : ℕ → ℕ → ℕ
make_task_id slot version = bit_or (shl32 version) slot

pub slot_of_task_id : ℕ → ℕ
slot_of_task_id id = bit_and id 0xffffffff

pub version_of_task_id : ℕ → ℕ
version_of_task_id id = id / 2 ^ 32 % 2 ^ 32

pub record Task : Type 0 where
  pub run_time : ℕ
  pub fn : ℕ
  pub arg : ℕ
  pub task_id : ℕ

pub task_greater : Task → Task → Bool
task_greater a b = ltb b.run_time a.run_time

pub record Bucket : Type 0 where
  pub nearest_run_time : ℕ
  pub tasks : List Task  -- from `_task_head` on

pub new_bucket : Bucket
new_bucket = record { nearest_run_time = max_time; tasks = [] }

-- `Bucket::consume_tasks`: the chain of tasks, and the bucket.
pub consume_tasks : Bucket → List Task × Bucket
consume_tasks b = elim b.tasks [
  | [] ↦ ([], b)
  | t ∷ ts ↦ (t ∷ ts, record { nearest_run_time = max_time; tasks = [] })
]

-- `version` is that of the slot as it was; the results are the new version, the task and the
-- bucket with `earlier`.
pub next_version : ℕ → ℕ
next_version version = add32 version 2

pub new_task : (slot version fn arg abstime : ℕ) → Task
new_task slot version fn arg abstime = record {
  run_time = abstime;
  fn = fn;
  arg = arg;
  task_id = make_task_id slot (next_version version);
}

pub link_task : Task → Bucket → Bucket × Bool
link_task t b =
    if ltb t.run_time b.nearest_run_time
    then (record { nearest_run_time = t.run_time; tasks = t ∷ b.tasks }, true)
    else (record b { tasks = t ∷ b.tasks }, false)

-- The operations on the version of a slot, for a task id. Each is one compare-exchange or load.

-- `unschedule`: the version left, and the result.
pub unschedule : ℕ → ℕ → ℕ × ℤ
unschedule id version =
    let id_version = version_of_task_id id in
    if version == id_version
    then (add32 id_version 2, pos 0)
    else (version, if version == add32 id_version 1 then pos 1 else negsuc 0)

pub data Outcome : Type 0 where
  running removed impossible : Outcome

-- `run_and_delete` up to the call of `fn`.
pub begin_run : ℕ → ℕ → ℕ × Outcome
begin_run id version =
    let id_version = version_of_task_id id in
    if version == id_version
    then (add32 id_version 1, running)
    else (version, if version == add32 id_version 2 then removed else impossible)

-- What it stores behind the call.
pub end_run : ℕ → ℕ
end_run id = add32 (version_of_task_id id) 2

-- `try_delete`: whether the slot is given back.
pub try_delete : ℕ → ℕ → Bool
try_delete id version = if version == version_of_task_id id then false else true
