-- ===== src/TimerThread/Ids.antt =====
-- Task ids.
use Prim.Native.Nat.{bit_or}
use codelab.Base.{ℕ, ◌+◌, ◌*◌, ◌%◌, ◌^◌, ◌<◌, ◌≡◌, ◌≢◌, ◌∙◌, ap, arith}
use codelab.Base.Bits.{bit_and_ones, bit_or_shifted}
use codelab.TimerThread.{
  make_task_id, slot_of_task_id, version_of_task_id, shl32, add32, next_version, new_task,
}

-- For a slot and a version of 32 bits.
make_task_id_lem :
    (slot version : ℕ)
    → slot < 2 ^ 32
    → version < 2 ^ 32
    → make_task_id slot version ≡ version * 2 ^ 32 + slot
unfolding make_task_id
make_task_id_lem slot version hs hv =
    ap (λ t. bit_or t slot) (let e : shl32 version ≡ version * 2 ^ 32 = omega arith in e)
    ∙ bit_or_shifted 32 version slot hs

-- The slot and the version come back from the id that `schedule` makes of them.
task_id_fields :
    (slot version : ℕ)
    → slot < 2 ^ 32
    → version < 2 ^ 32
    → (slot_of_task_id (make_task_id slot version) ≡ slot)
      × (version_of_task_id (make_task_id slot version) ≡ version)
unfolding slot_of_task_id version_of_task_id
task_id_fields slot version hs hv = (
  bit_and_ones 32 (make_task_id slot version) ∙ omega (arith, make_task_id_lem slot version hs hv),
  omega (arith, make_task_id_lem slot version hs hv),
)

-- The id of a task that `schedule` makes names its slot and the version that the slot has then.
pub new_task-fields :
    (slot version fn arg abstime : ℕ)
    → slot < 2 ^ 32
    → let t = new_task slot version fn arg abstime in
      (slot_of_task_id t.task_id ≡ slot)
      × (version_of_task_id t.task_id ≡ next_version version)
      × (version_of_task_id t.task_id ≢ version % 2 ^ 32)
unfolding new_task next_version
new_task-fields slot version fn arg abstime h =
    let (s, v) = task_id_fields slot (add32 version 2) h (omega arith) in (s, v, omega (arith, v))
