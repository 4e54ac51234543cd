-- ===== src/CircularQueue.antt =====
-- idea/circular_queue.h: a ring for one producer and one consumer. An `int` is its 32-bit pattern.
-- These are the calls run whole; `Threads` has them in steps. The log lines of `Init` are left out.
pub mod Rotation
pub mod Refine
pub mod Threads
pub mod Init
mod Tests
use Prim.Native.Nat.{bit_and}
use codelab.Base.{
  ℕ, ◌+◌, ◌-◌, ◌%◌, ◌^◌, Bool, true, false, List, Option, none, some, ◌==◌, if◌then◌else◌,
  get_elem?, set,
}

pub record CircularQueue {ℓ} (A : Type ℓ) : Type ℓ where
  pub queue : List A
  pub capacity : ℕ
  pub capacity_mask : ℕ
  pub head : ℕ
  pub tail : ℕ

abbrev pub add_int : ℕ → ℕ → ℕ
add_int a b = (a + b) % 2 ^ 32

abbrev pub minus_one : ℕ → ℕ
minus_one a = add_int a (2 ^ 32 - 1)

module _ {ℓ} {A : Type ℓ} where
  -- `buffer` is what `new (std::nothrow) T[capacity]` returns.
  pub init_queue : (buffer : Option (List A)) → ℕ → CircularQueue A → Bool × CircularQueue A
  init_queue buffer capacity q =
      if bit_and capacity (minus_one capacity) == 0
      then (elim buffer [
        | none ↦ (false, q)
        | some b ↦
            (true, record q { queue = b; capacity = capacity; capacity_mask = minus_one capacity })
      ])
      else (false, q)

  -- The index behind the one that `Push` writes.
  pub next_tail : CircularQueue A → ℕ → ℕ
  next_tail q curr_tail = bit_and q.capacity_mask (add_int curr_tail 1)

  pub next_head : CircularQueue A → ℕ → ℕ
  next_head q curr_head = bit_and (add_int curr_head 1) q.capacity_mask

  -- A write out of bounds changes nothing here.
  pub push : A → CircularQueue A → Bool × CircularQueue A
  push item q =
      if next_tail q q.tail == q.head
      then (false, q)
      else (true, record q { queue = set q.queue q.tail item; tail = next_tail q q.tail })

  -- The status, what goes through `item` (`none` if nothing, or from out of bounds), and the queue.
  pub pop : CircularQueue A → Bool × Option A × CircularQueue A
  pop q =
      if q.head == q.tail
      then (false, none, q)
      else (true, get_elem? q.queue q.head, record q { head = next_head q q.head })

  pub may_empty : CircularQueue A → Bool
  may_empty q = q.head == q.tail

  pub may_full : CircularQueue A → Bool
  may_full q = next_head q q.tail == q.head
