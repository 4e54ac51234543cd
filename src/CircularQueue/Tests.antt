-- ===== src/CircularQueue/Tests.antt =====
-- Rings of four cells, and the theorems at concrete inputs.
use codelab.Base.{
  ℕ, zero, suc, ◌+◌, ◌%◌, ◌<◌, ◌≡◌, refl, true, List, [], ◌∷◌, ◌++◌, some, arith, length, get_elem?,
  if◌then◌else◌,
}
use codelab.CircularQueue.{CircularQueue, init_queue, push, pop, next_tail, next_head}
use codelab.CircularQueue.Refine.{Represents, push_refines, pop_refines}
use codelab.CircularQueue.Init.{fresh}
use codelab.CircularQueue.Threads.{
  System, Producer, Consumer, push_check, pop_check, pop_read, Reach, here, next, Sound, Reach-fifo,
}

-- 8, then 9, round the end of the buffer.
abbrev wrapped : CircularQueue ℕ
wrapped = record { queue = 9 ∷ 0 ∷ 0 ∷ 8 ∷ []; capacity = 4; capacity_mask = 3; head = 3; tail = 1 }

wrapped_cells : (i : ℕ) → i < 2 → get_elem? wrapped.queue ((3 + i) % 4) ≡ get_elem? (8 ∷ 9 ∷ []) i
wrapped_cells zero h = refl
wrapped_cells (suc zero) h = refl
wrapped_cells (suc (suc i)) h = absurd (omega arith)

wrapped-Represents : Represents wrapped (8 ∷ 9 ∷ [])
wrapped-Represents = record {
  bits = 2;
  start = 3;
  small = omega arith;
  mask = refl;
  size = refl;
  head = refl;
  tail = refl;
  room = omega arith;
  cells = wrapped_cells;
}

push_refines_example :
    ((push 7 wrapped).0 ≡ true)
    × Represents (push 7 wrapped).1 (if (push 7 wrapped).0 then 8 ∷ 9 ∷ 7 ∷ [] else 8 ∷ 9 ∷ [])
push_refines_example = push_refines wrapped (8 ∷ 9 ∷ []) 7 wrapped-Represents

pop_refines_example :
    (q : CircularQueue ℕ) × (pop wrapped ≡ (true, some 8, q)) × Represents q (9 ∷ [])
pop_refines_example = pop_refines wrapped (8 ∷ 9 ∷ []) wrapped-Represents

-- A capacity of zero is accepted, and the first `Push` then writes a cell that is not there.
zero_capacity :
    let (ready, q) = init_queue (some []) 0 (fresh {A = ℕ} [] 0 0) in
    (ready ≡ true) × ((push 5 q).0 ≡ true) × (length q.queue ≡ 0)
unfolding init_queue push next_tail
zero_capacity = (refl, refl, refl)

abbrev start : System ℕ
start = record {
  ring = wrapped;
  producer = Producer.idle;
  consumer = Consumer.idle;
  pushed = 8 ∷ 9 ∷ [];
  popped = [];
}

start-Sound : Sound start
start-Sound = record {
  items = 8 ∷ 9 ∷ [];
  holds = wrapped-Represents;
  fifo = refl;
  producing = tt;
  consuming = tt;
}

-- The consumer has read the head's cell, while the producer stands between its test and its write.
interleaved : (t : System ℕ) × Reach start t × (t.consumer ≡ Consumer.took 8 3)
unfolding next_tail next_head
interleaved = (
  _,
  next (next (next here (push_check 7 refl (λ e. omega arith))) (pop_check refl (λ e. omega arith)))
      (pop_read 3 8 refl refl),
  refl,
)

Reach-fifo_example :
    (xs : List ℕ) × Represents interleaved.0.ring xs
    × (interleaved.0.pushed ≡ interleaved.0.popped ++ xs)
Reach-fifo_example = Reach-fifo start-Sound interleaved.1

testing : (t : System ℕ) × Reach start t × (t.consumer ≡ Consumer.checked 3)
testing = (_, next here (pop_check refl (λ e. omega arith)), refl)
