-- ===== src/Lockfree/Stack.antt =====
-- idea/lockfree/stack-normal.hpp, and what the three stacks share. A `Node*` is an address, 0 the
-- null pointer; `next` holds the field of that name of every node. `data` is never touched. Under
-- the mutex a call runs whole.
pub mod Chains
pub mod Mutex
pub mod Plain
pub mod Tagged
use codelab.Base.{ℕ, ◌==◌, if◌then◌else◌}

abbrev pub update {ℓ} : {A : Type ℓ} → (ℕ → A) → ℕ → A → ℕ → A
update f p a q = if p == q then a else f q

pub record Stack : Type 0 where
  pub head : ℕ
  pub next : ℕ → ℕ

pub push : ℕ → Stack → Stack
push node s = record { head = node; next = update s.next node s.head }

-- The node returned, and the stack.
pub pop : Stack → ℕ × Stack
pop s = if s.head == 0 then (0, s) else (s.head, record s { head = s.next s.head })
