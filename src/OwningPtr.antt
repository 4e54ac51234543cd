-- ===== src/OwningPtr.antt =====
-- idea/smart_pointer/auto_ptr.hpp and unique_ptr.hpp, whose methods are the same: variables that
-- hold the address of an object and delete it. The second deletion of an object is `none`.
pub mod Owners
mod Tests
use codelab.Base.{ℕ, Bool, true, false, List, [], ◌∷◌, Option, none, some, ◌==◌, if◌then◌else◌}

-- Which objects were not deleted, and the `ptr_` of each variable.
pub record Store : Type 0 where
  pub live : ℕ → Bool
  pub ptr : ℕ → ℕ

abbrev pub update {ℓ} : {A : Type ℓ} → (ℕ → A) → ℕ → A → ℕ → A
update f p a q = if p == q then a else f q

-- `delete`, which leaves the null pointer alone.
pub delete : ℕ → Store → Option Store
delete p s =
    if p == 0
    then some s
    else (if s.live p then some (record s { live = update s.live p false }) else none)

pub init_ptr : (i p : ℕ) → Store → Store
init_ptr i p s = record s { ptr = update s.ptr i p }

pub release : ℕ → Store → ℕ × Store
release i s = (s.ptr i, record s { ptr = update s.ptr i 0 })

pub reset : (i p : ℕ) → Store → Option Store
reset i p s = if p == s.ptr i then some s else (elim (delete (s.ptr i) s) [
  | none ↦ none
  | some s' ↦ some (record s' { ptr = update s'.ptr i p })
])

-- The copy constructor of one class and the move constructor of the other.
pub take_over : (i j : ℕ) → Store → Store
take_over i j s = init_ptr i (release j s).0 (release j s).1

pub assign : (i j : ℕ) → Store → Option Store
assign i j s = reset i (release j s).0 (release j s).1

-- The destructor; no method is called on the variable after it.
pub destroy : ℕ → Store → Option Store
destroy i s = elim (delete (s.ptr i) s) [
  | none ↦ none
  | some s' ↦ some (record s' { ptr = update s'.ptr i 0 })
]
