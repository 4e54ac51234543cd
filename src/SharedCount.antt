-- ===== src/SharedCount.antt =====
-- idea/smart_pointer/sp_counted_impl.hpp and shared_count.hpp: control blocks, and the handles that
-- count them. A pointer is an address, 0 the null pointer. An operation is `none` where the
-- code would read a control block that was destroyed, or delete an object twice.
pub mod Balance
pub mod Clients
pub mod Lock
pub mod Handles
pub mod Sound
pub mod WeakSound
pub mod Safety
mod Tests
use codelab.Base.{
  ℕ, zero, suc, ◌+◌, ◌-◌, ◌%◌, ◌^◌, Bool, true, false, List, [], ◌∷◌, Option, none, some, ◌==◌,
  if◌then◌else◌,
}

-- `sp_counted_base` with the `px_` of `sp_counted_impl_p`. The counts are `atomic<int>`, as 32-bit
-- patterns.
pub record Counted : Type 0 where
  pub use_count : ℕ
  pub weak_count : ℕ
  pub px : ℕ

-- `block` holds the control blocks, `live` says which objects were allocated and not yet deleted.
pub record World : Type 0 where
  pub block : ℕ → Option Counted
  pub live : ℕ → Bool

infixl 5 ◌>>=◌
abbrev pub ◌>>=◌ : Option World → (World → Option World) → Option World
none >>= f = none
some w >>= f = f w

abbrev pub update {ℓ} : {A : Type ℓ} → (ℕ → A) → ℕ → A → ℕ → A
update f p a q = if p == q then a else f q

abbrev pub put : ℕ → Option Counted → World → World
put p c w = record w { block = update w.block p c }

-- What `atomic_increment` and `atomic_decrement` leave in the counter.
abbrev pub atomic_increment : ℕ → ℕ
atomic_increment n = (n + 1) % 2 ^ 32

abbrev pub atomic_decrement : ℕ → ℕ
atomic_decrement n = (n + (2 ^ 32 - 1)) % 2 ^ 32

-- `atomic_conditional_increment`: the value returned and the value left. The list holds what other
-- threads, or a spurious failure, leave in the counter before each compare-exchange that fails.
pub atomic_conditional_increment : List ℕ → ℕ → ℕ × ℕ
atomic_conditional_increment [] n = if n == 0 then (n, n) else (n, atomic_increment n)
atomic_conditional_increment (seen ∷ later) n =
    let rest = atomic_conditional_increment later seen in if n == 0 then (n, n) else rest

pub add_ref_copy : ℕ → World → Option World
add_ref_copy p w = elim (w.block p) [
  | none ↦ none
  | some b ↦ some (put p (some (record b { use_count = atomic_increment b.use_count })) w)
]

-- `add_ref_lock` with no other thread in between: whether it succeeded, and the world.
pub add_ref_lock : ℕ → World → Option (Bool × World)
add_ref_lock p w = elim (w.block p) [
  | none ↦ none
  | some b ↦
      let (old, new) = atomic_conditional_increment [] b.use_count in
      some (if old == 0 then false else true, put p (some (record b { use_count = new })) w)
]

pub weak_add_ref : ℕ → World → Option World
weak_add_ref p w = elim (w.block p) [
  | none ↦ none
  | some b ↦ some (put p (some (record b { weak_count = atomic_increment b.weak_count })) w)
]

-- `delete this`.
pub destroy : ℕ → World → World
destroy p w = put p none w

pub weak_release : ℕ → World → Option World
weak_release p w = elim (w.block p) [
  | none ↦ none
  | some b ↦
      let w' = put p (some (record b { weak_count = atomic_decrement b.weak_count })) w in
      some (if b.weak_count == 1 then destroy p w' else w')
]

-- `checked_delete (px_)`.
pub dispose : ℕ → World → Option World
dispose px w =
    if px == 0
    then some w
    else if w.live px
    then some (record w { live = update w.live px false })
    else none

pub release : ℕ → World → Option World
release p w = elim (w.block p) [
  | none ↦ none
  | some b ↦
      let w' = put p (some (record b { use_count = atomic_decrement b.use_count })) w in
      if b.use_count == 1 then dispose b.px w' >>= weak_release p else some w'
]

-- `shared_count (Y * p)`: a control block at the address `p` for the object `px`.
pub new_block : ℕ → ℕ → World → World
new_block p px w = put p (some (record { use_count = 1; weak_count = 1; px = px })) w

-- The handles are the values of `pi_`.

unfoldable pub shared_drop : ℕ → World → Option World
shared_drop pi w = if pi == 0 then some w else release pi w

pub shared_copy : ℕ → World → Option World
shared_copy r w = if r == 0 then some w else add_ref_copy r w

-- The new value of the handle that is assigned to is `r`.
pub shared_assign : ℕ → ℕ → World → Option World
shared_assign pi r w = if r == pi then some w else shared_copy r w >>= shared_drop pi

-- `shared_count (weak_count const & r)` as written: `pi_` is never initialised, so it starts from
-- whatever the memory held, `junk`. The result is the handle and the world.
pub shared_from_weak : (junk : ℕ) → ℕ → World → Option (ℕ × World)
shared_from_weak junk r w = if junk == 0 then some (junk, w) else elim (add_ref_lock junk w) [
  | none ↦ none
  | some (locked, w') ↦ some (if locked then junk else 0, w')
]

pub weak_drop : ℕ → World → Option World
weak_drop pi w = if pi == 0 then some w else weak_release pi w

-- From a `shared_count` and from a `weak_count` alike.
pub weak_copy : ℕ → World → Option World
weak_copy r w = if r == 0 then some w else weak_add_ref r w

pub weak_assign : ℕ → ℕ → World → Option World
weak_assign pi r w = if r == pi then some w else weak_copy r w >>= weak_drop pi

-- The move constructors: the new handle, and what is left in the old one.
abbrev pub move_handle : ℕ → ℕ × ℕ
move_handle r = (r, 0)
