-- ===== src/SharedPtr.antt =====
-- idea/smart_pointer/shared_ptr.hpp, weak_ptr.hpp and enable_shared_from_this.hpp, over the counts of
-- SharedCount. The `swap` of shared_ptr and of shared_count is not in these files: it is an
-- argument. A class that derives from enable_shared_from_this is told its owner by `accept_owner`;
-- for any other the constructor calls the overload that does nothing.
pub mod Clients
pub mod Counted
pub mod Sound
pub mod WeakSound
pub mod Safety
pub mod Expired
mod Tests
use codelab.Base.{ℕ, ◌≡◌, Bool, Option, none, some, if◌then◌else◌}
use codelab.SharedCount.{
  World, new_block, shared_copy, shared_drop, shared_from_weak, weak_copy, weak_assign, weak_drop,
}

-- A `shared_ptr` or a `weak_ptr`: the object, and the control block of the count.
pub record Ptr : Type 0 where
  pub px : ℕ
  pub pn : ℕ

-- `a.swap(b)`, for counts and for pointers: what `a` is then, and what `b` is.
pub record Swaps : Type 0 where
  pub counts : ℕ → ℕ → ℕ × ℕ
  pub pointers : Ptr → Ptr → Ptr × Ptr

abbrev pub null_ptr : Ptr
null_ptr = record { px = 0; pn = 0 }

infixl 5 ◌>>◌
abbrev pub ◌>>◌ {ℓ} : {A : Type ℓ} → Option World → (World → Option A) → Option A
none >> f = none
some w >> f = f w

-- `shared_ptr(T* p)`, the block of its count being allocated at `block`.
pub make_ptr : Swaps → (block p : ℕ) → World → Option (Ptr × World)
make_ptr sw block p w =
    let (temp, pn) = sw.counts block 0 in
    shared_drop temp (new_block block p w) >> λ w'. some (record { px = p; pn = pn }, w')

pub copy_ptr : Ptr → World → Option (Ptr × World)
copy_ptr r w = shared_copy r.pn w >> λ w'. some (record { px = r.px; pn = r.pn }, w')

-- `shared_ptr(r, p)`.
pub alias_ptr : Ptr → (p : ℕ) → World → Option (Ptr × World)
alias_ptr r p w = shared_copy r.pn w >> λ w'. some (record { px = p; pn = r.pn }, w')

-- `shared_ptr(weak_ptr const & r)`. The count starts from what the memory held.
pub from_weak : (junk : ℕ) → Ptr → World → Option (Ptr × World)
from_weak junk r w = elim (shared_from_weak junk r.pn w) [
  | none ↦ none
  | some (pn, w') ↦ some (record { px = r.px; pn = pn }, w')
]

-- The move constructor: the new pointer, and what is left in the old one.
pub move_ptr : Swaps → Ptr → Ptr × Ptr
move_ptr sw r =
    let (new, old) = sw.counts 0 r.pn in
    (record { px = r.px; pn = new }, record { px = 0; pn = old })

-- `temp.swap(*this)`, and the end of the temporary.
pub swap_in : Swaps → (temp this : Ptr) → World → Option (Ptr × World)
swap_in sw temp this w =
    let (temp', this') = sw.pointers temp this in shared_drop temp'.pn w >> λ w'. some (this', w')

pub assign_ptr : Swaps → (this r : Ptr) → World → Option (Ptr × World)
assign_ptr sw this r w = elim (copy_ptr r w) [
  | none ↦ none
  | some (temp, w') ↦ swap_in sw temp this w'
]

pub reset_ptr : Swaps → (this : Ptr) → (block p : ℕ) → World → Option (Ptr × World)
reset_ptr sw this block p w = elim (make_ptr sw block p w) [
  | none ↦ none
  | some (temp, w') ↦ swap_in sw temp this w'
]

-- From a `weak_ptr` and from a `shared_ptr` alike.
pub copy_weak_ptr : Ptr → World → Option (Ptr × World)
copy_weak_ptr r w = weak_copy r.pn w >> λ w'. some (record { px = r.px; pn = r.pn }, w')

pub assign_weak_ptr : (this r : Ptr) → World → Option (Ptr × World)
assign_weak_ptr this r w =
    weak_assign this.pn r.pn w >> λ w'. some (record { px = r.px; pn = r.pn }, w')

-- `_internal_accept_owner`: the new `weak_this_`. `expired` is what `weak_this_.expired()` says, which
-- weak_ptr.hpp does not have.
pub accept_owner :
    (expired : Bool) → (weak_this owner : Ptr) → (py : ℕ) → World → Option (Ptr × World)
accept_owner expired weak_this owner py w =
    if expired
    then (elim (alias_ptr owner py w) [
      | none ↦ none
      | some (temp, w1) ↦ elim (assign_weak_ptr weak_this temp w1) [
        | none ↦ none
        | some (weak, w2) ↦ shared_drop temp.pn w2 >> λ w3. some (weak, w3)
      ]
    ])
    else some (weak_this, w)

pub shared_from_this : (junk : ℕ) → (weak_this : Ptr) → World → Option (Ptr × World)
shared_from_this junk weak_this w = from_weak junk weak_this w
