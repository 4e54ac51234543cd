-- ===== src/CircularQueue/Rotation.antt =====
-- Indices that go round a ring, and cells of a list.
use native.Mathlib.Nat.{mod-add-mod, mod-eq_of_lt, mod-eq-sub-mod, mod-lt}
use codelab.Base.{
  ℕ, zero, suc, ◌+◌, ◌-◌, ◌%◌, ◌<◌, ◌≡◌, ◌≢◌, refl, ◌∙◌, List, [], ◌∷◌, ◌++◌, some, arith, dec_lt,
  length, get_elem?,
}

-- Fewer than `c` steps do not come back to the start.
ne_start : (h d c : ℕ) → h < c → 0 < d → d < c → (h + d) % c ≢ h
ne_start h d c hh pos small = elim (dec_lt (h + d) c) [
  | yes p ↦ omega (arith, mod-eq_of_lt p)
  | no p ↦ omega (
    arith,
    mod-eq-sub-mod {n = h + d} {m = c} (omega arith),
    mod-eq_of_lt {n = h + d - c} {m = c} (omega arith),
  )
]

pub mod_ne : (a d c : ℕ) → 0 < d → d < c → (a + d) % c ≢ a % c
mod_ne a d c pos small e =
    ne_start (a % c) d c (mod-lt a (omega arith)) pos small (mod-add-mod a c d ∙ e)

pub mod_round : (a c : ℕ) → 0 < c → (a + c) % c ≡ a % c
mod_round a c pos = grind arith

pub mod_suc : (a c : ℕ) → (a % c + 1) % c ≡ (a + 1) % c
mod_suc a c = mod-add-mod a c 1

module _ {ℓ} {A : Type ℓ} where
  pub get_elem?-append_left :
      (xs ys : List A) (i : ℕ) → i < length xs → get_elem? (xs ++ ys) i ≡ get_elem? xs i
  get_elem?-append_left [] ys i h = absurd (omega arith)
  get_elem?-append_left (x ∷ xs) ys zero h = refl
  get_elem?-append_left (x ∷ xs) ys (suc i) h = get_elem?-append_left xs ys i (omega arith)

  pub get_elem?-append_end :
      (xs : List A) (y : A) (i : ℕ) → i ≡ length xs → get_elem? (xs ++ y ∷ []) i ≡ some y
  get_elem?-append_end [] y zero h = refl
  get_elem?-append_end [] y (suc i) h = absurd (omega arith)
  get_elem?-append_end (x ∷ xs) y zero h = absurd (omega arith)
  get_elem?-append_end (x ∷ xs) y (suc i) h = get_elem?-append_end xs y i (omega arith)
