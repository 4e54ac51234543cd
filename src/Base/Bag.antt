-- ===== src/Base/Bag.antt =====
-- How often a number occurs in a list, and taking out one occurrence.
use codelab.Base.{
  ℕ, ◌+◌, ◌<◌, ◌≡◌, List, [], ◌∷◌, ◌++◌, ◌==◌, if◌then◌else◌, arith, ℕ_discrete, length,
}

abbrev pub one : ℕ → ℕ → ℕ
one x y = if x == y then 1 else 0

abbrev pub occ : ℕ → List ℕ → ℕ
occ x [] = 0
occ x (y ∷ ys) = one x y + occ x ys

abbrev pub remove : ℕ → List ℕ → List ℕ
remove x [] = []
remove x (y ∷ ys) = let rest = remove x ys in if x == y then ys else y ∷ rest

pub occ-remove : (x y : ℕ) (ys : List ℕ) → 0 < occ y ys → occ x (remove y ys) + one x y ≡ occ x ys
occ-remove x y [] h = absurd (omega arith)
occ-remove x y (z ∷ zs) h = elim (ℕ_discrete y z) [
  | yes e ↦ ground arith
  | no n ↦ ground (arith, occ-remove x y zs (ground arith))
]

pub length-remove : (y : ℕ) (ys : List ℕ) → 0 < occ y ys → length (remove y ys) + 1 ≡ length ys
length-remove y [] h = absurd (omega arith)
length-remove y (z ∷ zs) h = elim (ℕ_discrete y z) [
  | yes e ↦ ground arith
  | no n ↦ ground (arith, length-remove y zs (ground arith))
]

pub occ-append : (x : ℕ) (ys zs : List ℕ) → occ x (ys ++ zs) ≡ occ x ys + occ x zs
occ-append x [] zs = omega arith
occ-append x (y ∷ ys) zs = omega (arith, occ-append x ys zs)
