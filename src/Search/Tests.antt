-- ===== src/Search/Tests.antt =====
-- Runs of the searches, and the theorems on a concrete array.
use codelab.Base.{
  ℕ, ◌<◌, ◌≡◌, ◌≢◌, refl, List, [], ◌∷◌, none, some, done, out_of_bounds, get_elem?, arith, ◌⊎◌,
}
use codelab.Base.Int.{◌<ℤ◌, ℤ, pos, negsuc}
use codelab.Search.{bsearch, bsearch_loop, lower_bound, lower_bound_loop, IsSorted}
use codelab.Search.Binary.{Finds, bsearch-Finds}
use codelab.Search.LowerBound.{lower_bound-first}

abbrev numbers : List ℤ
numbers = negsuc 3 ∷ pos 2 ∷ pos 2 ∷ pos 7 ∷ []

numbers-IsSorted : IsSorted numbers
numbers-IsSorted i j a b le e f = ground arith

bsearch_two : bsearch numbers (pos 2) ≡ some (some 1)
unfolding bsearch bsearch_loop
bsearch_two = refl

lower_bound_nine : lower_bound numbers (pos 9) ≡ out_of_bounds
unfolding lower_bound lower_bound_loop
lower_bound_nine = refl

bsearch-Finds_example : Finds numbers (pos 2) (bsearch numbers (pos 2))
bsearch-Finds_example = bsearch-Finds numbers (pos 2) numbers-IsSorted

lower_bound-first_example :
    ((k : ℕ) × (lower_bound numbers (pos 2) ≡ done (some k))
      × (get_elem? numbers k ≡ some (pos 2))
      × ((i : ℕ) (a : ℤ) → get_elem? numbers i ≡ some a → i < k → a <ℤ pos 2))
    ⊎ (((lower_bound numbers (pos 2) ≡ done none) × ((i : ℕ) → get_elem? numbers i ≢ some (pos 2)))
        ⊎ ((lower_bound numbers (pos 2) ≡ out_of_bounds)
            × ((i : ℕ) (a : ℤ) → get_elem? numbers i ≡ some a → a <ℤ pos 2)))
lower_bound-first_example = lower_bound-first numbers (pos 2) numbers-IsSorted
