-- ===== src/Search.antt =====
-- algo/binsearch.c and algo/lower_bound.c: the two searches of a sorted array. `u` is kept as
-- `hi = u + 1`, which is no negative number; a read out of bounds is `none` or `out_of_bounds`, and
-- -1 is the `none` of a result. The midpoint of two indices below 2^31 is below 2^31, so that no
-- index wraps.
pub mod Binary
pub mod LowerBound
mod Tests
use codelab.Base.{
  ℕ, zero, suc, ◌+◌, ◌-◌, ◌/◌, ◌≤◌, ◌<◌, ◌≡◌, Bool, true, false, List, [], ◌∷◌, Option, none, some,
  Outcome, done, out_of_bounds, out_of_rounds, ◌==◌, ltb, if◌then◌else◌, length, get_elem?,
}
use codelab.Base.Int.{eqb_ℤ, ℤ, pos_part, neg_part, ltb_ℤ, ◌≤ℤ◌}

abbrev pub middle : ℕ → ℕ → ℕ
middle l hi = l + (hi - 1 - l) / 2

-- For at most as many rounds as the first argument: with no round left it is `none` too.
pub bsearch_loop : ℕ → List ℤ → ℤ → (l hi : ℕ) → Option (Option ℕ)
bsearch_loop zero arr val l hi = none
bsearch_loop (suc n) arr val l hi =
    if ltb l hi
    then (elim (get_elem? arr (middle l hi)) [
      | none ↦ none
      | some x ↦
          let right = bsearch_loop n arr val (suc (middle l hi)) hi in
          let left = bsearch_loop n arr val l (middle l hi) in
          if eqb_ℤ x val then some (some (middle l hi)) else (if ltb_ℤ val x then left else right)
    ])
    else some none

-- Each round shortens the interval, and the last one finds it empty.
pub bsearch : List ℤ → ℤ → Option (Option ℕ)
bsearch arr val = bsearch_loop (suc (length arr)) arr val 0 (length arr)

-- Where `l` ends.
pub lower_bound_loop : ℕ → List ℤ → ℤ → (l hi : ℕ) → Outcome ℕ
lower_bound_loop zero arr val l hi = out_of_rounds
lower_bound_loop (suc n) arr val l hi =
    if ltb l hi
    then (elim (get_elem? arr (middle l hi)) [
      | none ↦ out_of_bounds
      | some x ↦
          let right = lower_bound_loop n arr val (suc (middle l hi)) hi in
          let left = lower_bound_loop n arr val l (middle l hi) in
          if ltb_ℤ x val then right else left
    ])
    else done l

pub lower_bound : List ℤ → ℤ → Outcome (Option ℕ)
lower_bound arr val = elim (lower_bound_loop (suc (length arr)) arr val 0 (length arr)) [
  | out_of_rounds ↦ out_of_rounds
  | out_of_bounds ↦ out_of_bounds
  | done l ↦ elim (get_elem? arr l) [
    | none ↦ out_of_bounds
    | some x ↦ if eqb_ℤ x val then done (some l) else done none
  ]
]

abbrev pub IsSorted : List ℤ → Type 0
IsSorted arr =
    (i j : ℕ) (a b : ℤ) → i ≤ j → get_elem? arr i ≡ some a → get_elem? arr j ≡ some b → a ≤ℤ b
