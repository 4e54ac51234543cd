-- ===== src/Sorting.antt =====
-- algo: the sorts in place. An array is what stands at each index, and how many indices it has; a
-- read or a write out of bounds is `none`. No index gets near 2^31 for the length of an array.
pub mod Totals
pub mod Moves
pub mod Split
pub mod Quick
pub mod Select
pub mod Partition
pub mod Merge
pub mod Agreement
mod Tests
use codelab.Base.{
  ℕ, zero, suc, ◌+◌, ◌≤◌, ◌<◌, ◌≡◌, ◌⊎◌, Bool, true, false, Option, none, some, ◌==◌, ltb,
  if◌then◌else◌,
}
use codelab.Base.Int.{ℤ, ltb_ℤ, ◌≤ℤ◌}

pub record Array : Type 0 where
  pub size : ℕ
  pub at : ℕ → ℤ

abbrev pub update {ℓ} : {A : Type ℓ} → (ℕ → A) → ℕ → A → ℕ → A
update f p a q = if p == q then a else f q

abbrev pub write : Array → ℕ → ℤ → Array
write a i x = record a { at = update a.at i x }

pub read : Array → ℕ → Option ℤ
read a i = if ltb i a.size then some (a.at i) else none

abbrev pub swapped : Array → (i j : ℕ) → Array
swapped a i j = write (write a i (a.at j)) j (a.at i)

pub swap : Array → (i j : ℕ) → Option Array
swap a i j = if ltb i a.size then (if ltb j a.size then some (swapped a i j) else none) else none

-- `do i++ while (i < j && arr[i] < arr[l])`, from `i` after the first increment on.
pub scan_up : (rounds : ℕ) → Array → (l j i : ℕ) → Option ℕ
scan_up zero a l j i = none
scan_up (suc n) a l j i =
    let on = scan_up n a l j (suc i) in
    if ltb i j
    then (elim (read a i) [
      | none ↦ none
      | some x ↦ elim (read a l) [ none ↦ none | some p ↦ if ltb_ℤ x p then on else some i ]
    ])
    else some i

-- `do j-- while (arr[j] > arr[l])`, from `j` before the first decrement on.
pub scan_down : Array → (l j : ℕ) → Option ℕ
scan_down a l zero = none
scan_down a l (suc j) =
    let on = scan_down a l j in
    elim (read a j) [
      | none ↦ none
      | some x ↦ elim (read a l) [ none ↦ none | some p ↦ if ltb_ℤ p x then on else some j ]
    ]

-- `while (1)`: the array, and `j` at the break.
pub split_loop : (rounds : ℕ) → Array → (l i j : ℕ) → Option (Array × ℕ)
split_loop zero a l i j = none
split_loop (suc n) a l i j = elim (scan_up (suc j) a l j (suc i)) [
  | none ↦ none
  | some i' ↦ elim (scan_down a l j) [
    | none ↦ none
    | some j' ↦
        if ltb j' i'
        then some (a, j')
        else (elim (swap a i' j') [ none ↦ none | some b ↦ split_loop n b l i' j' ])
  ]
]

-- From `i = l` to `swap(arr, j, l)`, with `u` kept as `hi = u + 1`. Each round lowers `j`.
pub split : Array → (l hi : ℕ) → Option (Array × ℕ)
split a l hi = elim (split_loop (suc hi) a l l hi) [
  | none ↦ none
  | some (b, j) ↦ elim (swap b j l) [ none ↦ none | some c ↦ some (c, j) ]
]

-- Ascending from `l` up to but without `hi`.
abbrev pub IsSortedIn : Array → (l hi : ℕ) → Type 0
IsSortedIn a l hi = (i j : ℕ) → l ≤ i → i ≤ j → j < hi → a.at i ≤ℤ a.at j
