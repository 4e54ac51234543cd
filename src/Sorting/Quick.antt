-- ===== src/Sorting/Quick.antt =====
-- algo/quicksort.c.
use codelab.Base.{
  ℕ, zero, suc, ◌+◌, ◌≤◌, ◌<◌, ◌≡◌, inl, inr, Option, none, some, ltb, if◌then◌else◌, arith, dec_lt,
  ℕ_discrete,
}
use codelab.Base.Int.{◌≤ℤ◌}
use codelab.Sorting.{Array, split, IsSortedIn}
use codelab.Sorting.Moves.{Moves, Moves-refl, Moves-trans, Moves-wider}
use codelab.Sorting.Split.{IsPlaced, split-IsPlaced}

-- `qsort(arr, l, u)` with `hi = u + 1`, on calls nested at most as deep as the first argument.
unfoldable pub qsort : (depth : ℕ) → Array → (l hi : ℕ) → Option Array
qsort zero a l hi = if ltb (suc l) hi then none else some a
qsort (suc n) a l hi =
    if ltb (suc l) hi
    then (elim (split a l hi) [
      | none ↦ none
      | some (c, j) ↦ elim (qsort n c l j) [ none ↦ none | some d ↦ qsort n d (suc j) hi ]
    ])
    else some a

-- The two parts sorted around an entry that is in its place.
module _ {a c d e : Array} {l hi j : ℕ} (placed : IsPlaced a c l hi j) (left : Moves c d l j)
    (right : Moves d e (suc j) hi) where
  left_entry : (k : ℕ) → k ≤ j → e.at k ≡ d.at k
  left_entry k x = ground (arith, right.entry k, right.outside k (inl (omega arith)))

  middle_entry : e.at j ≡ c.at j
  middle_entry = ground (arith, left_entry j, left.entry j, left.outside j (inr (omega arith)))

  left_low : (k : ℕ) → l ≤ k → k < j → e.at k ≤ℤ e.at j
  left_low k x y =
      let (p, q) = left.inside k x y in
      ground (arith, left_entry k, left.entry k, middle_entry, placed.low (left.from k) p q)

  right_high : (k : ℕ) → j < k → k < hi → e.at j ≤ℤ e.at k
  right_high k x y =
      let (p, q) = right.inside k x y in
      ground (
        arith,
        right.entry k,
        left.entry (right.from k),
        left.outside (right.from k) (inr (omega arith)),
        middle_entry,
        placed.high (right.from k) p q,
      )

  parts_sorted : IsSortedIn d l j → IsSortedIn e (suc j) hi → IsSortedIn e l hi
  parts_sorted low high i k x y z = elim (dec_lt k j) [
    | yes before ↦ ground (arith, left_entry i, left_entry k, low i k x y before)
    | no not_before ↦ elim (dec_lt j i) [
      | yes after ↦ high i k after y z
      | no not_after ↦
          let from_left : e.at i ≤ℤ e.at j = elim (ℕ_discrete i j) [
            | yes here ↦ ground arith
            | no less ↦ left_low i x (omega arith)
          ] in
          elim (ℕ_discrete k j) [
            | yes here ↦ ground arith
            | no more ↦ omega (arith, right_high k (omega arith) z)
          ]
    ]
  ]

  parts_moved : Moves a e l hi
  parts_moved = Moves-trans placed.moves (
      Moves-trans
        (Moves-wider l hi l j (omega arith) placed.above_l (omega (arith, placed.below_hi)) left)
        (Moves-wider l hi (suc j) hi (omega (arith, placed.above_l)) placed.below_hi (omega arith)
          right))

-- For a part of an array, with calls nested no deeper than the part is long, quicksort ends and
-- reads and writes in bounds; the part is then in ascending order, and is the old one rearranged
-- by a bijection of its indices, while the rest of the array stays.
pub qsort-IsSortedIn :
    (n : ℕ) (a : Array) (l hi : ℕ)
    → hi ≤ l + n
    → hi ≤ a.size
    → (b : Array) × (qsort n a l hi ≡ some b) × Moves a b l hi × IsSortedIn b l hi
unfolding qsort
qsort-IsSortedIn zero a l hi p q =
    (a, ground arith, Moves-refl a l hi, λ i j x y z. absurd (omega arith))
qsort-IsSortedIn (suc n) a l hi p q = elim (dec_lt (suc l) hi) [
  | no short ↦ (
    a,
    ground arith,
    Moves-refl a l hi,
    λ i j x y z. let same : i ≡ j = omega arith in ground arith,
  )
  | yes long ↦
      let (c, j, e, placed) = split-IsPlaced a l hi (omega arith) q in
      let size : c.size ≡ a.size = placed.moves.size in
      let (d, f, left, low) =
        qsort-IsSortedIn n c l j (omega (arith, placed.below_hi))
          (omega (arith, placed.below_hi)) in
      let size' : d.size ≡ c.size = left.size in
      let (b, g, right, high) =
        qsort-IsSortedIn n d (suc j) hi (omega (arith, placed.above_l)) (omega arith) in
      (b, ground arith, parts_moved placed left right, parts_sorted placed left right low high)
]
