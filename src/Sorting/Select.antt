-- ===== src/Sorting/Select.antt =====
-- algo/quickselect.c. The place `k` that is asked for is no negative number.
use codelab.Base.{
  ℕ, zero, suc, ◌+◌, ◌≤◌, ◌<◌, ◌≡◌, inl, inr, Option, none, some, ltb, ◌==◌, if◌then◌else◌, arith,
  dec_lt, ℕ_discrete,
}
use codelab.Base.Int.{◌≤ℤ◌}
use codelab.Sorting.{Array, split}
use codelab.Sorting.Moves.{Moves, Moves-trans, Moves-wider}
use codelab.Sorting.Split.{IsPlaced, split-IsPlaced}

-- `select(arr, l, u, k)` with `hi = u + 1`: the array, and the index, -1 being `none`.
pub select : (depth : ℕ) → Array → (l hi k : ℕ) → Option (Array × Option ℕ)
select zero a l hi k = if ltb l hi then none else some (a, none)
select (suc n) a l hi k =
    if ltb l hi
    then (elim (split a l hi) [
      | none ↦ none
      | some (c, j) ↦
          let left = select n c l j k in
          let right = select n c (suc j) hi k in
          if j == k then some (c, some j) else (if ltb k j then left else right)
    ])
    else some (a, none)

pub qselect : Array → (len k : ℕ) → Option (Array × Option ℕ)
qselect a len k = if ltb len (suc k) then some (a, none) else select len a 0 len k

-- All of the part that stand before `k` are at most the entry there, all after it at least.
abbrev pub IsRanked : Array → (len k : ℕ) → Type 0
IsRanked b len k =
    ((i : ℕ) → i < k → b.at i ≤ℤ b.at k) × ((i : ℕ) → k < i → i < len → b.at k ≤ℤ b.at i)

-- What is left of the interval is at most, and what is right of it at least, all in it.
abbrev Fences : Array → (len l hi : ℕ) → Type 0
Fences a len l hi =
    ((i k : ℕ) → i < l → l ≤ k → k < hi → a.at i ≤ℤ a.at k)
    × ((i k : ℕ) → hi ≤ i → i < len → l ≤ k → k < hi → a.at k ≤ℤ a.at i)

module _ {a c : Array} {len l hi j : ℕ} (placed : IsPlaced a c l hi j)
    (fences : Fences a len l hi) where
  kept-Fences : Fences c len l hi
  kept-Fences =
      let m = placed.moves in
      (
        λ i k x y z.
            let (p, q) = m.inside k y z in
            ground (arith, m.entry i, m.entry k, m.outside i (inl x), fences.0 i (m.from k) x p q),
        λ i k x x' y z.
            let (p, q) = m.inside k y z in
            ground
              (arith, m.entry i, m.entry k, m.outside i (inr x), fences.1 i (m.from k) x x' p q),
      )

  left-Fences : Fences c len l j
  left-Fences = (
    λ i k x y z. kept-Fences.0 i k x y (omega (arith, placed.below_hi)),
    λ i k x x' y z. elim (dec_lt i hi) [
      | no far ↦ kept-Fences.1 i k (omega arith) x' y (omega (arith, placed.below_hi))
      | yes near ↦ elim (ℕ_discrete i j) [
        | yes here ↦ ground (arith, placed.low k y z)
        | no more ↦ omega (arith, placed.low k y z, placed.high i (omega arith) near)
      ]
    ],
  )

  right-Fences : Fences c len (suc j) hi
  right-Fences = (
    λ i k x y z. elim (dec_lt i l) [
      | yes far ↦ kept-Fences.0 i k far (omega (arith, placed.above_l)) z
      | no near ↦ elim (ℕ_discrete i j) [
        | yes here ↦ ground (arith, placed.high k (omega arith) z)
        | no less ↦
            omega (arith, placed.low i (omega arith) (omega arith), placed.high k (omega arith) z)
      ]
    ],
    λ i k x x' y z. kept-Fences.1 i k x x' (omega (arith, placed.above_l)) z,
  )

  placed-IsRanked : IsRanked c len j
  placed-IsRanked = (
    λ i x. elim (dec_lt i l) [
      | yes far ↦ kept-Fences.0 i j far placed.above_l placed.below_hi
      | no near ↦ placed.low i (omega arith) x
    ],
    λ i x y. elim (dec_lt i hi) [
      | yes near ↦ placed.high i x near
      | no far ↦ kept-Fences.1 i j (omega arith) y placed.above_l placed.below_hi
    ],
  )

select-IsRanked :
    (n : ℕ) (a : Array) (len l hi k : ℕ)
    → hi ≤ l + n
    → l ≤ k
    → k < hi
    → hi ≤ len
    → len ≤ a.size
    → Fences a len l hi
    → (b : Array) × (select n a l hi k ≡ some (b, some k)) × Moves a b 0 len × IsRanked b len k
unfolding select
select-IsRanked zero a len l hi k p q r s t fences = absurd (omega arith)
select-IsRanked (suc n) a len l hi k p q r s t fences =
    let (c, j, e, placed) = split-IsPlaced a l hi (omega arith) (omega arith) in
    let size : c.size ≡ a.size = placed.moves.size in
    let moved = Moves-wider 0 len l hi (omega arith) (omega arith) s placed.moves in
    elim (ℕ_discrete j k) [
      | yes here ↦ (c, ground arith, moved, ground (arith, placed-IsRanked placed fences))
      | no other ↦ elim (dec_lt k j) [
        | yes before ↦
            let (b, f, m, ok) =
              select-IsRanked n c len l j k (omega (arith, placed.below_hi)) q before
                (omega (arith, placed.below_hi)) (omega arith) (left-Fences placed fences) in
            (b, ground arith, Moves-trans moved m, ok)
        | no after ↦
            let (b, f, m, ok) =
              select-IsRanked n c len (suc j) hi k (omega (arith, placed.above_l)) (omega arith) r s
                (omega arith) (right-Fences placed fences) in
            (b, ground arith, Moves-trans moved m, ok)
      ]
    ]

-- In an array of at least `len` entries quickselect ends and reads and writes in bounds. It returns
-- -1 and changes nothing if there are at most `k` entries. Else it returns `k`; the entries are
-- rearranged, all before `k` are at most the entry there and all after it at least.
pub qselect-IsRanked :
    (a : Array) (len k : ℕ)
    → len ≤ a.size
    → (len ≤ k → qselect a len k ≡ some (a, none))
      × (k < len
          → (b : Array) × (qselect a len k ≡ some (b, some k)) × Moves a b 0 len × IsRanked b len k)
unfolding qselect
qselect-IsRanked a len k p = (
  λ few. ground arith,
  λ many.
      let (b, e, m, ok) =
        select-IsRanked len a len 0 len k (omega arith) (omega arith) many (omega arith) p
          (λ i k x y z. absurd (omega arith), λ i k x x' y z. absurd (omega arith)) in
      (b, ground arith, m, ok),
)
