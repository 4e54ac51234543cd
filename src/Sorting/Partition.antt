-- ===== src/Sorting/Partition.antt =====
-- algo/partition.c: the entries below zero to the front. `i` is the index to look at next, and `j`
-- is kept as `top = j + 1`, so that neither is a negative number.
use codelab.Base.{
  ℕ, zero, suc, ◌+◌, ◌-◌, ◌≤◌, ◌<◌, ◌≡◌, refl, ◌⊎◌, inl, inr, none, some, Outcome, done,
  out_of_bounds, out_of_rounds, ltb, leb, if◌then◌else◌, arith, dec_lt, subst,
}
use codelab.Base.Int.{pos, pos_part, neg_part, ltb_ℤ, ◌≤ℤ◌, ◌<ℤ◌}
use codelab.Sorting.{Array, read, swap, swapped}
use codelab.Sorting.Moves.{Moves, Moves-refl, Moves-trans, swap-Moves}

-- `do i++ while (i < j && arr[i] < 0)`.
pub skip_below : (rounds : ℕ) → Array → (top i : ℕ) → Outcome ℕ
skip_below zero a top i = out_of_rounds
skip_below (suc n) a top i =
    let on = skip_below n a top (suc i) in
    if ltb (suc i) top
    then (elim (read a i) [
      | none ↦ out_of_bounds
      | some x ↦ if ltb_ℤ x (pos 0) then on else done i
    ])
    else done i

-- `do j-- while (j > i && arr[j] >= 0)`, from `top` after the first decrement on.
pub skip_above : Array → (i top : ℕ) → Outcome ℕ
skip_above a i zero = done zero
skip_above a i (suc j) =
    let on = skip_above a i j in
    if ltb i j
    then (elim (read a j) [
      | none ↦ out_of_bounds
      | some x ↦ if ltb_ℤ x (pos 0) then done (suc j) else on
    ])
    else done (suc j)

pub partition_loop : (rounds : ℕ) → Array → (i top : ℕ) → Outcome (Array × ℕ)
partition_loop zero a i top = out_of_rounds
partition_loop (suc n) a i top = elim (skip_below (suc top) a top i) [
  | out_of_rounds ↦ out_of_rounds
  | out_of_bounds ↦ out_of_bounds
  | done i' ↦ elim (skip_above a i' (top - 1)) [
    | out_of_rounds ↦ out_of_rounds
    | out_of_bounds ↦ out_of_bounds
    | done top' ↦ if ltb top' (suc i') then done (a, top') else (elim (swap a i' (top' - 1)) [
      | none ↦ out_of_bounds
      | some b ↦ partition_loop n b (suc i') top'
    ])
  ]
]

-- The array, and what is returned plus one.
pub partition : Array → (len : ℕ) → Outcome (Array × ℕ)
partition a len = if leb len 1 then done (a, 1) else partition_loop (len + 3) a 0 (len + 2)

skip_below_stops :
    (n : ℕ) (a : Array) (top i : ℕ)
    → top < i + n
    → 0 < n
    → top ≤ suc a.size
    → (s : ℕ) × (skip_below n a top i ≡ done s)
      × (i ≤ s)
      × ((k : ℕ) → i ≤ k → k < s → a.at k <ℤ pos 0)
      × (suc s < top → pos 0 ≤ℤ a.at s)
unfolding skip_below read
skip_below_stops zero a top i enough rounds p = absurd (omega arith)
skip_below_stops (suc n) a top i enough rounds p = elim (dec_lt (suc i) top) [
  | no ge ↦
      (i, ground arith, omega arith, (λ k x y. absurd (omega arith)), λ x. absurd (omega arith))
  | yes lt ↦ elim (dec_lt (pos_part (a.at i)) (neg_part (a.at i))) [
    | no above ↦ (i, ground arith, omega arith, (λ k x y. absurd (omega arith)), λ x. omega arith)
    | yes below ↦
        let (s, e, le, low, high) =
          skip_below_stops n a top (suc i) (omega arith) (omega arith) p in
        (
          s,
          ground arith,
          omega arith,
          (λ k x y. elim (dec_lt i k) [
            | yes later ↦ low k (omega arith) y
            | no here ↦ ground arith
          ]),
          high,
        )
  ]
]

skip_above_stops :
    (a : Array) (i top : ℕ)
    → top ≤ a.size
    → (s : ℕ) × (skip_above a i top ≡ done s)
      × (s ≤ top)
      × ((k : ℕ) → s ≤ k → k < top → pos 0 ≤ℤ a.at k)
      × (suc i < s → a.at (s - 1) <ℤ pos 0)
unfolding skip_above read
skip_above_stops a i zero p =
    (zero, refl, omega arith, (λ k x y. absurd (omega arith)), λ x. absurd (omega arith))
skip_above_stops a i (suc j) p = elim (dec_lt i j) [
  | no ge ↦
      (suc j, ground arith, omega arith, (λ k x y. absurd (omega arith)), λ x. absurd (omega arith))
  | yes lt ↦ elim (dec_lt (pos_part (a.at j)) (neg_part (a.at j))) [
    | yes below ↦
        (suc j, ground arith, omega arith, (λ k x y. absurd (omega arith)), λ x. ground arith)
    | no above ↦
        let (s, e, le, high, low) = skip_above_stops a i j (omega arith) in
        (
          s,
          ground arith,
          omega arith,
          (λ k x y. elim (dec_lt k j) [ yes earlier ↦ high k x earlier | no here ↦ ground arith ]),
          low,
        )
  ]
]

-- Below zero up to `top` and not from there on, among the entries up to the index `len`.
abbrev pub IsPartitioned : Array → (len top : ℕ) → Type 0
IsPartitioned b len top =
    ((k : ℕ) → k < top → b.at k <ℤ pos 0) × ((k : ℕ) → top ≤ k → k ≤ len → pos 0 ≤ℤ b.at k)

-- Before a round: up to `i` and below `j`, and from `j` on.
abbrev Sides : Array → (len i top : ℕ) → Type 0
Sides a len i top =
    ((k : ℕ) → k < i → suc k < top → a.at k <ℤ pos 0)
    × ((k : ℕ) → top ≤ suc k → k ≤ len → pos 0 ≤ℤ a.at k)

exchange_Sides :
    (a : Array) (len i j : ℕ)
    → i ≤ j
    → ((k : ℕ) → k < i → a.at k <ℤ pos 0)
    → ((k : ℕ) → j < k → k ≤ len → pos 0 ≤ℤ a.at k)
    → pos 0 ≤ℤ a.at i
    → (i < j → a.at j <ℤ pos 0)
    → Sides (swapped a i j) len (suc i) (suc j)
exchange_Sides a len i j p low high at_i at_j =
    (λ k x y. ground (arith, low k, at_j), λ k x y. ground (arith, high k))

-- An outcome that is an array with its entries rearranged and partitioned.
abbrev pub Partitions : Array → (len : ℕ) → Outcome (Array × ℕ) → Type 0
Partitions a len o =
    (b : Array) × (s : ℕ) × (o ≡ done (b, s))
    × Moves a b 0 (suc len)
    × (s ≤ suc len)
    × IsPartitioned b len s

Partitions-after :
    (a c : Array) (len : ℕ) (o : Outcome (Array × ℕ))
    → Moves a c 0 (suc len)
    → Partitions c len o
    → Partitions a len o
Partitions-after a c len o moved (b, s, e, m, le, ok) = (b, s, e, Moves-trans moved m, le, ok)

partition_loop-IsPartitioned :
    (n : ℕ) (a : Array) (len i top : ℕ)
    → top < n
    → 0 < top
    → top ≤ len + 2
    → len < a.size
    → Sides a len i top
    → Partitions a len (partition_loop n a i top)
unfolding partition_loop
partition_loop-IsPartitioned zero a len i top p q r t sides = absurd (omega arith)
partition_loop-IsPartitioned (suc n) a len i top p q r t sides =
    let (i', e, le, low', at_i) =
      skip_below_stops (suc top) a top i (omega arith) (omega arith) (omega arith) in
    let (s, f, le', high', at_j) = skip_above_stops a i' (top - 1) (omega arith) in
    let lows : (k : ℕ) → k < i' → suc k < top → a.at k <ℤ pos 0 = λ k x y. elim (dec_lt k i) [
      | yes before ↦ sides.0 k before y
      | no after ↦ low' k (omega arith) x
    ] in
    let highs : (k : ℕ) → s ≤ k → k ≤ len → pos 0 ≤ℤ a.at k = λ k x y. elim (dec_lt k (top - 1)) [
      | yes before ↦ high' k x before
      | no after ↦ sides.1 k (omega arith) y
    ] in
    elim (dec_lt s (suc i')) [
      | yes crossed ↦ (
        a,
        s,
        ground arith,
        Moves-refl a 0 (suc len),
        omega arith,
        ((λ k x. lows k (omega arith) (omega arith)), highs),
      )
      | no apart ↦
          let j = s - 1 in
          let (g, moved) =
            swap-Moves a i' j 0 (suc len) (omega arith) (omega arith) (omega arith) (omega arith)
              (omega arith) in
          let e' : suc j ≡ s = omega arith in
          let sides' : Sides (swapped a i' j) len (suc i') (suc j) =
            exchange_Sides a len i' j (omega arith) (λ k x. lows k x (omega arith))
              (λ k x y. highs k (omega arith) y) (at_i (omega arith)) (λ x. at_j (omega arith)) in
          let same : partition_loop n (swapped a i' j) (suc i') s ≡ partition_loop (suc n) a i top =
            ground arith in
          Partitions-after a (swapped a i' j) len (partition_loop (suc n) a i top) moved (
            subst (Partitions (swapped a i' j) len) same (
              partition_loop-IsPartitioned n (swapped a i' j) len (suc i') s (omega arith)
                (omega arith) (omega arith) t
                (subst (λ v. Sides (swapped a i' j) len (suc i') v) e' sides')))
    ]

-- When one more entry can be read after the first `len`, of which there are two or more,
-- `partition` ends and rearranges `len + 1` entries: those below zero come first, and it returns
-- the index of the last of them, -1 for none.
pub partition-IsPartitioned :
    (a : Array) (len : ℕ) → 1 < len → len < a.size → Partitions a len (partition a len)
unfolding partition
partition-IsPartitioned a len p q =
    let (b, s, e, m, le, ok) =
      partition_loop-IsPartitioned (len + 3) a len 0 (len + 2) (omega arith) (omega arith)
        (omega arith) q ((λ k x y. absurd (omega arith)), λ k x y. absurd (omega arith)) in
    (b, s, ground arith, m, le, ok)

skip_below-in :
    (n : ℕ) (a : Array) (i : ℕ)
    → i ≤ a.size
    → a.size < i + n
    → (skip_below n a (a.size + 2) i ≡ out_of_bounds)
      ⊎ ((s : ℕ) × (skip_below n a (a.size + 2) i ≡ done s) × (s < a.size))
unfolding skip_below read
skip_below-in zero a i p enough = absurd (omega arith)
skip_below-in (suc n) a i p enough = elim (dec_lt i a.size) [
  | no end ↦ inl (ground arith)
  | yes lt ↦ elim (dec_lt (pos_part (a.at i)) (neg_part (a.at i))) [
    | no above ↦ inr (i, ground arith, lt)
    | yes below ↦ elim (skip_below-in n a (suc i) (omega arith) (omega arith)) [
      | inl e ↦ inl (ground arith)
      | inr (s, e, q) ↦ inr (s, ground arith, q)
    ]
  ]
]

-- On an array of two entries or more, `partition` with its length reads or writes out of bounds.
pub partition_out_of_bounds : (a : Array) → 1 < a.size → partition a a.size ≡ out_of_bounds
unfolding partition partition_loop skip_above read
partition_out_of_bounds a p =
    elim (skip_below-in (suc (a.size + 2)) a 0 (omega arith) (omega arith)) [
      | inl e ↦ ground arith
      | inr (s, e, q) ↦ ground arith
    ]
