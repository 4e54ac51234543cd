-- ===== src/Sorting/Split.antt =====
-- The scans and the loop that quicksort and quickselect share.
use codelab.Base.{ℕ, zero, suc, ◌+◌, ◌≤◌, ◌<◌, ◌≡◌, refl, ◌∙◌, some, arith, dec_lt, ℕ_discrete}
use codelab.Base.Int.{pos_part, neg_part, ◌≤ℤ◌}
use codelab.Sorting.{Array, read, swapped, scan_up, scan_down, split_loop, split}
use codelab.Sorting.Moves.{Moves, Moves-refl, Moves-trans, swap-Moves}

scan_up_stops :
    (n : ℕ) (a : Array) (l j i : ℕ)
    → j < i + n
    → 0 < n
    → l < a.size
    → j ≤ a.size
    → (s : ℕ) × (scan_up n a l j i ≡ some s)
      × (i ≤ s)
      × ((k : ℕ) → i ≤ k → k < s → a.at k ≤ℤ a.at l)
      × (s < j → a.at l ≤ℤ a.at s)
unfolding scan_up read
scan_up_stops zero a l j i enough pos p q = absurd (omega arith)
scan_up_stops (suc n) a l j i enough pos p q = elim (dec_lt i j) [
  | no ge ↦
      (i, ground arith, omega arith, (λ k x y. absurd (omega arith)), λ x. absurd (omega arith))
  | yes lt ↦
      elim (dec_lt (pos_part (a.at i) + neg_part (a.at l))
        (pos_part (a.at l) + neg_part (a.at i))) [
          | no above ↦
              (i, ground arith, omega arith, (λ k x y. absurd (omega arith)), λ x. omega arith)
          | yes below ↦
              let (s, e, le, low, high) =
                scan_up_stops n a l j (suc i) (omega arith) (omega arith) p q in
              (
                s,
                ground arith,
                omega arith,
                (λ k x y. elim (dec_lt i k) [
                  | yes later ↦ low k (omega arith) y
                  | no here ↦ ground arith
                ]),
                high,
              )
        ]
]

scan_down_stops :
    (a : Array) (l j : ℕ)
    → l < j
    → j ≤ a.size
    → (s : ℕ) × (scan_down a l j ≡ some s)
      × (l ≤ s)
      × (s < j)
      × (a.at s ≤ℤ a.at l)
      × ((k : ℕ) → s < k → k < j → a.at l ≤ℤ a.at k)
unfolding scan_down read
scan_down_stops a l zero p q = absurd (omega arith)
scan_down_stops a l (suc j) p q =
    elim (dec_lt (pos_part (a.at l) + neg_part (a.at j)) (pos_part (a.at j) + neg_part (a.at l))) [
      | no below ↦
          (j, ground arith, omega arith, omega arith, omega arith, λ k x y. absurd (omega arith))
      | yes above ↦
          let higher : l < j = ground arith in
          let (s, e, le, lt, low, high) = scan_down_stops a l j higher (omega arith) in
          (
            s,
            ground arith,
            le,
            omega arith,
            low,
            λ k x y. elim (dec_lt k j) [ yes earlier ↦ high k x earlier | no here ↦ ground arith ],
          )
    ]

-- `b` has the pivot at `l`, nothing above it up to `j` and nothing below it from there on.
pub record IsSplit (a b : Array) (l hi j : ℕ) : Type 0 where
  pub moves : Moves a b l hi
  pub pivot : b.at l ≡ a.at l
  pub above_l : l ≤ j
  pub below_hi : j < hi
  pub low : (k : ℕ) → l ≤ k → k ≤ j → b.at k ≤ℤ b.at l
  pub high : (k : ℕ) → j < k → k < hi → b.at l ≤ℤ b.at k

IsSplit-after :
    (a b c : Array) (l hi j : ℕ)
    → Moves a b l hi
    → b.at l ≡ a.at l
    → IsSplit b c l hi j
    → IsSplit a c l hi j
IsSplit-after a b c l hi j moved same ok = record {
  moves = Moves-trans moved ok.moves;
  pivot = ok.pivot ∙ same;
  above_l = ok.above_l;
  below_hi = ok.below_hi;
  low = ok.low;
  high = ok.high;
}

-- An exchange of two entries above the pivot.
module _ (a : Array) (l i j : ℕ) (p : l < i) (q : i ≤ j) where
  exchange_low :
      a.at j ≤ℤ a.at l
      → ((k : ℕ) → l ≤ k → k < i → a.at k ≤ℤ a.at l)
      → (k : ℕ) → l ≤ k
      → k ≤ i
      → (swapped a i j).at k ≤ℤ (swapped a i j).at l
  exchange_low h low k x y = elim (ℕ_discrete k i) [
    | yes here ↦ ground arith
    | no before ↦ ground (arith, low k)
  ]

  exchange_high :
      (hi : ℕ)
      → a.at l ≤ℤ a.at i
      → ((k : ℕ) → j < k → k < hi → a.at l ≤ℤ a.at k)
      → (k : ℕ) → j ≤ k
      → k < hi
      → (swapped a i j).at l ≤ℤ (swapped a i j).at k
  exchange_high hi h high k x y = elim (ℕ_discrete k j) [
    | yes here ↦ ground arith
    | no after ↦ ground (arith, high k)
  ]

module _ (l hi : ℕ) where
  pub split_loop-IsSplit :
      (n : ℕ) (a : Array) (i j : ℕ)
      → j < n
      → l ≤ i
      → l < j
      → j ≤ hi
      → hi ≤ a.size
      → ((k : ℕ) → l ≤ k → k ≤ i → a.at k ≤ℤ a.at l)
      → ((k : ℕ) → j ≤ k → k < hi → a.at l ≤ℤ a.at k)
      → (b : Array) × (s : ℕ) × (split_loop n a l i j ≡ some (b, s)) × IsSplit a b l hi s
  unfolding split_loop
  split_loop-IsSplit zero a i j p q r s t low high = absurd (omega arith)
  split_loop-IsSplit (suc n) a i j p q r s t low high =
      let (i', e, le, low', at_i) =
        scan_up_stops (suc j) a l j (suc i) (omega arith) (omega arith) (omega arith)
          (omega arith) in
      let (j', f, ge, lt, at_j, high') = scan_down_stops a l j r (omega arith) in
      let lows : (k : ℕ) → l ≤ k → k < i' → a.at k ≤ℤ a.at l = λ k x y. elim (dec_lt i k) [
        | yes after ↦ low' k (omega arith) y
        | no before ↦ low k x (omega arith)
      ] in
      let highs : (k : ℕ) → j' < k → k < hi → a.at l ≤ℤ a.at k = λ k x y. elim (dec_lt k j) [
        | yes before ↦ high' k x before
        | no after ↦ high k (omega arith) y
      ] in
      elim (dec_lt j' i') [
        | yes crossed ↦ (
          a,
          j',
          ground arith,
          record {
            moves = Moves-refl a l hi;
            pivot = refl;
            above_l = ge;
            below_hi = omega arith;
            low = λ k x y. lows k x (omega arith);
            high = highs;
          },
        )
        | no apart ↦
            let (g, moved) =
              swap-Moves a i' j' l hi (omega arith) (omega arith) ge (omega arith) t in
            let b = swapped a i' j' in
            let same : b.at l ≡ a.at l = ground arith in
            let (c, m, h, ok) =
              split_loop-IsSplit n b i' j' (omega arith) (omega arith) (omega arith) (omega arith) t
                (exchange_low a l i' j' (omega arith) (omega arith) at_j lows)
                (exchange_high a l i' j' (omega arith) (omega arith) hi (at_i (omega arith))
                  highs) in
            (c, m, ground arith, IsSplit-after a b c l hi m moved same ok)
      ]

-- What stands at `j` is in its place.
pub record IsPlaced (a c : Array) (l hi j : ℕ) : Type 0 where
  pub moves : Moves a c l hi
  pub above_l : l ≤ j
  pub below_hi : j < hi
  pub low : (k : ℕ) → l ≤ k → k < j → c.at k ≤ℤ c.at j
  pub high : (k : ℕ) → j < k → k < hi → c.at j ≤ℤ c.at k

pub split-IsPlaced :
    (a : Array) (l hi : ℕ)
    → l < hi
    → hi ≤ a.size
    → (c : Array) × (j : ℕ) × (split a l hi ≡ some (c, j)) × IsPlaced a c l hi j
unfolding split
split-IsPlaced a l hi p q =
    let (b, j, e, ok) =
      split_loop-IsSplit l hi (suc hi) a l hi (omega arith) (omega arith) p (omega arith) q
        (λ k x y. ground arith) (λ k x y. absurd (omega arith)) in
    let size : b.size ≡ a.size = ok.moves.size in
    let (g, moved) = swap-Moves b j l l hi ok.above_l ok.below_hi (omega arith) p (omega arith) in
    (
      swapped b j l,
      j,
      ground arith,
      record {
        moves = Moves-trans ok.moves moved;
        above_l = ok.above_l;
        below_hi = ok.below_hi;
        low = λ k x y. ground (arith, ok.low k, ok.low j, ok.above_l);
        high = λ k x y. ground (arith, ok.high k, ok.above_l);
      },
    )
