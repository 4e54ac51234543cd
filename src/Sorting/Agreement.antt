-- ===== src/Sorting/Agreement.antt =====
-- Quicksort against merge sort.
use codelab.Base.{
  ℕ, zero, suc, ◌+◌, ◌-◌, ◌≤◌, ◌<◌, ◌≡◌, refl, sym, ◌∙◌, inr, some, if◌then◌else◌, arith, dec_lt,
}
use codelab.Base.Int.{ℤ, ltb_ℤ, ◌≤ℤ◌, ◌<ℤ◌, eq_of_parts}
use codelab.Sorting.{Array, IsSortedIn}
use codelab.Sorting.Totals.{total, total_split}
use codelab.Sorting.Quick.{qsort, qsort-IsSortedIn}
use codelab.Sorting.Merge.{merge_sort}
use codelab.Sorting.Merge.Sort.{merge_sort-IsSortedIn}

-- The weight that counts the values up to `v`.
abbrev up_to : ℤ → ℤ → ℕ
up_to v x = if ltb_ℤ v x then 0 else 1

module _ (v : ℤ) (f : ℕ → ℤ) where
  all_counted :
      (lo hi : ℕ)
      → lo ≤ hi
      → ((k : ℕ) → lo ≤ k → k < hi → f k ≤ℤ v)
      → total (up_to v) f lo hi + lo ≡ hi
  all_counted lo zero p h = omega arith
  all_counted lo (suc hi) p h = elim (dec_lt hi lo) [
    | yes empty ↦ ground arith
    | no more ↦
        let rest = all_counted lo hi (omega arith) (λ k x y. h k x (omega arith)) in
        ground (arith, h hi (omega arith) (omega arith))
  ]

  none_counted : (lo hi : ℕ) → ((k : ℕ) → lo ≤ k → k < hi → v <ℤ f k) → total (up_to v) f lo hi ≡ 0
  none_counted lo zero h = refl
  none_counted lo (suc hi) h = elim (dec_lt hi lo) [
    | yes empty ↦ ground arith
    | no more ↦
        let rest = none_counted lo hi (λ k x y. h k x (omega arith)) in
        ground (arith, h hi (omega arith) (omega arith))
  ]

  counted_le : (lo hi : ℕ) → total (up_to v) f lo hi ≤ hi - lo
  counted_le lo zero = omega arith
  counted_le lo (suc hi) = ground (arith, counted_le lo hi)

-- Of two sorted parts with the same values, none has a smaller entry where the other has a greater.
none_below :
    (b c : Array) (l hi k : ℕ)
    → IsSortedIn b l hi
    → IsSortedIn c l hi
    → ((w : ℤ → ℕ) → total w b.at l hi ≡ total w c.at l hi)
    → l ≤ k
    → k < hi
    → ¬ (b.at k <ℤ c.at k)
none_below b c l hi k sb sc same p q lt =
    let v = b.at k in
    let in_b = all_counted v b.at l (suc k) (omega arith) (λ i x y. sb i k x (omega arith) q) in
    let in_c = none_counted v c.at k hi (λ i x y. omega (arith, sc k i p x y)) in
    omega (
      arith,
      same (up_to v),
      total_split (up_to v) b.at l (suc k) hi (omega arith) q,
      total_split (up_to v) c.at l k hi p (omega arith),
      counted_le v c.at l k,
    )

-- With memory for the second, quicksort and merge sort of the first entries of an array both end,
-- and leave the same entry at each index.
pub qsort-eq-merge_sort :
    (a : Array) (len : ℕ) (memory : ℕ → ℤ)
    → len ≤ a.size
    → (b : Array) × (c : Array) × (qsort len a 0 len ≡ some b)
      × (merge_sort (some memory) a len ≡ some c)
      × ((k : ℕ) → b.at k ≡ c.at k)
qsort-eq-merge_sort a len memory p =
    let (b, e, moved, sb) = qsort-IsSortedIn len a 0 len (omega arith) p in
    let (c, f, same, _, sc) = merge_sort-IsSortedIn (some memory) a len p in
    let sorted : IsSortedIn c 0 len = sc (λ x. ground arith) in
    let equal : (w : ℤ → ℕ) → total w b.at 0 len ≡ total w c.at 0 len =
      λ w. moved.items.items w ∙ sym (same.items w) in
    (
      b,
      c,
      e,
      f,
      λ k. elim (dec_lt k len) [
        | no past ↦
            moved.items.outside k (inr (omega arith)) ∙ sym (same.outside k (inr (omega arith)))
        | yes lt ↦
            let not_less = none_below b c 0 len k sb sorted equal (omega arith) lt in
            let not_more = none_below c b 0 len k sorted sb (λ w. sym (equal w)) (omega arith) lt in
            eq_of_parts (b.at k) (c.at k) (omega arith)
      ],
    )
