-- ===== src/Search/LowerBound.antt =====
-- `lower_bound` of algo/lower_bound.c.
use codelab.Base.{
  ℕ, zero, suc, ◌+◌, ◌≤◌, ◌<◌, ◌≡◌, ◌≢◌, List, none, some, done, out_of_bounds, length, get_elem?,
  arith, dec_lt, ◌⊎◌, inl, inr, Option-cases, get_elem?-some, get_elem?-bound, ℕ_discrete, ◌∙◌, ap,
}
use codelab.Base.Int.{◌<ℤ◌, ℤ, pos_part, neg_part, ◌≤ℤ◌, eq_of_parts}
use codelab.Search.{middle, lower_bound_loop, lower_bound, IsSorted}

-- The elements before `l` are less than the value, and none from `hi` on is.
abbrev pub Splits : List ℤ → ℤ → (l hi : ℕ) → Type 0
Splits arr val l hi =
    (i : ℕ) (a : ℤ) → get_elem? arr i ≡ some a → (i < l → a <ℤ val) × (hi ≤ i → val ≤ℤ a)

module _ (arr : List ℤ) (val : ℤ) (sorted : IsSorted arr) where
  lower_bound_loop-Splits :
      (n l hi : ℕ)
      → hi < l + n
      → l ≤ hi
      → hi ≤ length arr
      → Splits arr val l hi
      → (k : ℕ) × (lower_bound_loop n arr val l hi ≡ done k) × (k ≤ length arr) × Splits arr val k k
  unfolding lower_bound_loop
  lower_bound_loop-Splits zero l hi fuel le in_arr out = absurd (omega arith)
  lower_bound_loop-Splits (suc n) l hi fuel le in_arr out = elim (dec_lt l hi) [
    | no stop ↦
        (l, ground arith, omega arith, λ i a e. ((out i a e).0, λ ge. (out i a e).1 (omega arith)))
    | yes lt ↦
        let m = middle l hi in
        let (x, e) = get_elem?-some arr m (omega arith) in
        elim (dec_lt (pos_part x + neg_part val) (pos_part val + neg_part x)) [
          | yes below ↦
              let (k, q, b, s) =
                lower_bound_loop-Splits n (suc m) hi (omega arith) (omega arith) in_arr (λ i a f.
                  ((λ le. omega (arith, sorted i m a x (omega arith) f e)), (out i a f).1)) in
              (k, ground arith, b, s)
          | no above ↦
              let (k, q, b, s) =
                lower_bound_loop-Splits n l m (omega arith) (omega arith) (omega arith)
                  (λ i a f. ((out i a f).0, λ ge. omega (arith, sorted m i x a ge e f))) in
              (k, ground arith, b, s)
        ]
  ]

  -- On a sorted array the loop of `lower_bound` ends, and the result is one of three: the index of
  -- the value before which all elements are less; -1, and the value is nowhere; or a read out of
  -- bounds, and all elements are less than the value.
  pub lower_bound-first :
      ((k : ℕ) × (lower_bound arr val ≡ done (some k))
        × (get_elem? arr k ≡ some val)
        × ((i : ℕ) (a : ℤ) → get_elem? arr i ≡ some a → i < k → a <ℤ val))
      ⊎ (((lower_bound arr val ≡ done none) × ((i : ℕ) → get_elem? arr i ≢ some val))
          ⊎ ((lower_bound arr val ≡ out_of_bounds)
              × ((i : ℕ) (a : ℤ) → get_elem? arr i ≡ some a → a <ℤ val)))
  unfolding lower_bound
  lower_bound-first =
      let (k, q, b, s) =
        lower_bound_loop-Splits (suc (length arr)) 0 (length arr) (omega arith) (omega arith)
          (omega arith)
          (λ i a e. (
            (λ lt. absurd (omega arith)),
            λ ge. absurd (omega (arith, get_elem?-bound arr i a e)),
          )) in
      elim (Option-cases (get_elem? arr k)) [
        | inl f ↦ inr (
            inr (
              ground arith,
              λ i a e. elim (dec_lt i k) [
                | yes lt ↦ (s i a e).0 lt
                | no ge ↦
                    let (y, g) = get_elem?-some arr k (omega (arith, get_elem?-bound arr i a e)) in
                    absurd (ground arith)
              ],
            ))
        | inr (x, f) ↦ elim (ℕ_discrete (pos_part x + neg_part val) (pos_part val + neg_part x)) [
          | yes same ↦
              inl (k, ground arith, f ∙ ap some (eq_of_parts x val same), λ i a e. (s i a e).0)
          | no differ ↦ inr (
              inl (
                ground arith,
                λ i e. elim (dec_lt i k) [
                  | yes lt ↦ omega (arith, (s i val e).0 lt)
                  | no ge ↦
                      omega (arith, (s k x f).1 (omega arith), sorted k i x val (omega arith) f e)
                ],
              ))
        ]
      ]
