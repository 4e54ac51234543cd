-- ===== src/Search/Binary.antt =====
-- The binary search of algo/binsearch.c.
use codelab.Base.{
  ℕ, zero, suc, ◌+◌, ◌≤◌, ◌<◌, ◌≡◌, ◌≢◌, List, Option, none, some, length, get_elem?, arith, dec_lt,
  ◌⊎◌, inl, inr, get_elem?-some, get_elem?-bound, ℕ_discrete, sym, ◌∙◌, ap, subst,
}
use codelab.Base.Int.{◌<ℤ◌, ℤ, pos_part, neg_part, eq_of_parts}
use codelab.Search.{middle, bsearch_loop, bsearch, IsSorted}

-- The value is found at a place, or it is nowhere.
abbrev pub Finds : List ℤ → ℤ → Option (Option ℕ) → Type 0
Finds arr val r =
    ((r ≡ some none) × ((i : ℕ) → get_elem? arr i ≢ some val))
    ⊎ ((i : ℕ) × (r ≡ some (some i)) × (get_elem? arr i ≡ some val))

-- What is left and right of the interval was ruled out.
abbrev Outside : List ℤ → ℤ → (l hi : ℕ) → Type 0
Outside arr val l hi =
    (i : ℕ) (a : ℤ) → get_elem? arr i ≡ some a → (i < l → a <ℤ val) × (hi ≤ i → val <ℤ a)

Outside-nowhere :
    (arr : List ℤ) (val : ℤ) (l hi : ℕ)
    → hi ≤ l
    → Outside arr val l hi
    → (i : ℕ) → get_elem? arr i ≢ some val
Outside-nowhere arr val l hi le out i e = elim (dec_lt i l) [
  | yes lt ↦ omega (arith, (out i val e).0 lt)
  | no ge ↦ omega (arith, (out i val e).1 (omega arith))
]

module _ (arr : List ℤ) (val : ℤ) (sorted : IsSorted arr) where
  bsearch_loop-Finds :
      (n l hi : ℕ)
      → hi < l + n
      → l ≤ hi
      → hi ≤ length arr
      → Outside arr val l hi
      → Finds arr val (bsearch_loop n arr val l hi)
  unfolding bsearch_loop
  bsearch_loop-Finds zero l hi fuel le in_arr out = absurd (omega arith)
  bsearch_loop-Finds (suc n) l hi fuel le in_arr out = elim (dec_lt l hi) [
    | no ge ↦ inl (ground arith, Outside-nowhere arr val l hi (omega arith) out)
    | yes lt ↦
        let m = middle l hi in
        let (x, e) = get_elem?-some arr m (omega arith) in
        elim (ℕ_discrete (pos_part x + neg_part val) (pos_part val + neg_part x)) [
          | yes q ↦ inr (m, ground arith, e ∙ ap some (eq_of_parts x val q))
          | no ne ↦ elim (dec_lt (pos_part val + neg_part x) (pos_part x + neg_part val)) [
            | yes above ↦
                let p : bsearch_loop (suc n) arr val l hi ≡ bsearch_loop n arr val l m =
                  ground arith in
                subst (Finds arr val) (sym p) (
                  bsearch_loop-Finds n l m (omega arith) (omega arith) (omega arith)
                    (λ i a f. ((out i a f).0, λ ge. omega (arith, sorted m i x a ge e f))))
            | no below ↦
                let p : bsearch_loop (suc n) arr val l hi ≡ bsearch_loop n arr val (suc m) hi =
                  ground arith in
                subst (Finds arr val) (sym p) (
                  bsearch_loop-Finds n (suc m) hi (omega arith) (omega arith) in_arr (λ i a f.
                    ((λ le. omega (arith, sorted i m a x (omega arith) f e)), (out i a f).1)))
          ]
        ]
  ]

  -- On a sorted array the binary search reads no element out of bounds and its loop ends; it
  -- returns an index of the value, or -1 exactly when the value is nowhere.
  pub bsearch-Finds : Finds arr val (bsearch arr val)
  unfolding bsearch
  bsearch-Finds =
      bsearch_loop-Finds (suc (length arr)) 0 (length arr) (omega arith) (omega arith) (omega arith)
        (λ i a e.
          ((λ lt. absurd (omega arith)), λ ge. absurd (omega (arith, get_elem?-bound arr i a e))))
