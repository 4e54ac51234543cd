-- ===== src/SkipList/Layers.antt =====
-- Insert on a skip list whose levels are known.
use codelab.Base.{
  ℕ, suc, ◌≤◌, ◌<◌, ◌≡◌, ◌≢◌, refl, sym, subst, ◌∙◌, ◌⊎◌, inl, inr, List, [], ◌∷◌, arith, ltb,
  if◌then◌else◌, dec_lt,
}
use codelab.Base.Int.{◌≤ℤ◌, ℤ}
use codelab.SkipList.Levels.{
  All, In, Ascending, last_of, Beyond, last_of-In, All-In, All-append, In-All, insert_key,
  In-insert_key, self-In-insert_key, All-insert_key,
}
use codelab.SkipList.Search.{Cut}

pub All-both :
    (P Q R : ℕ → Type 0)
    → ((z : ℕ) → P z → Q z → R z)
    → (xs : List ℕ) → All P xs
    → All Q xs
    → All R xs
All-both P Q R f [] p q = tt
All-both P Q R f (x ∷ xs) (p, ps) (q, qs) = (f x p q, All-both P Q R f xs ps qs)

module _ (key key' : ℕ → ℤ) where
  abbrev pub Same : ℕ → Type 0
  Same z = key' z ≡ key z

  pub Ascending-Same : (ys : List ℕ) → All Same ys → Ascending key ys → Ascending key' ys
  Ascending-Same [] s a = tt
  Ascending-Same (y ∷ ys) (s, ss) (h, a) = (
    All-both Same (λ z. key y ≤ℤ key z) (λ z. key' y ≤ℤ key' z) (λ z e le. ground (arith, s, e, le))
        ys ss h,
    Ascending-Same ys ss a,
  )

  Beyond-Same : (k : ℤ) (ys : List ℕ) → All Same ys → Beyond key k ys → Beyond key' k ys
  Beyond-Same k [] s b = tt
  Beyond-Same k (y ∷ ys) (s, ss) b = ground (arith, s, b)

  pub Cut-Same : (k : ℤ) (c : List ℕ) (p : ℕ) → All Same c → Cut key k c p → Cut key' k c p
  Cut-Same k c p s (pre, rest, e, at, low, b) =
      let (s1, s2) = All-append Same pre rest (subst (All Same) e s) in
      (
        pre,
        rest,
        e,
        at,
        All-both Same (λ z. key z ≤ℤ k) (λ z. key' z ≤ℤ k) (λ z f le. ground (arith, f, le)) pre s1
            low,
        Beyond-Same k rest s2 b,
      )

pub Cut-differs :
    (key : ℕ → ℤ) (k : ℤ) (c : List ℕ) (p x : ℕ)
    → 0 ≢ x
    → All (λ z. z ≢ x) c
    → Cut key k c p
    → p ≢ x
Cut-differs key k c p x pos new (pre, rest, e, at, low, b) = elim (last_of-In 0 pre) [
  | inl here ↦ λ f. pos (sym here ∙ at ∙ f)
  | inr i ↦ λ f.
      All-In (λ z. z ≢ x) pre (last_of 0 pre)
        (All-append (λ z. z ≢ x) pre rest (subst (All (λ z. z ≢ x)) e new)).0 i (at ∙ f)
]

-- The levels with `x` on those below `height`.
abbrev pub inserted : (ℕ → ℤ) → ℤ → (x height : ℕ) → (ℕ → List ℕ) → ℕ → List ℕ
inserted key k x height chain i = if ltb i height then insert_key key k x (chain i) else chain i

module _ (key : ℕ → ℤ) (k : ℤ) (x height : ℕ) (chain : ℕ → List ℕ) where
  pub inserted_low :
      (i : ℕ) → i < height → insert_key key k x (chain i) ≡ inserted key k x height chain i
  inserted_low i lt = ground arith

  pub inserted_high : (i : ℕ) → height ≤ i → chain i ≡ inserted key k x height chain i
  inserted_high i ge = ground arith

  pub inserted-ind :
      (P : List ℕ → Type 0) (i : ℕ)
      → (i < height → P (insert_key key k x (chain i)))
      → (height ≤ i → P (chain i))
      → P (inserted key k x height chain i)
  inserted-ind P i low high = elim (dec_lt i height) [
    | yes lt ↦ subst P (inserted_low i lt) (low lt)
    | no ge ↦ subst P (inserted_high i (omega arith)) (high (omega arith))
  ]

  In-inserted : (i y : ℕ) → In y (chain i) → In y (inserted key k x height chain i)
  In-inserted i y h = inserted-ind (In y) i (λ lt. In-insert_key key k x y (chain i) h) (λ ge. h)

  self-In-inserted : (i : ℕ) → i < height → In x (inserted key k x height chain i)
  self-In-inserted i lt = subst (In x) (inserted_low i lt) (self-In-insert_key key k x (chain i))

  abbrev Known : ℕ → ℕ → Type 0
  Known i y = ((y ≡ x) × (i < height)) ⊎ In y (chain i)

  inserted-Known : (i y : ℕ) → In y (inserted key k x height chain i) → Known i y
  inserted-Known i y =
      inserted-ind (λ c. In y c → Known i y) i
        (λ lt. All-In (Known i) (insert_key key k x (chain i)) y (
          All-insert_key (Known i) key k x (chain i) (inl (refl, lt))
            (In-All (Known i) (chain i) (λ z j. inr j))))
        (λ ge j. inr j)

  pub inserted-nested :
      ((i y : ℕ) → In y (chain (suc i)) → In y (chain i))
      → (i y : ℕ) → In y (inserted key k x height chain (suc i))
      → In y (inserted key k x height chain i)
  inserted-nested nested i y j = elim (inserted-Known (suc i) y j) [
    | inl (e, lt) ↦
        subst (λ z. In z (inserted key k x height chain i)) (sym e)
          (self-In-inserted i (omega arith))
    | inr old ↦ In-inserted i y (nested i y old)
  ]
