-- ===== src/Sorting/Totals.antt =====
-- What the entries of a part of an array weigh in all, under any weight of a single one: two parts
-- hold the same entries as often when they weigh the same under every weight.
use codelab.Base.{
  ℕ, zero, suc, ◌+◌, ◌≤◌, ◌<◌, ◌≡◌, refl, ap, ◌∙◌, ◌⊎◌, inl, inr, leb, if◌then◌else◌, arith, dec_lt,
  ℕ_discrete,
}
use codelab.Base.Int.{ℤ}
use codelab.Sorting.{Array, update, swapped}

abbrev pub total : (ℤ → ℕ) → (ℕ → ℤ) → (lo hi : ℕ) → ℕ
total w f lo zero = 0
total w f lo (suc h) = let rest = total w f lo h in if leb lo h then rest + w (f h) else 0

-- The parts of `a` and `b` from `l` up to but without `hi` hold the same, and the rest is the same.
pub record SameItems (a b : Array) (l hi : ℕ) : Type 0 where
  pub size : b.size ≡ a.size
  pub outside : (k : ℕ) → (k < l) ⊎ (hi ≤ k) → b.at k ≡ a.at k
  pub items : (w : ℤ → ℕ) → total w b.at l hi ≡ total w a.at l hi

module _ (w : ℤ → ℕ) where
  pub total_empty : (f : ℕ → ℤ) (lo hi : ℕ) → hi ≤ lo → total w f lo hi ≡ 0
  total_empty f lo zero h = refl
  total_empty f lo (suc hi) h = ground arith

  pub total_congr :
      (f g : ℕ → ℤ) (lo hi : ℕ)
      → ((k : ℕ) → lo ≤ k → k < hi → f k ≡ g k)
      → total w f lo hi ≡ total w g lo hi
  total_congr f g lo zero h = refl
  total_congr f g lo (suc hi) h = elim (dec_lt hi lo) [
    | yes lt ↦ ground arith
    | no ge ↦
        let rest = total_congr f g lo hi (λ k p q. h k p (omega arith)) in
        ground (arith, ap w (h hi (omega arith) (omega arith)))
  ]

  pub total_split :
      (f : ℕ → ℤ) (lo m hi : ℕ)
      → lo ≤ m
      → m ≤ hi
      → total w f lo hi ≡ total w f lo m + total w f m hi
  total_split f lo m zero p q = ground (arith, total_empty f lo m (omega arith))
  total_split f lo m (suc hi) p q = elim (ℕ_discrete m (suc hi)) [
    | yes here ↦ ground (arith, total_empty f m (suc hi) (omega arith))
    | no less ↦ ground (arith, total_split f lo m hi p (omega arith))
  ]

  -- A part that was moved down to 0.
  pub total_shift :
      (f g : ℕ → ℤ) (lo n : ℕ)
      → ((k : ℕ) → k < n → g (lo + k) ≡ f k)
      → total w g lo (lo + n) ≡ total w f 0 n
  total_shift f g lo zero h = total_empty g lo (lo + 0) (omega arith)
  total_shift f g lo (suc n) h =
      let e : lo + suc n ≡ suc (lo + n) = omega arith in
      rw e
        (ground (arith, total_shift f g lo n (λ k p. h k (omega arith)), ap w (h n (omega arith))))

  -- A write trades the weight of the old entry for that of the new one.
  pub total-update :
      (f : ℕ → ℤ) (lo hi i : ℕ) (x : ℤ)
      → lo ≤ i
      → i < hi
      → total w (update f i x) lo hi + w (f i) ≡ total w f lo hi + w x
  total-update f lo zero i x p q = absurd (omega arith)
  total-update f lo (suc hi) i x p q = elim (ℕ_discrete i hi) [
    | yes here ↦
        let before = total_congr (update f i x) f lo hi (λ k r t. ground arith) in ground arith
    | no less ↦ ground (arith, total-update f lo hi i x p (omega arith))
  ]

pub SameItems-refl : (a : Array) (l hi : ℕ) → SameItems a a l hi
SameItems-refl a l hi = record { size = refl; outside = λ k h. refl; items = λ w. refl }

pub SameItems-trans :
    {a b c : Array} {l hi : ℕ} → SameItems a b l hi → SameItems b c l hi → SameItems a c l hi
SameItems-trans f g = record {
  size = g.size ∙ f.size;
  outside = λ k h. g.outside k h ∙ f.outside k h;
  items = λ w. g.items w ∙ f.items w;
}

pub SameItems-wider :
    {a b : Array} (l hi l' hi' : ℕ)
    → l ≤ l'
    → l' ≤ hi'
    → hi' ≤ hi
    → SameItems a b l' hi'
    → SameItems a b l hi
SameItems-wider {a} {b} l hi l' hi' p q r f = record {
  size = f.size;
  outside = λ k h. f.outside k (ground arith);
  items = λ w. omega (
    arith,
    total_split w a.at l l' hi p (omega arith),
    total_split w a.at l' hi' hi q r,
    total_split w b.at l l' hi p (omega arith),
    total_split w b.at l' hi' hi q r,
    total_congr w b.at a.at l l' (λ k x y. f.outside k (inl y)),
    total_congr w b.at a.at hi' hi (λ k x y. f.outside k (inr x)),
    f.items w,
  );
}

pub swap-SameItems :
    (a : Array) (i j l hi : ℕ) → l ≤ i → i < hi → l ≤ j → j < hi → SameItems a (swapped a i j) l hi
swap-SameItems a i j l hi p q r s = record {
  size = refl;
  outside = λ k h. ground arith;
  items = λ w.
      let first = total-update w a.at l hi i (a.at j) p q in
      let second = total-update w (update a.at i (a.at j)) l hi j (a.at i) r s in ground arith;
}
