-- ===== src/Sorting/Moves.antt =====
-- Rearrangements of the part of an array from `l` up to but without `hi`.
use codelab.Base.{
  ℕ, ◌≤◌, ◌<◌, ◌≡◌, refl, ap, ◌∙◌, ◌⊎◌, inl, inr, some, ◌==◌, if◌then◌else◌, arith, dec_lt,
}
use codelab.Sorting.Totals.{
  SameItems, SameItems-refl, SameItems-trans, SameItems-wider, swap-SameItems,
}
use codelab.Sorting.{Array, swapped, swap}

-- The index that each entry of `b` had in `a`, with its inverse.
pub record Moves (a b : Array) (l hi : ℕ) : Type 0 where
  pub from : ℕ → ℕ
  pub to : ℕ → ℕ
  pub from_to : (k : ℕ) → from (to k) ≡ k
  pub to_from : (k : ℕ) → to (from k) ≡ k
  pub size : b.size ≡ a.size
  pub entry : (k : ℕ) → b.at k ≡ a.at (from k)
  pub inside : (k : ℕ) → l ≤ k → k < hi → (l ≤ from k) × (from k < hi)
  pub outside : (k : ℕ) → (k < l) ⊎ (hi ≤ k) → from k ≡ k
  pub items : SameItems a b l hi

pub Moves-refl : (a : Array) (l hi : ℕ) → Moves a a l hi
Moves-refl a l hi = record {
  from = λ k. k;
  to = λ k. k;
  from_to = λ k. refl;
  to_from = λ k. refl;
  size = refl;
  entry = λ k. refl;
  inside = λ k p q. (p, q);
  outside = λ k h. refl;
  items = SameItems-refl a l hi;
}

module _ {a b c : Array} {l hi : ℕ} (f : Moves a b l hi) (g : Moves b c l hi) where
  pub Moves-trans : Moves a c l hi
  Moves-trans = record {
    from = λ k. f.from (g.from k);
    to = λ k. g.to (f.to k);
    from_to = λ k. ap f.from (g.from_to (f.to k)) ∙ f.from_to k;
    to_from = λ k. ap g.to (f.to_from (g.from k)) ∙ g.to_from k;
    size = g.size ∙ f.size;
    entry = λ k. g.entry k ∙ f.entry (g.from k);
    inside = λ k p q. let (r, s) = g.inside k p q in f.inside (g.from k) r s;
    outside = λ k h. ap f.from (g.outside k h) ∙ f.outside k h;
    items = SameItems-trans f.items g.items;
  }

pub Moves-wider :
    {a b : Array} (l hi l' hi' : ℕ)
    → l ≤ l'
    → l' ≤ hi'
    → hi' ≤ hi
    → Moves a b l' hi'
    → Moves a b l hi
Moves-wider {a} {b} l hi l' hi' p o q f = record {
  from = f.from;
  to = f.to;
  from_to = f.from_to;
  to_from = f.to_from;
  size = f.size;
  entry = f.entry;
  inside = λ k r s. elim (dec_lt k l') [
    | yes lt ↦ ground (arith, f.outside k (inl lt))
    | no ge ↦ elim (dec_lt k hi') [
      | no far ↦ ground (arith, f.outside k (inr (omega arith)))
      | yes near ↦ ground (arith, f.inside k (omega arith) near)
    ]
  ];
  outside = λ k h. f.outside k (ground arith);
  items = SameItems-wider l hi l' hi' p o q f.items;
}

abbrev exchange : (i j k : ℕ) → ℕ
exchange i j k = if j == k then i else if i == k then j else k

pub swap-Moves :
    (a : Array) (i j l hi : ℕ)
    → l ≤ i
    → i < hi
    → l ≤ j
    → j < hi
    → hi ≤ a.size
    → (swap a i j ≡ some (swapped a i j)) × Moves a (swapped a i j) l hi
unfolding swap
swap-Moves a i j l hi p q r s t = (
  ground arith,
  record {
    from = exchange i j;
    to = exchange i j;
    from_to = λ k. ground arith;
    to_from = λ k. ground arith;
    size = refl;
    entry = λ k. ground arith;
    inside = λ k x y. ground arith;
    outside = λ k h. ground arith;
    items = swap-SameItems a i j l hi p q r s;
  },
)
