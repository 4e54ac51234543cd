-- ===== src/Sorting/Merge/Sort.antt =====
-- `merge`, and the recursion of merge sort.
use codelab.Base.{
  ℕ, zero, suc, ◌+◌, ◌-◌, ◌/◌, ◌≤◌, ◌<◌, ◌≡◌, refl, ap, ◌∙◌, subst, ◌⊎◌, inl, inr, Option, none,
  some, arith, dec_lt, ℕ_discrete, ◌≢◌, Option-cases,
}
use codelab.Base.Int.{ℤ}
use codelab.Sorting.{Array, read, write, IsSortedIn}
use codelab.Sorting.Merge.{put, Stop, copy_loop, copy_back, merge, merge_impl, merge_sort}
use codelab.Sorting.Totals.{
  total, total_empty, total_split, total_shift, SameItems, SameItems-refl, SameItems-trans,
  SameItems-wider,
}
use codelab.Sorting.Merge.Loops.{Merged, merge_loop-Merged, copy_left-Merged, copy_right-Merged}

-- Where `b` has what `help` has from `i` on, put at `l`, and else what `a` has.
record Copied (a help b : Array) (l i num : ℕ) : Type 0 where
  size : b.size ≡ a.size
  copied : (k : ℕ) → l ≤ k → k + i < l + num → b.at k ≡ help.at (i + (k - l))
  rest : (k : ℕ) → (k < l) ⊎ (l + num ≤ k + i) → b.at k ≡ a.at k

copy_back-Copied :
    (n : ℕ) (a help : Array) (l i num : ℕ)
    → num < i + n
    → i ≤ num
    → num ≤ help.size
    → l + num ≤ a.size + i
    → (b : Array) × (copy_back n a help l i num ≡ some b) × Copied a help b l i num
unfolding copy_back read put
copy_back-Copied zero a help l i num enough p q r = absurd (omega arith)
copy_back-Copied (suc n) a help l i num enough p q r = elim (dec_lt i num) [
  | no done ↦ (
    a,
    ground arith,
    record { size = refl; copied = λ k x y. absurd (omega arith); rest = λ k h. refl },
  )
  | yes more ↦
      let b = write a l (help.at i) in
      let (c, e, v) =
        copy_back-Copied n b help (suc l) (suc i) num (omega arith) more q (omega arith) in
      (
        c,
        ground arith,
        record {
          size = v.size;
          copied = λ k x y. elim (ℕ_discrete k l) [
            | yes here ↦ ground (arith, v.rest k (inl (omega arith)))
            | no later ↦
                let same : suc i + (k - suc l) ≡ i + (k - l) = omega arith in
                v.copied k (omega arith) (omega arith) ∙ ap help.at same
          ];
          rest = λ k h. ground (arith, v.rest k (ground arith));
        },
      )
]

started-Merged :
    (a help : Array) (l le re : ℕ)
    → l ≤ le
    → le ≤ re
    → re ≤ a.size
    → re ≤ l + help.size
    → Merged a help l l le le re 0
started-Merged a help l le re p q r s = record {
  lower = omega arith;
  left = p;
  middle = omega arith;
  right = q;
  inside = r;
  room = s;
  counted = omega arith;
  sorted = λ i j x y z. absurd (omega arith);
  below_left = λ x k y. absurd (omega arith);
  below_right = λ x k y. absurd (omega arith);
  items = λ w.
      omega (arith, total_empty w a.at l l (omega arith), total_empty w a.at le le (omega arith));
}

module _ (a help b : Array) (l le re num : ℕ) (v : Merged a help l le le re re num)
    (c : Copied a help b l 0 num) where
  copied_entry : (k : ℕ) → l ≤ k → k < re → b.at k ≡ help.at (k - l)
  copied_entry k x y =
      let same : 0 + (k - l) ≡ k - l = omega arith in
      c.copied k x (omega (arith, v.counted)) ∙ ap help.at same

  copied_items : SameItems a b l re
  copied_items = record {
    size = c.size;
    outside = λ k h. c.rest k (ground (arith, v.counted));
    items = λ w.
        let e : l + num ≡ re = omega (arith, v.counted) in
        let shift : total w b.at l re ≡ total w help.at 0 num =
          subst (λ h. total w b.at l h ≡ total w help.at 0 num) e
            (total_shift w help.at b.at l num (λ k x.
              let same : l + k - l ≡ k = omega arith in
              copied_entry (l + k) (omega arith) (omega arith) ∙ ap help.at same)) in
        omega (arith, shift, v.items w, total_split w a.at l le re v.lower v.middle);
  }

  copied_sorted : IsSortedIn b l re
  copied_sorted i j x y z = ground (
    arith,
    copied_entry i x (omega arith),
    copied_entry j (omega arith) z,
    v.sorted (i - l) (j - l) (omega arith) (omega arith) (omega (arith, v.counted)),
  )

-- What a step of merge sort leaves of the array and of `help`.
abbrev Sorts : (a help : Array) → (l hi : ℕ) → Option (Array × Array) → Type 0
Sorts a help l hi o =
    (b : Array) × (h : Array) × (o ≡ some (b, h))
    × SameItems a b l hi
    × IsSortedIn b l hi
    × (h.size ≡ help.size)

copy_nothing :
    (n : ℕ) (a help : Array) (i end num : ℕ)
    → end ≤ i
    → copy_loop (suc n) a help i end num ≡ some (help, num)
unfolding copy_loop
copy_nothing n a help i end num p = ground arith

module _ (a help : Array) (l le re : ℕ) (q : le ≤ re) (r : re ≤ a.size) (sl : IsSortedIn a l le)
    (sr : IsSortedIn a le re) where
  -- The two copy loops, one of which has nothing to do.
  drain :
      (t : Stop)
      → Merged a t.help l t.lbegin le t.rbegin re t.num
      → (t.lbegin ≡ le) ⊎ (t.rbegin ≡ re)
      → (h : Array) × (m : ℕ) × (h' : Array) × (m' : ℕ) × (copy_loop
            (suc le)
            a
            t.help
            t.lbegin
            le
            t.num
          ≡ some (h, m))
        × (copy_loop (suc re) a h t.rbegin re m ≡ some (h', m'))
        × Merged a h' l le le re re m'
        × (h'.size ≡ t.help.size)
  drain t v (inl e) =
      let v' : Merged a t.help l le le t.rbegin re t.num =
        subst (λ i. Merged a t.help l i le t.rbegin re t.num) e v in
      let (h, m, f, w, size) =
        copy_right-Merged a l le re sl sr (suc re) t.help t.rbegin t.num (omega arith) v' in
      (t.help, t.num, h, m, copy_nothing le a t.help t.lbegin le t.num (omega arith), f, w, size)
  drain t v (inr e) =
      let v' : Merged a t.help l t.lbegin le re re t.num =
        subst (λ i. Merged a t.help l t.lbegin le i re t.num) e v in
      let (h, m, f, w, size) =
        copy_left-Merged a l le re sl sr (suc le) t.help t.lbegin t.num (omega arith) v' in
      (h, m, h, m, f, copy_nothing re a h t.rbegin re m (omega arith), w, size)

  merge-Sorts : l ≤ le → re ≤ l + help.size → Sorts a help l re (merge a help l le re)
  unfolding merge
  merge-Sorts p s =
      let (t, e, v, stop, size) =
        merge_loop-Merged a l le re sl sr (suc re) help l le 0 (omega arith)
          (started-Merged a help l le re p q r s) in
      let (h, m, h', m', f, g, w, size') = drain t v stop in
      let (b, back, c) =
        copy_back-Copied (suc m') a h' l 0 m' (omega arith) (omega arith)
          (omega (arith, w.counted, w.room)) (omega (arith, w.counted)) in
      (
        b,
        h',
        ground arith,
        copied_items a h' b l le re m' w c,
        copied_sorted a h' b l le re m' w c,
        size' ∙ size,
      )

-- What the right part was before, and the left part after, the sort of the right part.
kept_sorted :
    (a b : Array) (l hi l' hi' : ℕ)
    → SameItems a b l' hi'
    → (hi ≤ l') ⊎ (hi' ≤ l)
    → IsSortedIn a l hi
    → IsSortedIn b l hi
kept_sorted a b l hi l' hi' same apart s i j x y z =
    ground (arith, same.outside i (ground arith), same.outside j (ground arith), s i j x y z)

middle_bounds :
    (l hi : ℕ) → suc l < hi → (l < suc (l + (hi - 1 - l) / 2)) × (suc (l + (hi - 1 - l) / 2) < hi)
middle_bounds l hi h = (omega arith, omega arith)

merge_impl-Sorts :
    (n : ℕ) (a help : Array) (l hi : ℕ)
    → hi ≤ l + n
    → l ≤ hi
    → hi ≤ a.size
    → hi ≤ l + help.size
    → Sorts a help l hi (merge_impl n a help l hi)
unfolding merge_impl
merge_impl-Sorts zero a help l hi p o q r =
    (a, help, ground arith, SameItems-refl a l hi, (λ i j x y z. absurd (omega arith)), refl)
merge_impl-Sorts (suc n) a help l hi p o q r = elim (dec_lt (suc l) hi) [
  | no short ↦ (
    a,
    help,
    ground arith,
    SameItems-refl a l hi,
    (λ i j x y z. let same : i ≡ j = omega arith in ground arith),
    refl,
  )
  | yes long ↦
      let m = suc (l + (hi - 1 - l) / 2) in
      let (lo, up) = middle_bounds l hi long in
      let (b, h, e, left, sl, size) =
        merge_impl-Sorts n a help l m (omega arith) (omega arith) (omega arith) (omega arith) in
      let (c, h', f, right, sr, size') =
        merge_impl-Sorts n b h m hi (omega arith) (omega arith) (omega (arith, left.size))
          (omega arith) in
      let (d, h'', g, both, sorted, size'') =
        merge-Sorts c h' l m hi (omega arith) (omega (arith, left.size, right.size))
          (kept_sorted b c l m m hi right (inl (omega arith)) sl) sr (omega arith) (omega arith) in
      (
        d,
        h'',
        ground arith,
        SameItems-trans (SameItems-wider l hi l m (omega arith) (omega arith) (omega arith) left) (
            SameItems-trans
              (SameItems-wider l hi m hi (omega arith) (omega arith) (omega arith) right) both),
        sorted,
        size'' ∙ size' ∙ size,
      )
]

-- Merge sort of at most all entries of an array ends and reads and writes in bounds. It changes
-- nothing if there is no memory; else the entries are in ascending order, those after them are the
-- old ones, and each value is there as often as before: under any weight of the values they weigh
-- the same in all.
pub merge_sort-IsSortedIn :
    (memory : Option (ℕ → ℤ)) (a : Array) (len : ℕ)
    → len ≤ a.size
    → (b : Array) × (merge_sort memory a len ≡ some b)
      × SameItems a b 0 len
      × (memory ≡ none → b ≡ a)
      × (memory ≢ none → IsSortedIn b 0 len)
unfolding merge_sort
merge_sort-IsSortedIn memory a len p = elim (dec_lt 1 len) [
  | no short ↦ (
    a,
    ground arith,
    SameItems-refl a 0 len,
    (λ x. refl),
    λ x i j y z t. let same : i ≡ j = omega arith in ground arith,
  )
  | yes long ↦ elim (Option-cases memory) [
    | inl e ↦ (a, ground arith, SameItems-refl a 0 len, (λ x. refl), λ x. absurd (x e))
    | inr (m, e) ↦
        let (b, h, f, same, sorted, size) =
          merge_impl-Sorts len a (record { size = len; at = m }) 0 len (omega arith) (omega arith) p
            (omega arith) in
        (b, ground arith, same, (λ x. absurd (ground arith)), λ x. sorted)
  ]
]
