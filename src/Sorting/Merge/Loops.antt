-- ===== src/Sorting/Merge/Loops.antt =====
-- The loops of `merge` on two parts that are sorted.
use codelab.Base.{
  ℕ, zero, suc, ◌+◌, ◌≤◌, ◌<◌, ◌≡◌, refl, subst, ◌⊎◌, inl, inr, some, arith, dec_lt, ℕ_discrete,
}
use codelab.Base.Int.{ℤ, pos_part, neg_part, ◌≤ℤ◌}
use codelab.Sorting.{Array, read, write, IsSortedIn}
use codelab.Sorting.Merge.{put, Stop, copy_loop, merge_loop}
use codelab.Sorting.Totals.{total, total_congr}

-- The first `num` entries of `help` are those that the loops have gone past, in ascending order,
-- and none is above what comes next.
pub record Merged (a help : Array) (l lb le rb re num : ℕ) : Type 0 where
  pub lower : l ≤ lb
  pub left : lb ≤ le
  pub middle : le ≤ rb
  pub right : rb ≤ re
  pub inside : re ≤ a.size
  pub room : re ≤ l + help.size
  pub counted : num + l + le ≡ lb + rb
  pub sorted : IsSortedIn help 0 num
  pub below_left : lb < le → (k : ℕ) → k < num → help.at k ≤ℤ a.at lb
  pub below_right : rb < re → (k : ℕ) → k < num → help.at k ≤ℤ a.at rb
  pub items : (w : ℤ → ℕ) → total w help.at 0 num ≡ total w a.at l lb + total w a.at le rb

total_last :
    (w : ℤ → ℕ) (f : ℕ → ℤ) (lo h : ℕ) → lo ≤ h → total w f lo (suc h) ≡ total w f lo h + w (f h)
total_last w f lo h p = ground arith

-- One more entry at the end of `help`.
module _ (help : Array) (num : ℕ) (x : ℤ) (top : (k : ℕ) → k < num → help.at k ≤ℤ x) where
  write_sorted : IsSortedIn help 0 num → IsSortedIn (write help num x) 0 (suc num)
  write_sorted s i j p q r = elim (ℕ_discrete j num) [
    | yes last ↦ elim (ℕ_discrete i num) [
      | yes same ↦ ground arith
      | no less ↦ ground (arith, top i (omega arith))
    ]
    | no before ↦ ground (arith, s i j p q (omega arith))
  ]

  total-write :
      (w : ℤ → ℕ) → total w (write help num x).at 0 (suc num) ≡ total w help.at 0 num + w x
  total-write w =
      let same = total_congr w (write help num x).at help.at 0 num (λ k p q. ground arith) in
      ground arith

module _ (a help : Array) (l lb le rb re num : ℕ) (v : Merged a help l lb le rb re num) where
  module _ (lt : lb < le) (first : rb < re → a.at lb ≤ℤ a.at rb) (s : IsSortedIn a l le) where
    take_left :
        (put help num (a.at lb) ≡ some (write help num (a.at lb)))
        × Merged a (write help num (a.at lb)) l (suc lb) le rb re (suc num)
    unfolding put
    take_left = (
      ground (arith, v.room, v.counted, v.left, v.right, v.middle),
      record {
        lower = omega (arith, v.lower);
        left = lt;
        middle = v.middle;
        right = v.right;
        inside = v.inside;
        room = v.room;
        counted = omega (arith, v.counted);
        sorted = write_sorted help num (a.at lb) (v.below_left lt) v.sorted;
        below_left = λ lt' k p. elim (ℕ_discrete k num) [
          | yes last ↦ ground (arith, s lb (suc lb) v.lower (omega arith) lt')
          | no before ↦
              ground
                (arith, s lb (suc lb) v.lower (omega arith) lt', v.below_left lt k (omega arith))
        ];
        below_right = λ lt' k p. elim (ℕ_discrete k num) [
          | yes last ↦ ground (arith, first lt')
          | no before ↦ ground (arith, v.below_right lt' k (omega arith))
        ];
        items = λ w. omega (
          arith,
          total-write help num (a.at lb) (v.below_left lt) w,
          v.items w,
          total_last w a.at l lb v.lower,
        );
      },
    )

  module _ (lt : rb < re) (first : lb < le → a.at rb ≤ℤ a.at lb) (s : IsSortedIn a le re) where
    take_right :
        (put help num (a.at rb) ≡ some (write help num (a.at rb)))
        × Merged a (write help num (a.at rb)) l lb le (suc rb) re (suc num)
    unfolding put
    take_right = (
      ground (arith, v.room, v.counted, v.left, v.right, v.middle),
      record {
        lower = v.lower;
        left = v.left;
        middle = omega (arith, v.middle);
        right = lt;
        inside = v.inside;
        room = v.room;
        counted = omega (arith, v.counted);
        sorted = write_sorted help num (a.at rb) (v.below_right lt) v.sorted;
        below_left = λ lt' k p. elim (ℕ_discrete k num) [
          | yes last ↦ ground (arith, first lt')
          | no before ↦ ground (arith, v.below_left lt' k (omega arith))
        ];
        below_right = λ lt' k p. elim (ℕ_discrete k num) [
          | yes last ↦ ground (arith, s rb (suc rb) v.middle (omega arith) lt')
          | no before ↦
              ground
                (arith, s rb (suc rb) v.middle (omega arith) lt', v.below_right lt k (omega arith))
        ];
        items = λ w. omega (
          arith,
          total-write help num (a.at rb) (v.below_right lt) w,
          v.items w,
          total_last w a.at le rb v.middle,
        );
      },
    )

module _ (a : Array) (l le re : ℕ) (sl : IsSortedIn a l le) (sr : IsSortedIn a le re) where
  pub merge_loop-Merged :
      (n : ℕ) (help : Array) (lb rb num : ℕ)
      → le + re < lb + rb + n
      → Merged a help l lb le rb re num
      → (s : Stop) × (merge_loop n a help lb le rb re num ≡ some s)
        × Merged a s.help l s.lbegin le s.rbegin re s.num
        × ((s.lbegin ≡ le) ⊎ (s.rbegin ≡ re))
        × (s.help.size ≡ help.size)
  unfolding merge_loop read
  merge_loop-Merged zero help lb rb num enough v = absurd (omega (arith, v.left, v.right))
  merge_loop-Merged (suc n) help lb rb num enough v = elim (dec_lt lb le) [
    | no done ↦ (
      record { help = help; lbegin = lb; rbegin = rb; num = num },
      ground arith,
      v,
      inl (omega (arith, v.left)),
      refl,
    )
    | yes more_left ↦ elim (dec_lt rb re) [
      | no done ↦ (
        record { help = help; lbegin = lb; rbegin = rb; num = num },
        ground arith,
        v,
        inr (omega (arith, v.right)),
        refl,
      )
      | yes more_right ↦
          let in_left : lb < a.size = omega (arith, v.inside, v.middle, v.right) in
          let in_right : rb < a.size = omega (arith, v.inside) in
          elim (dec_lt (pos_part (a.at lb) + neg_part (a.at rb))
            (pos_part (a.at rb) + neg_part (a.at lb))) [
              | yes less ↦
                  let (e, v') =
                    take_left a help l lb le rb re num v more_left (λ x. omega arith) sl in
                  let (s, f, w, stop, size) =
                    merge_loop-Merged n (write help num (a.at lb)) (suc lb) rb (suc num)
                      (omega arith) v' in
                  (s, ground arith, w, stop, size)
              | no not_less ↦
                  let (e, v') =
                    take_right a help l lb le rb re num v more_right (λ x. omega arith) sr in
                  let (s, f, w, stop, size) =
                    merge_loop-Merged n (write help num (a.at rb)) lb (suc rb) (suc num)
                      (omega arith) v' in
                  (s, ground arith, w, stop, size)
            ]
    ]
  ]

  -- What is left on the left, when nothing is left on the right.
  pub copy_left-Merged :
      (n : ℕ) (help : Array) (lb num : ℕ)
      → le < lb + n
      → Merged a help l lb le re re num
      → (h : Array) × (m : ℕ) × (copy_loop n a help lb le num ≡ some (h, m))
        × Merged a h l le le re re m
        × (h.size ≡ help.size)
  unfolding copy_loop read
  copy_left-Merged zero help lb num enough v = absurd (omega (arith, v.left))
  copy_left-Merged (suc n) help lb num enough v = elim (dec_lt lb le) [
    | no done ↦
        let e : lb ≡ le = omega (arith, v.left) in
        (help, num, ground arith, subst (λ i. Merged a help l i le re re num) e v, refl)
    | yes more ↦
        let in_left : lb < a.size = omega (arith, v.inside, v.middle) in
        let (e, v') = take_left a help l lb le re re num v more (λ x. absurd (omega arith)) sl in
        let (h, m, f, w, size) =
          copy_left-Merged n (write help num (a.at lb)) (suc lb) (suc num) (omega arith) v' in
        (h, m, ground arith, w, size)
  ]

  -- What is left on the right, when nothing is left on the left.
  pub copy_right-Merged :
      (n : ℕ) (help : Array) (rb num : ℕ)
      → re < rb + n
      → Merged a help l le le rb re num
      → (h : Array) × (m : ℕ) × (copy_loop n a help rb re num ≡ some (h, m))
        × Merged a h l le le re re m
        × (h.size ≡ help.size)
  unfolding copy_loop read
  copy_right-Merged zero help rb num enough v = absurd (omega (arith, v.right))
  copy_right-Merged (suc n) help rb num enough v = elim (dec_lt rb re) [
    | no done ↦
        let e : rb ≡ re = omega (arith, v.right) in
        (help, num, ground arith, subst (λ i. Merged a help l le le i re num) e v, refl)
    | yes more ↦
        let in_right : rb < a.size = omega (arith, v.inside) in
        let (e, v') = take_right a help l le le rb re num v more (λ x. absurd (omega arith)) sr in
        let (h, m, f, w, size) =
          copy_right-Merged n (write help num (a.at rb)) (suc rb) (suc num) (omega arith) v' in
        (h, m, ground arith, w, size)
  ]
