-- ===== src/SharedCount/Sound.antt =====
-- What holds between the calls of a program, and the calls on `shared_count`.
use codelab.Base.{
  ℕ, suc, ◌+◌, ◌≤◌, ◌<◌, ◌≡◌, refl, ◌∷◌, some, arith, Option-cases, inl, inr, length, get_elem?,
  set, length-set,
}
use codelab.SharedCount.Balance.{limit, Balanced, new_block-Balanced}
use codelab.SharedCount.Handles.{
  Balanced-ext, shared_copy-Balanced, shared_drop-Balanced, shared_assign-Balanced,
}
use codelab.SharedCount.Clients.{
  Client, Call, make, copy, move, drop, assign, remove, count, step, count-set, count-remove,
  count-le, count-pos, length-remove-le,
}

pub record Sound (c : Client) : Type 0 where
  pub balanced : Balanced c.world (count c.shared) (count c.weak)
  pub fresh : (p : ℕ) → c.next ≤ p → (count c.shared p ≡ 0) × (count c.weak p ≡ 0)
  pub started : 0 < c.next

-- How many handles there are.
abbrev pub handles : Client → ℕ
handles c = length c.shared + length c.weak

abbrev pub Steps : Call → Client → Type 0
Steps x c = (d : Client) × (step x c ≡ some d) × Sound d × (handles d ≤ handles c + 1)

module _ (c : Client) (v : Sound c) (small : handles c + 1 < limit) where
  pub make-Sound : Steps make c
  unfolding step
  make-Sound = (
    _,
    refl,
    record {
      balanced =
          new_block-Balanced c.world (count c.shared) (count c.weak) c.next v.started v.balanced
            (ground (arith, v.balanced.blocks (suc c.next) (omega arith), v.fresh (suc c.next)));
      fresh = λ p h. ground (arith, v.fresh p);
      started = omega arith;
    },
    omega arith,
  )

  pub copy-Sound : (i : ℕ) → Steps (copy i) c
  unfolding step
  copy-Sound i = elim (Option-cases (get_elem? c.shared i)) [
    | inl e ↦ (c, ground arith, v, omega arith)
    | inr (r, e) ↦
        let (w, ran, kept) =
          shared_copy-Balanced c.world (count c.shared) (count c.weak) r v.balanced
            (λ _. count-pos c.shared i r e) (omega (arith, count-le c.shared r)) in
        (
          record c { world = w; shared = r ∷ c.shared },
          ground (arith, ran),
          record {
            balanced = kept;
            fresh = λ p h. ground (arith, v.fresh p h, count-pos c.shared i r e);
            started = v.started;
          },
          omega arith,
        )
  ]

  pub move-Sound : (i : ℕ) → Steps (move i) c
  unfolding step
  move-Sound i = elim (Option-cases (get_elem? c.shared i)) [
    | inl e ↦ (c, ground arith, v, omega arith)
    | inr (r, e) ↦ (
      record c { shared = r ∷ set c.shared i 0 },
      ground arith,
      record {
        balanced =
            Balanced-ext (count (r ∷ set c.shared i 0)) (count c.weak) v.balanced
              (λ p h. ground (arith, count-set c.shared i r 0 p e)) (λ p h. refl);
        fresh = λ p h. ground (arith, v.fresh p h, v.started, count-set c.shared i r 0 p e);
        started = v.started;
      },
      omega (arith, length-set c.shared i 0),
    )
  ]

  pub drop-Sound : (i : ℕ) → Steps (drop i) c
  unfolding step
  drop-Sound i = elim (Option-cases (get_elem? c.shared i)) [
    | inl e ↦ (c, ground arith, v, omega arith)
    | inr (r, e) ↦
        let (w, ran, kept) =
          shared_drop-Balanced c.world (count (remove c.shared i)) (count c.weak) r
            (Balanced-ext _ _ v.balanced (λ p h. count-remove c.shared i r p e) (λ p h. refl))
            (ground (arith, count-remove c.shared i r r e, count-le c.shared r))
            (omega (arith, count-le c.weak r)) in
        (
          record c { world = w; shared = remove c.shared i },
          ground (arith, ran),
          record {
            balanced = kept;
            fresh = λ p h. ground (arith, v.fresh p h, count-remove c.shared i r p e);
            started = v.started;
          },
          omega (arith, length-remove-le c.shared i),
        )
  ]

  pub assign-Sound : (i j : ℕ) → Steps (assign i j) c
  unfolding step
  assign-Sound i j = elim (Option-cases (get_elem? c.shared i)) [
    | inl e ↦ (c, ground arith, v, omega arith)
    | inr (p, e) ↦ elim (Option-cases (get_elem? c.shared j)) [
      | inl none_j ↦ (c, ground arith, v, omega arith)
      | inr (r, f) ↦ assign_found i j p r e f
    ]
  ]
    where
      assign_found :
          (i j pi r : ℕ)
          → get_elem? c.shared i ≡ some pi
          → get_elem? c.shared j ≡ some r
          → Steps (assign i j) c
      assign_found i j pi r e f =
          let rest = count (remove c.shared i) in
          let (w, ran, kept) =
            shared_assign-Balanced c.world rest (count c.weak) pi r
              (Balanced-ext _ _ v.balanced (λ p h. count-remove c.shared i pi p e) (λ p h. refl))
              (λ h. ground (arith, count-pos c.shared j r f, count-remove c.shared i pi r e))
              (ground (arith, count-remove c.shared i pi r e, count-le c.shared r))
              (ground (arith, count-remove c.shared i pi pi e, count-le c.shared pi))
              (omega (arith, count-le c.weak pi)) in
          (
            record c { world = w; shared = set c.shared i r },
            ground (arith, ran),
            record {
              balanced =
                  Balanced-ext (count (set c.shared i r)) (count c.weak) kept
                    (λ p h.
                      ground (arith, count-remove c.shared i pi p e, count-set c.shared i pi r p e))
                    (λ p h. refl);
              fresh = λ p h.
                  ground
                    (arith, v.fresh p h, count-pos c.shared j r f, count-set c.shared i pi r p e);
              started = v.started;
            },
            omega (arith, length-set c.shared i r),
          )
