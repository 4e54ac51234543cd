-- ===== src/SharedCount/WeakSound.antt =====
-- The calls on `weak_count`.
use codelab.Base.{
  ℕ, ◌+◌, ◌<◌, ◌≡◌, refl, ◌∷◌, some, arith, Option-cases, inl, inr, get_elem?, set, length-set,
}
use codelab.SharedCount.Balance.{limit}
use codelab.SharedCount.Handles.{
  Balanced-ext, weak_copy-Balanced, weak_drop-Balanced, weak_assign-Balanced,
}
use codelab.SharedCount.Clients.{
  Client, weaken, copy_weak, move_weak, drop_weak, assign_weak, assign_shared, remove, count, step,
  count-set, count-remove, count-le, count-pos, length-remove-le,
}
use codelab.SharedCount.Sound.{Sound, handles, Steps}

module _ (c : Client) (v : Sound c) (small : handles c + 1 < limit) where
  pub weaken-Sound : (i : ℕ) → Steps (weaken i) c
  unfolding step
  weaken-Sound i = elim (Option-cases (get_elem? c.shared i)) [
    | inl e ↦ (c, ground arith, v, omega arith)
    | inr (r, e) ↦
        let (w, ran, kept) =
          weak_copy-Balanced c.world (count c.shared) (count c.weak) r v.balanced
            (λ _. omega (arith, count-pos c.shared i r e)) (omega (arith, count-le c.weak r)) in
        (
          record c { world = w; weak = r ∷ c.weak },
          ground (arith, ran),
          record {
            balanced = kept;
            fresh = λ p h. ground (arith, v.fresh p h, count-pos c.shared i r e);
            started = v.started;
          },
          omega arith,
        )
  ]

  pub copy_weak-Sound : (i : ℕ) → Steps (copy_weak i) c
  unfolding step
  copy_weak-Sound i = elim (Option-cases (get_elem? c.weak i)) [
    | inl e ↦ (c, ground arith, v, omega arith)
    | inr (r, e) ↦
        let (w, ran, kept) =
          weak_copy-Balanced c.world (count c.shared) (count c.weak) r v.balanced
            (λ _. omega (arith, count-pos c.weak i r e)) (omega (arith, count-le c.weak r)) in
        (
          record c { world = w; weak = r ∷ c.weak },
          ground (arith, ran),
          record {
            balanced = kept;
            fresh = λ p h. ground (arith, v.fresh p h, count-pos c.weak i r e);
            started = v.started;
          },
          omega arith,
        )
  ]

  pub move_weak-Sound : (i : ℕ) → Steps (move_weak i) c
  unfolding step
  move_weak-Sound i = elim (Option-cases (get_elem? c.weak i)) [
    | inl e ↦ (c, ground arith, v, omega arith)
    | inr (r, e) ↦ (
      record c { weak = r ∷ set c.weak i 0 },
      ground arith,
      record {
        balanced =
            Balanced-ext (count c.shared) (count (r ∷ set c.weak i 0)) v.balanced (λ p h. refl)
              (λ p h. ground (arith, count-set c.weak i r 0 p e));
        fresh = λ p h. ground (arith, v.fresh p h, v.started, count-set c.weak i r 0 p e);
        started = v.started;
      },
      omega (arith, length-set c.weak i 0),
    )
  ]

  pub drop_weak-Sound : (i : ℕ) → Steps (drop_weak i) c
  unfolding step
  drop_weak-Sound i = elim (Option-cases (get_elem? c.weak i)) [
    | inl e ↦ (c, ground arith, v, omega arith)
    | inr (r, e) ↦
        let (w, ran, kept) =
          weak_drop-Balanced c.world (count c.shared) (count (remove c.weak i)) r
            (Balanced-ext _ _ v.balanced (λ p h. refl) (λ p h. count-remove c.weak i r p e))
            (ground (arith, count-remove c.weak i r r e, count-le c.weak r)) in
        (
          record c { world = w; weak = remove c.weak i },
          ground (arith, ran),
          record {
            balanced = kept;
            fresh = λ p h. ground (arith, v.fresh p h, count-remove c.weak i r p e);
            started = v.started;
          },
          omega (arith, length-remove-le c.weak i),
        )
  ]

  assign_weak_found :
      (i j pi r : ℕ)
      → get_elem? c.weak i ≡ some pi
      → get_elem? c.weak j ≡ some r
      → Steps (assign_weak i j) c
  unfolding step
  assign_weak_found i j pi r e f =
      let (w, ran, kept) =
        weak_assign-Balanced c.world (count c.shared) (count (remove c.weak i)) pi r
          (Balanced-ext _ _ v.balanced (λ p h. refl) (λ p h. count-remove c.weak i pi p e))
          (λ h. ground (arith, count-pos c.weak j r f, count-remove c.weak i pi r e))
          (ground (arith, count-remove c.weak i pi r e, count-le c.weak r))
          (ground (arith, count-remove c.weak i pi pi e, count-le c.weak pi)) in
      (
        record c { world = w; weak = set c.weak i r },
        ground (arith, ran),
        record {
          balanced =
              Balanced-ext (count c.shared) (count (set c.weak i r)) kept (λ p h. refl)
                (λ p h. ground (arith, count-remove c.weak i pi p e, count-set c.weak i pi r p e));
          fresh = λ p h.
              ground (arith, v.fresh p h, count-pos c.weak j r f, count-set c.weak i pi r p e);
          started = v.started;
        },
        omega (arith, length-set c.weak i r),
      )

  pub assign_weak-Sound : (i j : ℕ) → Steps (assign_weak i j) c
  unfolding step
  assign_weak-Sound i j = elim (Option-cases (get_elem? c.weak i)) [
    | inl e ↦ (c, ground arith, v, omega arith)
    | inr (pi, e) ↦ elim (Option-cases (get_elem? c.weak j)) [
      | inl none_j ↦ (c, ground arith, v, omega arith)
      | inr (r, f) ↦ assign_weak_found i j pi r e f
    ]
  ]

  assign_shared_found :
      (i j pi r : ℕ)
      → get_elem? c.weak i ≡ some pi
      → get_elem? c.shared j ≡ some r
      → Steps (assign_shared i j) c
  unfolding step
  assign_shared_found i j pi r e f =
      let (w, ran, kept) =
        weak_assign-Balanced c.world (count c.shared) (count (remove c.weak i)) pi r
          (Balanced-ext _ _ v.balanced (λ p h. refl) (λ p h. count-remove c.weak i pi p e))
          (λ h. ground (arith, count-pos c.shared j r f, count-remove c.weak i pi r e))
          (ground (arith, count-remove c.weak i pi r e, count-le c.weak r))
          (ground (arith, count-remove c.weak i pi pi e, count-le c.weak pi)) in
      (
        record c { world = w; weak = set c.weak i r },
        ground (arith, ran),
        record {
          balanced =
              Balanced-ext (count c.shared) (count (set c.weak i r)) kept (λ p h. refl)
                (λ p h. ground (arith, count-remove c.weak i pi p e, count-set c.weak i pi r p e));
          fresh = λ p h.
              ground (arith, v.fresh p h, count-pos c.shared j r f, count-set c.weak i pi r p e);
          started = v.started;
        },
        omega (arith, length-set c.weak i r),
      )

  pub assign_shared-Sound : (i j : ℕ) → Steps (assign_shared i j) c
  unfolding step
  assign_shared-Sound i j = elim (Option-cases (get_elem? c.weak i)) [
    | inl e ↦ (c, ground arith, v, omega arith)
    | inr (pi, e) ↦ elim (Option-cases (get_elem? c.shared j)) [
      | inl none_j ↦ (c, ground arith, v, omega arith)
      | inr (r, f) ↦ assign_shared_found i j pi r e f
    ]
  ]
