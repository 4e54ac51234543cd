-- ===== src/SharedPtr/WeakSound.antt =====
-- The calls on weak_ptr.
use codelab.Base.{
  ℕ, ◌+◌, ◌<◌, ◌≡◌, refl, ◌∷◌, some, arith, Option-cases, inl, inr, get_elem?, set, length-set,
}
use codelab.SharedCount.{World}
use codelab.SharedCount.Balance.{limit, bump, Balanced}
use codelab.SharedCount.Handles.{
  Balanced-ext, weak_copy-Balanced, weak_drop-Balanced, weak_assign-Balanced,
}
use codelab.SharedPtr.{Ptr, Swaps, copy_weak_ptr, assign_weak_ptr}
use codelab.SharedPtr.Clients.{
  Client, weaken, copy_weak, drop_weak, assign_weak, assign_shared, remove, All-set, All-remove,
  All-get_elem?, step,
}
use codelab.SharedPtr.Counted.{
  Sound, Good, counted, counted-set, counted-remove, counted-le, counted-pos, length-remove-le,
  handles, Steps, Gives,
}

copy_weak_ptr-Gives :
    (r : Ptr) (w : World) (s k : ℕ → ℕ)
    → Balanced w s k
    → (0 < r.pn → 0 < s r.pn + k r.pn)
    → k r.pn < limit
    → Gives (copy_weak_ptr r w) r s (bump k r.pn)
unfolding copy_weak_ptr
copy_weak_ptr-Gives r w s k v held small =
    let (w', ran, kept) = weak_copy-Balanced w s k r.pn v held small in
    (w', ground (arith, ran), kept)

pub assign_weak_ptr-Gives :
    (this r : Ptr) (w : World) (s k : ℕ → ℕ)
    → Balanced w s (bump k this.pn)
    → (0 < r.pn → 0 < s r.pn + bump k this.pn r.pn)
    → k r.pn + 1 < limit
    → k this.pn + 1 < limit
    → Gives (assign_weak_ptr this r w) r s (bump k r.pn)
unfolding assign_weak_ptr
assign_weak_ptr-Gives this r w s k v held small small' =
    let (w', ran, kept) = weak_assign-Balanced w s k this.pn r.pn v held small small' in
    (w', ground (arith, ran), kept)

module _ (sw : Swaps) (c : Client) (v : Sound c) (small : handles c + 1 < limit) where
  -- A weak pointer more, copied from a pointer of either kind.
  one_more :
      (r : Ptr)
      → Good c.next r
      → 0 < counted c.shared r.pn + counted c.weak r.pn
      → (w : World) × (copy_weak_ptr r c.world ≡ some (r, w))
        × Sound (record c { world = w; weak = r ∷ c.weak })
  one_more r good held =
      let (w, ran, kept) =
        copy_weak_ptr-Gives r c.world (counted c.shared) (counted c.weak) v.balanced (λ _. held)
          (omega (arith, counted-le c.weak r.pn)) in
      (
        w,
        ran,
        record { balanced = kept; shared = v.shared; weak = (good, v.weak); started = v.started },
      )

  pub weaken-Sound : (i : ℕ) → Steps sw (weaken i) c
  unfolding step
  weaken-Sound i = elim (Option-cases (get_elem? c.shared i)) [
    | inl e ↦ (c, ground arith, v, omega arith)
    | inr (r, e) ↦
        let (w, ran, kept) =
          one_more r (All-get_elem? (Good c.next) c.shared i r v.shared e)
            (omega (arith, counted-pos c.shared i r e)) in
        (record c { world = w; weak = r ∷ c.weak }, ground (arith, ran), kept, omega arith)
  ]

  pub copy_weak-Sound : (i : ℕ) → Steps sw (copy_weak i) c
  unfolding step
  copy_weak-Sound i = elim (Option-cases (get_elem? c.weak i)) [
    | inl e ↦ (c, ground arith, v, omega arith)
    | inr (r, e) ↦
        let (w, ran, kept) =
          one_more r (All-get_elem? (Good c.next) c.weak i r v.weak e)
            (omega (arith, counted-pos c.weak i r e)) in
        (record c { world = w; weak = r ∷ c.weak }, ground (arith, ran), kept, omega arith)
  ]

  pub drop_weak-Sound : (i : ℕ) → Steps sw (drop_weak i) c
  unfolding step
  drop_weak-Sound i = elim (Option-cases (get_elem? c.weak i)) [
    | inl e ↦ (c, ground arith, v, omega arith)
    | inr (r, e) ↦
        let (w, ran, kept) =
          weak_drop-Balanced c.world (counted c.shared) (counted (remove c.weak i)) r.pn
            (Balanced-ext _ _ v.balanced (λ p h. refl) (λ p h. counted-remove c.weak i r p e))
            (ground (arith, counted-remove c.weak i r r.pn e, counted-le c.weak r.pn)) in
        (
          record c { world = w; weak = remove c.weak i },
          ground (arith, ran),
          record {
            balanced = kept;
            shared = v.shared;
            weak = All-remove (Good c.next) c.weak i v.weak;
            started = v.started;
          },
          omega (arith, length-remove-le c.weak i),
        )
  ]

  -- A weak pointer assigned to from a pointer of either kind.
  assigned :
      (i : ℕ) (this r : Ptr)
      → get_elem? c.weak i ≡ some this
      → Good c.next r
      → 0 < counted c.shared r.pn + counted c.weak r.pn
      → (w : World) × (assign_weak_ptr this r c.world ≡ some (r, w))
        × Sound (record c { world = w; weak = set c.weak i r })
  assigned i this r e good held =
      let rest = counted (remove c.weak i) in
      let (w, ran, kept) =
        assign_weak_ptr-Gives this r c.world (counted c.shared) rest
          (Balanced-ext _ _ v.balanced (λ p h. refl) (λ p h. counted-remove c.weak i this p e))
          (λ h. ground (arith, held, counted-remove c.weak i this r.pn e))
          (ground (arith, counted-remove c.weak i this r.pn e, counted-le c.weak r.pn))
          (ground (arith, counted-remove c.weak i this this.pn e, counted-le c.weak this.pn)) in
      (
        w,
        ran,
        record {
          balanced =
              Balanced-ext (counted c.shared) (counted (set c.weak i r)) kept (λ p h. refl)
                (λ p h.
                  ground
                    (arith, counted-remove c.weak i this p e, counted-set c.weak i this r p e));
          shared = v.shared;
          weak = All-set (Good c.next) c.weak i r good v.weak;
          started = v.started;
        },
      )

  pub assign_weak-Sound : (i j : ℕ) → Steps sw (assign_weak i j) c
  unfolding step
  assign_weak-Sound i j = elim (Option-cases (get_elem? c.weak i)) [
    | inl e ↦ (c, ground arith, v, omega arith)
    | inr (this, e) ↦ elim (Option-cases (get_elem? c.weak j)) [
      | inl none_j ↦ (c, ground arith, v, omega arith)
      | inr (r, f) ↦
          let (w, ran, kept) =
            assigned i this r e (All-get_elem? (Good c.next) c.weak j r v.weak f)
              (omega (arith, counted-pos c.weak j r f)) in
          (
            record c { world = w; weak = set c.weak i r },
            ground (arith, ran),
            kept,
            omega (arith, length-set c.weak i r),
          )
    ]
  ]

  pub assign_shared-Sound : (i j : ℕ) → Steps sw (assign_shared i j) c
  unfolding step
  assign_shared-Sound i j = elim (Option-cases (get_elem? c.weak i)) [
    | inl e ↦ (c, ground arith, v, omega arith)
    | inr (this, e) ↦ elim (Option-cases (get_elem? c.shared j)) [
      | inl none_j ↦ (c, ground arith, v, omega arith)
      | inr (r, f) ↦
          let (w, ran, kept) =
            assigned i this r e (All-get_elem? (Good c.next) c.shared j r v.shared f)
              (omega (arith, counted-pos c.shared j r f)) in
          (
            record c { world = w; weak = set c.weak i r },
            ground (arith, ran),
            kept,
            omega (arith, length-set c.weak i r),
          )
    ]
  ]
