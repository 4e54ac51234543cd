-- ===== src/SharedPtr/Sound.antt =====
-- The calls on shared_ptr.
use codelab.Base.{
  ℕ, ◌+◌, ◌<◌, ◌≡◌, refl, sym, ◌∷◌, some, arith, Option-cases, inl, inr, get_elem?, set, length-set,
}
use codelab.SharedCount.Balance.{limit, bump}
use codelab.SharedCount.Handles.{Balanced-ext, shared_drop-Balanced}
use codelab.SharedPtr.{Ptr, Swaps, null_ptr, move_ptr, assign_ptr, reset_ptr}
use codelab.SharedPtr.Clients.{
  Client, make, copy, move, drop, assign, move_assign, reset, remove, All-set, All-remove,
  All-get_elem?, All-weaken, step,
}
use codelab.SharedPtr.Counted.{
  Exchanges, counted, Good, Sound, counted-set, counted-remove, counted-le, length-remove-le,
  counted-pos, handles, Steps, swap_in-Gives, copy_ptr-Gives, fresh_ptr, make_ptr-Gives,
}

module _ (sw : Swaps) (ok : Exchanges sw) (c : Client) (v : Sound c)
    (small : handles c + 1 < limit) where
  pub make-Sound : Steps sw make c
  unfolding step
  make-Sound =
      let (w, ran, kept) = make_ptr-Gives sw ok c v in
      (
        record c { world = w; shared = fresh_ptr c.next ∷ c.shared; next = c.next + 2 },
        ground (arith, ran),
        record {
          balanced = kept;
          shared = (
            (omega arith, omega arith),
            All-weaken (Good c.next) (Good (c.next + 2)) (λ q h. (h.0, omega (arith, h.1))) c.shared
                v.shared,
          );
          weak =
              All-weaken (Good c.next) (Good (c.next + 2)) (λ q h. (h.0, omega (arith, h.1))) c.weak
                v.weak;
          started = omega arith;
        },
        omega arith,
      )

  pub copy-Sound : (i : ℕ) → Steps sw (copy i) c
  unfolding step
  copy-Sound i = elim (Option-cases (get_elem? c.shared i)) [
    | inl e ↦ (c, ground arith, v, omega arith)
    | inr (r, e) ↦
        let (w, ran, kept) =
          copy_ptr-Gives sw ok r c.world (counted c.shared) (counted c.weak) v.balanced
            (λ _. counted-pos c.shared i r e) (omega (arith, counted-le c.shared r.pn)) in
        (
          record c { world = w; shared = r ∷ c.shared },
          ground (arith, ran),
          record {
            balanced = kept;
            shared = (All-get_elem? (Good c.next) c.shared i r v.shared e, v.shared);
            weak = v.weak;
            started = v.started;
          },
          omega arith,
        )
  ]

  pub move-Sound : (i : ℕ) → Steps sw (move i) c
  unfolding step move_ptr
  move-Sound i = elim (Option-cases (get_elem? c.shared i)) [
    | inl e ↦ (c, ground arith, v, omega arith)
    | inr (r, e) ↦ (
      record c { shared = r ∷ set c.shared i null_ptr },
      ground (arith, ok.counts 0 r.pn),
      record {
        balanced =
            Balanced-ext (counted (r ∷ set c.shared i null_ptr)) (counted c.weak) v.balanced
              (λ p h. ground (arith, counted-set c.shared i r null_ptr p e)) (λ p h. refl);
        shared = (
          All-get_elem? (Good c.next) c.shared i r v.shared e,
          All-set (Good c.next) c.shared i null_ptr (refl, v.started) v.shared,
        );
        weak = v.weak;
        started = v.started;
      },
      omega (arith, length-set c.shared i null_ptr),
    )
  ]

  pub drop-Sound : (i : ℕ) → Steps sw (drop i) c
  unfolding step
  drop-Sound i = elim (Option-cases (get_elem? c.shared i)) [
    | inl e ↦ (c, ground arith, v, omega arith)
    | inr (r, e) ↦
        let (w, ran, kept) =
          shared_drop-Balanced c.world (counted (remove c.shared i)) (counted c.weak) r.pn
            (Balanced-ext _ _ v.balanced (λ p h. counted-remove c.shared i r p e) (λ p h. refl))
            (ground (arith, counted-remove c.shared i r r.pn e, counted-le c.shared r.pn))
            (omega (arith, counted-le c.weak r.pn)) in
        (
          record c { world = w; shared = remove c.shared i },
          ground (arith, ran),
          record {
            balanced = kept;
            shared = All-remove (Good c.next) c.shared i v.shared;
            weak = v.weak;
            started = v.started;
          },
          omega (arith, length-remove-le c.shared i),
        )
  ]

  assign_found :
      (i j : ℕ) (this r : Ptr)
      → get_elem? c.shared i ≡ some this
      → get_elem? c.shared j ≡ some r
      → Steps sw (assign i j) c
  unfolding step assign_ptr
  assign_found i j this r e f =
      let (w, ran, kept) =
        copy_ptr-Gives sw ok r c.world (counted c.shared) (counted c.weak) v.balanced
          (λ _. counted-pos c.shared j r f) (omega (arith, counted-le c.shared r.pn)) in
      let (w', ran', kept') =
        swap_in-Gives sw ok r this w (counted (set c.shared i r)) (counted c.weak)
          (Balanced-ext _ _ kept (λ p h. counted-set' i this r p e) (λ p h. refl))
          (ground (arith, counted-le (set c.shared i r) this.pn, length-set c.shared i r))
          (omega (arith, counted-le c.weak this.pn)) in
      (
        record c { world = w'; shared = set c.shared i r },
        ground (arith, ran, ran'),
        record {
          balanced = kept';
          shared =
              All-set (Good c.next) c.shared i r
                (All-get_elem? (Good c.next) c.shared j r v.shared f) v.shared;
          weak = v.weak;
          started = v.started;
        },
        omega (arith, length-set c.shared i r),
      )
    where
      counted-set' :
          (i : ℕ) (x y : Ptr) (p : ℕ)
          → get_elem? c.shared i ≡ some x
          → bump (counted c.shared) y.pn p ≡ bump (counted (set c.shared i y)) x.pn p
      counted-set' i x y p e = sym (counted-set c.shared i x y p e)

  pub assign-Sound : (i j : ℕ) → Steps sw (assign i j) c
  unfolding step
  assign-Sound i j = elim (Option-cases (get_elem? c.shared i)) [
    | inl e ↦ (c, ground arith, v, omega arith)
    | inr (this, e) ↦ elim (Option-cases (get_elem? c.shared j)) [
      | inl none_j ↦ (c, ground arith, v, omega arith)
      | inr (r, f) ↦ assign_found i j this r e f
    ]
  ]

  reset_found : (i : ℕ) (this : Ptr) → get_elem? c.shared i ≡ some this → Steps sw (reset i) c
  unfolding step reset_ptr
  reset_found i this e =
      let new = fresh_ptr c.next in
      let (w, ran, kept) = make_ptr-Gives sw ok c v in
      let (w', ran', kept') =
        swap_in-Gives sw ok new this w (counted (set c.shared i new)) (counted c.weak)
          (Balanced-ext _ _ kept (λ p h. sym (counted-set c.shared i this new p e)) (λ p h. refl))
          (ground (arith, counted-le (set c.shared i new) this.pn, length-set c.shared i new))
          (omega (arith, counted-le c.weak this.pn)) in
      (
        record c { world = w'; shared = set c.shared i new; next = c.next + 2 },
        ground (arith, ran, ran'),
        record {
          balanced = kept';
          shared =
              All-set (Good (c.next + 2)) c.shared i new (omega arith, omega arith)
                (All-weaken (Good c.next) (Good (c.next + 2)) (λ q h. (h.0, omega (arith, h.1)))
                  c.shared v.shared);
          weak =
              All-weaken (Good c.next) (Good (c.next + 2)) (λ q h. (h.0, omega (arith, h.1))) c.weak
                v.weak;
          started = omega arith;
        },
        omega (arith, length-set c.shared i new),
      )

  pub reset-Sound : (i : ℕ) → Steps sw (reset i) c
  unfolding step
  reset-Sound i = elim (Option-cases (get_elem? c.shared i)) [
    | inl e ↦ (c, ground arith, v, omega arith)
    | inr (this, e) ↦ reset_found i this e
  ]

  move_assign_found :
      (i j : ℕ) (this r : Ptr)
      → get_elem? c.shared j ≡ some r
      → get_elem? (set c.shared j null_ptr) i ≡ some this
      → Steps sw (move_assign i j) c
  unfolding step move_ptr
  move_assign_found i j this r f e =
      let left = set c.shared j null_ptr in
      let (w, ran, kept) =
        swap_in-Gives sw ok r this c.world (counted (set left i r)) (counted c.weak)
          (Balanced-ext _ _ v.balanced
            (λ p h.
              ground (arith, counted-set c.shared j r null_ptr p f, counted-set left i this r p e))
            (λ p h. refl))
          (ground (
            arith,
            counted-le (set left i r) this.pn,
            length-set left i r,
            length-set c.shared j null_ptr,
          ))
          (omega (arith, counted-le c.weak this.pn)) in
      (
        record c { world = w; shared = set left i r },
        ground (arith, ran, ok.counts 0 r.pn),
        record {
          balanced = kept;
          shared =
              All-set (Good c.next) left i r (All-get_elem? (Good c.next) c.shared j r v.shared f)
                (All-set (Good c.next) c.shared j null_ptr (refl, v.started) v.shared);
          weak = v.weak;
          started = v.started;
        },
        omega (arith, length-set left i r, length-set c.shared j null_ptr),
      )

  pub move_assign-Sound : (i j : ℕ) → Steps sw (move_assign i j) c
  unfolding step move_ptr
  move_assign-Sound i j = elim (Option-cases (get_elem? c.shared j)) [
    | inl e ↦ (c, ground arith, v, omega arith)
    | inr (r, f) ↦ elim (Option-cases (get_elem? (set c.shared j null_ptr) i)) [
      | inl none_i ↦ (c, ground (arith, ok.counts 0 r.pn), v, omega arith)
      | inr (this, e) ↦ move_assign_found i j this r f e
    ]
  ]
