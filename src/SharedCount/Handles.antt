-- ===== src/SharedCount/Handles.antt =====
-- The special members of `shared_count` and `weak_count` on balanced counts, the null handle and
-- self-assignment included.
use codelab.Base.{ℕ, zero, suc, ◌+◌, ◌<◌, ◌≡◌, refl, ◌==◌, arith, Bool-cases, inl, inr}
use codelab.SharedCount.{
  World, shared_drop, shared_copy, shared_assign, weak_drop, weak_copy, weak_assign,
}
use codelab.SharedCount.Balance.{
  limit, bump, Balanced, Succeeds, add_ref_copy-Balanced, weak_add_ref-Balanced,
  weak_release-Balanced, release-Balanced,
}

-- Only the counts at addresses that are not null matter.
pub Balanced-ext :
    {w : World} {s k : ℕ → ℕ} (s' k' : ℕ → ℕ)
    → Balanced w s k
    → ((p : ℕ) → 0 < p → s p ≡ s' p)
    → ((p : ℕ) → 0 < p → k p ≡ k' p)
    → Balanced w s' k'
Balanced-ext {w} s' k' v hs hk = record {
  blocks = λ p h. ground (arith, v.blocks p h, hs p h, hk p h);
}

pub shared_copy-Balanced :
    (w : World) (s k : ℕ → ℕ) (r : ℕ)
    → Balanced w s k
    → (0 < r → 0 < s r)
    → s r < limit
    → Succeeds (shared_copy r w) (bump s r) k
unfolding shared_copy
shared_copy-Balanced w s k zero v held small =
    (w, refl, Balanced-ext (bump s 0) k v (λ p h. ground arith) (λ p h. refl))
shared_copy-Balanced w s k (suc r) v held small =
    let (w', ran, kept) =
      add_ref_copy-Balanced w s k (suc r) (omega arith) v (held (omega arith)) small in
    (w', ground (arith, ran), kept)

pub shared_drop-Balanced :
    (w : World) (s k : ℕ → ℕ) (pi : ℕ)
    → Balanced w (bump s pi) k
    → s pi < limit
    → k pi < limit
    → Succeeds (shared_drop pi w) s k
unfolding shared_drop
shared_drop-Balanced w s k zero v small_s small_k =
    (w, refl, Balanced-ext s k v (λ p h. ground arith) (λ p h. refl))
shared_drop-Balanced w s k (suc pi) v small_s small_k =
    let (w', ran, kept) = release-Balanced w s k (suc pi) (omega arith) v small_s small_k in
    (w', ground (arith, ran), kept)

pub shared_assign-Balanced :
    (w : World) (s k : ℕ → ℕ) (pi r : ℕ)
    → Balanced w (bump s pi) k
    → (0 < r → 0 < bump s pi r)
    → s r + 1 < limit
    → s pi + 1 < limit
    → k pi < limit
    → Succeeds (shared_assign pi r w) (bump s r) k
unfolding shared_assign
shared_assign-Balanced w s k pi r v held small_r small_s small_k = elim (Bool-cases (r == pi)) [
  | inl same ↦ (w, ground arith, Balanced-ext (bump s r) k v (λ p h. ground arith) (λ p h. refl))
  | inr other ↦
      let (w', ran, kept) = shared_copy-Balanced w (bump s pi) k r v held (ground arith) in
      let (w'', ran', kept') =
        shared_drop-Balanced w' (bump s r) k pi
          (Balanced-ext (bump (bump s r) pi) k kept (λ p h. ground arith) (λ p h. refl))
          (ground arith) small_k in
      (w'', ground (arith, ran, ran'), kept')
]

pub weak_copy-Balanced :
    (w : World) (s k : ℕ → ℕ) (r : ℕ)
    → Balanced w s k
    → (0 < r → 0 < s r + k r)
    → k r < limit
    → Succeeds (weak_copy r w) s (bump k r)
unfolding weak_copy
weak_copy-Balanced w s k zero v held small =
    (w, refl, Balanced-ext s (bump k 0) v (λ p h. refl) (λ p h. ground arith))
weak_copy-Balanced w s k (suc r) v held small =
    let (w', ran, kept) =
      weak_add_ref-Balanced w s k (suc r) (omega arith) v (held (omega arith)) small in
    (w', ground (arith, ran), kept)

pub weak_drop-Balanced :
    (w : World) (s k : ℕ → ℕ) (pi : ℕ)
    → Balanced w s (bump k pi)
    → k pi < limit
    → Succeeds (weak_drop pi w) s k
unfolding weak_drop
weak_drop-Balanced w s k zero v small =
    (w, refl, Balanced-ext s k v (λ p h. refl) (λ p h. ground arith))
weak_drop-Balanced w s k (suc pi) v small =
    let (w', ran, kept) = weak_release-Balanced w s k (suc pi) (omega arith) v small in
    (w', ground (arith, ran), kept)

pub weak_assign-Balanced :
    (w : World) (s k : ℕ → ℕ) (pi r : ℕ)
    → Balanced w s (bump k pi)
    → (0 < r → 0 < s r + bump k pi r)
    → k r + 1 < limit
    → k pi + 1 < limit
    → Succeeds (weak_assign pi r w) s (bump k r)
unfolding weak_assign
weak_assign-Balanced w s k pi r v held small_r small = elim (Bool-cases (r == pi)) [
  | inl same ↦ (w, ground arith, Balanced-ext s (bump k r) v (λ p h. refl) (λ p h. ground arith))
  | inr other ↦
      let (w', ran, kept) = weak_copy-Balanced w s (bump k pi) r v held (ground arith) in
      let (w'', ran', kept') =
        weak_drop-Balanced w' s (bump k r) pi
          (Balanced-ext s (bump (bump k r) pi) kept (λ p h. refl) (λ p h. ground arith))
          (ground arith) in
      (w'', ground (arith, ran, ran'), kept')
]
