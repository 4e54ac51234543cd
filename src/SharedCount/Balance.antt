-- ===== src/SharedCount/Balance.antt =====
-- When the counts of every control block are those of the handles that hold it, and the operations
-- on such blocks.
use codelab.Base.{
  ℕ, suc, ◌+◌, ◌-◌, ◌^◌, ◌<◌, ◌≡◌, refl, Bool, true, false, Option, none, some, ◌==◌, ltb,
  if◌then◌else◌, arith, Option-cases, inl, inr, dec_lt, ◌∙◌,
}
use codelab.SharedCount.{
  Counted, World, update, put, add_ref_copy, weak_add_ref, destroy, weak_release, dispose, release,
  new_block, atomic_increment, atomic_decrement,
}

abbrev pub limit : ℕ
limit = 2 ^ 32 - 2

-- One more handle to `p`.
abbrev pub bump : (ℕ → ℕ) → ℕ → ℕ → ℕ
bump f p q = if p == q then suc (f q) else f q

abbrev pub sign : ℕ → ℕ
sign n = if n == 0 then 0 else 1

-- The control block at `p`, for `s` shared and `k` weak handles to it. The shared handles together
-- hold one weak count. The object stands just below its block (`Clients` allocates it there).
abbrev pub BlockOk : (ℕ → Bool) → ℕ → ℕ → ℕ → Option Counted → Type 0
BlockOk live p s k none = (s ≡ 0) × (k ≡ 0) × (live (p - 1) ≡ false)
BlockOk live p s k (some b) =
    (b.use_count ≡ s)
    × (b.weak_count ≡ k + sign s)
    × (0 < b.weak_count)
    × ((0 < b.px) × (suc b.px ≡ p))
    × (live b.px ≡ ltb 0 s)

pub record Balanced (w : World) (s k : ℕ → ℕ) : Type 0 where
  pub blocks : (p : ℕ) → 0 < p → BlockOk w.live p (s p) (k p) (w.block p)

-- A world that an operation succeeds with, and that is balanced.
abbrev pub Succeeds : Option World → (ℕ → ℕ) → (ℕ → ℕ) → Type 0
Succeeds r s k = (w : World) × (r ≡ some w) × Balanced w s k

module _ (w : World) (s k : ℕ → ℕ) (p : ℕ) (pos : 0 < p) where
  pub add_ref_copy-Balanced :
      Balanced w s k → 0 < s p → s p < limit → Succeeds (add_ref_copy p w) (bump s p) k
  unfolding add_ref_copy
  add_ref_copy-Balanced v held small = elim (Option-cases (w.block p)) [
    | inl e ↦ absurd (ground (arith, v.blocks p pos))
    | inr (b, e) ↦ (
      put p (some (record b { use_count = atomic_increment b.use_count })) w,
      rw (e, add_ref_copy) refl,
      record { blocks = λ q h. ground (arith, v.blocks p pos, v.blocks q h) },
    )
  ]

  -- A weak handle may be added while any handle is there.
  pub weak_add_ref-Balanced :
      Balanced w s k → 0 < s p + k p → k p < limit → Succeeds (weak_add_ref p w) s (bump k p)
  unfolding weak_add_ref
  weak_add_ref-Balanced v held small = elim (Option-cases (w.block p)) [
    | inl e ↦ absurd (ground (arith, v.blocks p pos))
    | inr (b, e) ↦ (
      put p (some (record b { weak_count = atomic_increment b.weak_count })) w,
      rw (e, weak_add_ref) refl,
      record { blocks = λ q h. ground (arith, v.blocks p pos, v.blocks q h) },
    )
  ]

  abbrev pub less_weak : Counted → World
  less_weak b = put p (some (record b { weak_count = atomic_decrement b.weak_count })) w

  pub weak_release-Balanced :
      Balanced w s (bump k p) → k p < limit → Succeeds (weak_release p w) s k
  unfolding weak_release destroy
  weak_release-Balanced v small = elim (Option-cases (w.block p)) [
    | inl e ↦ absurd (ground (arith, v.blocks p pos))
    | inr (b, e) ↦ (
      if b.weak_count == 1 then destroy p (less_weak b) else less_weak b,
      rw (e, weak_release) refl,
      record { blocks = λ q h. ground (arith, v.blocks p pos, v.blocks q h) },
    )
  ]

module _ (w : World) (s k : ℕ → ℕ) (p : ℕ) (pos : 0 < p) where
  abbrev less_use : Counted → World
  less_use b = put p (some (record b { use_count = atomic_decrement b.use_count })) w

  abbrev disposed : Counted → World
  disposed b = record w { block = (less_use b).block; live = update w.live b.px false }

  -- The last shared handle deletes the object, and leaves its weak count behind as if it were a
  -- weak handle.
  disposed-Balanced :
      (b : Counted)
      → w.block p ≡ some b
      → Balanced w (bump s p) k
      → s p ≡ 0
      → Balanced (disposed b) s (bump k p)
  disposed-Balanced b e v last = record {
    blocks = λ q h. ground (arith, v.blocks p pos, v.blocks q h);
  }

  release_last :
      (b : Counted)
      → w.block p ≡ some b
      → Balanced w (bump s p) k
      → s p ≡ 0
      → release p w ≡ weak_release p (disposed b)
  unfolding release dispose
  release_last b e v last = ground (arith, v.blocks p pos)

  release_other :
      (b : Counted)
      → w.block p ≡ some b
      → Balanced w (bump s p) k
      → 0 < s p
      → s p < limit
      → (release p w ≡ some (less_use b)) × Balanced (less_use b) s k
  unfolding release
  release_other b e v more small = (
    ground (arith, v.blocks p pos),
    record { blocks = λ q h. ground (arith, v.blocks p pos, v.blocks q h) },
  )

  pub release-Balanced :
      Balanced w (bump s p) k → s p < limit → k p < limit → Succeeds (release p w) s k
  release-Balanced v small_s small_k = elim (Option-cases (w.block p)) [
    | inl e ↦ absurd (ground (arith, v.blocks p pos))
    | inr (b, e) ↦ elim (dec_lt 0 (s p)) [
      | yes more ↦ let (ran, kept) = release_other b e v more small_s in (less_use b, ran, kept)
      | no last ↦
          let none_left : s p ≡ 0 = omega arith in
          let (w', ran, kept) =
            weak_release-Balanced (disposed b) s k p pos (disposed-Balanced b e v none_left)
              small_k in
          (w', release_last b e v none_left ∙ ran, kept)
    ]
  ]

-- A control block for a new object, at an address where there was none.
pub new_block-Balanced :
    (w : World) (s k : ℕ → ℕ) (px : ℕ)
    → 0 < px
    → Balanced w s k
    → w.block (suc px) ≡ none
    → Balanced
        (new_block (suc px) px (record w { live = update w.live px true }))
        (bump s (suc px))
        k
unfolding new_block
new_block-Balanced w s k px pos v free = record {
  blocks = λ q h. ground (arith, v.blocks (suc px) (omega arith), v.blocks q h);
}
