-- ===== src/SharedCount/Lock.antt =====
-- `add_ref_lock`, by which a weak handle becomes a shared one.
use codelab.Base.{
  ℕ, ◌<◌, ◌≡◌, refl, List, [], ◌∷◌, some, ◌==◌, ltb, if◌then◌else◌, arith, Option-cases, inl, inr,
}
use codelab.SharedCount.{
  World, put, atomic_increment, atomic_conditional_increment, add_ref_lock, shared_from_weak,
}
use codelab.SharedCount.Balance.{limit, bump, Balanced}
use codelab.SharedCount.Handles.{Balanced-ext}

-- The value that the compare-exchange which succeeds, or the read of a zero, saw: the first zero of
-- the values that come by, and else the last.
abbrev pub last_seen : List ℕ → ℕ → ℕ
last_seen [] n = n
last_seen (m ∷ ms) n = if n == 0 then 0 else last_seen ms m

-- However often its compare-exchange fails, and whatever it then finds, the loop returns the value
-- that it saw last, leaves it plus one, and never increments a zero.
pub atomic_conditional_increment_lem :
    (ms : List ℕ) (n : ℕ)
    → atomic_conditional_increment ms n
      ≡ (last_seen ms n, if last_seen ms n == 0 then 0 else atomic_increment (last_seen ms n))
unfolding atomic_conditional_increment
atomic_conditional_increment_lem [] n = ground arith
atomic_conditional_increment_lem (m ∷ ms) n = ground (arith, atomic_conditional_increment_lem ms m)

-- The count of shared handles after a lock of `p`.
abbrev pub locked_count : (ℕ → ℕ) → ℕ → ℕ → ℕ
locked_count s p = if s p == 0 then s else bump s p

pub add_ref_lock-Balanced :
    (w : World) (s k : ℕ → ℕ) (p : ℕ)
    → 0 < p
    → Balanced w s k
    → 0 < k p
    → s p < limit
    → (w' : World) × (add_ref_lock p w ≡ some (ltb 0 (s p), w')) × Balanced w' (locked_count s p) k
unfolding add_ref_lock atomic_conditional_increment
add_ref_lock-Balanced w s k p pos v held small = elim (Option-cases (w.block p)) [
  | inl e ↦ absurd (ground (arith, v.blocks p pos))
  | inr (b, e) ↦ (
    put p (some (record b { use_count = (atomic_conditional_increment [] b.use_count).1 })) w,
    ground (arith, v.blocks p pos),
    record { blocks = λ q h. ground (arith, v.blocks p pos, v.blocks q h) },
  )
]

-- If the memory of `pi_` happened to hold what `r.pi_` holds, the conversion of a weak handle would
-- give a shared handle to its block exactly while the object is alive and null otherwise, with all
-- counts kept.
pub shared_from_weak-Balanced :
    (w : World) (s k : ℕ → ℕ) (r : ℕ)
    → 0 < r
    → Balanced w s k
    → 0 < k r
    → s r < limit
    → (w' : World) × (shared_from_weak r r w ≡ some (if ltb 0 (s r) then r else 0, w'))
      × Balanced w' (bump s (if ltb 0 (s r) then r else 0)) k
unfolding shared_from_weak
shared_from_weak-Balanced w s k r pos v held small =
    let (w', ran, kept) = add_ref_lock-Balanced w s k r pos v held small in
    (
      w',
      ground (arith, ran),
      Balanced-ext (bump s (if ltb 0 (s r) then r else 0)) k kept (λ p h. ground arith)
          (λ p h. refl),
    )
