-- ===== src/SharedPtr/Safety.antt =====
-- Programs made of these calls, from no pointer on.
use codelab.Base.{
  ℕ, suc, ◌+◌, ◌<◌, ◌≡◌, refl, List, [], ◌∷◌, some, arith, Option-cases, inl, inr, length, ◌==◌,
  ltb, if◌then◌else◌,
}
use codelab.SharedCount.Balance.{limit}
use codelab.SharedPtr.{Ptr, Swaps}
use codelab.SharedPtr.Clients.{
  Client, Call, make, copy, move, drop, assign, move_assign, reset, weaken, copy_weak, drop_weak,
  assign_weak, assign_shared, All, run, no_pointers,
}
use codelab.SharedPtr.Counted.{Exchanges, Sound, Good, counted, handles, Steps}
use codelab.SharedPtr.Sound.{
  make-Sound, copy-Sound, move-Sound, drop-Sound, assign-Sound, move_assign-Sound, reset-Sound,
}
use codelab.SharedPtr.WeakSound.{
  weaken-Sound, copy_weak-Sound, drop_weak-Sound, assign_weak-Sound, assign_shared-Sound,
}

-- How many of the pointers are to the object at `p`.
abbrev pub pointing : List Ptr → ℕ → ℕ
pointing [] p = 0
pointing (q ∷ qs) p = if q.px == p then suc (pointing qs p) else pointing qs p

counted-pointing :
    (next : ℕ) (l : List Ptr) (p : ℕ) → All (Good next) l → 0 < p → counted l (suc p) ≡ pointing l p
counted-pointing next [] p h pos = refl
counted-pointing next (q ∷ l) p ((e, lt), h) pos = ground (arith, counted-pointing next l p h pos)

module _ (sw : Swaps) (ok : Exchanges sw) where
  step-Sound : (x : Call) (c : Client) → Sound c → handles c + 1 < limit → Steps sw x c
  step-Sound make c v small = make-Sound sw ok c v small
  step-Sound (copy i) c v small = copy-Sound sw ok c v small i
  step-Sound (move i) c v small = move-Sound sw ok c v small i
  step-Sound (drop i) c v small = drop-Sound sw ok c v small i
  step-Sound (assign i j) c v small = assign-Sound sw ok c v small i j
  step-Sound (move_assign i j) c v small = move_assign-Sound sw ok c v small i j
  step-Sound (reset i) c v small = reset-Sound sw ok c v small i
  step-Sound (weaken i) c v small = weaken-Sound sw c v small i
  step-Sound (copy_weak i) c v small = copy_weak-Sound sw c v small i
  step-Sound (drop_weak i) c v small = drop_weak-Sound sw c v small i
  step-Sound (assign_weak i j) c v small = assign_weak-Sound sw c v small i j
  step-Sound (assign_shared i j) c v small = assign_shared-Sound sw c v small i j

  pub run-Sound :
      (xs : List Call) (c : Client)
      → Sound c
      → handles c + length xs < limit
      → (d : Client) × (run sw xs c ≡ some d) × Sound d
  unfolding run
  run-Sound [] c v small = (c, refl, v)
  run-Sound (x ∷ xs) c v small =
      let (m, went, kept, few) = step-Sound x c v (omega arith) in
      let (d, ran, final) = run-Sound xs m kept (omega arith) in
      (d, ground (arith, went, ran), final)

  pub no_pointers-Sound : Sound no_pointers
  unfolding no_pointers
  no_pointers-Sound = record {
    balanced = record { blocks = λ p h. (refl, refl, refl) };
    shared = tt;
    weak = tt;
    started = omega arith;
  }

  -- Where both swaps exchange what they are given, any sequence of creations, copies, moves,
  -- assignments, resets and destructions of shared and weak pointers, too short to make a counter
  -- wrap, runs from no pointer on without a read of a destroyed block or a second deletion of an
  -- object; and then an object is alive exactly while some `shared_ptr` points to it.
  pub run-alive :
      (xs : List Call)
      → length xs < limit
      → (d : Client) × (run sw xs no_pointers ≡ some d)
        × ((p : ℕ) → 0 < p → d.world.live p ≡ ltb 0 (pointing d.shared p))
  unfolding no_pointers
  run-alive xs small =
      let (d, ran, v) = run-Sound xs no_pointers no_pointers-Sound (omega arith) in
      (
        d,
        ran,
        λ p pos. elim (Option-cases (d.world.block (suc p))) [
          | inl e ↦ ground (
            arith,
            v.balanced.blocks (suc p) (omega arith),
            counted-pointing d.next d.shared p v.shared pos,
          )
          | inr (b, e) ↦ ground (
            arith,
            v.balanced.blocks (suc p) (omega arith),
            counted-pointing d.next d.shared p v.shared pos,
          )
        ],
      )
