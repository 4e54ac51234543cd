-- ===== src/SharedCount/Safety.antt =====
-- Programs made of the calls on `shared_count` and `weak_count`, from no handle on.
use codelab.Base.{
  ℕ, ◌+◌, ◌-◌, ◌<◌, ◌≡◌, refl, List, [], ◌∷◌, none, some, ltb, arith, Option-cases, inl, inr,
  length, ◌↔◌,
}
use codelab.SharedCount.Balance.{limit}
use codelab.SharedCount.Clients.{
  Client, Call, make, copy, move, drop, assign, weaken, copy_weak, move_weak, drop_weak,
  assign_weak, assign_shared, count, run, init,
}
use codelab.SharedCount.Sound.{
  Sound, handles, Steps, make-Sound, copy-Sound, move-Sound, drop-Sound, assign-Sound,
}
use codelab.SharedCount.WeakSound.{
  weaken-Sound, copy_weak-Sound, move_weak-Sound, drop_weak-Sound, assign_weak-Sound,
  assign_shared-Sound,
}

step-Sound : (x : Call) (c : Client) → Sound c → handles c + 1 < limit → Steps x c
step-Sound make c v small = make-Sound c v small
step-Sound (copy i) c v small = copy-Sound c v small i
step-Sound (move i) c v small = move-Sound c v small i
step-Sound (drop i) c v small = drop-Sound c v small i
step-Sound (assign i j) c v small = assign-Sound c v small i j
step-Sound (weaken i) c v small = weaken-Sound c v small i
step-Sound (copy_weak i) c v small = copy_weak-Sound c v small i
step-Sound (move_weak i) c v small = move_weak-Sound c v small i
step-Sound (drop_weak i) c v small = drop_weak-Sound c v small i
step-Sound (assign_weak i j) c v small = assign_weak-Sound c v small i j
step-Sound (assign_shared i j) c v small = assign_shared-Sound c v small i j

-- Any sequence of creations, copies, moves, assignments and destructions of shared and weak
-- handles runs without a read of a destroyed block or a second deletion, as long as it cannot make
-- the counters wrap, and leaves every counter equal to the number of handles that it counts.
pub run-Sound :
    (xs : List Call) (c : Client)
    → Sound c
    → handles c + length xs < limit
    → (d : Client) × (run xs c ≡ some d) × Sound d
unfolding run
run-Sound [] c v small = (c, refl, v)
run-Sound (x ∷ xs) c v small =
    let (m, went, kept, few) = step-Sound x c v (omega arith) in
    let (d, ran, final) = run-Sound xs m kept (omega arith) in (d, ground (arith, went, ran), final)

pub init-Sound : Sound init
unfolding init
init-Sound = record {
  balanced = record { blocks = λ p h. (refl, refl, refl) };
  fresh = λ p h. (refl, refl);
  started = omega arith;
}

-- Between calls, an object is there exactly while a shared handle to its block is, and a control
-- block exactly while a handle of either kind is: nothing leaks and nothing is deleted early.
pub Sound-lifetimes :
    (c : Client) (p : ℕ)
    → Sound c
    → 0 < p
    → (c.world.live (p - 1) ≡ ltb 0 (count c.shared p))
      × ((c.world.block p ≡ none) ↔ (count c.shared p + count c.weak p ≡ 0))
Sound-lifetimes c p v pos = elim (Option-cases (c.world.block p)) [
  | inl e ↦ ground (arith, v.balanced.blocks p pos)
  | inr (b, e) ↦ ground (arith, v.balanced.blocks p pos)
]
