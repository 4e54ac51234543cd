-- ===== src/SharedCount/Tests.antt =====
-- Programs with handles, and the theorems at concrete inputs.
use codelab.Base.{ℕ, ◌≡◌, refl, Bool, true, false, List, [], ◌∷◌, Option, none, some, arith}
use codelab.SharedCount.{
  World, update, new_block, shared_copy, shared_assign, shared_drop, release, dispose, weak_release,
  add_ref_copy, weak_copy, weak_add_ref,
}
use codelab.SharedCount.Balance.{Balanced}
use codelab.SharedCount.Clients.{Client, Call, make, copy, assign, weaken, count, step, run, init}
use codelab.SharedCount.Sound.{Sound}
use codelab.SharedCount.Safety.{run-Sound, init-Sound}

-- Two objects; the first loses its shared handle by an assignment and is watched by a weak one.
abbrev program : List Call
program = make ∷ weaken 0 ∷ make ∷ copy 0 ∷ assign 2 0 ∷ []

run-Sound_example : (d : Client) × (run program init ≡ some d) × Sound d
unfolding init
run-Sound_example = run-Sound program init init-Sound (omega arith)

ended : (d : Client) × (run program init ≡ some d) × Sound d
unfolding init
ended = run-Sound program init init-Sound (omega arith)

-- One object, with a shared and a weak handle to its block at 2.
abbrev one_block : World
one_block = record {
  block = update (λ _. none) 2 (some (record { use_count = 1; weak_count = 2; px = 1 }));
  live = update (λ _. false) 1 true;
}

one_block-Balanced : Balanced one_block (count (2 ∷ [])) (count (2 ∷ []))
one_block-Balanced = record { blocks = λ p h. ground arith }

-- The program leaves the first object without a shared handle, and so deleted, while the weak
-- handle keeps its block.
program_ends :
    elim (run program init) as (λ _. Option (List ℕ × List ℕ × Bool × Bool)) [
      | none ↦ none
      | some d ↦ some (d.shared, d.weak, d.world.live 1, d.world.live 3)
    ]
    ≡ some (4 ∷ 4 ∷ 4 ∷ [], 2 ∷ [], false, true)
unfolding run init step new_block shared_copy shared_assign shared_drop release dispose weak_release
    add_ref_copy weak_copy weak_add_ref
program_ends = refl
