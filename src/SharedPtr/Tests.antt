-- ===== src/SharedPtr/Tests.antt =====
-- The theorems at concrete programs.
use codelab.Base.{ℕ, ◌<◌, ◌≡◌, refl, false, List, [], ◌∷◌, none, some, arith, ltb}
use codelab.SharedCount.{World, update}
use codelab.SharedCount.Balance.{Balanced, bump}
use codelab.SharedPtr.{Ptr, Swaps, from_weak}
use codelab.SharedPtr.Clients.{
  Client, Call, make, copy, drop, assign, move_assign, reset, weaken, run, no_pointers,
}
use codelab.SharedPtr.Counted.{Exchanges, Sound, counted}
use codelab.SharedPtr.Safety.{pointing, run-alive}
use codelab.SharedPtr.Expired.{from_weak-result}

abbrev exchanging : Swaps
exchanging = record { counts = λ a b. (b, a); pointers = λ a b. (b, a) }

exchanging-Exchanges : Exchanges exchanging
exchanging-Exchanges = record { counts = λ a b. refl; pointers = λ a b. refl }

-- Two objects and a third by the reset, with assignments of each kind, one from the pointer itself.
abbrev program : List Call
program =
    make
    ∷ weaken 0
    ∷ make
    ∷ copy 0
    ∷ assign 1 2
    ∷ reset 2
    ∷ move_assign 2 2
    ∷ move_assign 0 1
    ∷ drop 1
    ∷ []

run-alive_example :
    (d : Client) × (run exchanging program no_pointers ≡ some d)
    × ((p : ℕ) → 0 < p → d.world.live p ≡ ltb 0 (pointing d.shared p))
run-alive_example = run-alive exchanging exchanging-Exchanges program (omega arith)

-- One object that was deleted, and a weak pointer to it.
abbrev watched : Ptr
watched = record { px = 1; pn = 2 }

abbrev expired : Client
expired = record {
  world = record {
    block = update (λ _. none) 2 (some (record { use_count = 0; weak_count = 1; px = 1 }));
    live = λ _. false;
  };
  shared = [];
  weak = watched ∷ [];
  next = 3;
}

expired-Sound : Sound expired
expired-Sound = record {
  balanced = record { blocks = λ p h. ground arith };
  shared = tt;
  weak = ((refl, omega arith), tt);
  started = omega arith;
}

from_weak-result_example :
    (w : World) × (from_weak 2 watched expired.world ≡ some (record { px = 1; pn = 0 }, w))
    × Balanced w (bump (λ p. 0) 0) (counted (watched ∷ []))
    × (0 < 1)
    × (false ≡ false)
from_weak-result_example =
    from_weak-result expired 0 watched expired-Sound (omega arith) refl (omega arith)
