-- ===== src/SingleThreadedPool/Tests.antt =====
-- Runs of the pool.
use codelab.Base.{◌≡◌, refl, [], ◌∷◌, none, some}
use codelab.SingleThreadedPool.{get_node, give_back, empty_pool}
use codelab.SingleThreadedPool.Unusable.{getting, giving_back, run, new_client, run-unusable}

given_back : get_node 31 none (give_back (some (1, 2)) empty_pool) ≡ some (some (1, 2), empty_pool)
unfolding get_node give_back
given_back = refl

run-unusable_example : run 31 (giving_back none ∷ getting (some 7) ∷ []) new_client ≡ none
run-unusable_example = run-unusable 31 (giving_back none ∷ getting (some 7) ∷ [])
