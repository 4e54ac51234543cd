-- ===== src/SingleThreadedPool/Unusable.antt =====
-- A client of the pool from its constructor on.
use codelab.Base.{
  ℕ, ◌≡◌, refl, Bool, true, false, ◌||◌, ◌&&◌, List, [], ◌∷◌, Option, none, some, if◌then◌else◌,
  ltb,
}
use codelab.Base.Bag.{one}
use codelab.SingleThreadedPool.{
  ThreadedPool, empty_pool, wants_block, get_node, give_back, reset_pool,
}

-- A client gives back what it holds, or null.
pub data Call : Type 0 where
  getting : (fresh : Option ℕ) → Call
  giving_back : (n : Option (ℕ × ℕ)) → Call
  resetting : Call

-- The pool, and the nodes that the client got and did not give back.
pub record Client : Type 0 where
  pub pool : ThreadedPool
  pub held : List (ℕ × ℕ)

abbrev pub new_client : Client
new_client = record { pool = empty_pool; held = [] }

abbrev pub same_node : ℕ × ℕ → ℕ × ℕ → Bool
same_node m n = ltb 0 (one m.0 n.0) && ltb 0 (one m.1 n.1)

abbrev pub holds : ℕ × ℕ → List (ℕ × ℕ) → Bool
holds n [] = false
holds n (m ∷ ms) = same_node n m || holds n ms

abbrev pub without : ℕ × ℕ → List (ℕ × ℕ) → List (ℕ × ℕ)
without n [] = []
without n (m ∷ ms) = let rest = without n ms in if same_node n m then ms else m ∷ rest

pub serve : ℕ → Call → Client → Option Client
serve node_count (getting fresh) c = elim (get_node node_count fresh c.pool) [
  | none ↦ none
  | some (none, q) ↦ some (record c { pool = q })
  | some (some n, q) ↦ some (record { pool = q; held = n ∷ c.held })
]
serve node_count (giving_back none) c = some (record c { pool = give_back none c.pool })
serve node_count (giving_back (some n)) c =
    if holds n c.held
    then some (record { pool = give_back (some n) c.pool; held = without n c.held })
    else some c
serve node_count resetting c = some (record { pool = reset_pool c.pool; held = [] })

pub run : ℕ → List Call → Client → Option Client
run node_count [] c = some c
run node_count (call ∷ calls) c = elim (serve node_count call c) [
  | none ↦ none
  | some d ↦ run node_count calls d
]

abbrev pub gets : List Call → Bool
gets [] = false
gets (getting fresh ∷ calls) = true
gets (giving_back n ∷ calls) = gets calls
gets (resetting ∷ calls) = gets calls

-- Any history of a client that gives back what it holds, or null, reads through a null pointer if
-- it calls `get` at all, and else leaves the pool as it was constructed.
pub run-unusable :
    (node_count : ℕ) (calls : List Call)
    → run node_count calls new_client ≡ (if gets calls then none else some new_client)
unfolding run serve get_node wants_block give_back reset_pool
run-unusable node_count [] = refl
run-unusable node_count (getting fresh ∷ calls) = refl
run-unusable node_count (giving_back none ∷ calls) = run-unusable node_count calls
run-unusable node_count (giving_back (some n) ∷ calls) = run-unusable node_count calls
run-unusable node_count (resetting ∷ calls) = run-unusable node_count calls
