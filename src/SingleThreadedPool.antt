-- ===== src/SingleThreadedPool.antt =====
-- idea/single_threaded_pool.h: nodes of one size, cut from blocks and kept in a list when they are
-- given back. A node is a block and its place in it. A read through a null `blocks_` is `none`.
pub mod Unusable
mod Tests
use codelab.Base.{ℕ, suc, ◌≡◌, Bool, true, false, List, [], ◌∷◌, Option, none, some, leb, ◌||◌}

pub record Block : Type 0 where
  pub at : ℕ
  pub nalloc : ℕ

-- `free_nodes` is the list from `free_nodes_` on, `blocks` that from `blocks_` on.
pub record ThreadedPool : Type 0 where
  pub free_nodes : List (ℕ × ℕ)
  pub blocks : List Block

abbrev pub empty_pool : ThreadedPool
empty_pool = record { free_nodes = []; blocks = [] }

-- Take the next node of the first block.
pub take_node : ThreadedPool → Option (Option (ℕ × ℕ) × ThreadedPool)
take_node p = elim p.blocks [
  | [] ↦ none
  | b ∷ bs ↦
      some (some (b.at, b.nalloc), record p { blocks = record b { nalloc = suc b.nalloc } ∷ bs })
]

-- The test `blocks_ || blocks_->nalloc >= NODE_COUNT`.
pub wants_block : ℕ → List Block → Option Bool
wants_block node_count [] = none
wants_block node_count (b ∷ bs) = some (true || leb node_count b.nalloc)

-- `fresh` is where the allocator puts a new block, if it has memory.
pub get_node :
    (node_count : ℕ) (fresh : Option ℕ) → ThreadedPool → Option (Option (ℕ × ℕ) × ThreadedPool)
get_node node_count fresh p = elim p.free_nodes [
  | n ∷ ns ↦ some (some n, record p { free_nodes = ns })
  | [] ↦ elim (wants_block node_count p.blocks) [
    | none ↦ none
    | some false ↦ take_node p
    | some true ↦ elim fresh [
      | none ↦ some (none, p)
      | some a ↦ take_node (record p { blocks = record { at = a; nalloc = 0 } ∷ p.blocks })
    ]
  ]
]

pub give_back : Option (ℕ × ℕ) → ThreadedPool → ThreadedPool
give_back none p = p
give_back (some n) p = record p { free_nodes = n ∷ p.free_nodes }

pub reset_pool : ThreadedPool → ThreadedPool
reset_pool p = empty_pool
