-- ===== src/ResourcePool/Count.antt =====
-- Where each id is: in a free list of a thread or of the pool, or with a caller.
use codelab.Base.{
  ℕ, ◌+◌, ◌*◌, ◌/◌, ◌%◌, ◌≤◌, ◌<◌, ◌≡◌, ◌≢◌, List, [], ◌∷◌, Option, none, some, ltb, if◌then◌else◌,
  arith,
}
use codelab.Base.Bag.{one, occ}
use codelab.ResourcePool.{
  Memory, ResourcePool, LocalPool, next_index, store_block, fetch_block, create_block_group,
  construct, group_nblock, block_nitem, max_block_ngroup,
}

abbrev pub occ_chunks : ℕ → List (List ℕ) → ℕ
occ_chunks x [] = 0
occ_chunks x (c ∷ cs) = occ x c + occ_chunks x cs

abbrev pub occ_locals : ℕ → List LocalPool → ℕ
occ_locals x [] = 0
occ_locals x (l ∷ ls) = occ x l.cur_free + occ_locals x ls

-- 1 when the item of the id `x` was constructed.
abbrev pub made : ℕ → (ℕ → Option ℕ) → ℕ
made x nitem = elim (nitem (x / block_nitem)) [
  | none ↦ 0
  | some n ↦ if ltb (x % block_nitem) n then 1 else 0
]

abbrev pub ItemsOk : ℕ → ℕ → Option ℕ → Type 0
ItemsOk b next none = Unit {0}
ItemsOk b next (some n) = (n ≤ block_nitem) × (b < next)

-- Blocks have at most 128 items and stand below the next index.
pub record GroupsOk (g : ResourcePool) : Type 0 where
  pub few : g.ngroup ≤ max_block_ngroup
  pub room : g.nblock ≤ group_nblock
  pub first : g.ngroup ≡ 0 → g.nblock ≡ 0
  pub items : (b : ℕ) → ItemsOk b (next_index g) (g.nitem b)

module _ (g : ResourcePool) (v : GroupsOk g) where
  pub store_block-GroupsOk : g.ngroup ≢ 0 → g.nblock < group_nblock → GroupsOk (store_block g).1
  unfolding store_block
  store_block-GroupsOk some_group lt = record {
    few = v.few;
    room = omega arith;
    first = λ e. absurd (some_group e);
    items = λ b. ground (arith, v.items b);
  }

  pub construct-GroupsOk :
      (b n : ℕ) (l : LocalPool)
      → g.nitem b ≡ some n
      → n < block_nitem
      → GroupsOk (construct b n l g).global
  construct-GroupsOk b n l e lt = record {
    few = v.few;
    room = v.room;
    first = v.first;
    items = λ c. ground (arith, v.items c, v.items b);
  }

  pub fetch_block-GroupsOk :
      (m : Memory) (b : ℕ) (h : ResourcePool)
      → fetch_block m g ≡ some (b, h)
      → GroupsOk h × (h.nitem b ≡ some 0) × (h.free_chunks ≡ g.free_chunks)
  unfolding fetch_block create_block_group store_block
  fetch_block-GroupsOk m b h e = (
    record {
      few = ground (arith, v.few);
      room = ground (arith, v.room);
      first = ground (arith, v.room);
      items = λ c. ground (arith, v.items c, v.room, v.first);
    },
    ground arith,
    ground arith,
  )

  -- No item of a new block was constructed before.
  pub fetch_block-made :
      (m : Memory) (b : ℕ) (h : ResourcePool)
      → fetch_block m g ≡ some (b, h)
      → (x : ℕ) → made x h.nitem ≡ made x g.nitem
  unfolding fetch_block create_block_group store_block
  fetch_block-made m b h e x = ground (arith, v.items b, v.room, v.first)

pub construct-made :
    (g : ResourcePool) (b n : ℕ) (l : LocalPool)
    → g.nitem b ≡ some n
    → n < block_nitem
    → (x : ℕ)
    → made x (construct b n l g).global.nitem ≡ made x g.nitem + one x (b * block_nitem + n)
construct-made g b n l e lt x = ground arith
