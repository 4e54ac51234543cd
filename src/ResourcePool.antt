-- ===== src/ResourcePool.antt =====
-- idea/resource_pool_inl.h: blocks of 128 items in groups of 65536 blocks, the free ids of each
-- thread, and the chunks of free ids that threads exchange. A call of one thread runs whole. Only
-- the last group has room, so of the groups their number and the `nblock` of the last are
-- kept; `nitem` says which blocks are stored in their group's array and how many of their items
-- were constructed. A list of free ids has the last one first.
pub mod Count
pub mod Get
pub mod Pools
pub mod Fresh
mod Tests
use codelab.Base.{
  ℕ, zero, suc, ◌+◌, ◌-◌, ◌*◌, ◌/◌, ◌%◌, Bool, true, false, List, [], ◌∷◌, Option, none, some, ◌==◌,
  ltb, if◌then◌else◌, length,
}

abbrev pub block_nitem : ℕ
block_nitem = 128

abbrev pub group_nblock : ℕ
group_nblock = 65536

abbrev pub max_block_ngroup : ℕ
max_block_ngroup = 65536

-- Whether the next allocations of a block, a block group and a chunk succeed.
pub record Memory : Type 0 where
  pub block : Bool
  pub group : Bool
  pub chunk : Bool

pub record ResourcePool : Type 0 where
  pub ngroup : ℕ
  pub nblock : ℕ
  pub nitem : ℕ → Option ℕ
  pub free_chunks : List (List ℕ)

pub record LocalPool : Type 0 where
  pub cur_free : List ℕ
  pub cur_block : Option ℕ

abbrev pub new_local : LocalPool
new_local = record { cur_free = []; cur_block = none }

abbrev pub new_pool : ResourcePool
new_pool = record { ngroup = 0; nblock = 0; nitem = λ _. none; free_chunks = [] }

abbrev pub update {ℓ} : {A : Type ℓ} → (ℕ → A) → ℕ → A → ℕ → A
update f p a q = if p == q then a else f q

pub pop_free_chunk : ResourcePool → Option (List ℕ × ResourcePool)
pop_free_chunk g = elim g.free_chunks [
  | [] ↦ none
  | c ∷ cs ↦ some (c, record g { free_chunks = cs })
]

pub push_free_chunk : Memory → List ℕ → ResourcePool → Option ResourcePool
push_free_chunk m c g =
    if m.chunk then some (record g { free_chunks = c ∷ g.free_chunks }) else none

-- With no other thread adding a group meanwhile.
pub create_block_group : Memory → ResourcePool → Option ResourcePool
create_block_group m g =
    if ltb g.ngroup max_block_ngroup
    then (if m.group then some (record g { ngroup = suc g.ngroup; nblock = 0 }) else none)
    else none

-- The index of the next block in the last group, if there is a group with room.
abbrev pub has_room : ResourcePool → Bool
has_room g = if g.ngroup == 0 then false else ltb g.nblock group_nblock

abbrev pub next_index : ResourcePool → ℕ
next_index g = (g.ngroup - 1) * group_nblock + g.nblock

pub store_block : ResourcePool → ℕ × ResourcePool
store_block g = (
  next_index g,
  record g { nblock = suc g.nblock; nitem = update g.nitem (next_index g) (some 0) },
)

-- A group that was just created has room, so the loop makes two rounds at most.
pub fetch_block : Memory → ResourcePool → Option (ℕ × ResourcePool)
fetch_block m g =
    if m.block
    then (if has_room g
        then some (store_block g)
        else elim (create_block_group m g) [ none ↦ none | some g' ↦ some (store_block g') ])
    else none

-- `unsafe_address_resource`: the block and the place in it.
pub unsafe_address_resource : ℕ → ℕ × ℕ
unsafe_address_resource id = (id / block_nitem, id - id / block_nitem * block_nitem)

-- `address_resource`; null is `none`.
pub address_resource : ℕ → ResourcePool → Option (ℕ × ℕ)
address_resource id g =
    let block_index = id / block_nitem in
    let group_index = block_index / group_nblock in
    if ltb group_index max_block_ngroup
    then (if ltb group_index g.ngroup
        then (elim (g.nitem block_index) [
          | none ↦ none
          | some n ↦
              if ltb (id - block_index * block_nitem) n
              then some (block_index, id - block_index * block_nitem)
              else none
        ])
        else none)
    else none

-- What `get` returns: the id, the address, and what it leaves.
pub record Got : Type 0 where
  pub id : ℕ
  pub address : ℕ × ℕ
  pub local : LocalPool
  pub global : ResourcePool

-- Construct the next item of the block `b`, of which `n` were.
abbrev pub construct : ℕ → ℕ → LocalPool → ResourcePool → Got
construct b n l g = record {
  id = b * block_nitem + n;
  address = (b, n);
  local = l;
  global = record g { nitem = update g.nitem b (some (suc n)) };
}

-- Take the last id of a chunk. At an empty chunk the code would read out of bounds.
abbrev pub take_id : List ℕ → LocalPool → ResourcePool → Option Got
take_id [] l g = none
take_id (id ∷ ids) l g = some (record {
  id = id;
  address = unsafe_address_resource id;
  local = record l { cur_free = ids };
  global = g;
})

pub get_from_new_block : Memory → LocalPool → ResourcePool → Option Got
get_from_new_block m l g = elim (fetch_block m g) [
  | none ↦ none
  | some (b, g') ↦ some (construct b 0 (record l { cur_block = some b }) g')
]

pub get_from_block : Memory → LocalPool → ResourcePool → Option Got
get_from_block m l g = elim l.cur_block [
  | none ↦ get_from_new_block m l g
  | some b ↦ elim (g.nitem b) [
    | none ↦ none
    | some n ↦ if ltb n block_nitem then some (construct b n l g) else get_from_new_block m l g
  ]
]

-- `LocalPool::get`. `none` is a null result, or one of the reads that `take_id` and a dangling
-- block name.
pub get : Memory → LocalPool → ResourcePool → Option Got
get m l g = elim l.cur_free [
  | id ∷ ids ↦ take_id (id ∷ ids) l g
  | [] ↦ elim (pop_free_chunk g) [ some (c, g') ↦ take_id c l g' | none ↦ get_from_block m l g ]
]

-- `LocalPool::return_resource`; `none` is -1.
pub return_resource : Memory → ℕ → LocalPool → ResourcePool → Option (LocalPool × ResourcePool)
return_resource m id l g =
    if ltb (length l.cur_free) block_nitem
    then some (record l { cur_free = id ∷ l.cur_free }, g)
    else elim (push_free_chunk m l.cur_free g) [
      | none ↦ none
      | some g' ↦ some (record l { cur_free = id ∷ [] }, g')
    ]

-- `~LocalPool`, which ignores that the push may fail.
pub destroy_local : Memory → LocalPool → ResourcePool → ResourcePool
destroy_local m l g = elim l.cur_free [
  | [] ↦ g
  | _ ∷ _ ↦ elim (push_free_chunk m l.cur_free g) [ none ↦ g | some g' ↦ g' ]
]

-- `get_or_new_local_pool` and `get_resource` as written: `_local_pool` is read and never set, so
-- every call works on a pool of its own.
pub get_resource : Memory → ResourcePool → Option Got
get_resource m g = get m new_local g

pub return_to_pool : Memory → ℕ → ResourcePool → Option ResourcePool
return_to_pool m id g = elim (return_resource m id new_local g) [
  | none ↦ none
  | some (_, g') ↦ some g'
]
