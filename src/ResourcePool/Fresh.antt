-- ===== src/ResourcePool/Fresh.antt =====
-- `get_resource` and `return_resource` of the class as written, over a history of calls: each call
-- makes a pool of its own.
use codelab.Base.{
  ℕ, ◌+◌, ◌%◌, ◌≤◌, ◌≡◌, List, [], ◌∷◌, none, some, arith, Option-cases, inl, inr, refl,
}
use codelab.Base.Bag.{one, occ}
use codelab.ResourcePool.{
  Memory, ResourcePool, new_local, new_pool, Got, get, get_from_block, get_from_new_block,
  pop_free_chunk, fetch_block, create_block_group, store_block, return_resource, get_resource,
  return_to_pool, block_nitem,
}
use codelab.ResourcePool.Count.{made, GroupsOk}
use codelab.ResourcePool.Get.{GetOk, get-GetOk}
use codelab.ResourcePool.Pools.{made-le}

pub data Call : Type 0 where
  getting : Memory → Call
  returning : Memory → ℕ → Call

-- The ids that the calls get.
abbrev pub serve : List Call → ResourcePool → List ℕ
serve [] g = []
serve (getting m ∷ calls) g = elim (get_resource m g) [
  | none ↦ serve calls g
  | some r ↦ r.id ∷ serve calls r.global
]
serve (returning m id ∷ calls) g = elim (return_to_pool m id g) [
  | none ↦ serve calls g
  | some h ↦ serve calls h
]

return_to_pool-same : (m : Memory) (id : ℕ) (g : ResourcePool) → return_to_pool m id g ≡ some g
unfolding return_to_pool return_resource
return_to_pool-same m id g = ground arith

get_resource-block :
    (m : Memory) (g : ResourcePool) (r : Got)
    → g.free_chunks ≡ []
    → get_resource m g ≡ some r
    → (r.global.free_chunks ≡ []) × (r.id % block_nitem ≡ 0)
unfolding get_resource get get_from_block get_from_new_block pop_free_chunk fetch_block
    create_block_group store_block
get_resource-block m g r none_free e = (ground arith, ground arith)

get_resource-GetOk :
    (m : Memory) (g : ResourcePool) (r : Got)
    → GroupsOk g
    → get_resource m g ≡ some r
    → GetOk new_local g r
unfolding get_resource
get_resource-GetOk m g r v e = get-GetOk new_local g v m r e

serve-made :
    (calls : List Call) (g : ResourcePool)
    → GroupsOk g
    → g.free_chunks ≡ []
    → (x : ℕ)
    → (occ x (serve calls g) + made x g.nitem ≤ 1)
      × (occ x (serve calls g) ≤ one 0 (x % block_nitem))
serve-made [] g v e x = (omega (arith, made-le x g.nitem), omega arith)
serve-made (getting m ∷ calls) g v e x = elim (Option-cases (get_resource m g)) [
  | inl f ↦ ground (arith, serve-made calls g v e x)
  | inr (r, f) ↦
      let ok = get_resource-GetOk m g r v f in
      let (empty, place) = get_resource-block m g r e f in
      ground (arith, ok.moved x, serve-made calls r.global ok.groups empty x)
]
serve-made (returning m id ∷ calls) g v e x =
    ground (arith, return_to_pool-same m id g, serve-made calls g v e x)

-- Over any history of calls on a new pool, whatever is returned, no id is got twice, and all
-- those that are got are multiples of 128: each call takes a new block for one item.
pub serve-fresh :
    (calls : List Call) (x : ℕ)
    → (occ x (serve calls new_pool) ≤ 1) × (occ x (serve calls new_pool) ≤ one 0 (x % block_nitem))
serve-fresh calls x =
    let v : GroupsOk new_pool = record {
      few = omega arith;
      room = omega arith;
      first = λ e. refl;
      items = λ b. tt;
    } in
    let (once, apart) = serve-made calls new_pool v refl x in (omega arith, apart)
