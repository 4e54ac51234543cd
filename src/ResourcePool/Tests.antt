-- ===== src/ResourcePool/Tests.antt =====
-- Runs of the resource pool, and the theorems on concrete pools.
use codelab.Base.{
  ◌+◌, ◌%◌, ◌≤◌, ◌<◌, ◌≡◌, refl, true, false, [], ◌∷◌, none, some, if◌then◌else◌, ◌==◌, List,
}
use codelab.Base.Bag.{one, occ}
use codelab.ResourcePool.{
  Memory, ResourcePool, new_local, new_pool, Got, get, get_from_block, get_from_new_block,
  pop_free_chunk, construct, fetch_block, create_block_group, store_block, return_resource,
  get_resource, return_to_pool, address_resource, unsafe_address_resource,
}
use codelab.ResourcePool.Count.{occ_chunks, occ_locals, made}
use codelab.ResourcePool.Pools.{
  System, got, Reach, here, later, no_ids_used, Reach-placed, get-unused,
}
use codelab.ResourcePool.Fresh.{Call, getting, returning, serve, serve-fresh}

abbrev plenty : Memory
plenty = record { block = true; group = true; chunk = true }

abbrev with_block : ResourcePool
with_block = record {
  ngroup = 1;
  nblock = 1;
  nitem = λ b. if 0 == b then some 0 else none;
  free_chunks = [];
}

abbrev first_got : Got
first_got = construct 0 0 (record new_local { cur_block = some 0 }) with_block

first_get : get plenty new_local new_pool ≡ some first_got
unfolding get get_from_block get_from_new_block pop_free_chunk fetch_block create_block_group
    store_block
first_get = refl

abbrev one_used : System
one_used = record {
  global = first_got.global;
  locals = first_got.local ∷ [];
  used = 0 ∷ [];
  lost = [];
}

one_used-Reach : Reach (no_ids_used 1) one_used
one_used-Reach = later plenty here (got 0 new_local first_got refl first_get)

no_memory : get (record plenty { group = false }) new_local new_pool ≡ none
unfolding get get_from_block get_from_new_block pop_free_chunk fetch_block create_block_group
no_memory = refl

abbrev second_got : Got
second_got = construct 0 1 first_got.local first_got.global

second_get : get plenty first_got.local first_got.global ≡ some second_got
unfolding get get_from_block pop_free_chunk
second_get = refl

Reach-placed_example :
    (occ 0 one_used.used
        + occ_locals 0 one_used.locals
        + occ_chunks 0 one_used.global.free_chunks
        + occ 0 one_used.lost
      ≡ made 0 one_used.global.nitem)
    × (made 0 one_used.global.nitem ≤ 1)
    × (0 < occ 0 one_used.used
        → address_resource 0 one_used.global ≡ some (unsafe_address_resource 0))
Reach-placed_example = Reach-placed 1 one_used-Reach 0

get-unused_example :
    (occ 1 one_used.used ≡ 0) × (address_resource 1 second_got.global ≡ some (0, 1))
get-unused_example = get-unused 1 one_used-Reach plenty 0 first_got.local second_got refl second_get

abbrev get_and_return : List Call
get_and_return = getting plenty ∷ returning plenty 0 ∷ getting plenty ∷ []

two_blocks : serve get_and_return new_pool ≡ 0 ∷ 128 ∷ []
unfolding get_resource return_to_pool return_resource get get_from_block get_from_new_block
    pop_free_chunk fetch_block create_block_group store_block
two_blocks = refl

serve-fresh_example :
    (occ 128 (serve get_and_return new_pool) ≤ 1)
    × (occ 128 (serve get_and_return new_pool) ≤ one 0 (128 % 128))
serve-fresh_example = serve-fresh get_and_return 128
