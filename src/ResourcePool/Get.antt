-- ===== src/ResourcePool/Get.antt =====
-- What each operation of a thread's pool does to the places of the ids.
use codelab.Base.{
  ℕ, ◌+◌, ◌<◌, ◌≡◌, refl, List, [], ◌∷◌, some, arith, Option-cases, inl, inr, dec_lt, subst,
  List-cases, if◌then◌else◌,
}
use codelab.Base.Bag.{one, occ}
use codelab.ResourcePool.{
  Memory, ResourcePool, LocalPool, fetch_block, pop_free_chunk, push_free_chunk, Got, construct,
  take_id, get_from_new_block, get_from_block, get, return_resource, destroy_local, block_nitem,
  unsafe_address_resource,
}
use codelab.ResourcePool.Count.{
  occ_chunks, made, GroupsOk, construct-GroupsOk, fetch_block-GroupsOk, fetch_block-made,
  construct-made,
}

-- What holds after `get` gave `r`.
pub record GetOk (l : LocalPool) (g : ResourcePool) (r : Got) : Type 0 where
  pub groups : GroupsOk r.global
  pub moved :
      (x : ℕ)
      → occ x r.local.cur_free + occ_chunks x r.global.free_chunks + one x r.id + made x g.nitem
        ≡ occ x l.cur_free + occ_chunks x g.free_chunks + made x r.global.nitem
  pub address : r.address ≡ unsafe_address_resource r.id

-- The ids that are lost when there is no memory for their chunk.
abbrev pub lost_ids : Memory → LocalPool → List ℕ
lost_ids m l = if m.chunk then [] else l.cur_free

module _ (l : LocalPool) (g : ResourcePool) (v : GroupsOk g) where
  construct-GetOk :
      (b n : ℕ) (h : ResourcePool) (k : LocalPool)
      → GroupsOk h
      → h.nitem b ≡ some n
      → n < block_nitem
      → h.free_chunks ≡ g.free_chunks
      → ((x : ℕ) → made x h.nitem ≡ made x g.nitem)
      → k.cur_free ≡ l.cur_free
      → GetOk l g (construct b n k h)
  unfolding unsafe_address_resource
  construct-GetOk b n h k w e lt same old free = record {
    groups = construct-GroupsOk h w b n k e lt;
    moved = λ x. ground (arith, construct-made h b n k e lt x, old x);
    address = ground arith;
  }

  get_from_new_block-GetOk :
      (m : Memory) (r : Got) → get_from_new_block m l g ≡ some r → GetOk l g r
  unfolding get_from_new_block
  get_from_new_block-GetOk m r e = elim (Option-cases (fetch_block m g)) [
    | inl f ↦ absurd (ground arith)
    | inr ((b, h), f) ↦
        let (w, fresh, same) = fetch_block-GroupsOk g v m b h f in
        let p : construct b 0 (record l { cur_block = some b }) h ≡ r = ground arith in
        subst (GetOk l g) p (
          construct-GetOk b 0 h (record l { cur_block = some b }) w fresh (omega arith) same
            (fetch_block-made g v m b h f) refl)
  ]

  get_from_block-GetOk : (m : Memory) (r : Got) → get_from_block m l g ≡ some r → GetOk l g r
  unfolding get_from_block
  get_from_block-GetOk m r e = elim (Option-cases l.cur_block) [
    | inl c ↦ get_from_new_block-GetOk m r (ground arith)
    | inr (b, c) ↦ elim (Option-cases (g.nitem b)) [
      | inl f ↦ absurd (ground arith)
      | inr (n, f) ↦ elim (dec_lt n block_nitem) [
        | no full ↦ get_from_new_block-GetOk m r (ground arith)
        | yes lt ↦
            let p : construct b n l g ≡ r = ground arith in
            subst (GetOk l g) p (construct-GetOk b n g l v f lt refl (λ x. refl) refl)
      ]
    ]
  ]

  take_id-GetOk :
      (c : List ℕ) (h : ResourcePool) (r : Got)
      → GroupsOk h
      → h.nitem ≡ g.nitem
      → ((x : ℕ)
          → occ x c + occ_chunks x h.free_chunks ≡ occ x l.cur_free + occ_chunks x g.free_chunks)
      → take_id c l h ≡ some r
      → GetOk l g r
  take_id-GetOk [] h r w same old e = absurd (ground arith)
  take_id-GetOk (y ∷ ys) h r w same old e =
      let p : record {
        id = y;
        address = unsafe_address_resource y;
        local = record l { cur_free = ys };
        global = h;
      }
          ≡ r =
        ground arith in
      subst (GetOk l g) p
        (record { groups = w; moved = λ x. ground (arith, old x); address = refl })

  pub get-GetOk : (m : Memory) (r : Got) → get m l g ≡ some r → GetOk l g r
  unfolding get pop_free_chunk
  get-GetOk m r e = elim (List-cases l.cur_free) [
    | inr (y, ys, c) ↦ take_id-GetOk (y ∷ ys) g r v refl (λ x. ground arith) (ground arith)
    | inl c ↦ elim (List-cases g.free_chunks) [
      | inl f ↦ get_from_block-GetOk m r (ground arith)
      | inr (d, ds, f) ↦
          take_id-GetOk d (record g { free_chunks = ds }) r
            (record { few = v.few; room = v.room; first = v.first; items = v.items }) refl
            (λ x. ground arith) (ground arith)
    ]
  ]

  pub return_resource-moved :
      (m : Memory) (id : ℕ) (k : LocalPool) (h : ResourcePool)
      → return_resource m id l g ≡ some (k, h)
      → GroupsOk h
        × ((x : ℕ)
            → occ x k.cur_free + occ_chunks x h.free_chunks + made x g.nitem
              ≡ occ x l.cur_free + occ_chunks x g.free_chunks + made x h.nitem + one x id)
  unfolding return_resource push_free_chunk
  return_resource-moved m id k h e = (
    record {
      few = ground (arith, v.few);
      room = ground (arith, v.room);
      first = ground (arith, v.first);
      items = λ b. ground (arith, v.items b);
    },
    λ x. ground arith,
  )

  pub destroy_local-moved :
      (m : Memory)
      → GroupsOk (destroy_local m l g)
        × ((x : ℕ)
            → occ_chunks x (destroy_local m l g).free_chunks + occ x (lost_ids m l) + made x g.nitem
              ≡ occ x l.cur_free + occ_chunks x g.free_chunks + made x (destroy_local m l g).nitem)
  unfolding destroy_local push_free_chunk
  destroy_local-moved m = (
    record {
      few = ground (arith, v.few);
      room = ground (arith, v.room);
      first = ground (arith, v.first);
      items = λ b. ground (arith, v.items b);
    },
    λ x. ground arith,
  )
