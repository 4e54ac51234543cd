-- ===== src/ResourcePool/Pools.antt =====
-- Threads that each keep a LocalPool of their own; those of get_or_new_local_pool are not kept.
use codelab.Base.{
  ℕ, zero, suc, ◌+◌, ◌/◌, ◌≤◌, ◌<◌, ◌≡◌, refl, List, [], ◌∷◌, ◌++◌, Option, some, arith, get_elem?,
  set, replicate, ◌∙◌, ap, sym,
}
use codelab.Base.Bag.{occ, remove, occ-remove, occ-append}
use codelab.ResourcePool.{
  Memory, ResourcePool, LocalPool, new_local, new_pool, Got, get, return_resource, destroy_local,
  block_nitem, unsafe_address_resource, address_resource,
}
use codelab.ResourcePool.Count.{occ_chunks, occ_locals, made, GroupsOk}
use codelab.ResourcePool.Get.{get-GetOk, return_resource-moved, destroy_local-moved, lost_ids}

-- `used` has the ids that callers hold, `lost` those of pools whose last chunk found no memory.
pub record System : Type 0 where
  pub global : ResourcePool
  pub locals : List LocalPool
  pub used : List ℕ
  pub lost : List ℕ

-- A caller returns an id that it holds. A thread that ends gives its pool to the next.
pub data Step (m : Memory) (s : System) : System → Type 0 where
  got :
      (i : ℕ) (l : LocalPool) (r : Got)
      → get_elem? s.locals i ≡ some l
      → get m l s.global ≡ some r
      → Step m s
          (record s { global = r.global; locals = set s.locals i r.local; used = r.id ∷ s.used })
  returned :
      (i : ℕ) (l : LocalPool) (id : ℕ) (k : LocalPool) (g : ResourcePool)
      → get_elem? s.locals i ≡ some l
      → 0 < occ id s.used
      → return_resource m id l s.global ≡ some (k, g)
      → Step m s (record s { global = g; locals = set s.locals i k; used = remove id s.used })
  ended :
      (i : ℕ) (l : LocalPool)
      → get_elem? s.locals i ≡ some l
      → Step m s (record s {
        global = destroy_local m l s.global;
        locals = set s.locals i new_local;
        lost = lost_ids m l ++ s.lost;
      })

-- Memory may run out in one call and not in the next.
pub data Reach (s : System) : System → Type 0 where
  here : Reach s s
  later : {t u : System} (m : Memory) → Reach s t → Step m t u → Reach s u

abbrev pub no_ids_used : ℕ → System
no_ids_used n = record { global = new_pool; locals = replicate n new_local; used = []; lost = [] }

record Sound (s : System) : Type 0 where
  groups : GroupsOk s.global
  balance :
      (x : ℕ)
      → occ x s.used + occ_locals x s.locals + occ_chunks x s.global.free_chunks + occ x s.lost
        ≡ made x s.global.nitem

occ_locals-set :
    (x : ℕ) (ls : List LocalPool) (i : ℕ) (l k : LocalPool)
    → get_elem? ls i ≡ some l
    → occ_locals x (set ls i k) + occ x l.cur_free ≡ occ_locals x ls + occ x k.cur_free
occ_locals-set x [] i l k e = absurd (ground arith)
occ_locals-set x (a ∷ ls) zero l k e = ground arith
occ_locals-set x (a ∷ ls) (suc i) l k e = omega (arith, occ_locals-set x ls i l k e)

Step-Sound : {m : Memory} {s t : System} → Step m s t → Sound s → Sound t
Step-Sound {m} {s} (got i l r e f) v =
    let ok = get-GetOk l s.global v.groups m r f in
    record {
      groups = ok.groups;
      balance =
          λ x. omega (arith, ok.moved x, occ_locals-set x s.locals i l r.local e, v.balance x);
    }
Step-Sound {m} {s} (returned i l id k g e held f) v =
    let (w, moved) = return_resource-moved l s.global v.groups m id k g f in
    record {
      groups = w;
      balance = λ x. omega (
        arith,
        moved x,
        occ_locals-set x s.locals i l k e,
        occ-remove x id s.used held,
        v.balance x,
      );
    }
Step-Sound {m} {s} (ended i l e) v =
    let (w, moved) = destroy_local-moved l s.global v.groups m in
    record {
      groups = w;
      balance = λ x. omega (
        arith,
        moved x,
        occ_locals-set x s.locals i l new_local e,
        occ-append x (lost_ids m l) s.lost,
        v.balance x,
      );
    }

occ_locals-replicate : (x n : ℕ) → occ_locals x (replicate n new_local) ≡ 0
occ_locals-replicate x zero = refl
occ_locals-replicate x (suc n) = omega (arith, occ_locals-replicate x n)

no_ids_used-Sound : (n : ℕ) → Sound (no_ids_used n)
no_ids_used-Sound n = record {
  groups = record { few = omega arith; room = omega arith; first = λ e. refl; items = λ b. tt };
  balance = λ x. omega (arith, occ_locals-replicate x n);
}

Reach-Sound : (n : ℕ) {s : System} → Reach (no_ids_used n) s → Sound s
Reach-Sound n here = no_ids_used-Sound n
Reach-Sound n (later m r s) = Step-Sound s (Reach-Sound n r)

pub made-le : (x : ℕ) (f : ℕ → Option ℕ) → made x f ≤ 1
made-le x f = ground arith

made-address :
    (x : ℕ) (g : ResourcePool)
    → GroupsOk g
    → 0 < made x g.nitem
    → address_resource x g ≡ some (unsafe_address_resource x)
unfolding address_resource unsafe_address_resource
made-address x g v h = ground (arith, v.items (x / block_nitem), v.few, v.room, v.first)

-- However threads that each keep a pool get, return and end, each id whose item was constructed is
-- in one place: a caller holds it, it is once in the free list of one thread or in one chunk, or it
-- was lost once, when a thread ended and there was no memory for its chunk; and any other id is
-- nowhere. And an id that a caller holds addresses its item.
pub Reach-placed :
    (n : ℕ) {s : System}
    → Reach (no_ids_used n) s
    → (x : ℕ)
    → (occ x s.used + occ_locals x s.locals + occ_chunks x s.global.free_chunks + occ x s.lost
        ≡ made x s.global.nitem)
      × (made x s.global.nitem ≤ 1)
      × (0 < occ x s.used → address_resource x s.global ≡ some (unsafe_address_resource x))
Reach-placed n {s} r x = (
  (Reach-Sound n r).balance x,
  made-le x s.global.nitem,
  λ h.
      made-address x s.global (Reach-Sound n r).groups (omega (arith, (Reach-Sound n r).balance x)),
)

-- In every state that threads which each keep a pool can reach by getting, returning what is held,
-- and ending, with or without memory, the id that `get` gives to a thread is held by no caller, and its
-- address is what `address_resource` then finds for it.
pub get-unused :
    (n : ℕ) {s : System}
    → Reach (no_ids_used n) s
    → (m : Memory) (i : ℕ) (l : LocalPool) (r : Got) → get_elem? s.locals i ≡ some l
    → get m l s.global ≡ some r
    → (occ r.id s.used ≡ 0) × (address_resource r.id r.global ≡ some r.address)
get-unused n {s} reach m i l r e f =
    let v = Reach-Sound n reach in
    let ok = get-GetOk l s.global v.groups m r f in
    let w = Step-Sound (got i l r e f) v in
    let held : 0 < made r.id r.global.nitem = ground (arith, w.balance r.id) in
    (
      ground (arith, w.balance r.id, made-le r.id r.global.nitem),
      made-address r.id r.global ok.groups held ∙ ap some (sym ok.address),
    )
