-- ===== src/SharedCount/Clients.antt =====
-- Programs that create, copy, move, assign and destroy handles, in any order.
use codelab.Base.{
  ℕ, zero, suc, ◌+◌, ◌≤◌, ◌<◌, ◌≡◌, true, false, List, [], ◌∷◌, Option, none, some, arith, length,
  get_elem?, set,
}
use codelab.SharedCount.{
  World, update, new_block, shared_drop, shared_copy, shared_assign, weak_drop, weak_copy,
  weak_assign, move_handle,
}
use codelab.SharedCount.Balance.{bump}

-- The handles that are alive, by their values of `pi_`. An object is allocated at `next`, and its
-- control block behind it.
pub record Client : Type 0 where
  pub world : World
  pub shared : List ℕ
  pub weak : List ℕ
  pub next : ℕ

-- Handles are named by their places; a call that names no handle is not made.
pub data Call : Type 0 where
  make : Call
  copy : ℕ → Call
  move : ℕ → Call
  drop : ℕ → Call
  assign : ℕ → ℕ → Call
  weaken : ℕ → Call
  copy_weak : ℕ → Call
  move_weak : ℕ → Call
  drop_weak : ℕ → Call
  assign_weak : ℕ → ℕ → Call
  assign_shared : ℕ → ℕ → Call

abbrev pub remove : List ℕ → ℕ → List ℕ
remove [] i = []
remove (x ∷ xs) zero = xs
remove (x ∷ xs) (suc i) = x ∷ remove xs i

-- The handles to `p`.
abbrev pub count : List ℕ → ℕ → ℕ
count [] p = 0
count (x ∷ xs) p = bump (count xs) x p

abbrev pub on_handle : Option ℕ → Client → (ℕ → Option Client) → Option Client
on_handle none c f = some c
on_handle (some pi) c f = f pi

abbrev pub with_world : Option World → (World → Client) → Option Client
with_world none f = none
with_world (some w) f = some (f w)

unfoldable pub step : Call → Client → Option Client
step make c = some (record {
  world = new_block (suc c.next) c.next (record c.world { live = update c.world.live c.next true });
  shared = suc c.next ∷ c.shared;
  weak = c.weak;
  next = c.next + 2;
})
step (copy i) c =
    on_handle (get_elem? c.shared i) c
      λ r. with_world (shared_copy r c.world) λ w. record c { world = w; shared = r ∷ c.shared }
step (move i) c =
    on_handle (get_elem? c.shared i) c
      λ r. let (new, old) = move_handle r in some (record c { shared = new ∷ set c.shared i old })
step (drop i) c = on_handle (get_elem? c.shared i) c λ pi.
    with_world (shared_drop pi c.world) λ w. record c { world = w; shared = remove c.shared i }
step (assign i j) c = on_handle (get_elem? c.shared i) c λ pi.
    on_handle (get_elem? c.shared j) c λ r.
      with_world (shared_assign pi r c.world) λ w. record c { world = w; shared = set c.shared i r }
step (weaken i) c =
    on_handle (get_elem? c.shared i) c
      λ r. with_world (weak_copy r c.world) λ w. record c { world = w; weak = r ∷ c.weak }
step (copy_weak i) c =
    on_handle (get_elem? c.weak i) c
      λ r. with_world (weak_copy r c.world) λ w. record c { world = w; weak = r ∷ c.weak }
step (move_weak i) c =
    on_handle (get_elem? c.weak i) c
      λ r. let (new, old) = move_handle r in some (record c { weak = new ∷ set c.weak i old })
step (drop_weak i) c =
    on_handle (get_elem? c.weak i) c
      λ pi. with_world (weak_drop pi c.world) λ w. record c { world = w; weak = remove c.weak i }
step (assign_weak i j) c = on_handle (get_elem? c.weak i) c λ pi.
    on_handle (get_elem? c.weak j) c
      λ r. with_world (weak_assign pi r c.world) λ w. record c { world = w; weak = set c.weak i r }
step (assign_shared i j) c = on_handle (get_elem? c.weak i) c λ pi.
    on_handle (get_elem? c.shared j) c
      λ r. with_world (weak_assign pi r c.world) λ w. record c { world = w; weak = set c.weak i r }

unfoldable pub run : List Call → Client → Option Client
run [] c = some c
run (x ∷ xs) c = elim (step x c) [ none ↦ none | some d ↦ run xs d ]

unfoldable pub init : Client
init = record {
  world = record { block = λ _. none; live = λ _. false };
  shared = [];
  weak = [];
  next = 1;
}

-- The counts of the handles that one list operation leaves.

pub count-set :
    (l : List ℕ) (i x y p : ℕ)
    → get_elem? l i ≡ some x
    → bump (count (set l i y)) x p ≡ bump (count l) y p
count-set [] i x y p e = cc
count-set (z ∷ l) zero x y p e = ground arith
count-set (z ∷ l) (suc i) x y p e = ground (arith, count-set l i x y p e)

pub count-remove :
    (l : List ℕ) (i x p : ℕ) → get_elem? l i ≡ some x → count l p ≡ bump (count (remove l i)) x p
count-remove [] i x p e = cc
count-remove (z ∷ l) zero x p e = ground arith
count-remove (z ∷ l) (suc i) x p e = ground (arith, count-remove l i x p e)

pub count-le : (l : List ℕ) (p : ℕ) → count l p ≤ length l
count-le [] p = omega arith
count-le (z ∷ l) p = ground (arith, count-le l p)

pub count-pos : (l : List ℕ) (i x : ℕ) → get_elem? l i ≡ some x → 0 < count l x
count-pos [] i x e = cc
count-pos (z ∷ l) zero x e = ground arith
count-pos (z ∷ l) (suc i) x e = ground (arith, count-pos l i x e)

pub length-remove-le : (l : List ℕ) (i : ℕ) → length (remove l i) ≤ length l
length-remove-le [] i = omega arith
length-remove-le (z ∷ l) zero = omega arith
length-remove-le (z ∷ l) (suc i) = omega (arith, length-remove-le l i)
