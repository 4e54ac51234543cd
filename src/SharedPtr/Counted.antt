-- ===== src/SharedPtr/Counted.antt =====
-- What holds between the calls of a program, and the operations that the calls are made of.
use codelab.Base.{
  ℕ, zero, suc, ◌+◌, ◌-◌, ◌≤◌, ◌<◌, ◌≡◌, refl, List, [], ◌∷◌, Option, some, arith, length,
  get_elem?, set,
}
use codelab.SharedCount.{World, new_block, shared_drop}
use codelab.SharedCount.Balance.{limit, bump, Balanced, new_block-Balanced}
use codelab.SharedCount.Handles.{shared_copy-Balanced, shared_drop-Balanced}
use codelab.SharedPtr.{Ptr, Swaps, make_ptr, copy_ptr, swap_in}
use codelab.SharedPtr.Clients.{Client, Call, remove, All, allocate, step}

-- Both swaps exchange the two.
pub record Exchanges (sw : Swaps) : Type 0 where
  pub counts : (a b : ℕ) → sw.counts a b ≡ (b, a)
  pub pointers : (a b : Ptr) → sw.pointers a b ≡ (b, a)

-- How many of the pointers count in the block at `p`.
abbrev pub counted : List Ptr → ℕ → ℕ
counted [] p = 0
counted (q ∷ qs) p = bump (counted qs) q.pn p

-- The object is the one of the block, and that was allocated below `next`; null goes with null.
abbrev pub Good : (next : ℕ) → Ptr → Type 0
Good next q = (q.px ≡ q.pn - 1) × (q.pn < next)

pub record Sound (c : Client) : Type 0 where
  pub balanced : Balanced c.world (counted c.shared) (counted c.weak)
  pub shared : All (Good c.next) c.shared
  pub weak : All (Good c.next) c.weak
  pub started : 0 < c.next

pub counted-set :
    (l : List Ptr) (i : ℕ) (x y : Ptr) (p : ℕ)
    → get_elem? l i ≡ some x
    → bump (counted (set l i y)) x.pn p ≡ bump (counted l) y.pn p
counted-set [] i x y p e = cc
counted-set (z ∷ l) zero x y p e = ground arith
counted-set (z ∷ l) (suc i) x y p e = ground (arith, counted-set l i x y p e)

pub counted-remove :
    (l : List Ptr) (i : ℕ) (x : Ptr) (p : ℕ)
    → get_elem? l i ≡ some x
    → counted l p ≡ bump (counted (remove l i)) x.pn p
counted-remove [] i x p e = cc
counted-remove (z ∷ l) zero x p e = ground arith
counted-remove (z ∷ l) (suc i) x p e = ground (arith, counted-remove l i x p e)

pub counted-le : (l : List Ptr) (p : ℕ) → counted l p ≤ length l
counted-le [] p = omega arith
counted-le (z ∷ l) p = ground (arith, counted-le l p)

pub length-remove-le : (l : List Ptr) (i : ℕ) → length (remove l i) ≤ length l
length-remove-le [] i = omega arith
length-remove-le (z ∷ l) zero = omega arith
length-remove-le (z ∷ l) (suc i) = omega (arith, length-remove-le l i)

pub counted-pos : (l : List Ptr) (i : ℕ) (x : Ptr) → get_elem? l i ≡ some x → 0 < counted l x.pn
counted-pos l i x e = ground (arith, counted-remove l i x x.pn e)

pub counted-past :
    (next : ℕ) (l : List Ptr) (p : ℕ) → All (Good next) l → next ≤ p → counted l p ≡ 0
counted-past next [] p h le = refl
counted-past next (q ∷ l) p ((e, lt), h) le = ground (arith, counted-past next l p h le)

abbrev pub handles : Client → ℕ
handles c = length c.shared + length c.weak

abbrev pub Steps : Swaps → Call → Client → Type 0
Steps sw x c = (d : Client) × (step sw x c ≡ some d) × Sound d × (handles d ≤ handles c + 1)

-- A result that is a pointer, and a world that is balanced with the counts given.
abbrev pub Gives : Option (Ptr × World) → Ptr → (s k : ℕ → ℕ) → Type 0
Gives o q s k = (w : World) × (o ≡ some (q, w)) × Balanced w s k

-- What the constructor makes of an object at `n`.
abbrev pub fresh_ptr : ℕ → Ptr
fresh_ptr n = record { px = n; pn = suc n }

module _ (sw : Swaps) (ok : Exchanges sw) where
  pub swap_in-Gives :
      (temp this : Ptr) (w : World) (s k : ℕ → ℕ)
      → Balanced w (bump s this.pn) k
      → s this.pn < limit
      → k this.pn < limit
      → Gives (swap_in sw temp this w) temp s k
  unfolding swap_in
  swap_in-Gives temp this w s k v small_s small_k =
      let (w', ran, kept) = shared_drop-Balanced w s k this.pn v small_s small_k in
      (w', ground (arith, ran, ok.pointers temp this), kept)

  pub copy_ptr-Gives :
      (r : Ptr) (w : World) (s k : ℕ → ℕ)
      → Balanced w s k
      → (0 < r.pn → 0 < s r.pn)
      → s r.pn < limit
      → Gives (copy_ptr r w) r (bump s r.pn) k
  unfolding copy_ptr
  copy_ptr-Gives r w s k v held small =
      let (w', ran, kept) = shared_copy-Balanced w s k r.pn v held small in
      (w', ground (arith, ran), kept)

  pub make_ptr-Gives :
      (c : Client)
      → Sound c
      → Gives
          (make_ptr sw (suc c.next) c.next (allocate c))
          (fresh_ptr c.next)
          (bump (counted c.shared) (suc c.next))
          (counted c.weak)
  unfolding make_ptr shared_drop
  make_ptr-Gives c v = (
    new_block (suc c.next) c.next (allocate c),
    ground (arith, ok.counts (suc c.next) 0),
    new_block-Balanced c.world (counted c.shared) (counted c.weak) c.next v.started v.balanced (
        ground (
          arith,
          v.balanced.blocks (suc c.next) (omega arith),
          counted-past c.next c.shared (suc c.next) v.shared (omega arith),
          counted-past c.next c.weak (suc c.next) v.weak (omega arith),
        )),
  )
