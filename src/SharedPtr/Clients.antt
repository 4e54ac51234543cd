-- ===== src/SharedPtr/Clients.antt =====
-- Programs with shared and weak pointers.
use codelab.Base.{
  ℕ, zero, suc, ◌+◌, ◌≡◌, subst, true, false, List, [], ◌∷◌, Option, none, some, arith, get_elem?,
  set,
}
use codelab.SharedCount.{World, update, shared_drop, weak_drop}
use codelab.SharedPtr.{
  Ptr, Swaps, ◌>>◌, make_ptr, copy_ptr, move_ptr, swap_in, assign_ptr, reset_ptr, copy_weak_ptr,
  assign_weak_ptr,
}

-- The pointers that are alive. An object is allocated at `next`, and its control block behind it.
pub record Client : Type 0 where
  pub world : World
  pub shared : List Ptr
  pub weak : List Ptr
  pub next : ℕ

-- Pointers are named by their places; a call that names no pointer is not made.
pub data Call : Type 0 where
  make : Call
  copy : ℕ → Call
  move : ℕ → Call
  drop : ℕ → Call
  assign : ℕ → ℕ → Call
  move_assign : ℕ → ℕ → Call
  reset : ℕ → Call
  weaken : ℕ → Call
  copy_weak : ℕ → Call
  drop_weak : ℕ → Call
  assign_weak : ℕ → ℕ → Call
  assign_shared : ℕ → ℕ → Call

module _ {ℓ} {A : Type ℓ} where
  abbrev pub remove : List A → ℕ → List A
  remove [] i = []
  remove (x ∷ xs) zero = xs
  remove (x ∷ xs) (suc i) = x ∷ remove xs i

  abbrev pub All : (A → Type 0) → List A → Type 0
  All P [] = Unit {0}
  All P (x ∷ xs) = P x × All P xs

  pub All-set : (P : A → Type 0) (l : List A) (i : ℕ) (x : A) → P x → All P l → All P (set l i x)
  All-set P [] i x p h = tt
  All-set P (y ∷ l) zero x p (q, h) = (p, h)
  All-set P (y ∷ l) (suc i) x p (q, h) = (q, All-set P l i x p h)

  pub All-remove : (P : A → Type 0) (l : List A) (i : ℕ) → All P l → All P (remove l i)
  All-remove P [] i h = tt
  All-remove P (y ∷ l) zero (q, h) = h
  All-remove P (y ∷ l) (suc i) (q, h) = (q, All-remove P l i h)

  pub All-get_elem? :
      (P : A → Type 0) (l : List A) (i : ℕ) (x : A) → All P l → get_elem? l i ≡ some x → P x
  All-get_elem? P [] i x h e = absurd (ground arith)
  All-get_elem? P (y ∷ l) zero x (q, h) e = let same : y ≡ x = ground arith in subst P same q
  All-get_elem? P (y ∷ l) (suc i) x (q, h) e = All-get_elem? P l i x h e

  pub All-weaken : (P Q : A → Type 0) → ((x : A) → P x → Q x) → (l : List A) → All P l → All Q l
  All-weaken P Q f [] h = tt
  All-weaken P Q f (y ∷ l) (q, h) = (f y q, All-weaken P Q f l h)

abbrev pub on_some : Option Ptr → Client → (Ptr → Option Client) → Option Client
on_some none c f = some c
on_some (some q) c f = f q

abbrev pub with_result : Option (Ptr × World) → (Ptr → World → Client) → Option Client
with_result none f = none
with_result (some (q, w)) f = some (f q w)

abbrev pub allocate : Client → World
allocate c = record c.world { live = update c.world.live c.next true }

unfoldable pub step : Swaps → Call → Client → Option Client
step sw make c =
    with_result (make_ptr sw (suc c.next) c.next (allocate c))
      λ q w. record c { world = w; shared = q ∷ c.shared; next = c.next + 2 }
step sw (copy i) c =
    on_some (get_elem? c.shared i) c
      λ r. with_result (copy_ptr r c.world) λ q w. record c { world = w; shared = q ∷ c.shared }
step sw (move i) c =
    on_some (get_elem? c.shared i) c
      λ r. let (new, old) = move_ptr sw r in some (record c { shared = new ∷ set c.shared i old })
step sw (drop i) c =
    on_some (get_elem? c.shared i) c λ q.
      shared_drop q.pn c.world >> λ w. some (record c { world = w; shared = remove c.shared i })
step sw (assign i j) c = on_some (get_elem? c.shared i) c λ this.
    on_some (get_elem? c.shared j) c λ r.
      with_result (assign_ptr sw this r c.world)
        λ q w. record c { world = w; shared = set c.shared i q }
step sw (move_assign i j) c = on_some (get_elem? c.shared j) c λ r.
    let (temp, old) = move_ptr sw r in
    let left = set c.shared j old in
    on_some (get_elem? left i) c λ this.
      with_result (swap_in sw temp this c.world)
        λ q w. record c { world = w; shared = set left i q }
step sw (reset i) c = on_some (get_elem? c.shared i) c λ this.
    with_result (reset_ptr sw this (suc c.next) c.next (allocate c))
      λ q w. record c { world = w; shared = set c.shared i q; next = c.next + 2 }
step sw (weaken i) c =
    on_some (get_elem? c.shared i) c
      λ r. with_result (copy_weak_ptr r c.world) λ q w. record c { world = w; weak = q ∷ c.weak }
step sw (copy_weak i) c =
    on_some (get_elem? c.weak i) c
      λ r. with_result (copy_weak_ptr r c.world) λ q w. record c { world = w; weak = q ∷ c.weak }
step sw (drop_weak i) c =
    on_some (get_elem? c.weak i) c
      λ q. weak_drop q.pn c.world >> λ w. some (record c { world = w; weak = remove c.weak i })
step sw (assign_weak i j) c = on_some (get_elem? c.weak i) c λ this.
    on_some (get_elem? c.weak j) c λ r.
      with_result (assign_weak_ptr this r c.world)
        λ q w. record c { world = w; weak = set c.weak i q }
step sw (assign_shared i j) c = on_some (get_elem? c.weak i) c λ this.
    on_some (get_elem? c.shared j) c λ r.
      with_result (assign_weak_ptr this r c.world)
        λ q w. record c { world = w; weak = set c.weak i q }

unfoldable pub run : Swaps → List Call → Client → Option Client
run sw [] c = some c
run sw (x ∷ xs) c = elim (step sw x c) [ none ↦ none | some d ↦ run sw xs d ]

unfoldable pub no_pointers : Client
no_pointers = record {
  world = record { block = λ _. none; live = λ _. false };
  shared = [];
  weak = [];
  next = 1;
}
