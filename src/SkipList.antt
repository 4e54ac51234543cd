-- ===== src/SkipList.antt =====
-- idea/skiplist.h: nodes at addresses, each with a key, the next node on each level, and the number
-- of bytes that were allocated for it beyond `sizeof(Node)`, which holds the lowest link; the head
-- is at 0. A level that a node does not have reads as null.
pub mod Lookup
pub mod Room
pub mod Levels
pub mod Search
pub mod Insertion
pub mod Layers
pub mod Refine
pub mod Histories
mod Tests
use codelab.Base.{
  ℕ, zero, suc, ◌+◌, ◌-◌, ◌*◌, ◌≡◌, Bool, true, false, not, List, [], ◌∷◌, ◌++◌, get_elem?, Option,
  none, some, ◌==◌, ltb, leb, if◌then◌else◌,
}
use codelab.Base.Int.{eqb_ℤ, ◌<ℤ◌, ℤ, ltb_ℤ, pos}

pub record Node : Type 0 where
  pub key : ℤ
  pub extra : ℕ
  pub next : ℕ → Option ℕ

pub record SkipList : Type 0 where
  pub node : ℕ → Node
  pub max_height : ℕ

-- The loop of `FindGreaterOrEqual`, for at most as many rounds as the first argument: the node it
-- returns, null being `none`, and the `prev` of each level, the lowest first.
pub find_loop : ℕ → SkipList → ℤ → (x level : ℕ) → List ℕ → Option (Option ℕ × List ℕ)
find_loop zero l key x level prev = none
find_loop (suc n) l key x level prev = elim ((l.node x).next level) [
  | some y ↦
      let along = find_loop n l key y level prev in
      let down = find_loop n l key x (level - 1) (x ∷ prev) in
      if not (ltb_ℤ key (l.node y).key)
      then along
      else (if level == 0 then some (some y, x ∷ prev) else down)
  | none ↦
      let down = find_loop n l key x (level - 1) (x ∷ prev) in
      if level == 0 then some (none, x ∷ prev) else down
]

pub find_greater_or_equal : ℕ → SkipList → ℤ → Option (Option ℕ × List ℕ)
find_greater_or_equal rounds l key = find_loop rounds l key 0 (l.max_height - 1) []

pub contains : ℕ → SkipList → ℤ → Option Bool
contains rounds l key = elim (find_greater_or_equal rounds l key) [
  | none ↦ none
  | some (none, _) ↦ some false
  | some (some x, _) ↦ some (eqb_ℤ key (l.node x).key)
]

-- `NewNode`: it allocates four bytes, `sizeof(int)`, for each level above the lowest. The links hold
-- whatever the memory did.
abbrev pub new_node : ℤ → (height : ℕ) → (memory : ℕ → Option ℕ) → Node
new_node key height memory = record {
  key = key;
  extra = 4 * (height - 1);
  next = λ level. if ltb level height then memory level else none;
}

abbrev pub update {ℓ} : {A : Type ℓ} → (ℕ → A) → ℕ → A → ℕ → A
update f p a q = if p == q then a else f q

abbrev pub with_next : SkipList → (x level : ℕ) → Option ℕ → SkipList
with_next l x level y = record l {
  node = update l.node x (record (l.node x) { next = update (l.node x).next level y });
}

-- `SetNext`, where a `Node*` takes `ptr_size` bytes; a write past the block of the node is `none`.
abbrev pub set_next : (ptr_size : ℕ) → SkipList → (x level : ℕ) → Option ℕ → Option SkipList
set_next ptr_size l x level y =
    if leb (ptr_size * level) (l.node x).extra then some (with_next l x level y) else none

-- The loop of the constructor, for the `count` levels from `i` on.
abbrev pub null_levels : (ptr_size count i : ℕ) → SkipList → Option SkipList
null_levels ptr_size zero i l = some l
null_levels ptr_size (suc n) i l = elim (set_next ptr_size l 0 i none) [
  | none ↦ none
  | some l' ↦ null_levels ptr_size n (suc i) l'
]

-- What the constructor starts with; what is at the other addresses does not matter.
abbrev pub with_head : (memory : ℕ → Option ℕ) → SkipList
with_head memory = record { node = λ _. new_node (pos 0) 12 memory; max_height = 1 }

-- The constructor.
abbrev pub init : (ptr_size : ℕ) → (memory : ℕ → Option ℕ) → Option SkipList
init ptr_size memory = null_levels ptr_size 12 0 (with_head memory)

-- `prev[i] = head_` for as many levels as the first argument.
abbrev pub fill_prev : ℕ → List ℕ → List ℕ
fill_prev zero prev = prev
fill_prev (suc n) prev = fill_prev n (prev ++ 0 ∷ [])

-- The last loop of `Insert`, for the `count` levels from `i` on.
pub link_levels : (ptr_size count i x : ℕ) → List ℕ → SkipList → Option SkipList
link_levels ptr_size zero i x prev l = some l
link_levels ptr_size (suc n) i x prev l = elim (get_elem? prev i) [
  | none ↦ none
  | some p ↦ elim (set_next ptr_size l x i ((l.node p).next i)) [
    | none ↦ none
    | some l1 ↦ elim (set_next ptr_size l1 p i (some x)) [
      | none ↦ none
      | some l2 ↦ link_levels ptr_size n (suc i) x prev l2
    ]
  ]
]

-- `Insert` with the `height` that `RandomHeight` returns; `malloc` gives the address `x`.
pub insert :
    (ptr_size rounds : ℕ)
    → SkipList
    → ℤ
    → (x height : ℕ) → (memory : ℕ → Option ℕ) → Option SkipList
insert ptr_size rounds l key x height memory = elim (find_greater_or_equal rounds l key) [
  | none ↦ none
  | some (_, prev) ↦
      link_levels ptr_size height 0 x (fill_prev (height - l.max_height) prev) (record {
        node = update l.node x (new_node key height memory);
        max_height = if ltb l.max_height height then height else l.max_height;
      })
]
