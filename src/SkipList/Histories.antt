-- ===== src/SkipList/Histories.antt =====
-- Any sequence of calls of Insert on a new skip list. `malloc` gives each node the address after
-- the last one.
use codelab.Base.{
  ℕ, zero, suc, ◌+◌, ◌*◌, ◌≤◌, ◌<◌, ◌≡◌, ◌≢◌, refl, sym, ap, ◌∙◌, List, [], ◌∷◌, map, Option, none,
  some, arith, if◌then◌else◌, length, dec_lt,
}
use codelab.Base.Int.{ℤ, ltb_ℤ}
use codelab.SkipList.{SkipList, insert, with_head, init}
use codelab.SkipList.Room.{mul_le, null_levels-Nulled}
use codelab.SkipList.Levels.{All, All-weaken, insert_key, All-insert_key}
use codelab.SkipList.Search.{key_of, IsLayered, rounds}
use codelab.SkipList.Layers.{inserted, inserted-ind, inserted_low}
use codelab.SkipList.Refine.{IsRoomy, insert-IsLayered}

pub record Call : Type 0 where
  pub key : ℤ
  pub height : ℕ
  pub memory : ℕ → Option ℕ

unfoldable pub run : (ptr_size rounds x : ℕ) → List Call → SkipList → Option SkipList
run ptr_size n x [] l = some l
run ptr_size n x (c ∷ cs) l = elim (insert ptr_size n l c.key x c.height c.memory) [
  | none ↦ none
  | some l' ↦ run ptr_size n (suc x) cs l'
]

-- The constructor and then the calls.
unfoldable pub run_new :
    (ptr_size rounds : ℕ) → (memory : ℕ → Option ℕ) → List Call → Option SkipList
run_new ptr_size n memory cs = elim (init ptr_size memory) [
  | none ↦ none
  | some l ↦ run ptr_size n 1 cs l
]

-- Insertion sort.
abbrev pub place : ℤ → List ℤ → List ℤ
place k [] = k ∷ []
place k (j ∷ js) = let rest = place k js in if ltb_ℤ k j then k ∷ j ∷ js else j ∷ rest

abbrev pub sorted_keys : List Call → List ℤ → List ℤ
sorted_keys [] ks = ks
sorted_keys (c ∷ cs) ks = sorted_keys cs (place c.key ks)

-- `RandomHeight` returns one of 1 to 12.
abbrev pub Heights : List Call → Type 0
Heights [] = Unit {0}
Heights (c ∷ cs) = ((0 < c.height) × (c.height ≤ 12)) × Heights cs

map-insert_key :
    (key : ℕ → ℤ) (k : ℤ) (x : ℕ) (ys : List ℕ)
    → key x ≡ k
    → map key (insert_key key k x ys) ≡ place k (map key ys)
map-insert_key key k x [] e = ap (λ j. j ∷ []) e
map-insert_key key k x (y ∷ ys) e = ground (arith, e, map-insert_key key k x ys e)

map-same :
    (key key' : ℕ → ℤ) (ys : List ℕ) → All (λ z. key' z ≡ key z) ys → map key' ys ≡ map key ys
map-same key key' [] s = refl
map-same key key' (y ∷ ys) (s, ss) = ground (arith, s, map-same key key' ys ss)

length-insert_key :
    (key : ℕ → ℤ) (k : ℤ) (x : ℕ) (ys : List ℕ) → length (insert_key key k x ys) ≡ suc (length ys)
length-insert_key key k x [] = refl
length-insert_key key k x (y ∷ ys) = ground (arith, length-insert_key key k x ys)

abbrev times : (h m : ℕ) → ℕ
times zero m = 0
times (suc h) m = m + times h m

rounds-times :
    (chain : ℕ → List ℕ) (m : ℕ)
    → ((i : ℕ) → length (chain i) < m)
    → (h : ℕ) → rounds chain h ≤ times h m
rounds-times chain m few zero = omega arith
rounds-times chain m few (suc h) = omega (arith, few h, rounds-times chain m few h)

times-le : (h j m : ℕ) → h ≤ j → times h m ≤ times j m
times-le zero j m le = omega arith
times-le (suc h) zero m le = absurd (omega arith)
times-le (suc h) (suc j) m le = omega (arith, times-le h j m (omega arith))

-- What the calls so far have left: nodes below `x`, at most `many` on each level, at most 12 high.
record IsBuilt (ptr_size : ℕ) (l : SkipList) (chain : ℕ → List ℕ) (x many : ℕ) : Type 0 where
  layered : IsLayered l chain
  roomy : IsRoomy ptr_size l chain
  below : (i : ℕ) → All (λ z. z < x) (chain i)
  few : (i : ℕ) → length (chain i) ≤ many
  low : l.max_height ≤ 12

built-rounds :
    {ptr_size : ℕ} {l : SkipList} {chain : ℕ → List ℕ} {x many : ℕ}
    → IsBuilt ptr_size l chain x many
    → rounds chain l.max_height ≤ 12 * suc many
built-rounds {ptr_size} {l} {chain} {x} {many} b =
    let few = rounds-times chain (suc many) (λ i. omega (arith, b.few i)) l.max_height in
    omega (arith, few, times-le l.max_height 12 (suc many) b.low)

abbrev AfterInsert :
    (ptr_size : ℕ) → SkipList → (ℕ → List ℕ) → (x many : ℕ) → Call → Option SkipList → Type 0
AfterInsert ptr_size l chain x many c o =
    (l' : SkipList) × (chain' : ℕ → List ℕ) × (o ≡ some l')
    × IsBuilt ptr_size l' chain' (suc x) (suc many)
    × (map (key_of l') (chain' 0) ≡ place c.key (map (key_of l) (chain 0)))

insert-IsBuilt :
    (ptr_size n : ℕ) (l : SkipList) (chain : ℕ → List ℕ) (x many : ℕ) (c : Call)
    → ptr_size ≤ 4
    → IsBuilt ptr_size l chain x many
    → 0 < x
    → 0 < c.height
    → c.height ≤ 12
    → 12 * suc many ≤ n
    → AfterInsert ptr_size l chain x many c (insert ptr_size n l c.key x c.height c.memory)
insert-IsBuilt ptr_size n l chain x many c small b pos tall low enough =
    let new : (i : ℕ) → All (λ z. z ≢ x) (chain i) =
      λ i. All-weaken (λ z lt e. omega arith) (chain i) (b.below i) in
    let (l', e, layered, roomy, height, key_x, keys) =
      insert-IsLayered ptr_size small l chain b.roomy b.layered c.key x c.height c.memory low pos
        new n (omega (arith, built-rounds b)) in
    let chain' : ℕ → List ℕ = inserted (key_of l') c.key x c.height chain in
    (
      l',
      chain',
      e,
      record {
        layered = layered;
        roomy = roomy;
        below = λ i.
            let old = All-weaken (λ z lt. omega arith) (chain i) (b.below i) in
            inserted-ind (key_of l') c.key x c.height chain (All (λ z. z < suc x)) i
              (λ lt.
                All-insert_key (λ z. z < suc x) (key_of l') c.key x (chain i) (omega arith) old)
              (λ ge. old);
        few = λ i.
            inserted-ind (key_of l') c.key x c.height chain (λ k. length k ≤ suc many) i
              (λ lt. omega (arith, length-insert_key (key_of l') c.key x (chain i), b.few i))
              (λ ge. omega (arith, b.few i));
        low = ground (arith, height, b.low);
      },
      ap (map (key_of l')) (sym (inserted_low (key_of l') c.key x c.height chain 0 tall))
          ∙ map-insert_key (key_of l') c.key x (chain 0) key_x
          ∙ ap (place c.key) (
              map-same (key_of l) (key_of l') (chain 0)
                (All-weaken (λ z ne. keys z ne) (chain 0) (new 0))),
    )

run-IsBuilt :
    (ptr_size n : ℕ) (l : SkipList) (chain : ℕ → List ℕ) (x many : ℕ) (cs : List Call)
    → ptr_size ≤ 4
    → IsBuilt ptr_size l chain x many
    → 0 < x
    → Heights cs
    → 12 * suc (many + length cs) ≤ n
    → (l' : SkipList) × (chain' : ℕ → List ℕ) × (run ptr_size n x cs l ≡ some l')
      × IsLayered l' chain'
      × IsRoomy ptr_size l' chain'
      × (map (key_of l') (chain' 0) ≡ sorted_keys cs (map (key_of l) (chain 0)))
unfolding run
run-IsBuilt ptr_size n l chain x many [] small b pos h enough =
    (l, chain, refl, b.layered, b.roomy, refl)
run-IsBuilt ptr_size n l chain x many (c ∷ cs) small b pos ((tall, low), h) enough =
    let (l', chain', e, b', same) =
      insert-IsBuilt ptr_size n l chain x many c small b pos tall low (omega arith) in
    let (l'', chain'', f, layered, roomy, same') =
      run-IsBuilt ptr_size n l' chain' (suc x) (suc many) cs small b' (omega arith) h
        (omega arith) in
    (l'', chain'', ground arith, layered, roomy, same' ∙ ap (sorted_keys cs) same)

init-IsBuilt :
    (ptr_size : ℕ) (memory : ℕ → Option ℕ)
    → ptr_size ≤ 4
    → (l : SkipList) × (init ptr_size memory ≡ some l) × IsBuilt ptr_size l (λ _. []) 1 0
init-IsBuilt ptr_size memory small =
    let (l, e, k) =
      null_levels-Nulled ptr_size 12 0 (with_head memory)
        (λ d lt. mul_le ptr_size d 11 small (omega arith)) in
    (
      l,
      e,
      record {
        layered = record {
          links = λ i. elim (dec_lt i 12) [
            | yes lt ↦ k.nulls i (omega arith) lt
            | no ge ↦ k.kept i (omega arith) ∙ ground arith
          ];
          ascending = λ i. tt;
          unique = λ i. (tt, tt);
          nested = λ i x j. elim j [ ];
          tall = λ i le. refl;
          height = omega (arith, k.height);
        };
        roomy = λ i lt. (omega (arith, k.extra 0, mul_le ptr_size i 11 small (omega arith)), tt);
        below = λ i. tt;
        few = λ i. omega arith;
        low = omega (arith, k.height);
      },
    )

-- Where a pointer takes at most four bytes: the constructor and then any sequence of calls of
-- `Insert` with heights up to 12 end, with twelve rounds for each call and twelve more, and write to
-- no link past a node's block, whatever the allocated memory holds: then each level is a list of
-- nodes in ascending order of their keys, whose nodes are on the level below too and have room for
-- their links, and the lowest has the keys inserted.
pub run-sorted :
    (ptr_size n : ℕ) (memory : ℕ → Option ℕ) (cs : List Call)
    → ptr_size ≤ 4
    → Heights cs
    → 12 * suc (length cs) ≤ n
    → (l : SkipList) × (chain : ℕ → List ℕ) × (run_new ptr_size n memory cs ≡ some l)
      × IsLayered l chain
      × IsRoomy ptr_size l chain
      × (map (key_of l) (chain 0) ≡ sorted_keys cs [])
unfolding run_new
run-sorted ptr_size n memory cs small h enough =
    let (l0, e, b) = init-IsBuilt ptr_size memory small in
    let (l, chain, f, layered, roomy, same) =
      run-IsBuilt ptr_size n l0 (λ _. []) 1 0 cs small b (omega arith) h (omega arith) in
    (l, chain, ground (arith, e, f), layered, roomy, same)
