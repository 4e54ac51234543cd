-- ===== src/SkipList/Refine.antt =====
-- Insert against lists of nodes, one for each level.
use codelab.Base.{
  ℕ, ◌+◌, ◌-◌, ◌≤◌, ◌<◌, ◌≡◌, ◌≢◌, refl, sym, ap, subst, ◌∙◌, inl, inr, ◌*◌, List, [], ◌∷◌, ◌++◌,
  Option, some, arith, ltb, if◌then◌else◌,
}
use codelab.Base.Int.{ℤ}
use codelab.SkipList.{SkipList, new_node, update, fill_prev, insert}
use codelab.SkipList.Room.{extra_of, mul_le}
use codelab.SkipList.Levels.{
  All, Links, Ascending, Unique, All-weaken, In-All, All-In, All-append, last_of, last_of-In,
  insert_key, insert_key-append, All-insert_key, insert_key-Ascending, insert_key-Unique,
}
use codelab.SkipList.Search.{key_of, next_at, IsLayered, Cut, rounds, find_greater_or_equal-Covers}
use codelab.SkipList.Insertion.{
  Spliced, Links-same, Links-Spliced, Linked, link_levels-Linked, fill_prev-Good,
}
use codelab.SkipList.Layers.{
  All-both, Same, Ascending-Same, Cut-Same, Cut-differs, inserted, inserted-ind, inserted_high,
  inserted-nested,
}

-- What `Insert` starts to link: the new node is there, and the height raised.
abbrev with_node : SkipList → ℤ → (x height : ℕ) → (ℕ → Option ℕ) → SkipList
with_node l key x height memory = record {
  node = update l.node x (new_node key height memory);
  max_height = if ltb l.max_height height then height else l.max_height;
}

-- Each node, and the head, has room for its links on the levels that it is on.
abbrev pub IsRoomy : (ptr_size : ℕ) → SkipList → (ℕ → List ℕ) → Type 0
IsRoomy ptr_size l chain = (i : ℕ) → i < 12 → All (λ z. ptr_size * i ≤ extra_of l z) (0 ∷ chain i)

Cut-All :
    (P : ℕ → Type 0) (key : ℕ → ℤ) (k : ℤ) (c : List ℕ) (p : ℕ)
    → All P (0 ∷ c)
    → Cut key k c p
    → P p
Cut-All P key k c p (head, all) (pre, rest, e, at, low, b) = elim (last_of-In 0 pre) [
  | inl here ↦ subst P (sym here ∙ at) head
  | inr i ↦
      subst P at (All-In P pre (last_of 0 pre) (All-append P pre rest (subst (All P) e all)).0 i)
]

module _ (ptr_size : ℕ) (small : ptr_size ≤ 4) (l : SkipList) (chain : ℕ → List ℕ)
    (roomy : IsRoomy ptr_size l chain) (v : IsLayered l chain) (key : ℤ) (x height : ℕ)
    (memory : ℕ → Option ℕ) (low : height ≤ 12) (pos : 0 < x)
    (new : (i : ℕ) → All (λ z. z ≢ x) (chain i)) where
  abbrev start : SkipList
  start = with_node l key x height memory

  start-keys : (z : ℕ) → z ≢ x → key_of start z ≡ key_of l z
  start-keys z ne = ground arith

  start-extra : (z : ℕ) → z ≢ x → extra_of start z ≡ extra_of l z
  start-extra z ne = ground arith

  start-room : (i : ℕ) → i < height → ptr_size * i ≤ extra_of start x
  start-room i lt =
      let block : extra_of start x ≡ 4 * (height - 1) = ground arith in
      omega (arith, block, mul_le ptr_size i (height - 1) small (omega arith))

  start-next : (i z : ℕ) → z ≢ x → next_at start i z ≡ next_at l i z
  start-next i z ne = ground arith

  start-Links : (i : ℕ) → Links (next_at start i) 0 (chain i)
  start-Links i =
      Links-same (next_at l i) (next_at start i) 0 (chain i)
        (start-next i 0 (omega arith), All-weaken (λ z ne. start-next i z ne) (chain i) (new i))
        (v.links i)

  module _ (l' : SkipList) (prev : List ℕ)
      (k : Linked ptr_size
        (λ d p. Cut (key_of l) key (chain d) p)
        x
        prev
        start
        l'
        0
        (0 + height)) where
    abbrev levels : ℕ → List ℕ
    levels = inserted (key_of l') key x height chain

    end-keys : (i : ℕ) → All (Same (key_of l) (key_of l')) (chain i)
    end-keys i = All-weaken (λ z ne. k.keys z ∙ start-keys z ne) (chain i) (new i)

    key-new : key_of l' x ≡ key
    key-new = k.keys x ∙ ground arith

    end-height : (height ≤ l'.max_height) × (l.max_height ≤ l'.max_height)
    end-height =
        let same : l'.max_height ≡ start.max_height = k.height in
        (ground (arith, same), ground (arith, same))

    low-Links :
        (i : ℕ) → i < height → Links (next_at l' i) 0 (insert_key (key_of l') key x (chain i))
    low-Links i lt =
        let (p, cut, spliced) = k.spliced i (omega arith) (omega arith) in
        let (pre, rest, e, at, low, beyond) =
          Cut-Same (key_of l) (key_of l') key (chain i) p (end-keys i) cut in
        let whole : Links (next_at start i) 0 (pre ++ rest) =
          subst (Links (next_at start i) 0) e (start-Links i) in
        let result : insert_key (key_of l') key x (chain i) ≡ pre ++ x ∷ rest =
          ap (insert_key (key_of l') key x) e
          ∙ insert_key-append (key_of l') key x pre rest low beyond in
        subst (Links (next_at l' i) 0) (sym result) (
          Links-Spliced (next_at start i) (next_at l' i) 0 x pre rest whole
            (subst (λ c. Unique (0 ∷ c)) e (v.unique i))
            (omega arith, subst (All (λ z. z ≢ x)) e (new i))
            (subst (λ q. Spliced (next_at start i) (next_at l' i) q x) (sym at) spliced))

    high-Links : (i : ℕ) → height ≤ i → Links (next_at l' i) 0 (chain i)
    high-Links i ge =
        Links-same (next_at start i) (next_at l' i) 0 (chain i)
          (In-All (λ z. next_at l' i z ≡ next_at start i z) (0 ∷ chain i)
            (λ z j. k.other i z (inr (omega arith))))
          (start-Links i)

    end-extra : (z : ℕ) → z ≢ x → extra_of l' z ≡ extra_of l z
    end-extra z ne = k.extra z ∙ start-extra z ne

    levels-IsRoomy : IsRoomy ptr_size l' levels
    levels-IsRoomy i lt =
        let (head, old) = roomy i lt in
        let Fits : ℕ → Type 0 = λ z. ptr_size * i ≤ extra_of l' z in
        let old' =
          All-both (λ z. ptr_size * i ≤ extra_of l z) (λ z. z ≢ x) Fits
            (λ z le ne. omega (arith, le, end-extra z ne)) (chain i) old (new i) in
        (
          omega (arith, head, end-extra 0 (omega arith)),
          inserted-ind (key_of l') key x height chain (All Fits) i
              (λ tall.
                All-insert_key Fits (key_of l') key x (chain i)
                  (omega (arith, start-room i tall, k.extra x)) old')
              (λ ge. old'),
        )

    levels-IsLayered : IsLayered l' levels
    levels-IsLayered = record {
      links = λ i.
          inserted-ind (key_of l') key x height chain (Links (next_at l' i) 0) i (low-Links i)
            (high-Links i);
      ascending = λ i.
          let old = Ascending-Same (key_of l) (key_of l') (chain i) (end-keys i) (v.ascending i) in
          inserted-ind (key_of l') key x height chain (Ascending (key_of l')) i
            (λ lt.
              subst (λ m. Ascending (key_of l') (insert_key (key_of l') m x (chain i))) key-new
                (insert_key-Ascending (key_of l') x (chain i) old))
            (λ ge. old);
      unique = λ i.
          inserted-ind (key_of l') key x height chain (λ c. Unique (0 ∷ c)) i
            (λ lt. (
              All-insert_key (λ z. 0 ≢ z) (key_of l') key x (chain i) (omega arith) (v.unique i).0,
              insert_key-Unique (key_of l') key x (chain i) (v.unique i).1
                  (All-weaken (λ z ne e. ne (sym e)) (chain i) (new i)),
            ))
            (λ ge. v.unique i);
      nested = inserted-nested (key_of l') key x height chain v.nested;
      tall = λ i ge.
          sym (inserted_high (key_of l') key x height chain i (omega (arith, end-height.0)))
          ∙ v.tall i (omega (arith, end-height.1));
      height = omega (arith, v.height, end-height.1);
    }

  -- Where a pointer takes at most four bytes: on a skip list of which each level is a list of nodes
  -- in ascending order of their keys, which have room for their links, with a height up to 12 and
  -- enough rounds for the search, `Insert` ends and writes to no link past a node's block, whatever
  -- the memory of the new node holds, which is not in the list: it stands, with the key, behind all
  -- keys up to its own on each level below its height, the other levels and the other keys are as
  -- before, each level is in ascending order again, and its nodes have room for their links.
  pub insert-IsLayered :
      (n : ℕ)
      → rounds chain l.max_height ≤ n
      → (l' : SkipList) × (insert ptr_size n l key x height memory ≡ some l')
        × IsLayered l' (inserted (key_of l') key x height chain)
        × IsRoomy ptr_size l' (inserted (key_of l') key x height chain)
        × (l'.max_height ≡ (if ltb l.max_height height then height else l.max_height))
        × (key_of l' x ≡ key)
        × ((z : ℕ) → z ≢ x → key_of l' z ≡ key_of l z)
  unfolding insert
  insert-IsLayered n enough =
      let (o, ps, e, (len, cuts)) = find_greater_or_equal-Covers l chain v key n enough in
      let prev = fill_prev (height - l.max_height) ps in
      let goods =
        fill_prev-Good (λ d p. Cut (key_of l) key (chain d) p) (height - l.max_height) ps
          (λ d le. ([], [], v.tall d (omega (arith, len)), refl, tt, tt))
          (λ d lt.
            let (p, at, cut) = cuts d lt in
            (p, at, subst (λ j. Cut (key_of l) key (chain j) p) (omega arith) cut)) in
      let (l', f, k) =
        link_levels-Linked ptr_size (λ d p. Cut (key_of l) key (chain d) p) x prev height 0 start
          (λ d lt.
            let (p, at, cut) = goods d (omega arith) in
            let ne = Cut-differs (key_of l) key (chain d) p x (omega arith) (new d) cut in
            let fits =
              Cut-All (λ z. ptr_size * d ≤ extra_of l z) (key_of l) key (chain d) p
                (roomy d (omega arith)) cut in
            (p, at, cut, ne, omega (arith, fits, start-extra p ne), start-room d (omega arith))) in
      (
        l',
        ground arith,
        levels-IsLayered l' prev k,
        levels-IsRoomy l' prev k,
        k.height,
        key-new l' prev k,
        λ z ne. k.keys z ∙ start-keys z ne,
      )
