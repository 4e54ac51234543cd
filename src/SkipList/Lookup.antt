-- ===== src/SkipList/Lookup.antt =====
-- What the search leads `Contains` to.
use codelab.Base.{
  ℕ, zero, suc, ◌+◌, ◌-◌, ◌≤◌, ◌<◌, ◌≡◌, false, List, [], ◌∷◌, Option, none, some, arith,
  Option-cases, inl, inr, dec_lt, ℕ_discrete,
}
use codelab.Base.Int.{eqb_ℤ, ◌<ℤ◌, ℤ, pos_part, neg_part}
use codelab.SkipList.{SkipList, find_loop, find_greater_or_equal, contains}

-- Along each level the nodes go up in some order of at most `count` of them.
pub record IsOrdered (l : SkipList) (count : ℕ) (rank : ℕ → ℕ) : Type 0 where
  pub up : (x level y : ℕ) → (l.node x).next level ≡ some y → (rank x < rank y) × (rank y ≤ count)

-- The node, if any, has a key above the one that is looked for.
abbrev pub Above : SkipList → ℤ → Option ℕ → Type 0
Above l key none = Unit {0}
Above l key (some y) = key <ℤ (l.node y).key

module _ (l : SkipList) (count : ℕ) (rank : ℕ → ℕ) (v : IsOrdered l count rank) (key : ℤ) where
  find_loop-Above :
      (n x level : ℕ) (prev : List ℕ)
      → level + (count - rank x) < n
      → (o : Option ℕ) × (ps : List ℕ) × (find_loop n l key x level prev ≡ some (o, ps))
        × Above l key o
  unfolding find_loop
  find_loop-Above zero x level prev enough = absurd (omega arith)
  find_loop-Above (suc n) x level prev enough = elim (Option-cases ((l.node x).next level)) [
    | inl e ↦ elim (ℕ_discrete level 0) [
      | yes bottom ↦ (none, x ∷ prev, ground arith, tt)
      | no higher ↦
          let (o, ps, q, a) = find_loop-Above n x (level - 1) (x ∷ prev) (omega arith) in
          (o, ps, ground arith, a)
    ]
    | inr (y, e) ↦
        elim (dec_lt (pos_part key + neg_part (l.node y).key)
          (pos_part (l.node y).key + neg_part key)) [
            | no go_on ↦
                let (o, ps, q, a) =
                  find_loop-Above n y level prev (omega (arith, v.up x level y e)) in
                (o, ps, ground arith, a)
            | yes above ↦ elim (ℕ_discrete level 0) [
              | yes bottom ↦ (some y, x ∷ prev, ground arith, above)
              | no higher ↦
                  let (o, ps, q, a) = find_loop-Above n x (level - 1) (x ∷ prev) (omega arith) in
                  (o, ps, ground arith, a)
            ]
          ]
  ]

  Above-differs : (y : ℕ) → Above l key (some y) → eqb_ℤ key (l.node y).key ≡ false
  Above-differs y a = ground arith

  -- In a skip list whose levels each go up in some order of at most `count` nodes, with as many
  -- rounds as `count` and the height together, the search of `Contains` ends, and `Contains`
  -- returns false for every key.
  pub contains-false : contains (suc (count + l.max_height)) l key ≡ some false
  unfolding contains find_greater_or_equal
  contains-false =
      let (o, ps, q, a) =
        find_loop-Above (suc (count + l.max_height)) 0 (l.max_height - 1) [] (omega arith) in
      conclude o ps q a
    where
      conclude :
          (o : Option ℕ) (ps : List ℕ)
          → find_loop (suc (count + l.max_height)) l key 0 (l.max_height - 1) [] ≡ some (o, ps)
          → Above l key o
          → contains (suc (count + l.max_height)) l key ≡ some false
      conclude none ps q a = ground arith
      conclude (some y) ps q a = ground (arith, Above-differs y a)
