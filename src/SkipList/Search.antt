-- ===== src/SkipList/Search.antt =====
-- The `prev` that FindGreaterOrEqual fills.
use codelab.Base.{
  ℕ, zero, suc, ◌+◌, ◌-◌, ◌≤◌, ◌<◌, ◌≡◌, refl, sym, ap, subst, ◌∙◌, ◌⊎◌, inl, inr, List, [], ◌∷◌,
  ◌++◌, Option, none, some, arith, dec_lt, length, length-append, get_elem?,
}
use codelab.Base.Int.{◌≤ℤ◌, ℤ, pos_part, neg_part}
use codelab.SkipList.{SkipList, find_loop, find_greater_or_equal}
use codelab.SkipList.Levels.{
  All, In, Links, Ascending, Unique, last_of, Beyond, Links-append, last_of-In, All-In, cut_behind,
  append-All, In-append,
}

abbrev pub key_of : SkipList → ℕ → ℤ
key_of l x = (l.node x).key

abbrev pub next_at : SkipList → (level : ℕ) → ℕ → Option ℕ
next_at l level x = (l.node x).next level

-- The nodes of each level are those of a list: their keys go up, none is there twice or is the
-- head, and each is on the level below too. There are none above the height.
pub record IsLayered (l : SkipList) (chain : ℕ → List ℕ) : Type 0 where
  pub links : (i : ℕ) → Links (next_at l i) 0 (chain i)
  pub ascending : (i : ℕ) → Ascending (key_of l) (chain i)
  pub unique : (i : ℕ) → Unique (0 ∷ chain i)
  pub nested : (i x : ℕ) → In x (chain (suc i)) → In x (chain i)
  pub tall : (i : ℕ) → l.max_height ≤ i → chain i ≡ []
  pub height : 0 < l.max_height

-- As many rounds as the loop takes at most on the levels below `level`.
abbrev pub rounds : (ℕ → List ℕ) → (level : ℕ) → ℕ
rounds chain zero = 0
rounds chain (suc level) = suc (length (chain level)) + rounds chain level

-- `p` is the last node with a key up to `k`, or the head.
abbrev pub Cut : (ℕ → ℤ) → ℤ → List ℕ → ℕ → Type 0
Cut key k c p =
    (pre : List ℕ) × (rest : List ℕ) × (c ≡ pre ++ rest)
    × (last_of 0 pre ≡ p)
    × All (λ z. key z ≤ℤ k) pre
    × Beyond key k rest

append_one : (pre : List ℕ) (y : ℕ) (rest : List ℕ) → (pre ++ y ∷ []) ++ rest ≡ pre ++ y ∷ rest
append_one [] y rest = refl
append_one (z ∷ pre) y rest = ap (λ l. z ∷ l) (append_one pre y rest)

last_of-append : (x : ℕ) (pre : List ℕ) (y : ℕ) → last_of x (pre ++ y ∷ []) ≡ y
last_of-append x [] y = refl
last_of-append x (z ∷ pre) y = last_of-append z pre y

module _ (l : SkipList) (chain : ℕ → List ℕ) (v : IsLayered l chain) (key : ℤ) where
  -- `prev` has the levels from `base` on.
  abbrev pub Covers : List ℕ → (base : ℕ) → Type 0
  Covers prev base =
      (length prev + base ≡ l.max_height)
      × ((d : ℕ)
          → d < length prev
          → (p : ℕ) × (get_elem? prev d ≡ some p) × Cut (key_of l) key (chain (d + base)) p)

  Covers-more :
      (x level : ℕ) (prev : List ℕ)
      → Cut (key_of l) key (chain level) x
      → Covers prev (suc level)
      → Covers (x ∷ prev) level
  Covers-more x level prev cut (e, f) = (omega arith, cuts)
    where
      cuts :
          (d : ℕ)
          → d < length (x ∷ prev)
          → (p : ℕ) × (get_elem? (x ∷ prev) d ≡ some p) × Cut (key_of l) key (chain (d + level)) p
      cuts zero lt = (x, refl, subst (λ j. Cut (key_of l) key (chain j) x) (omega arith) cut)
      cuts (suc d) lt =
          let (p, g, c) = f d (omega arith) in
          (p, g, subst (λ j. Cut (key_of l) key (chain j) p) (omega arith) c)

  -- Where the search stands on a level.
  pub record Stands (x level : ℕ) (rest : List ℕ) : Type 0 where
    pub pre : List ℕ
    pub split : chain level ≡ pre ++ rest
    pub at : last_of 0 pre ≡ x
    pub low : All (λ z. key_of l z ≤ℤ key) pre

  Stands-next : {x level : ℕ} {rest : List ℕ} → Stands x level rest → Links (next_at l level) x rest
  Stands-next {x} {level} {rest} s =
      subst (λ y. Links (next_at l level) y rest) s.at
        (Links-append (next_at l level) 0 s.pre rest
          (subst (Links (next_at l level) 0) s.split (v.links level)))

  Stands-along :
      {x level y : ℕ} {rest : List ℕ}
      → Stands x level (y ∷ rest)
      → key_of l y ≤ℤ key
      → Stands y level rest
  Stands-along {x} {level} {y} {rest} s le = record {
    pre = s.pre ++ y ∷ [];
    split = s.split ∙ sym (append_one s.pre y rest);
    at = last_of-append 0 s.pre y;
    low = append-All (λ z. key_of l z ≤ℤ key) s.pre (y ∷ []) s.low (le, tt);
  }

  Stands-down :
      {x level : ℕ} {rest : List ℕ}
      → Stands x (suc level) rest
      → (rest' : List ℕ) × Stands x level rest' × (length rest' ≤ length (chain level))
  Stands-down {x} {level} {rest} s =
      let (pre, rest', e, at, low) =
        cut_behind (key_of l) key 0 x (chain level) (v.ascending level) below in
      (
        rest',
        record { pre = pre; split = e; at = at; low = low },
        subst (λ c. length rest' ≤ length c) (sym e) (omega (arith, length-append pre rest')),
      )
    where
      in_chain : In x s.pre → In x (chain (suc level))
      in_chain i = subst (In x) (sym s.split) (In-append x s.pre rest i)

      below : (x ≡ 0) ⊎ (In x (chain level) × (key_of l x ≤ℤ key))
      below = elim (last_of-In 0 s.pre) [
        | inl e ↦ inl (sym s.at ∙ e)
        | inr i ↦
            let i' : In x s.pre = subst (λ y. In y s.pre) s.at i in
            inr (v.nested level x (in_chain i'), All-In (λ z. key_of l z ≤ℤ key) s.pre x s.low i')
      ]

  Stands-Cut :
      {x level : ℕ} {rest : List ℕ}
      → Stands x level rest
      → Beyond (key_of l) key rest
      → Cut (key_of l) key (chain level) x
  Stands-Cut {x} {level} {rest} s b = (s.pre, rest, s.split, s.at, s.low, b)

  -- The search ends with `prev` for every level.
  abbrev Ends : Option (Option ℕ × List ℕ) → Type 0
  Ends r = (o : Option ℕ) × (ps : List ℕ) × (r ≡ some (o, ps)) × Covers ps 0

  find_loop-Covers :
      (n x level : ℕ) (rest prev : List ℕ)
      → Stands x level rest
      → Covers prev (suc level)
      → length rest + rounds chain level < n
      → Ends (find_loop n l key x level prev)
  unfolding find_loop
  find_loop-Covers zero x level rest prev s c enough = absurd (omega arith)
  find_loop-Covers (suc n) x zero [] prev s c enough =
      let next : next_at l 0 x ≡ none = Stands-next s in
      (none, x ∷ prev, ground arith, Covers-more x 0 prev (Stands-Cut s tt) c)
  find_loop-Covers (suc n) x (suc level) [] prev s c enough =
      let next : next_at l (suc level) x ≡ none = Stands-next s in
      let (rest', s', few) = Stands-down s in
      let (o, ps, e, covered) =
        find_loop-Covers n x level rest' (x ∷ prev) s'
          (Covers-more x (suc level) prev (Stands-Cut s tt) c) (omega arith) in
      (o, ps, ground arith, covered)
  find_loop-Covers (suc n) x zero (y ∷ rest) prev s c enough =
      let (next, _) = Stands-next s in
      elim (dec_lt (pos_part key + neg_part (key_of l y)) (pos_part (key_of l y) + neg_part key)) [
        | yes above ↦ (some y, x ∷ prev, ground arith, Covers-more x 0 prev (Stands-Cut s above) c)
        | no go_on ↦
            let (o, ps, e, covered) =
              find_loop-Covers n y 0 rest prev (Stands-along s (omega arith)) c (omega arith) in
            (o, ps, ground arith, covered)
      ]
  find_loop-Covers (suc n) x (suc level) (y ∷ rest) prev s c enough =
      let (next, _) = Stands-next s in
      elim (dec_lt (pos_part key + neg_part (key_of l y)) (pos_part (key_of l y) + neg_part key)) [
        | yes above ↦
            let (rest', s', few) = Stands-down s in
            let (o, ps, e, covered) =
              find_loop-Covers n x level rest' (x ∷ prev) s'
                (Covers-more x (suc level) prev (Stands-Cut s above) c) (omega arith) in
            (o, ps, ground arith, covered)
        | no go_on ↦
            let (o, ps, e, covered) =
              find_loop-Covers n y (suc level) rest prev (Stands-along s (omega arith)) c
                (omega arith) in
            (o, ps, ground arith, covered)
      ]

  pub find_greater_or_equal-Covers :
      (n : ℕ) → rounds chain l.max_height ≤ n → Ends (find_greater_or_equal n l key)
  unfolding find_greater_or_equal
  find_greater_or_equal-Covers n enough =
      let h : suc (l.max_height - 1) ≡ l.max_height = omega (arith, v.height) in
      let enough' : rounds chain (suc (l.max_height - 1)) ≤ n =
        subst (λ k. rounds chain k ≤ n) (sym h) enough in
      find_loop-Covers n 0 (l.max_height - 1) (chain (l.max_height - 1)) []
        (record { pre = []; split = refl; at = refl; low = tt })
        (omega (arith, h), λ d lt. absurd (omega arith)) (omega arith)
