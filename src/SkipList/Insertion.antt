-- ===== src/SkipList/Insertion.antt =====
-- The links that Insert changes.
use codelab.Base.{
  ℕ, zero, suc, ◌+◌, ◌*◌, ◌≤◌, ◌<◌, ◌≡◌, ◌≢◌, refl, sym, subst, ◌∙◌, ◌⊎◌, inl, inr, List, [], ◌∷◌,
  ◌++◌, Option, some, arith, dec_lt, ℕ_discrete, length, length-append, get_elem?,
}
use codelab.SkipList.{SkipList, with_next, link_levels, fill_prev}
use codelab.SkipList.Room.{extra_of, set_next-some}
use codelab.SkipList.Levels.{
  All, In, Links, Unique, last_of, last_of-In, All-In, All-append, In-All,
}
use codelab.SkipList.Search.{key_of, next_at}

-- `x` is linked in behind `p`.
abbrev pub Spliced : (f g : ℕ → Option ℕ) → (p x : ℕ) → Type 0
Spliced f g p x = (g p ≡ some x) × (g x ≡ f p) × ((q : ℕ) → q ≢ p → q ≢ x → g q ≡ f q)

Spliced-same :
    {f g : ℕ → Option ℕ} {p x : ℕ} (f' g' : ℕ → Option ℕ)
    → ((q : ℕ) → f' q ≡ f q)
    → ((q : ℕ) → g' q ≡ g q)
    → Spliced f g p x
    → Spliced f' g' p x
Spliced-same {f} {g} {p} {x} f' g' same_f same_g (at, past, same) = (
  same_g p ∙ at,
  same_g x ∙ past ∙ sym (same_f p),
  λ q n m. same_g q ∙ same q n m ∙ sym (same_f q),
)

pub Links-same :
    (f g : ℕ → Option ℕ) (s : ℕ) (ys : List ℕ)
    → All (λ q. g q ≡ f q) (s ∷ ys)
    → Links f s ys
    → Links g s ys
Links-same f g s [] (e, _) h = e ∙ h
Links-same f g s (y ∷ ys) (e, es) (h, hs) = (e ∙ h, Links-same f g y ys es hs)

pub Links-Spliced :
    (f g : ℕ → Option ℕ) (s x : ℕ) (pre rest : List ℕ)
    → Links f s (pre ++ rest)
    → Unique (s ∷ (pre ++ rest))
    → All (λ q. q ≢ x) (s ∷ (pre ++ rest))
    → Spliced f g (last_of s pre) x
    → Links g s (pre ++ x ∷ rest)
Links-Spliced f g s x [] [] h u new (at, past, same) = (at, past ∙ h)
Links-Spliced f g s x [] (y ∷ rest) (h, hs) (u, _) (_, new) (at, past, same) =
    (at, (past ∙ h, Links-same f g y rest (In-All (λ q. g q ≡ f q) (y ∷ rest) kept) hs))
  where
    kept : (q : ℕ) → In q (y ∷ rest) → g q ≡ f q
    kept q i =
        same q (λ e. All-In (λ z. s ≢ z) (y ∷ rest) q u i (sym e))
          (All-In (λ z. z ≢ x) (y ∷ rest) q new i)
Links-Spliced f g s x (z ∷ pre) rest (h, hs) (u, us) (n, new) (at, past, same) =
    (same s ahead n ∙ h, Links-Spliced f g z x pre rest hs us new (at, past, same))
  where
    ahead : s ≢ last_of z pre
    ahead e = elim (last_of-In z pre) [
      | inl here ↦ u.0 (e ∙ here)
      | inr i ↦ All-In (λ w. s ≢ w) pre (last_of z pre) (All-append (λ w. s ≢ w) pre rest u.1).0 i e
    ]

-- What the last loop of `Insert` does for the levels from `i` up to but without `stop`, with a
-- predecessor that is `Good` on each.
module _ (ptr_size : ℕ) (Good : ℕ → ℕ → Type 0) (x : ℕ) (prev : List ℕ) where
  pub record Linked (l l' : SkipList) (i stop : ℕ) : Type 0 where
    pub keys : (q : ℕ) → key_of l' q ≡ key_of l q
    pub height : l'.max_height ≡ l.max_height
    pub extra : (q : ℕ) → extra_of l' q ≡ extra_of l q
    pub other : (d q : ℕ) → (d < i) ⊎ (stop ≤ d) → next_at l' d q ≡ next_at l d q
    pub spliced :
        (d : ℕ) → i ≤ d → d < stop → (p : ℕ) × Good d p × Spliced (next_at l d) (next_at l' d) p x

  abbrev pub Prevs : SkipList → (stop : ℕ) → Type 0
  Prevs l stop =
      (d : ℕ)
      → d < stop
      → (p : ℕ) × (get_elem? prev d ≡ some p)
        × Good d p
        × (p ≢ x)
        × (ptr_size * d ≤ extra_of l p)
        × (ptr_size * d ≤ extra_of l x)

  abbrev both_set : SkipList → (i p : ℕ) → SkipList
  both_set l i p = with_next (with_next l x i ((l.node p).next i)) p i (some x)

  both_set-keys : (l : SkipList) (i p q : ℕ) → key_of (both_set l i p) q ≡ key_of l q
  both_set-keys l i p q = ground arith

  both_set-extra : (l : SkipList) (i p q : ℕ) → extra_of (both_set l i p) q ≡ extra_of l q
  both_set-extra l i p q = ground arith

  both_set-link_levels :
      (n : ℕ) (l : SkipList) (i p : ℕ)
      → get_elem? prev i ≡ some p
      → ptr_size * i ≤ extra_of l p
      → ptr_size * i ≤ extra_of l x
      → link_levels ptr_size (suc n) i x prev l
        ≡ link_levels ptr_size n (suc i) x prev (both_set l i p)
  unfolding link_levels
  both_set-link_levels n l i p e behind new =
      let l1 = with_next l x i ((l.node p).next i) in
      let first = set_next-some ptr_size l x i ((l.node p).next i) new in
      let second = set_next-some ptr_size l1 p i (some x) (ground arith) in
      ground (arith, e, first, second)

  both_set-other :
      (l : SkipList) (i p d q : ℕ) → i ≢ d → next_at (both_set l i p) d q ≡ next_at l d q
  both_set-other l i p d q ne = ground arith

  both_set-Spliced :
      (l : SkipList) (i p : ℕ) → p ≢ x → Spliced (next_at l i) (next_at (both_set l i p) i) p x
  both_set-Spliced l i p ne = (ground arith, ground arith, λ q n m. ground arith)

  pub link_levels-Linked :
      (n i : ℕ) (l : SkipList)
      → Prevs l (i + n)
      → (l' : SkipList) × (link_levels ptr_size n i x prev l ≡ some l') × Linked l l' i (i + n)
  unfolding link_levels
  link_levels-Linked zero i l prevs = (
    l,
    refl,
    record {
      keys = λ q. refl;
      height = refl;
      extra = λ q. refl;
      other = λ d q o. refl;
      spliced = λ d le lt. absurd (omega arith);
    },
  )
  link_levels-Linked (suc n) i l prevs =
      let (p, e, good, ne, behind, new) = prevs i (omega arith) in
      let m = both_set l i p in
      let (l', f, k) = link_levels-Linked n (suc i) m (λ d lt.
        let (q, f, g, n, r, s) = prevs d (omega arith) in
        (
          q,
          f,
          g,
          n,
          omega (arith, both_set-extra l i p q),
          omega (arith, both_set-extra l i p x),
        )) in
      (
        l',
        both_set-link_levels n l i p e behind new ∙ f,
        record {
          keys = λ q. k.keys q ∙ both_set-keys l i p q;
          height = k.height;
          extra = λ q. k.extra q ∙ both_set-extra l i p q;
          other = λ d q o.
              k.other d q (elim o [ inl lt ↦ inl (omega arith) | inr ge ↦ inr (omega arith) ])
              ∙ both_set-other l i p d q
                  (elim o [ inl lt ↦ λ y. omega arith | inr ge ↦ λ y. omega arith ]);
          spliced = λ d le lt. elim (ℕ_discrete d i) [
            | yes here ↦
                let one : Spliced (next_at l i) (next_at l' i) p x =
                  Spliced-same (next_at l i) (next_at l' i) (λ q. refl)
                    (λ q. k.other i q (inl (omega arith))) (both_set-Spliced l i p ne) in
                (
                  p,
                  subst (λ j. Good j p) (sym here) good,
                  subst (λ j. Spliced (next_at l j) (next_at l' j) p x) (sym here) one,
                )
            | no later ↦
                let (p', good', sp) = k.spliced d (omega arith) (omega arith) in
                (
                  p',
                  good',
                  Spliced-same (next_at l d) (next_at l' d)
                      (λ q. sym (both_set-other l i p d q (λ y. later (sym y)))) (λ q. refl) sp,
                )
          ];
        },
      )

get_elem?-front :
    (xs : List ℕ) (y d : ℕ) → d < length xs → get_elem? (xs ++ y ∷ []) d ≡ get_elem? xs d
get_elem?-front [] y d lt = absurd (omega arith)
get_elem?-front (z ∷ xs) y zero lt = refl
get_elem?-front (z ∷ xs) y (suc d) lt = get_elem?-front xs y d (omega arith)

get_elem?-back : (xs : List ℕ) (y : ℕ) → get_elem? (xs ++ y ∷ []) (length xs) ≡ some y
get_elem?-back [] y = refl
get_elem?-back (z ∷ xs) y = get_elem?-back xs y

-- `prev` has a predecessor on each level once it is filled up with the head.
pub fill_prev-Good :
    (Good : ℕ → ℕ → Type 0) (n : ℕ) (prev : List ℕ)
    → ((d : ℕ) → length prev ≤ d → Good d 0)
    → ((d : ℕ) → d < length prev → (p : ℕ) × (get_elem? prev d ≡ some p) × Good d p)
    → (d : ℕ) → d < length prev + n
    → (p : ℕ) × (get_elem? (fill_prev n prev) d ≡ some p) × Good d p
fill_prev-Good Good zero prev above good d lt = good d (omega arith)
fill_prev-Good Good (suc n) prev above good d lt =
    fill_prev-Good Good n (prev ++ 0 ∷ [])
      (λ e le. above e (omega (arith, length-append prev (0 ∷ []))))
      (λ e le. elim (dec_lt e (length prev)) [
        | yes inside ↦
            let (p, at, g) = good e inside in (p, get_elem?-front prev 0 e inside ∙ at, g)
        | no end ↦
            let here : length prev ≡ e = omega (arith, length-append prev (0 ∷ [])) in
            (
              0,
              subst (λ j. get_elem? (prev ++ 0 ∷ []) j ≡ some 0) here (get_elem?-back prev 0),
              above e (omega arith),
            )
      ])
      d (omega (arith, length-append prev (0 ∷ [])))
