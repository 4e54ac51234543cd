-- ===== src/SkipList/Levels.antt =====
-- The levels of a skip list as lists of nodes.
use codelab.Base.{
  ℕ, ◌+◌, ◌≡◌, ◌≢◌, refl, sym, ap, subst, ◌⊎◌, inl, inr, List, [], ◌∷◌, ◌++◌, Option, none, some,
  arith, if◌then◌else◌, dec_lt,
}
use codelab.Base.Int.{◌<ℤ◌, ◌≤ℤ◌, ℤ, ltb_ℤ, pos_part, neg_part}

abbrev pub All : (ℕ → Type 0) → List ℕ → Type 0
All P [] = Unit {0}
All P (y ∷ ys) = P y × All P ys

abbrev pub In : ℕ → List ℕ → Type 0
In x [] = ⊥
In x (y ∷ ys) = (x ≡ y) ⊎ In x ys

-- From `x` on, the links of a level lead along the list and then to null.
abbrev pub Links : (ℕ → Option ℕ) → ℕ → List ℕ → Type 0
Links next x [] = next x ≡ none
Links next x (y ∷ ys) = (next x ≡ some y) × Links next y ys

abbrev pub Ascending : (ℕ → ℤ) → List ℕ → Type 0
Ascending key [] = Unit {0}
Ascending key (y ∷ ys) = All (λ z. key y ≤ℤ key z) ys × Ascending key ys

abbrev pub Unique : List ℕ → Type 0
Unique [] = Unit {0}
Unique (y ∷ ys) = All (λ z. y ≢ z) ys × Unique ys

abbrev pub last_of : ℕ → List ℕ → ℕ
last_of x [] = x
last_of x (y ∷ ys) = last_of y ys

-- The node `x` of key `k` behind all keys that are at most `k`.
abbrev pub insert_key : (ℕ → ℤ) → ℤ → ℕ → List ℕ → List ℕ
insert_key key k x [] = x ∷ []
insert_key key k x (y ∷ ys) =
    let rest = insert_key key k x ys in if ltb_ℤ k (key y) then x ∷ y ∷ ys else y ∷ rest

-- No key, or one greater than `k`, comes first.
abbrev pub Beyond : (ℕ → ℤ) → ℤ → List ℕ → Type 0
Beyond key k [] = Unit {0}
Beyond key k (y ∷ ys) = k <ℤ key y

pub All-append : (P : ℕ → Type 0) (xs ys : List ℕ) → All P (xs ++ ys) → All P xs × All P ys
All-append P [] ys h = (tt, h)
All-append P (x ∷ xs) ys (h, hs) = let (a, b) = All-append P xs ys hs in ((h, a), b)

pub append-All : (P : ℕ → Type 0) (xs ys : List ℕ) → All P xs → All P ys → All P (xs ++ ys)
append-All P [] ys h hs = hs
append-All P (x ∷ xs) ys (h, hs) h' = (h, append-All P xs ys hs h')

pub All-weaken : {P Q : ℕ → Type 0} → ((x : ℕ) → P x → Q x) → (xs : List ℕ) → All P xs → All Q xs
All-weaken f [] h = tt
All-weaken f (x ∷ xs) (h, hs) = (f x h, All-weaken f xs hs)

pub All-In : (P : ℕ → Type 0) (xs : List ℕ) (x : ℕ) → All P xs → In x xs → P x
All-In P [] x h i = absurd i
All-In P (y ∷ ys) x (h, hs) (inl e) = subst P (sym e) h
All-In P (y ∷ ys) x (h, hs) (inr i) = All-In P ys x hs i

pub In-All : (P : ℕ → Type 0) (xs : List ℕ) → ((x : ℕ) → In x xs → P x) → All P xs
In-All P [] h = tt
In-All P (y ∷ ys) h = (h y (inl refl), In-All P ys (λ x i. h x (inr i)))

pub In-append : (x : ℕ) (xs ys : List ℕ) → In x xs → In x (xs ++ ys)
In-append x [] ys i = elim i [ ]
In-append x (z ∷ zs) ys (inl e) = inl e
In-append x (z ∷ zs) ys (inr i) = inr (In-append x zs ys i)

pub Links-append :
    (next : ℕ → Option ℕ) (x : ℕ) (pre rest : List ℕ)
    → Links next x (pre ++ rest)
    → Links next (last_of x pre) rest
Links-append next x [] rest h = h
Links-append next x (y ∷ pre) rest (e, h) = Links-append next y pre rest h

pub last_of-In : (x : ℕ) (pre : List ℕ) → (last_of x pre ≡ x) ⊎ In (last_of x pre) pre
last_of-In x [] = inl refl
last_of-In x (y ∷ pre) = elim (last_of-In y pre) [ inl e ↦ inr (inl e) | inr i ↦ inr (inr i) ]

pub insert_key-append :
    (key : ℕ → ℤ) (k : ℤ) (x : ℕ) (pre rest : List ℕ)
    → All (λ z. key z ≤ℤ k) pre
    → Beyond key k rest
    → insert_key key k x (pre ++ rest) ≡ pre ++ x ∷ rest
insert_key-append key k x [] [] h b = refl
insert_key-append key k x [] (y ∷ rest) h b = ground arith
insert_key-append key k x (z ∷ pre) rest (h, hs) b =
    ground (arith, insert_key-append key k x pre rest hs b)

insert_key-cases :
    (key : ℕ → ℤ) (k : ℤ) (x y : ℕ) (ys : List ℕ)
    → ((k <ℤ key y) × (insert_key key k x (y ∷ ys) ≡ x ∷ y ∷ ys))
      ⊎ ((key y ≤ℤ k) × (insert_key key k x (y ∷ ys) ≡ y ∷ insert_key key k x ys))
insert_key-cases key k x y ys =
    elim (dec_lt (pos_part k + neg_part (key y)) (pos_part (key y) + neg_part k)) [
      | yes lt ↦ inl (lt, ground arith)
      | no ge ↦ inr (omega arith, ground arith)
    ]

pub In-insert_key :
    (key : ℕ → ℤ) (k : ℤ) (x y : ℕ) (ys : List ℕ) → In y ys → In y (insert_key key k x ys)
In-insert_key key k x y [] i = elim i [ ]
In-insert_key key k x y (z ∷ zs) i = elim (insert_key-cases key k x z zs) [
  | inl (lt, e) ↦ subst (In y) (sym e) (inr i)
  | inr (ge, e) ↦
      subst (In y) (sym e)
        (elim i [ inl here ↦ inl here | inr j ↦ inr (In-insert_key key k x y zs j) ])
]

pub self-In-insert_key : (key : ℕ → ℤ) (k : ℤ) (x : ℕ) (ys : List ℕ) → In x (insert_key key k x ys)
self-In-insert_key key k x [] = inl refl
self-In-insert_key key k x (z ∷ zs) = elim (insert_key-cases key k x z zs) [
  | inl (lt, e) ↦ subst (In x) (sym e) (inl refl)
  | inr (ge, e) ↦ subst (In x) (sym e) (inr (self-In-insert_key key k x zs))
]

pub All-insert_key :
    (P : ℕ → Type 0) (key : ℕ → ℤ) (k : ℤ) (x : ℕ) (ys : List ℕ)
    → P x
    → All P ys
    → All P (insert_key key k x ys)
All-insert_key P key k x [] h hs = (h, tt)
All-insert_key P key k x (y ∷ ys) h (hy, hs) = elim (insert_key-cases key k x y ys) [
  | inl (lt, e) ↦ subst (All P) (sym e) (h, (hy, hs))
  | inr (ge, e) ↦ subst (All P) (sym e) (hy, All-insert_key P key k x ys h hs)
]

pub insert_key-Ascending :
    (key : ℕ → ℤ) (x : ℕ) (ys : List ℕ)
    → Ascending key ys
    → Ascending key (insert_key key (key x) x ys)
insert_key-Ascending key x [] h = (tt, tt)
insert_key-Ascending key x (y ∷ ys) (h, hs) = elim (insert_key-cases key (key x) x y ys) [
  | inl (lt, e) ↦
      subst (Ascending key) (sym e) ((omega arith, All-weaken (λ z le. omega arith) ys h), (h, hs))
  | inr (ge, e) ↦
      subst (Ascending key) (sym e) (
        All-insert_key (λ z. key y ≤ℤ key z) key (key x) x ys ge h,
        insert_key-Ascending key x ys hs,
      )
]

pub insert_key-Unique :
    (key : ℕ → ℤ) (k : ℤ) (x : ℕ) (ys : List ℕ)
    → Unique ys
    → All (λ z. x ≢ z) ys
    → Unique (insert_key key k x ys)
insert_key-Unique key k x [] u f = (tt, tt)
insert_key-Unique key k x (y ∷ ys) (h, u) (f, fs) = elim (insert_key-cases key k x y ys) [
  | inl (lt, e) ↦ subst Unique (sym e) ((f, fs), (h, u))
  | inr (ge, e) ↦
      subst Unique (sym e) (
        All-insert_key (λ z. y ≢ z) key k x ys (λ e. f (sym e)) h,
        insert_key-Unique key k x ys u fs,
      )
]

-- A cut behind a node of the list, or before all of it.
pub cut_behind :
    (key : ℕ → ℤ) (k : ℤ) (s y : ℕ) (ys : List ℕ)
    → Ascending key ys
    → (y ≡ s) ⊎ (In y ys × (key y ≤ℤ k))
    → (pre : List ℕ) × (rest : List ℕ) × (ys ≡ pre ++ rest)
      × (last_of s pre ≡ y)
      × All (λ z. key z ≤ℤ k) pre
cut_behind key k s y ys asc (inl e) = ([], ys, refl, sym e, tt)
cut_behind key k s y [] asc (inr (i, le)) = elim i [ ]
cut_behind key k s y (z ∷ zs) asc (inr (inl e, le)) = (z ∷ [], zs, refl, sym e, (ground arith, tt))
cut_behind key k s y (z ∷ zs) asc (inr (inr i, le)) =
    let (pre, rest, e, last, low) = cut_behind key k z y zs asc.1 (inr (i, le)) in
    let below : key z ≤ℤ key y = All-In (λ w. key z ≤ℤ key w) zs y asc.0 i in
    (z ∷ pre, rest, ap (λ l. z ∷ l) e, last, (omega arith, low))
