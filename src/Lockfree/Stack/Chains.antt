-- ===== src/Lockfree/Stack/Chains.antt =====
-- Lists of nodes linked by their `next` fields.
use codelab.Base.{ℕ, ◌^◌, ◌<◌, ◌≡◌, ◌≢◌, refl, sym, List, [], ◌∷◌, ◌++◌, arith, subst}
use codelab.Lockfree.Stack.{update}

-- Following `next` from `p` visits exactly `xs` and ends at null. Addresses have 48 bits.
abbrev pub Chain : (ℕ → ℕ) → ℕ → List ℕ → Type 0
Chain next p [] = p ≡ 0
Chain next p (x ∷ xs) = (p ≡ x) × (0 < x) × (x < 2 ^ 48) × Chain next (next x) xs

abbrev pub Absent : ℕ → List ℕ → Type 0
Absent n [] = Unit {0}
Absent n (x ∷ xs) = (x ≢ n) × Absent n xs

abbrev pub Distinct : List ℕ → Type 0
Distinct [] = Unit {0}
Distinct (x ∷ xs) = Absent x xs × Distinct xs

pub Chain-small : (next : ℕ → ℕ) (p : ℕ) (xs : List ℕ) → Chain next p xs → p < 2 ^ 48
Chain-small next p [] c = omega arith
Chain-small next p (x ∷ xs) c = omega arith

-- Writing the field of a node that is not on the chain.
pub Chain-update :
    (next : ℕ → ℕ) (p : ℕ) (xs : List ℕ) (n v : ℕ)
    → Absent n xs
    → Chain next p xs
    → Chain (update next n v) p xs
Chain-update next p [] n v a c = c
Chain-update next p (x ∷ xs) n v a c =
    let same : next x ≡ update next n v x = ground arith in
    (
      c.0,
      c.1,
      c.2,
      Chain-update next (update next n v x) xs n v a.1 (subst (λ q. Chain next q xs) same c.3),
    )

pub Absent-append_right : (n : ℕ) (ys zs : List ℕ) → Absent n (ys ++ zs) → Absent n zs
Absent-append_right n [] zs a = a
Absent-append_right n (y ∷ ys) zs a = Absent-append_right n ys zs a.1

Absent-self : (n : ℕ) (ys zs : List ℕ) → Absent n (ys ++ n ∷ zs) → ⊥
Absent-self n [] zs a = a.0 refl
Absent-self n (y ∷ ys) zs a = Absent-self n ys zs a.1

-- A chain without repetition that starts at `x` has `x` nowhere else.
pub top_only :
    (next : ℕ → ℕ) (x : ℕ) (ys zs : List ℕ)
    → Chain next x (ys ++ x ∷ zs)
    → Distinct (ys ++ x ∷ zs)
    → ys ≡ []
top_only next x [] zs c d = refl
top_only next x (y ∷ ys) zs c d =
    absurd (Absent-self x ys zs (subst (λ q. Absent q (ys ++ x ∷ zs)) (sym c.0) d.0))
