-- ===== src/Lockfree/Stack/Tagged/Frame.antt =====
-- What the local variables of a thread say of the shared state, and that the steps of the others
-- leave it true.
use codelab.Base.{ℕ, suc, ◌%◌, ◌^◌, ◌<◌, ◌≤◌, ◌≡◌, ◌≢◌, List, ◌∷◌, ◌++◌, arith, ap, subst}
use codelab.Lockfree.TagPtr.{get_ptr, get_tag}
use codelab.Lockfree.Stack.{update}
use codelab.Lockfree.Stack.Chains.{Chain, Absent, Chain-update, Absent-append_right}
use codelab.Lockfree.Stack.Tagged.{
  Pc, idle, pushing, linked, popping, unlinking, owned, pushed_head,
}

abbrev pub IsNode : ℕ → List ℕ → Type 0
IsNode n xs = (0 < n) × (n < 2 ^ 48) × Absent n xs

-- While no node was popped since, the old head still leads to a tail of the stack.
abbrev pub Tail : (ℕ → ℕ) → List ℕ → ℕ → Type 0
Tail next stack p = (ys : List ℕ) × (zs : List ℕ) × (stack ≡ ys ++ zs) × Chain next p zs

-- And the new head leads to what is behind it.
abbrev pub Behind : (ℕ → ℕ) → List ℕ → ℕ → ℕ → Type 0
Behind next stack p q = (ys : List ℕ) × (zs : List ℕ) × (stack ≡ ys ++ p ∷ zs) × Chain next q zs

-- What the variables of a thread say of the shared state.
abbrev pub PcOk : (ℕ → ℕ) → List ℕ → ℕ → Pc → Type 0
PcOk next stack pops idle = Unit {0}
PcOk next stack pops (pushing node old) = IsNode node stack
PcOk next stack pops (linked node old new) =
    IsNode node stack × (next node ≡ get_ptr old) × (new ≡ pushed_head node old)
PcOk next stack pops (popping old seen) =
    (seen ≤ pops) × (get_tag old ≡ seen % 2 ^ 16) × (seen ≡ pops → Tail next stack (get_ptr old))
PcOk next stack pops (unlinking old new seen) =
    (seen ≤ pops)
    × (get_tag old ≡ seen % 2 ^ 16)
    × (get_tag new ≡ suc seen % 2 ^ 16)
    × (seen ≡ pops → Behind next stack (get_ptr old) (get_ptr new))

-- What another thread knows outlasts a write to a node that it does not own and that is not in the
-- stack.
Tail-update :
    (next : ℕ → ℕ) (stack : List ℕ) (p n v : ℕ)
    → Absent n stack
    → Tail next stack p
    → Tail (update next n v) stack p
Tail-update next stack p n v a (ys, zs, e, c) =
    (ys, zs, e, Chain-update next p zs n v (Absent-append_right n ys zs (subst (Absent n) e a)) c)

Behind-update :
    (next : ℕ → ℕ) (stack : List ℕ) (p q n v : ℕ)
    → Absent n stack
    → Behind next stack p q
    → Behind (update next n v) stack p q
Behind-update next stack p q n v a (ys, zs, e, c) = (
  ys,
  zs,
  e,
  Chain-update next q zs n v (Absent-append_right n ys (p ∷ zs) (subst (Absent n) e a)).1 c,
)

pub PcOk-link :
    (next : ℕ → ℕ) (stack : List ℕ) (pops n v : ℕ) (p : Pc)
    → Absent n stack
    → n ≢ owned p
    → PcOk next stack pops p
    → PcOk (update next n v) stack pops p
PcOk-link next stack pops n v idle a ne ok = tt
PcOk-link next stack pops n v (pushing node old) a ne ok = ok
PcOk-link next stack pops n v (linked node old new) a ne ok = (ok.0, ground (arith, ok.1), ok.2)
PcOk-link next stack pops n v (popping old seen) a ne ok =
    (ok.0, ok.1, λ e. Tail-update next stack (get_ptr old) n v a (ok.2 e))
PcOk-link next stack pops n v (unlinking old new seen) a ne ok =
    (ok.0, ok.1, ok.2, λ e. Behind-update next stack (get_ptr old) (get_ptr new) n v a (ok.3 e))

pub PcOk-push :
    (next : ℕ → ℕ) (stack : List ℕ) (pops n : ℕ) (p : Pc)
    → n ≢ owned p
    → PcOk next stack pops p
    → PcOk next (n ∷ stack) pops p
PcOk-push next stack pops n idle ne ok = tt
PcOk-push next stack pops n (pushing node old) ne ok = (ok.0, ok.1, (ne, ok.2))
PcOk-push next stack pops n (linked node old new) ne ok =
    ((ok.0.0, ok.0.1, (ne, ok.0.2)), ok.1, ok.2)
PcOk-push next stack pops n (popping old seen) ne ok =
    (ok.0, ok.1, λ e. let (ys, zs, s, c) = ok.2 e in (n ∷ ys, zs, ap (λ l. n ∷ l) s, c))
PcOk-push next stack pops n (unlinking old new seen) ne ok =
    (ok.0, ok.1, ok.2, λ e. let (ys, zs, s, c) = ok.3 e in (n ∷ ys, zs, ap (λ l. n ∷ l) s, c))

pub PcOk-pop :
    (next : ℕ → ℕ) (x : ℕ) (stack : List ℕ) (pops : ℕ) (p : Pc)
    → PcOk next (x ∷ stack) pops p
    → PcOk next stack (suc pops) p
PcOk-pop next x stack pops idle ok = tt
PcOk-pop next x stack pops (pushing node old) ok = (ok.0, ok.1, ok.2.1)
PcOk-pop next x stack pops (linked node old new) ok = ((ok.0.0, ok.0.1, ok.0.2.1), ok.1, ok.2)
PcOk-pop next x stack pops (popping old seen) ok =
    (omega (arith, ok.0), ok.1, λ e. absurd (omega (arith, ok.0)))
PcOk-pop next x stack pops (unlinking old new seen) ok =
    (omega (arith, ok.0), ok.1, ok.2, λ e. absurd (omega (arith, ok.0)))
