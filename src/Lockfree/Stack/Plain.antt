-- ===== src/Lockfree/Stack/Plain.antt =====
-- The stack of idea/lockfree/stack-atomic.hpp: as `Tagged`, with a plain pointer for the head, so
-- that a compare-exchange cannot tell an old head from one that came back.
use codelab.Base.{ℕ, ◌<◌, ◌≡◌, ◌≢◌, refl, sym, List, [], ◌∷◌, arith, subst}
use codelab.Lockfree.Stack.{update}
use codelab.Lockfree.Stack.Chains.{Chain, Absent, Distinct}

-- Where a thread stands, with its local variables.
pub data Pc : Type 0 where
  idle : Pc
  pushing : (node old_head : ℕ) → Pc  -- head of the loop of `Push`
  linked : (node old_head : ℕ) → Pc  -- before its compare-exchange
  popping : (old_head : ℕ) → Pc  -- head of the loop of `Pop`
  unlinking : (old_head new_head : ℕ) → Pc  -- before its compare-exchange

-- `stack` is the list of nodes that the completed calls make up.
pub record System : Type 0 where
  pub head : ℕ
  pub next : ℕ → ℕ
  pub pc : ℕ → Pc
  pub stack : List ℕ

abbrev pub rest_of : List ℕ → List ℕ
rest_of [] = []
rest_of (x ∷ xs) = xs

pub data Step (s : System) : System → Type 0 where
  push_load :
      (i node : ℕ)
      → s.pc i ≡ idle
      → 0 < node
      → Absent node s.stack
      → Step s (record s { pc = update s.pc i (pushing node s.head) })
  push_link :
      (i node old : ℕ)
      → s.pc i ≡ pushing node old
      → Step s (record s { next = update s.next node old; pc = update s.pc i (linked node old) })
  push_swap :
      (i node old : ℕ)
      → s.pc i ≡ linked node old
      → s.head ≡ old
      → Step s (record s { head = node; pc = update s.pc i idle; stack = node ∷ s.stack })
  push_fail :
      (i node old : ℕ)
      → s.pc i ≡ linked node old
      → Step s (record s { pc = update s.pc i (pushing node s.head) })
  pop_load : (i : ℕ) → s.pc i ≡ idle → Step s (record s { pc = update s.pc i (popping s.head) })
  pop_null :
      (i old : ℕ) → s.pc i ≡ popping old → old ≡ 0 → Step s (record s { pc = update s.pc i idle })
  pop_next :
      (i old : ℕ)
      → s.pc i ≡ popping old
      → old ≢ 0
      → Step s (record s { pc = update s.pc i (unlinking old (s.next old)) })
  pop_swap :
      (i old new : ℕ)
      → s.pc i ≡ unlinking old new
      → s.head ≡ old
      → Step s (record s { head = new; pc = update s.pc i idle; stack = rest_of s.stack })
  pop_fail :
      (i old new : ℕ)
      → s.pc i ≡ unlinking old new
      → Step s (record s { pc = update s.pc i (popping s.head) })

pub data Reach (s : System) : System → Type 0 where
  here : Reach s s
  later : {t u : System} → Reach s t → Step t u → Reach s u

-- No thread in a call.
abbrev pub quiet : (ℕ → ℕ) → List ℕ → ℕ → System
quiet next stack head = record { head = head; next = next; pc = λ _. idle; stack = stack }

not_behind : (next : ℕ → ℕ) (b : ℕ) (xs : List ℕ) → 0 < b → Absent b xs → ¬ Chain next b xs
not_behind next b [] pos a c = omega arith
not_behind next b (x ∷ xs) pos a c = a.0 (sym c.0)

-- The bug: from any stack of two nodes or more, two threads can reach a state in which the head is
-- a node that was popped and not pushed again, so that the linked nodes are not the stack. One
-- thread stops before the compare-exchange of `Pop`; the other pops two nodes and pushes the first
-- again, and the compare-exchange finds the old head.
pub pop_swap-aba :
    (next : ℕ → ℕ) (a b : ℕ) (xs : List ℕ)
    → Chain next a (a ∷ b ∷ xs)
    → Distinct (a ∷ b ∷ xs)
    → (t : System) × Reach (quiet next (a ∷ b ∷ xs) a) t
      × (t.head ≡ b)
      × (t.stack ≡ xs)
      × (¬ Chain t.next t.head t.stack)
pop_swap-aba next a b xs c d = (
  _,
  later
      (later
        (later
          (later
            (later
              (later
                (later
                  (later
                    (later
                      (later
                        (later (later here (pop_load 0 refl)) (pop_next 0 a refl (omega arith)))
                        (pop_load 1 refl))
                      (pop_next 1 a refl (omega arith)))
                    (pop_swap 1 a (next a) refl refl))
                  (pop_load 1 refl))
                (pop_next 1 (next a) refl (omega arith)))
              (pop_swap 1 (next a) (next (next a)) refl refl))
            (push_load 1 a refl (omega arith) d.0.1))
          (push_link 1 a (next (next a)) refl))
        (push_swap 1 a (next (next a)) refl refl))
      (pop_swap 0 a (next a) refl refl),
  c.3.0,
  refl,
  λ h.
      not_behind _ _ xs (omega (arith, c.3.0, c.3.1)) (subst (λ q. Absent q xs) (sym c.3.0) d.1.0)
        h,
)
