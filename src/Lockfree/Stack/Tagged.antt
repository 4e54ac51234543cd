-- ===== src/Lockfree/Stack/Tagged.antt =====
-- The stack of idea/lockfree/stack-atomic-version.hpp: threads that run `Push` and `Pop` at once,
-- one shared access a step. The head is a tagged pointer; a compare-exchange compares whole words,
-- and may fail for no reason.
pub mod Frame
pub mod Safety
use codelab.Base.{
  ℕ, suc, ◌+◌, ◌^◌, ◌<◌, ◌≡◌, ◌≢◌, Bool, true, false, List, [], ◌∷◌, ◌==◌, if◌then◌else◌,
}
use codelab.Lockfree.TagPtr.{pack_ptr, get_ptr, get_tag, get_next_tag, is_set}
use codelab.Lockfree.Stack.{update}
use codelab.Lockfree.Stack.Chains.{Absent}

-- Where a thread stands, with its local variables. `seen` is no variable of the code: the number
-- of nodes that had been popped when `old_head` was read.
pub data Pc : Type 0 where
  idle : Pc
  pushing : (node old_head : ℕ) → Pc  -- head of the loop of `Push`
  linked : (node old_head new_head : ℕ) → Pc  -- before its compare-exchange
  popping : (old_head seen : ℕ) → Pc  -- head of the loop of `Pop`
  unlinking : (old_head new_head seen : ℕ) → Pc  -- before its compare-exchange

-- The node that a thread is about to push.
abbrev pub owned : Pc → ℕ
owned (pushing node _) = node
owned (linked node _ _) = node
owned _ = 0

-- `stack` is the list of nodes that the completed calls make up, and `pops` counts its pops.
pub record System : Type 0 where
  pub head : ℕ
  pub next : ℕ → ℕ
  pub pc : ℕ → Pc
  pub stack : List ℕ
  pub pops : ℕ

-- `new_head` in `Push`, with the tag of the old head.
abbrev pub pushed_head : ℕ → ℕ → ℕ
pushed_head node old = pack_ptr node (get_tag old)

-- `new_head` in `Pop`, with the next tag.
abbrev pub popped_head : (ℕ → ℕ) → ℕ → ℕ
popped_head next old = pack_ptr (next (get_ptr old)) (get_next_tag old)

abbrev pub rest_of : List ℕ → List ℕ
rest_of [] = []
rest_of (x ∷ xs) = xs

-- One step of the thread `i`.
pub data Step (s : System) : System → Type 0 where
  -- A caller pushes a node that is in no thread's hands and not in the stack.
  push_load :
      (i node : ℕ)
      → s.pc i ≡ idle
      → 0 < node
      → node < 2 ^ 48
      → Absent node s.stack
      → ((j : ℕ) → owned (s.pc j) ≢ node)
      → Step s (record s { pc = update s.pc i (pushing node s.head) })
  push_link :
      (i node old : ℕ)
      → s.pc i ≡ pushing node old
      → Step s (record s {
        next = update s.next node (get_ptr old);
        pc = update s.pc i (linked node old (pushed_head node old));
      })
  push_swap :
      (i node old new : ℕ)
      → s.pc i ≡ linked node old new
      → s.head ≡ old
      → Step s (record s { head = new; pc = update s.pc i idle; stack = node ∷ s.stack })
  push_fail :
      (i node old new : ℕ)
      → s.pc i ≡ linked node old new
      → Step s (record s { pc = update s.pc i (pushing node s.head) })
  pop_load :
      (i : ℕ) → s.pc i ≡ idle → Step s (record s { pc = update s.pc i (popping s.head s.pops) })
  pop_null :
      (i old seen : ℕ)
      → s.pc i ≡ popping old seen
      → is_set old ≡ false
      → Step s (record s { pc = update s.pc i idle })
  pop_next :
      (i old seen : ℕ)
      → s.pc i ≡ popping old seen
      → is_set old ≡ true
      → Step s (record s { pc = update s.pc i (unlinking old (popped_head s.next old) seen) })
  -- The tag is short: fewer than 2^16 nodes were popped since `old_head` was read.
  pop_swap :
      (i old new seen : ℕ)
      → s.pc i ≡ unlinking old new seen
      → s.pops < seen + 2 ^ 16
      → s.head ≡ old
      → Step s (record s {
        head = new;
        pc = update s.pc i idle;
        stack = rest_of s.stack;
        pops = suc s.pops;
      })
  pop_fail :
      (i old new seen : ℕ)
      → s.pc i ≡ unlinking old new seen
      → Step s (record s { pc = update s.pc i (popping s.head s.pops) })

pub data Reach (s : System) : System → Type 0 where
  here : Reach s s
  later : {t u : System} → Reach s t → Step t u → Reach s u

-- The constructor `Stack ()`, with no thread in a call.
abbrev pub init : (ℕ → ℕ) → System
init next = record { head = pack_ptr 0 0; next = next; pc = λ _. idle; stack = []; pops = 0 }
