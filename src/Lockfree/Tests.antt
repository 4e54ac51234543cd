-- ===== src/Lockfree/Tests.antt =====
-- Words, stacks and interleavings, and the theorems at concrete inputs.
use codelab.Base.{ℕ, ◌≡◌, refl, true, [], ◌∷◌, arith}
use codelab.Lockfree.TagPtr.{pack_ptr, get_ptr, get_tag, is_set}
use codelab.Lockfree.TagPtr.Packing.{pack_ptr_fields}
use codelab.Lockfree.Stack.{Stack, update}
use codelab.Lockfree.Stack.Chains.{Chain, Distinct}
use codelab.Lockfree.Stack.Mutex.{Holds}
use codelab.Lockfree.Stack.Plain
use codelab.Lockfree.Stack.Plain.{pop_swap-aba}
use codelab.Lockfree.Stack.Tagged.{
  System, Reach, here, later, init, push_load, push_link, push_swap, pop_load, pop_next, unlinking,
  pushed_head, popped_head,
}
use codelab.Lockfree.Stack.Tagged.Safety.{Reach-Chain, init-Sound}

pack_ptr_fields_example :
    (get_ptr (pack_ptr 0x7fff_1234 0x1_0005) ≡ 0x7fff_1234)
    × (get_tag (pack_ptr 0x7fff_1234 0x1_0005) ≡ 5)
    × (is_set (pack_ptr 0x7fff_1234 0x1_0005) ≡ true)
pack_ptr_fields_example = pack_ptr_fields 0x7fff_1234 0x1_0005 (omega arith)

-- 16 above 32.
abbrev links : ℕ → ℕ
links = update (update (λ _. 0) 32 0) 16 32

abbrev two_nodes : Stack
two_nodes = record { head = 16; next = links }

two_nodes-Holds : Holds two_nodes (16 ∷ 32 ∷ [])
two_nodes-Holds = omega arith

pop_swap-aba_example :
    (t : Plain.System) × Plain.Reach (Plain.quiet links (16 ∷ 32 ∷ []) 16) t
    × (t.head ≡ 32)
    × (t.stack ≡ [])
    × (¬ Chain t.next t.head t.stack)
pop_swap-aba_example = pop_swap-aba links 16 32 [] (omega arith) (omega arith)

-- Thread 0 pushes the node 16; thread 1 is about to pop it.
abbrev empty : System
empty = init (λ _. 0)

pushed :
    (t : System) × Reach empty t
    × (t.pc 1
        ≡ unlinking
            (pushed_head 16 (pack_ptr 0 0))
            (popped_head t.next (pushed_head 16 (pack_ptr 0 0)))
            0)
    × (t.pops ≡ 0)
    × (t.head ≡ pushed_head 16 (pack_ptr 0 0))
pushed = (
  _,
  later
      (later
        (later
          (later
            (later here (push_load 0 16 refl (omega arith) (omega arith) tt (λ j e. omega arith)))
            (push_link 0 16 (pack_ptr 0 0) refl))
          (push_swap 0 16 (pack_ptr 0 0) (pushed_head 16 (pack_ptr 0 0)) refl refl))
        (pop_load 1 refl))
      (pop_next 1 (pushed_head 16 (pack_ptr 0 0)) 0 refl
        ((pack_ptr_fields 16 (get_tag (pack_ptr 0 0)) (omega arith)).2)),
  refl,
  refl,
  refl,
)

Reach-Chain_example :
    Chain pushed.0.next (get_ptr pushed.0.head) pushed.0.stack × Distinct pushed.0.stack
Reach-Chain_example = Reach-Chain (init-Sound (λ _. 0)) pushed.1
