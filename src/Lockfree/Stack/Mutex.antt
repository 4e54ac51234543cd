-- ===== src/Lockfree/Stack/Mutex.antt =====
-- The stack behind a mutex is a list of nodes.
use codelab.Base.{ℕ, ◌^◌, ◌<◌, ◌≡◌, refl, List, [], ◌∷◌, arith, subst, sym}
use codelab.Lockfree.Stack.{Stack, push, pop}
use codelab.Lockfree.Stack.Chains.{Chain, Absent, Chain-update, Distinct}

pub record Holds (s : Stack) (xs : List ℕ) : Type 0 where
  pub chain : Chain s.next s.head xs
  pub distinct : Distinct xs

pub push-Holds :
    (n : ℕ) (s : Stack) (xs : List ℕ)
    → 0 < n
    → n < 2 ^ 48
    → Absent n xs
    → Holds s xs
    → Holds (push n s) (n ∷ xs)
unfolding push
push-Holds n s xs pos small a h = record {
  chain = (refl, pos, small, ground (arith, Chain-update s.next s.head xs n s.head a h.chain));
  distinct = (a, h.distinct);
}

-- What `Pop` does to a stack that holds `xs`.
abbrev pub Pops : Stack → List ℕ → Type 0
Pops s [] = pop s ≡ (0, s)
Pops s (x ∷ xs) = (t : Stack) × (pop s ≡ (x, t)) × Holds t xs

-- `Pop` returns null exactly on the empty stack, and else the top node.
pub pop-Holds : (s : Stack) (xs : List ℕ) → Holds s xs → Pops s xs
unfolding pop
pop-Holds s [] h = ground (arith, h.chain)
pop-Holds s (x ∷ xs) h = (
  record s { head = s.next s.head },
  ground (arith, h.chain),
  record {
    chain = subst (λ q. Chain s.next (s.next q) xs) (sym h.chain.0) h.chain.3;
    distinct = h.distinct.1;
  },
)

pub data Call : Type 0 where
  pushes : ℕ → Call
  pops : Call

-- What the calls to `Pop` return, in order.
pub run : List Call → Stack → List ℕ
run [] s = []
run (pushes n ∷ cs) s = run cs (push n s)
run (pops ∷ cs) s = let (n, t) = pop s in n ∷ run cs t

-- The same of a list of nodes, last in first out.
abbrev pub spec_run : List Call → List ℕ → List ℕ
spec_run [] xs = []
spec_run (pushes n ∷ cs) xs = spec_run cs (n ∷ xs)
spec_run (pops ∷ cs) [] = 0 ∷ spec_run cs []
spec_run (pops ∷ cs) (x ∷ xs) = x ∷ spec_run cs xs

-- Only nodes that are not in the stack are pushed.
abbrev pub IsFair : List Call → List ℕ → Type 0
IsFair [] xs = Unit {0}
IsFair (pushes n ∷ cs) xs = (0 < n) × (n < 2 ^ 48) × Absent n xs × IsFair cs (n ∷ xs)
IsFair (pops ∷ cs) [] = IsFair cs []
IsFair (pops ∷ cs) (x ∷ xs) = IsFair cs xs

-- Over any history in which only nodes that are not in the stack are pushed, the stack behind a
-- mutex answers as a list, last in first out.
pub run_refines :
    (cs : List Call) (s : Stack) (xs : List ℕ)
    → Holds s xs
    → IsFair cs xs
    → run cs s ≡ spec_run cs xs
unfolding run
run_refines [] s xs h f = refl
run_refines (pushes n ∷ cs) s xs h f =
    run_refines cs (push n s) (n ∷ xs) (push-Holds n s xs f.0 f.1 f.2 h) f.3
run_refines (pops ∷ cs) s [] h f = ground (arith, pop-Holds s [] h, run_refines cs s [] h f)
run_refines (pops ∷ cs) s (x ∷ xs) h f =
    let (t, popped, kept) = pop-Holds s (x ∷ xs) h in
    ground (arith, popped, run_refines cs t xs kept f)
