-- ===== src/Lockfree/Queue.antt =====
-- The queue of idea/lockfree/queue-lockfree-has-aba.hpp: threads that run `push` and `pop` at once,
-- one shared access a step. A `node*` is an address, 0 the null pointer. A compare-exchange may
-- fail for no reason. A thread that reads or writes a node which was deleted is `astray`. A node that
-- was taken off is not pushed again, so that no old pointer is met a second time.
pub mod Sound
pub mod Link
pub mod Order
pub mod Null
pub mod Deleted
pub mod Helpless
mod Tests
use codelab.Base.{ℕ, suc, ◌+◌, ◌≤◌, ◌<◌, ◌≡◌, ◌≢◌, Bool, true, false, ◌==◌, if◌then◌else◌}
use codelab.Lockfree.Stack.{update}

-- Where a thread stands, with its local variables. A position, `p` or `q`, is no variable of the
-- code: which node, counted from the first on, the pointer before it is.
pub data Pc : Type 0 where
  idle : Pc
  pushing : (new_node : ℕ) → Pc  -- at the head of the loop of `push`
  got_tail : (new_node old_tail p : ℕ) → Pc
  got_tail_next : (new_node old_tail p old_tail_next : ℕ) → Pc
  linked : (new_node old_tail p : ℕ) → Pc  -- before it moves the tail
  popping : Pc  -- at the head of the loop of `pop`
  got_head : (old_head q : ℕ) → Pc
  got_head_next : (old_head q old_head_next : ℕ) → Pc
  got_both : (old_head q old_head_next old_tail p : ℕ) → Pc
  taken : (old_head : ℕ) → Pc  -- before it deletes the old head
  astray : Pc

-- The node that a thread is about to push.
abbrev pub owned : Pc → ℕ
owned (pushing x) = x
owned (got_tail x _ _) = x
owned (got_tail_next x _ _ _) = x
owned _ = 0

-- `node k` is the k-th node that was linked, the dummy node first, and `last` the last of them;
-- `first` and `tail_at` are the positions of `head_` and `tail_`. `results k` is what the k-th
-- `pop` that took a node off returned.
pub record System : Type 0 where
  pub head : ℕ
  pub tail : ℕ
  pub next : ℕ → ℕ
  pub value : ℕ → ℕ
  pub deleted : ℕ → Bool
  pub pc : ℕ → Pc
  pub node : ℕ → ℕ
  pub last : ℕ
  pub first : ℕ
  pub tail_at : ℕ
  pub results : ℕ → ℕ

abbrev pub at_pc : System → (i : ℕ) → Pc → System
at_pc s i c = record s { pc = update s.pc i c }

-- One step of the thread `i`.
pub data Step (s : System) : System → Type 0 where
  -- A caller pushes a node that was never pushed, whose link is null.
  push :
      (i x : ℕ)
      → s.pc i ≡ idle
      → 0 < x
      → s.next x ≡ 0
      → ((k : ℕ) → k ≤ s.last → s.node k ≢ x)
      → ((j : ℕ) → owned (s.pc j) ≢ x)
      → Step s (at_pc s i (pushing x))
  push_tail : (i x : ℕ) → s.pc i ≡ pushing x → Step s (at_pc s i (got_tail x s.tail s.tail_at))
  push_next :
      (i x t p : ℕ)
      → s.pc i ≡ got_tail x t p
      → s.deleted t ≡ false
      → Step s (at_pc s i (got_tail_next x t p (s.next t)))
  push_next_deleted :
      (i x t p : ℕ) → s.pc i ≡ got_tail x t p → s.deleted t ≡ true → Step s (at_pc s i astray)
  push_link :
      (i x t p : ℕ)
      → s.pc i ≡ got_tail_next x t p 0
      → s.deleted t ≡ false
      → s.next t ≡ 0
      → Step s (record s {
        next = update s.next t x;
        pc = update s.pc i (linked x t p);
        node = update s.node (suc s.last) x;
        last = suc s.last;
      })
  push_link_fail :
      (i x t p : ℕ)
      → s.pc i ≡ got_tail_next x t p 0
      → s.deleted t ≡ false
      → Step s (at_pc s i (pushing x))
  push_link_deleted :
      (i x t p : ℕ)
      → s.pc i ≡ got_tail_next x t p 0
      → s.deleted t ≡ true
      → Step s (at_pc s i astray)
  push_help :
      (i x t p n : ℕ)
      → s.pc i ≡ got_tail_next x t p n
      → n ≢ 0
      → s.tail ≡ t
      → Step s (record s { tail = n; tail_at = suc p; pc = update s.pc i (pushing x) })
  push_help_fail :
      (i x t p n : ℕ) → s.pc i ≡ got_tail_next x t p n → n ≢ 0 → Step s (at_pc s i (pushing x))
  push_swing :
      (i x t p : ℕ)
      → s.pc i ≡ linked x t p
      → s.tail ≡ t
      → Step s (record s { tail = x; tail_at = suc p; pc = update s.pc i idle })
  push_swing_fail : (i x t p : ℕ) → s.pc i ≡ linked x t p → Step s (at_pc s i idle)
  pop : (i : ℕ) → s.pc i ≡ idle → Step s (at_pc s i popping)
  pop_head : (i : ℕ) → s.pc i ≡ popping → Step s (at_pc s i (got_head s.head s.first))
  pop_next :
      (i h q : ℕ)
      → s.pc i ≡ got_head h q
      → s.deleted h ≡ false
      → Step s (at_pc s i (got_head_next h q (s.next h)))
  pop_next_deleted :
      (i h q : ℕ) → s.pc i ≡ got_head h q → s.deleted h ≡ true → Step s (at_pc s i astray)
  pop_tail :
      (i h q n : ℕ)
      → s.pc i ≡ got_head_next h q n
      → Step s (at_pc s i (got_both h q n s.tail s.tail_at))
  pop_null : (i h q t p : ℕ) → s.pc i ≡ got_both h q 0 t p → t ≡ h → Step s (at_pc s i idle)
  pop_help :
      (i h q n t p : ℕ)
      → s.pc i ≡ got_both h q n t p
      → t ≡ h
      → n ≢ 0
      → s.tail ≡ t
      → Step s (record s { tail = n; tail_at = suc p; pc = update s.pc i popping })
  pop_help_fail :
      (i h q n t p : ℕ) → s.pc i ≡ got_both h q n t p → t ≡ h → n ≢ 0 → Step s (at_pc s i popping)
  -- It reads the value of the old head too, which no other thread writes.
  pop_swap :
      (i h q n t p : ℕ)
      → s.pc i ≡ got_both h q n t p
      → t ≢ h
      → s.head ≡ h
      → Step s (record s {
        head = n;
        pc = update s.pc i (taken h);
        first = suc s.first;
        results = update s.results s.first (s.value h);
      })
  pop_delete :
      (i h : ℕ)
      → s.pc i ≡ taken h
      → Step s (record s { deleted = update s.deleted h true; pc = update s.pc i idle })
  pop_swap_fail :
      (i h q n t p : ℕ) → s.pc i ≡ got_both h q n t p → t ≢ h → Step s (at_pc s i popping)

pub data Reach (s : System) : System → Type 0 where
  here : Reach s s
  later : {t u : System} → Reach s t → Step t u → Reach s u

-- The constructor; the link of the dummy node is taken for null, which it does not set.
abbrev pub init : (dummy : ℕ) → (value : ℕ → ℕ) → System
init dummy value = record {
  head = dummy;
  tail = dummy;
  next = λ _. 0;
  value = value;
  deleted = λ _. false;
  pc = λ _. idle;
  node = λ _. dummy;
  last = 0;
  first = 0;
  tail_at = 0;
  results = λ _. 0;
}
