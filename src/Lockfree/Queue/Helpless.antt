-- ===== src/Lockfree/Queue/Helpless.antt =====
-- The queue of idea/lockfree/queue-nolockfree.hpp: a thread that finds the tail behind does not move
-- it on, and tries again. The state is that of the parent.
pub mod Settled
pub mod Blocked
mod Tests
use codelab.Base.{ℕ, suc, ◌<◌, ◌≤◌, ◌≡◌, ◌≢◌, Bool, true, false, ◌==◌}
use codelab.Lockfree.Stack.{update}
use codelab.Lockfree.Queue.{
  Pc, idle, pushing, got_tail, got_tail_next, linked, popping, got_head, got_head_next, got_both,
  taken, astray, owned, System, at_pc,
}

-- One step of the thread `i`. The compare-exchange on the tail is the strong one, and fails only
-- when the tail is another.
pub data Step (s : System) : System → Type 0 where
  begin_push :
      (i x : ℕ)
      → s.pc i ≡ idle
      → 0 < x
      → s.next x ≡ 0
      → ((k : ℕ) → k ≤ s.last → s.node k ≢ x)
      → ((j : ℕ) → owned (s.pc j) ≢ x)
      → Step s (at_pc s i (pushing x))
  load_tail : (i x : ℕ) → s.pc i ≡ pushing x → Step s (at_pc s i (got_tail x s.tail s.tail_at))
  load_next :
      (i x t p : ℕ)
      → s.pc i ≡ got_tail x t p
      → s.deleted t ≡ false
      → Step s (at_pc s i (got_tail_next x t p (s.next t)))
  load_next_deleted :
      (i x t p : ℕ) → s.pc i ≡ got_tail x t p → s.deleted t ≡ true → Step s (at_pc s i astray)
  link_node :
      (i x t p : ℕ)
      → s.pc i ≡ got_tail_next x t p 0
      → s.deleted t ≡ false
      → s.next t ≡ 0
      → Step s (record s {
        next = update s.next t x;
        pc = update s.pc i (linked x t p);
        node = update s.node (suc s.last) x;
        last = suc s.last;
      })
  link_fails :
      (i x t p : ℕ)
      → s.pc i ≡ got_tail_next x t p 0
      → s.deleted t ≡ false
      → Step s (at_pc s i (pushing x))
  link_deleted :
      (i x t p : ℕ)
      → s.pc i ≡ got_tail_next x t p 0
      → s.deleted t ≡ true
      → Step s (at_pc s i astray)
  next_is_set :
      (i x t p n : ℕ) → s.pc i ≡ got_tail_next x t p n → n ≢ 0 → Step s (at_pc s i (pushing x))
  swing_tail :
      (i x t p : ℕ)
      → s.pc i ≡ linked x t p
      → s.tail ≡ t
      → Step s (record s { tail = x; tail_at = suc p; pc = update s.pc i idle })
  swing_fails : (i x t p : ℕ) → s.pc i ≡ linked x t p → s.tail ≢ t → Step s (at_pc s i idle)
  begin_pop : (i : ℕ) → s.pc i ≡ idle → Step s (at_pc s i popping)
  load_head : (i : ℕ) → s.pc i ≡ popping → Step s (at_pc s i (got_head s.head s.first))
  load_head_next :
      (i h q : ℕ)
      → s.pc i ≡ got_head h q
      → s.deleted h ≡ false
      → Step s (at_pc s i (got_head_next h q (s.next h)))
  load_head_next_deleted :
      (i h q : ℕ) → s.pc i ≡ got_head h q → s.deleted h ≡ true → Step s (at_pc s i astray)
  load_both :
      (i h q n : ℕ)
      → s.pc i ≡ got_head_next h q n
      → Step s (at_pc s i (got_both h q n s.tail s.tail_at))
  pop_empty : (i h q n t p : ℕ) → s.pc i ≡ got_both h q n t p → t ≡ h → Step s (at_pc s i idle)
  take_head :
      (i h q n t p : ℕ)
      → s.pc i ≡ got_both h q n t p
      → t ≢ h
      → s.head ≡ h
      → Step s (record s {
        head = n;
        pc = update s.pc i (taken h);
        first = suc s.first;
        results = update s.results s.first (s.value h);
      })
  delete_head :
      (i h : ℕ)
      → s.pc i ≡ taken h
      → Step s (record s { deleted = update s.deleted h true; pc = update s.pc i idle })
  take_fails : (i h q n t p : ℕ) → s.pc i ≡ got_both h q n t p → t ≢ h → Step s (at_pc s i popping)

pub data Reach (s : System) : System → Type 0 where
  here : Reach s s
  later : {t u : System} → Reach s t → Step t u → Reach s u

-- The thread that takes the step.
abbrev pub thread_of : {s t : System} → Step s t → ℕ
thread_of (begin_push i x e a b c d) = i
thread_of (load_tail i x e) = i
thread_of (load_next i x t p e a) = i
thread_of (load_next_deleted i x t p e a) = i
thread_of (link_node i x t p e a f) = i
thread_of (link_fails i x t p e a) = i
thread_of (link_deleted i x t p e a) = i
thread_of (next_is_set i x t p n e f) = i
thread_of (swing_tail i x t p e f) = i
thread_of (swing_fails i x t p e f) = i
thread_of (begin_pop i e) = i
thread_of (load_head i e) = i
thread_of (load_head_next i h q e a) = i
thread_of (load_head_next_deleted i h q e a) = i
thread_of (load_both i h q n e) = i
thread_of (pop_empty i h q n t p e f) = i
thread_of (take_head i h q n t p e f g) = i
thread_of (delete_head i h e) = i
thread_of (take_fails i h q n t p e f) = i

abbrev pub goes_wrong : {s t : System} → Step s t → Bool
goes_wrong (take_head i h q n t p e f g) = n == 0
goes_wrong (load_next_deleted i x t p e a) = true
goes_wrong (link_deleted i x t p e a) = true
goes_wrong (load_head_next_deleted i h q e a) = true
goes_wrong _ = false

-- No `pop` read a null link and then found the tail elsewhere, and no thread went astray.
abbrev pub IsWhole : {s t : System} → Reach s t → Type 0
IsWhole here = Unit {0}
IsWhole (later r st) = IsWhole r × (goes_wrong st ≡ false)

-- The thread `i` takes no step.
abbrev pub IsWithout : (i : ℕ) {s t : System} → Reach s t → Type 0
IsWithout i here = Unit {0}
IsWithout i (later r st) = IsWithout i r × (thread_of st ≢ i)
