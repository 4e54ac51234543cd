-- ===== src/DoublyBuffered.antt =====
-- idea/doubly_buffered_data.h: any number of readers and one thread that modifies, in steps. Each
-- thread that reads has one ScopedPtr at a time. A step of the modifying thread that calls
-- `fn` stands for its end: the copy counts as being written from the step before until then.
pub mod Safety
pub mod Copies
pub mod Writers
mod Tests
use codelab.Base.{ℕ, ◌-◌, ◌≡◌, ◌≢◌, Bool, true, false, List, [], ◌∷◌, ◌++◌, ◌==◌, if◌then◌else◌}

-- A thread before its first Read; between two of them; after BeginRead; and with a pointer to the
-- copy `d`.
pub data Reader : Type 0 where
  absent idle locked : Reader
  reading : (d : ℕ) → Reader

-- What `fn` does to a copy, and what it returns.
abbrev pub Fn : Type 0 → Type 0
Fn A = A → A × Bool

-- The modifying thread: outside of Modify, writing the copy in the background, after the switch,
-- waiting for the wrappers that are left, and writing the old copy.
pub data Writer (A : Type 0) : Type 0 where
  resting : Writer A
  writing : (fn : Fn A) → Writer A
  switched : (fn : Fn A) → Writer A
  waiting : (fn : Fn A) (rest : List ℕ) → Writer A
  writing_old : (fn : Fn A) → Writer A

-- The two copies are `copies 0` and `copies 1`.
pub record System (A : Type 0) : Type 0 where
  pub copies : ℕ → A
  pub index : ℕ
  pub readers : ℕ → Reader
  pub wrappers : List ℕ
  pub writer : Writer A

abbrev pub update {ℓ} : {A : Type ℓ} → (ℕ → A) → ℕ → A → ℕ → A
update f p a q = if p == q then a else f q

-- `!index` of an index that is 0 or 1.
abbrev pub other : ℕ → ℕ
other i = 1 - i

abbrev pub has_mutex : {A : Type 0} → Writer A → Bool
has_mutex (Writer.waiting fn rest) = true
has_mutex _ = false

pub data Step {A : Type 0} (s : System A) : System A → Type 0 where
  -- AddWrapper waits while the modifying thread has the mutex of the wrappers.
  add_wrapper :
      (r : ℕ)
      → s.readers r ≡ absent
      → has_mutex s.writer ≡ false
      → Step s (record s { readers = update s.readers r idle; wrappers = s.wrappers ++ r ∷ [] })
  begin_read :
      (r : ℕ) → s.readers r ≡ idle → Step s (record s { readers = update s.readers r locked })
  load_index :
      (r : ℕ)
      → s.readers r ≡ locked
      → Step s (record s { readers = update s.readers r (reading s.index) })
  end_read :
      (r d : ℕ) → s.readers r ≡ reading d → Step s (record s { readers = update s.readers r idle })
  modify :
      (fn : Fn A) → s.writer ≡ Writer.resting → Step s (record s { writer = Writer.writing fn })
  refused :
      (fn : Fn A)
      → s.writer ≡ Writer.writing fn
      → (fn (s.copies (other s.index))).1 ≡ false
      → Step s (record s {
        copies = update s.copies (other s.index) (fn (s.copies (other s.index))).0;
        writer = Writer.resting;
      })
  switch :
      (fn : Fn A)
      → s.writer ≡ Writer.writing fn
      → (fn (s.copies (other s.index))).1 ≡ true
      → Step s (record s {
        copies = update s.copies (other s.index) (fn (s.copies (other s.index))).0;
        index = other s.index;
        writer = Writer.switched fn;
      })
  lock_wrappers :
      (fn : Fn A)
      → s.writer ≡ Writer.switched fn
      → Step s (record s { writer = Writer.waiting fn s.wrappers })
  -- WaitReadDone takes the mutex of a wrapper, which is free between two reads.
  wait_read_done :
      (fn : Fn A) (r : ℕ) (rest : List ℕ)
      → s.writer ≡ Writer.waiting fn (r ∷ rest)
      → s.readers r ≡ idle
      → Step s (record s { writer = Writer.waiting fn rest })
  all_done :
      (fn : Fn A)
      → s.writer ≡ Writer.waiting fn []
      → Step s (record s { writer = Writer.writing_old fn })
  finish :
      (fn : Fn A)
      → s.writer ≡ Writer.writing_old fn
      → Step s (record s {
        copies = update s.copies (other s.index) (fn (s.copies (other s.index))).0;
        writer = Writer.resting;
      })

pub data Reach {A : Type 0} (s : System A) : System A → Type 0 where
  here : Reach s s
  later : {t u : System A} → Reach s t → Step t u → Reach s u

-- Both copies are made alike.
abbrev pub started : {A : Type 0} → A → System A
started a = record {
  copies = λ _. a;
  index = 0;
  readers = λ _. absent;
  wrappers = [];
  writer = Writer.resting;
}
