-- ===== src/DoublyBuffered/Writers.antt =====
-- idea/doubly_buffered_data.h with any number of threads in Modify: each has loaded the index for
-- itself. Readers are those of the parent.
use codelab.Base.{◌≢◌, ℕ, ◌≡◌, refl, Bool, true, false, List, [], ◌∷◌, ◌++◌}
use codelab.DoublyBuffered.{Reader, absent, idle, locked, reading, Fn, update, other}

-- A thread outside of Modify; about to call `fn` for the copy `bg`; after the switch to it; with the
-- mutex, waiting for the wrappers that are left; and about to call `fn` for the old copy.
pub data Modifier (A : Type 0) : Type 0 where
  resting : Modifier A
  loaded : (fn : Fn A) (bg : ℕ) → Modifier A
  written : (fn : Fn A) (bg : ℕ) → Modifier A
  switched : (fn : Fn A) (old : ℕ) → Modifier A
  waiting : (fn : Fn A) (old : ℕ) (rest : List ℕ) → Modifier A
  waited : (fn : Fn A) (old : ℕ) → Modifier A

abbrev pub has_mutex : {A : Type 0} → Modifier A → Bool
has_mutex (Modifier.waiting fn old rest) = true
has_mutex _ = false

pub record System (A : Type 0) : Type 0 where
  pub copies : ℕ → A
  pub index : ℕ
  pub readers : ℕ → Reader
  pub wrappers : List ℕ
  pub modifiers : ℕ → Modifier A

abbrev pub at_modifier : {A : Type 0} → System A → (k : ℕ) → Modifier A → System A
at_modifier s k m = record s { modifiers = update s.modifiers k m }

pub data Step {A : Type 0} (s : System A) : System A → Type 0 where
  add_wrapper :
      (r : ℕ)
      → s.readers r ≡ absent
      → ((k : ℕ) → has_mutex (s.modifiers k) ≡ false)
      → Step s (record s { readers = update s.readers r idle; wrappers = s.wrappers ++ r ∷ [] })
  begin_read :
      (r : ℕ) → s.readers r ≡ idle → Step s (record s { readers = update s.readers r locked })
  load_index :
      (r : ℕ)
      → s.readers r ≡ locked
      → Step s (record s { readers = update s.readers r (reading s.index) })
  end_read :
      (r d : ℕ) → s.readers r ≡ reading d → Step s (record s { readers = update s.readers r idle })
  modify :
      (k : ℕ) (fn : Fn A)
      → s.modifiers k ≡ Modifier.resting
      → Step s (at_modifier s k (Modifier.loaded fn (other s.index)))
  refused :
      (k : ℕ) (fn : Fn A) (bg : ℕ)
      → s.modifiers k ≡ Modifier.loaded fn bg
      → (fn (s.copies bg)).1 ≡ false
      → Step s (record s {
        copies = update s.copies bg (fn (s.copies bg)).0;
        modifiers = update s.modifiers k Modifier.resting;
      })
  write :
      (k : ℕ) (fn : Fn A) (bg : ℕ)
      → s.modifiers k ≡ Modifier.loaded fn bg
      → (fn (s.copies bg)).1 ≡ true
      → Step s (record s {
        copies = update s.copies bg (fn (s.copies bg)).0;
        modifiers = update s.modifiers k (Modifier.written fn bg);
      })
  switch :
      (k : ℕ) (fn : Fn A) (bg : ℕ)
      → s.modifiers k ≡ Modifier.written fn bg
      → Step s (record s {
        index = bg;
        modifiers = update s.modifiers k (Modifier.switched fn (other bg));
      })
  lock_wrappers :
      (k : ℕ) (fn : Fn A) (old : ℕ)
      → s.modifiers k ≡ Modifier.switched fn old
      → ((j : ℕ) → has_mutex (s.modifiers j) ≡ false)
      → Step s (at_modifier s k (Modifier.waiting fn old s.wrappers))
  wait_read_done :
      (k : ℕ) (fn : Fn A) (old r : ℕ) (rest : List ℕ)
      → s.modifiers k ≡ Modifier.waiting fn old (r ∷ rest)
      → s.readers r ≡ idle
      → Step s (at_modifier s k (Modifier.waiting fn old rest))
  all_done :
      (k : ℕ) (fn : Fn A) (old : ℕ)
      → s.modifiers k ≡ Modifier.waiting fn old []
      → Step s (at_modifier s k (Modifier.waited fn old))
  write_old :
      (k : ℕ) (fn : Fn A) (old : ℕ)
      → s.modifiers k ≡ Modifier.waited fn old
      → Step s (record s {
        copies = update s.copies old (fn (s.copies old)).0;
        modifiers = update s.modifiers k Modifier.resting;
      })

pub data Reach {A : Type 0} (s : System A) : System A → Type 0 where
  here : Reach s s
  later : {t u : System A} → Reach s t → Step t u → Reach s u

abbrev pub started : {A : Type 0} → A → System A
started a = record {
  copies = λ _. a;
  index = 0;
  readers = λ _. absent;
  wrappers = [];
  modifiers = λ _. Modifier.resting;
}

module _ {A : Type 0} (a : A) (fn gn : Fn A) (done : (fn a).1 ≡ true) where
  abbrev changed : A
  changed = (fn a).0

  -- Reader 0 is there, and both threads have loaded the index.
  abbrev both_in : System A
  both_in = record (started a) {
    readers = update (λ _. absent) 0 idle;
    wrappers = 0 ∷ [];
    modifiers =
        update (update (λ _. Modifier.resting) 0 (Modifier.loaded fn 1)) 1 (Modifier.loaded gn 1);
  }

  both_in-Reach : Reach (started a) both_in
  both_in-Reach =
      later (later (later here (add_wrapper 0 refl (λ k. refl))) (modify 0 fn refl))
        (modify 1 gn refl)

  -- Thread 0 has switched, and the reader has a pointer to the new copy.
  abbrev read : System A
  read = record both_in {
    copies = update (λ _. a) 1 changed;
    index = 1;
    readers = update (update both_in.readers 0 locked) 0 (reading 1);
    modifiers =
        update (update both_in.modifiers 0 (Modifier.written fn 1)) 0 (Modifier.switched fn 0);
  }

  read-Reach : Reach (started a) read
  read-Reach =
      later
        (later (later (later both_in-Reach (write 0 fn 1 refl done)) (switch 0 fn 1 refl))
          (begin_read 0 refl))
        (load_index 0 refl)

  -- With two threads in Modify, of which the first has an `fn` that accepts, and the second one that
  -- accepts what the first made and makes something else of it, a state can be reached in which a
  -- reader has a pointer to a copy that the next step changes.
  pub write-unstable :
      (gn changed).1 ≡ true
      → (gn changed).0 ≢ changed
      → (s t : System A) × Reach (started a) s
        × Step s t
        × (s.readers 0 ≡ reading 1)
        × (s.copies 1 ≡ changed)
        × (t.copies 1 ≡ (gn changed).0)
        × (t.copies 1 ≢ s.copies 1)
  write-unstable accepted differs =
      (read, _, read-Reach, write 1 gn 1 refl accepted, refl, refl, refl, differs)
