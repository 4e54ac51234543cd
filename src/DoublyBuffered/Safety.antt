-- ===== src/DoublyBuffered/Safety.antt =====
-- The copies that readers have pointers to, against the one that is written.
use codelab.Base.{ℕ, ◌≤◌, ◌<◌, ◌≡◌, refl, List, [], ◌∷◌, arith, ◌⊎◌}
use codelab.Base.Bag.{occ, occ-append}
use codelab.DoublyBuffered.{
  Reader, absent, idle, locked, reading, Writer, System, Step, add_wrapper, begin_read, load_index,
  end_read, modify, refused, switch, lock_wrappers, wait_read_done, all_done, finish, Reach, here,
  later, started,
}

-- Whether the reader `r` may have a pointer to the copy `d`: the old one only while the modifying
-- thread has not yet waited for it.
abbrev pub MayRead : {A : Type 0} → Writer A → (index r d : ℕ) → Type 0
MayRead (Writer.switched fn) index r d = d ≤ 1
MayRead (Writer.waiting fn rest) index r d = (d ≤ 1) × ((d ≡ index) ⊎ (0 < occ r rest))
MayRead _ index r d = d ≡ index

abbrev pub ReaderOk : {A : Type 0} → Writer A → (index r : ℕ) → List ℕ → Reader → Type 0
ReaderOk w index r wrappers (reading d) = MayRead w index r d × (0 < occ r wrappers)
ReaderOk w index r wrappers absent = Unit {0}
ReaderOk w index r wrappers idle = 0 < occ r wrappers
ReaderOk w index r wrappers locked = 0 < occ r wrappers

pub record Sound {A : Type 0} (s : System A) : Type 0 where
  pub bit : s.index ≤ 1
  pub reader : (r : ℕ) → ReaderOk s.writer s.index r s.wrappers (s.readers r)

pub Step-Sound : {A : Type 0} {s t : System A} → Step s t → Sound s → Sound t
Step-Sound {A} {s} (add_wrapper r e f) v = record {
  bit = v.bit;
  reader = λ q. ground (arith, v.reader q, occ-append q s.wrappers (r ∷ []));
}
Step-Sound {A} {s} (begin_read r e) v = record {
  bit = v.bit;
  reader = λ q. ground (arith, v.reader q, v.reader r);
}
Step-Sound {A} {s} (load_index r e) v = record {
  bit = v.bit;
  reader = λ q. ground (arith, v.bit, v.reader q, v.reader r);
}
Step-Sound {A} {s} (end_read r d e) v = record {
  bit = v.bit;
  reader = λ q. ground (arith, v.reader q, v.reader r);
}
Step-Sound {A} {s} (modify fn e) v = record {
  bit = v.bit;
  reader = λ q. ground (arith, v.reader q);
}
Step-Sound {A} {s} (refused fn e f) v = record {
  bit = v.bit;
  reader = λ q. ground (arith, v.reader q);
}
Step-Sound {A} {s} (switch fn e f) v = record {
  bit = omega arith;
  reader = λ q. ground (arith, v.bit, v.reader q);
}
Step-Sound {A} {s} (lock_wrappers fn e) v = record {
  bit = v.bit;
  reader = λ q. ground (arith, v.reader q);
}
Step-Sound {A} {s} (wait_read_done fn r rest e f) v = record {
  bit = v.bit;
  reader = λ q. ground (arith, v.reader q);
}
Step-Sound {A} {s} (all_done fn e) v = record {
  bit = v.bit;
  reader = λ q. ground (arith, v.reader q);
}
Step-Sound {A} {s} (finish fn e) v = record {
  bit = v.bit;
  reader = λ q. ground (arith, v.reader q);
}

pub Reach-Sound : {A : Type 0} {a : A} {s : System A} → Reach (started a) s → Sound s
Reach-Sound here = record { bit = omega arith; reader = λ r. tt }
Reach-Sound (later r st) = Step-Sound st (Reach-Sound r)

-- However any number of readers and one modifying thread interleave, no step changes a copy that
-- a reader has a pointer to.
pub Step-stable :
    {A : Type 0} {a : A} {s t : System A}
    → Reach (started a) s
    → Step s t
    → (r d : ℕ) → s.readers r ≡ reading d
    → t.copies d ≡ s.copies d
Step-stable reach (add_wrapper q e f) r d h = refl
Step-stable reach (begin_read q e) r d h = refl
Step-stable reach (load_index q e) r d h = refl
Step-stable reach (end_read q c e) r d h = refl
Step-stable reach (modify fn e) r d h = refl
Step-stable reach (refused fn e f) r d h =
    let v = Reach-Sound reach in ground (arith, v.reader r, v.bit)
Step-stable reach (switch fn e f) r d h =
    let v = Reach-Sound reach in ground (arith, v.reader r, v.bit)
Step-stable reach (lock_wrappers fn e) r d h = refl
Step-stable reach (wait_read_done fn q rest e f) r d h = refl
Step-stable reach (all_done fn e) r d h = refl
Step-stable reach (finish fn e) r d h =
    let v = Reach-Sound reach in ground (arith, v.reader r, v.bit)
