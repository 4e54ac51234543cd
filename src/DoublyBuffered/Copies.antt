-- ===== src/DoublyBuffered/Copies.antt =====
-- How the two copies differ.
use codelab.Base.{◌≤◌, ◌≡◌, refl, Bool, true, false, arith}
use codelab.DoublyBuffered.{
  Writer, System, other, Step, add_wrapper, begin_read, load_index, end_read, modify, refused,
  switch, lock_wrappers, wait_read_done, all_done, finish, Reach, here, later, started,
}
use codelab.DoublyBuffered.Safety.{Reach-Sound}

abbrev pub is_refusal : {A : Type 0} {s t : System A} → Step s t → Bool
is_refusal (refused fn e f) = true
is_refusal _ = false

-- No `fn` returned false in its first call.
abbrev pub IsAccepted : {A : Type 0} {s t : System A} → Reach s t → Type 0
IsAccepted here = Unit {0}
IsAccepted (later r st) = IsAccepted r × (is_refusal st ≡ false)

-- `front` is the copy that new readers get: it has had the last `fn`, and the other has not until
-- the end of Modify.
abbrev pub CopiesOk : {A : Type 0} → Writer A → (front back : A) → Type 0
CopiesOk Writer.resting front back = front ≡ back
CopiesOk (Writer.writing fn) front back = front ≡ back
CopiesOk (Writer.switched fn) front back = front ≡ (fn back).0
CopiesOk (Writer.waiting fn rest) front back = front ≡ (fn back).0
CopiesOk (Writer.writing_old fn) front back = front ≡ (fn back).0

Step-CopiesOk :
    {A : Type 0} {s t : System A} (st : Step s t)
    → is_refusal st ≡ false
    → s.index ≤ 1
    → CopiesOk s.writer (s.copies s.index) (s.copies (other s.index))
    → CopiesOk t.writer (t.copies t.index) (t.copies (other t.index))
Step-CopiesOk (add_wrapper q e f) n b v = v
Step-CopiesOk (begin_read q e) n b v = v
Step-CopiesOk (load_index q e) n b v = v
Step-CopiesOk (end_read q c e) n b v = v
Step-CopiesOk (modify fn e) n b v = ground arith
Step-CopiesOk (refused fn e f) n b v = absurd (ground arith)
Step-CopiesOk (switch fn e f) n b v = ground arith
Step-CopiesOk (lock_wrappers fn e) n b v = ground arith
Step-CopiesOk (wait_read_done fn q rest e f) n b v = ground arith
Step-CopiesOk (all_done fn e) n b v = ground arith
Step-CopiesOk (finish fn e) n b v = ground arith

-- However readers and one modifying thread interleave, while no `fn` was refused, the copy that
-- new readers get equals the other one outside of Modify and until its switch, and from then on it
-- is what `fn` makes of the other one.
pub Reach-CopiesOk :
    {A : Type 0} {a : A} {s : System A} (r : Reach (started a) s)
    → IsAccepted r
    → CopiesOk s.writer (s.copies s.index) (s.copies (other s.index))
Reach-CopiesOk here ok = refl
Reach-CopiesOk (later r st) (ok, n) = Step-CopiesOk st n (Reach-Sound r).bit (Reach-CopiesOk r ok)
