-- ===== src/DoublyBuffered/Tests.antt =====
-- A reader that holds the old copy over a switch.
use codelab.Base.{ℕ, suc, ◌≢◌, arith, ◌≡◌, refl, true, [], ◌∷◌}
use codelab.DoublyBuffered.{
  Reader, idle, locked, reading, Fn, Writer, System, update, Step, add_wrapper, begin_read,
  load_index, modify, switch, Reach, here, later, started,
}
use codelab.DoublyBuffered.Writers
use codelab.DoublyBuffered.Writers.{write-unstable}
use codelab.DoublyBuffered.Safety.{Step-stable}
use codelab.DoublyBuffered.Copies.{CopiesOk, Reach-CopiesOk}

abbrev increment : Fn ℕ
increment n = (suc n, true)

abbrev reader_in : System ℕ
reader_in = record (started 5) {
  readers = update (update (update (λ _. Reader.absent) 0 idle) 0 locked) 0 (reading 0);
  wrappers = 0 ∷ [];
}

abbrev reader_in-Reach : Reach (started 5) reader_in
reader_in-Reach =
    later (later (later here (add_wrapper 0 refl refl)) (begin_read 0 refl)) (load_index 0 refl)

abbrev writing_too : System ℕ
writing_too = record reader_in { writer = Writer.writing increment }

abbrev writing_too-Reach : Reach (started 5) writing_too
writing_too-Reach = later reader_in-Reach (modify increment refl)

abbrev after_switch : System ℕ
after_switch = record writing_too {
  copies = update (λ _. 5) 1 6;
  index = 1;
  writer = Writer.switched increment;
}

abbrev switching : Step writing_too after_switch
switching = switch increment refl refl

Step-stable_example : after_switch.copies 0 ≡ writing_too.copies 0
Step-stable_example = Step-stable writing_too-Reach switching 0 0 refl

abbrev after_switch-Reach : Reach (started 5) after_switch
after_switch-Reach = later writing_too-Reach switching

Reach-CopiesOk_example :
    CopiesOk (Writer.switched increment) (after_switch.copies 1) (after_switch.copies 0)
Reach-CopiesOk_example =
    Reach-CopiesOk after_switch-Reach ((((((tt, refl), refl), refl), refl), refl))

write-unstable_example :
    (s t : Writers.System ℕ) × Writers.Reach (Writers.started 5) s
    × Writers.Step s t
    × (s.readers 0 ≡ reading 1)
    × (s.copies 1 ≡ 6)
    × (t.copies 1 ≡ 7)
    × (t.copies 1 ≢ s.copies 1)
write-unstable_example = write-unstable 5 increment increment refl refl (λ e. ground arith)
