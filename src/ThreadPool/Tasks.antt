-- ===== src/ThreadPool/Tasks.antt =====
-- The order of the tasks.
use codelab.Base.{ℕ, ◌≡◌, refl, sym, ◌∙◌, ap, [], ◌∷◌, ◌++◌}
use mathlib.Core.List.{append_assoc}
use codelab.ThreadPool.{
  System, Step, push_task, notify_one, notify_none, wait, wake, take_task, task_done, set_stop,
  notify_all, leave, Reach, here, later, new_threads,
}

Step-ordered :
    {s t : System} → Step s t → s.begun ++ s.queue ≡ s.added → t.begun ++ t.queue ≡ t.added
Step-ordered {s} (push_task x) v =
    sym (append_assoc s.begun s.queue (x ∷ [])) ∙ ap (λ l. l ++ x ∷ []) v
Step-ordered (notify_one n i e f) v = v
Step-ordered (notify_none n e f) v = v
Step-ordered (wait i e f g) v = v
Step-ordered (wake i e) v = v
Step-ordered {s} (take_task i x rest e f g) v =
    append_assoc s.begun (x ∷ []) rest ∙ ap (λ q. s.begun ++ q) (sym g) ∙ v
Step-ordered (task_done i x e) v = v
Step-ordered set_stop v = v
Step-ordered (notify_all e) v = v
Step-ordered (leave i e f) v = v

-- However callers and workers interleave, the tasks taken so far and then those in the queue are
-- those that were added, in order: each is taken at most once and in the order of AddTask.
pub Reach-ordered : (n : ℕ) {s : System} → Reach (new_threads n) s → s.begun ++ s.queue ≡ s.added
Reach-ordered n here = refl
Reach-ordered n (later r st) = Step-ordered st (Reach-ordered n r)
