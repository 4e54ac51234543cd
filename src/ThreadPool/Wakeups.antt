-- ===== src/ThreadPool/Wakeups.antt =====
-- The tasks in the queue against the workers in the wait.
use codelab.Base.{
  ℕ, zero, suc, ◌+◌, ◌≤◌, ◌<◌, ◌≡◌, ◌≢◌, refl, ap, false, List, [], ◌∷◌, some, get_elem?, set,
  replicate, length, length-append, arith,
}
use codelab.ThreadPool.{
  Worker, ready, asleep, calling, ended, System, Step, push_task, notify_one, notify_none, wait,
  wake, take_task, task_done, set_stop, notify_all, leave, Reach, here, later, new_threads,
}

abbrev pub one_ready : Worker → ℕ
one_ready ready = 1
one_ready _ = 0

abbrev pub one_asleep : Worker → ℕ
one_asleep asleep = 1
one_asleep _ = 0

abbrev pub count : (Worker → ℕ) → List Worker → ℕ
count f [] = 0
count f (w ∷ ws) = f w + count f ws

count-set :
    (f : Worker → ℕ) (ws : List Worker) (i : ℕ) (w v : Worker)
    → get_elem? ws i ≡ some w
    → count f (set ws i v) + f w ≡ count f ws + f v
count-set f [] i w v e = absurd (ground arith)
count-set f (u ∷ ws) zero w v e = let p : f u ≡ f w = ap f (ground arith) in omega arith
count-set f (u ∷ ws) (suc i) w v e = omega (arith, count-set f ws i w v e)

none_asleep :
    (ws : List Worker) → ((i : ℕ) → get_elem? ws i ≢ some asleep) → count one_asleep ws ≡ 0
none_asleep [] h = refl
none_asleep (ready ∷ ws) h = omega (arith, none_asleep ws (λ i. h (suc i)))
none_asleep (asleep ∷ ws) h = absurd (h 0 refl)
none_asleep (calling t ∷ ws) h = omega (arith, none_asleep ws (λ i. h (suc i)))
none_asleep (ended ∷ ws) h = omega (arith, none_asleep ws (λ i. h (suc i)))

count-replicate : (n : ℕ) → count one_asleep (replicate n ready) ≡ 0
count-replicate zero = refl
count-replicate (suc n) = omega (arith, count-replicate n)

-- While a worker sleeps and the pool is not stopped, each task in the queue has a notice on its
-- way or a worker that will look.
abbrev Covered : System → Type 0
Covered s =
    s.stop ≡ false
    → 0 < count one_asleep s.workers
    → length s.queue ≤ s.notices + count one_ready s.workers

module _ (s : System) (v : Covered s) where
  wake-Covered :
      (i : ℕ)
      → get_elem? s.workers i ≡ some asleep
      → (n : ℕ) → s.notices ≤ suc n
      → Covered (record s { notices = n; workers = set s.workers i ready })
  wake-Covered i e n le go up = omega (
    arith,
    count-set one_ready s.workers i asleep ready e,
    count-set one_asleep s.workers i asleep ready e,
    v go (omega (arith, count-set one_asleep s.workers i asleep ready e)),
  )

Step-Covered : {s t : System} → Step s t → Covered s → Covered t
Step-Covered {s} (push_task x) v go up = omega (arith, length-append s.queue (x ∷ []), v go up)
Step-Covered {s} (notify_one n i e f) v go up = wake-Covered s v i f n (omega arith) go up
Step-Covered {s} (notify_none n e f) v go up = absurd (omega (arith, none_asleep s.workers f))
Step-Covered {s} (wait i e f g) v go up = omega (arith, ap length g)
Step-Covered {s} (wake i e) v go up = wake-Covered s v i e s.notices (omega arith) go up
Step-Covered {s} (take_task i x rest e f g) v go up = omega (
  arith,
  ap length g,
  count-set one_ready s.workers i ready (calling x) e,
  count-set one_asleep s.workers i ready (calling x) e,
  v go (omega (arith, count-set one_asleep s.workers i ready (calling x) e)),
)
Step-Covered {s} (task_done i x e) v go up = omega (
  arith,
  count-set one_ready s.workers i (calling x) ready e,
  count-set one_asleep s.workers i (calling x) ready e,
  v go (omega (arith, count-set one_asleep s.workers i (calling x) ready e)),
)
Step-Covered set_stop v go up = absurd (ground arith)
Step-Covered (notify_all e) v go up = absurd (ground arith)
Step-Covered (leave i e f) v go up = absurd (ground arith)

Reach-Covered : (n : ℕ) {s : System} → Reach (new_threads n) s → Covered s
Reach-Covered n here = λ go up. omega (arith, count-replicate n)
Reach-Covered n (later r st) = Step-Covered st (Reach-Covered n r)

-- However callers and workers interleave, in a pool that is not stopped, when each AddTask has
-- returned, a task is in the queue and a worker is in the wait, then another is about to look
-- at the queue.
pub Reach-awake :
    (n : ℕ) {s : System}
    → Reach (new_threads n) s
    → s.stop ≡ false
    → s.notices ≡ 0
    → 0 < length s.queue
    → 0 < count one_asleep s.workers
    → 0 < count one_ready s.workers
Reach-awake n r go none_left some_task sleeps = omega (arith, Reach-Covered n r go sleeps)
