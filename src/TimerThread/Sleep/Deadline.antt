-- ===== src/TimerThread/Sleep/Deadline.antt =====
-- While the timer thread waits, no scheduled task is due earlier than it will wake.
use Prim.Native.Nat.{min}
use codelab.Base.{
  ℕ, suc, ◌<◌, ◌≤◌, ◌≡◌, inl, inr, Bool, true, false, List, [], ◌∷◌, ◌++◌, ltb, if◌then◌else◌,
  arith, refl, sym, ap, subst, Bool-cases,
}
use codelab.TimerThread.{max_time, Task, Bucket, new_bucket, consume_tasks, link_task}
use codelab.TimerThread.Sleep.{
  Pc, resetting, consuming, executing, deciding, waiting, stopped, System, update, earliest, keep,
  notify, Step, schedule_link, schedule_notify, reset, consume, consumed, take_top, none_due,
  look_again, wait, wake, stop_and_join, leave, Reach, here, later, started,
}

-- The least of `n` and the times that are pending.
abbrev low : ℕ → List ℕ → ℕ
low n [] = n
low n (p ∷ ps) = min p (low n ps)

low-le : (n : ℕ) (ps : List ℕ) → low n ps ≤ n
low-le n [] = omega arith
low-le n (p ∷ ps) = omega (arith, low-le n ps)

low_mono : (m n : ℕ) (ps : List ℕ) → m ≤ n → low m ps ≤ low n ps
low_mono m n [] h = h
low_mono m n (p ∷ ps) h = omega (arith, low_mono m n ps h)

low-append : (n : ℕ) (xs ys : List ℕ) (p : ℕ) → low n (xs ++ p ∷ ys) ≡ min p (low n (xs ++ ys))
low-append n [] ys p = refl
low-append n (x ∷ xs) ys p = omega (arith, low-append n xs ys p)

-- How many buckets the thread has emptied since it last gave up what it waits for.
abbrev emptied : ℕ → Pc → ℕ
emptied n resetting = 0
emptied n stopped = 0
emptied n (consuming i) = i
emptied n _ = n

abbrev PcOk : ℕ → Bool → List Task → Pc → Type 0
PcOk nearest signalled tasks (waiting t) = (signalled ≡ false → nearest ≡ t) × (t ≤ earliest tasks)
PcOk nearest signalled tasks _ = Unit {0}

record Sound (n : ℕ) (s : System) : Type 0 where
  bucket : (j : ℕ) → (s.buckets j).nearest_run_time ≡ earliest (s.buckets j).tasks
  covered :
      (j : ℕ)
      → j < emptied n s.pc
      → low s.nearest_run_time s.pending ≤ (s.buckets j).nearest_run_time
  bound : s.nearest_run_time ≤ max_time
  waits : PcOk s.nearest_run_time s.signalled s.tasks s.pc

earliest-le : (ts : List Task) → earliest ts ≤ max_time
earliest-le [] = omega arith
earliest-le (t ∷ ts) = omega (arith, earliest-le ts)

link_task-earliest :
    (t : Task) (b : Bucket)
    → t.run_time ≤ max_time
    → b.nearest_run_time ≡ earliest b.tasks
    → (link_task t b).0.nearest_run_time ≡ earliest (link_task t b).0.tasks
unfolding link_task
link_task-earliest t b h e = ground arith

consume_tasks-earliest :
    (b : Bucket)
    → b.nearest_run_time ≡ earliest b.tasks
    → ((consume_tasks b).1.nearest_run_time ≡ max_time) × ((consume_tasks b).1.tasks ≡ [])
unfolding consume_tasks
consume_tasks-earliest b e = ground arith

-- A signal is given whenever the nearest time changes while the thread waits.
PcOk-notify :
    (p : Pc) (near : ℕ) (sig : Bool) (ts : List Task)
    → PcOk near sig ts p
    → (m : ℕ) → PcOk m true ts p
PcOk-notify resetting near sig ts ok m = tt
PcOk-notify (waiting t) near sig ts ok m = ((λ e. cc), ok.1)
PcOk-notify (consuming i) near sig ts ok m = tt
PcOk-notify executing near sig ts ok m = tt
PcOk-notify deciding near sig ts ok m = tt
PcOk-notify stopped near sig ts ok m = tt

module _ (n : ℕ) (s : System) (v : Sound n s) where
  link-Sound :
      (j : ℕ) (t : Task)
      → t.run_time ≤ max_time
      → Sound n (record s {
        buckets = update s.buckets j (link_task t (s.buckets j)).0;
        pending = if (link_task t (s.buckets j)).1 then t.run_time ∷ s.pending else s.pending;
      })
  link-Sound j t h = record {
    bucket = λ k. ground (arith, v.bucket k, link_task-earliest t (s.buckets j) h (v.bucket j));
    covered = λ k lt. unfold link_task in ground (arith, v.covered k lt);
    bound = v.bound;
    waits = v.waits;
  }

  notify-Sound :
      (xs ys : List ℕ) (r : ℕ)
      → s.pending ≡ xs ++ r ∷ ys
      → Sound n (record (notify r s) { pending = xs ++ ys })
  unfolding notify
  notify-Sound xs ys r e = elim (Bool-cases (ltb r s.nearest_run_time)) [
    | inl earlier ↦ rw earlier (record {
      bucket = v.bucket;
      covered = λ k lt. omega (
        arith,
        v.covered k lt,
        ap (low s.nearest_run_time) e,
        low-append s.nearest_run_time xs ys r,
        low-le r (xs ++ ys),
        low_mono r s.nearest_run_time (xs ++ ys) (ground arith),
      );
      bound = ground (arith, v.bound);
      waits = PcOk-notify s.pc s.nearest_run_time s.signalled s.tasks v.waits r;
    })
    | inr not_earlier ↦ rw not_earlier (record {
      bucket = v.bucket;
      covered = λ k lt.
          let above : s.nearest_run_time ≤ r = ground arith in
          omega (
            arith,
            v.covered k lt,
            ap (low s.nearest_run_time) e,
            low-append s.nearest_run_time xs ys r,
            low-le s.nearest_run_time (xs ++ ys),
          );
      bound = v.bound;
      waits = v.waits;
    })
  ]

  -- The thread moves on, and its tasks may change, while nothing shared does.
  move-Sound :
      (p : Pc) (ts : List Task)
      → emptied n p ≤ emptied n s.pc
      → PcOk s.nearest_run_time s.signalled ts p
      → Sound n (record s { tasks = ts; pc = p })
  move-Sound p ts h ok = record {
    bucket = v.bucket;
    covered = λ k lt. v.covered k (omega arith);
    bound = v.bound;
    waits = ok;
  }

  reset-Sound : Sound n (record s { nearest_run_time = max_time; pc = consuming 0 })
  reset-Sound = record {
    bucket = v.bucket;
    covered = λ k lt. absurd (omega arith);
    bound = omega arith;
    waits = tt;
  }

  consume-Sound :
      (i : ℕ) (live : Task → Bool)
      → s.pc ≡ consuming i
      → Sound n (record s {
        buckets = update s.buckets i (consume_tasks (s.buckets i)).1;
        tasks = keep live (consume_tasks (s.buckets i)).0 ++ s.tasks;
        pc = consuming (suc i);
      })
  consume-Sound i live e =
      let fresh = consume_tasks-earliest (s.buckets i) (v.bucket i) in
      record {
        bucket = λ k. ground (arith, v.bucket k, fresh);
        covered = λ k lt. ground (
          arith,
          fresh,
          low-le s.nearest_run_time s.pending,
          v.bound,
          λ (h : k < i). v.covered k (subst (λ p. k < emptied n p) (sym e) h),
        );
        bound = v.bound;
        waits = tt;
      }

  wait-Sound :
      s.pc ≡ deciding
      → earliest s.tasks ≤ s.nearest_run_time
      → Sound n (record s {
        nearest_run_time = earliest s.tasks;
        pc = waiting (earliest s.tasks);
        signalled = false;
      })
  wait-Sound e h = record {
    bucket = v.bucket;
    covered = λ k lt. omega (
      arith,
      low_mono (earliest s.tasks) s.nearest_run_time s.pending h,
      v.covered k (subst (λ p. k < emptied n p) (sym e) lt),
    );
    bound = omega (arith, v.bound);
    waits = (λ _. refl, omega arith);
  }

  stop-Sound : Sound n (record s { stop = true; nearest_run_time = 0; signalled = true })
  stop-Sound = record {
    bucket = v.bucket;
    covered = λ k lt.
        omega (arith, v.covered k lt, low_mono 0 s.nearest_run_time s.pending (omega arith));
    bound = omega arith;
    waits = PcOk-notify s.pc s.nearest_run_time s.signalled s.tasks v.waits 0;
  }

Step-Sound : {n : ℕ} {s t : System} → Step n s t → Sound n s → Sound n t
Step-Sound {n} {s} (schedule_link j t h) v = link-Sound n s v j t h
Step-Sound {n} {s} (schedule_notify xs ys r e) v = notify-Sound n s v xs ys r e
Step-Sound {n} {s} (reset e go) v = reset-Sound n s v
Step-Sound {n} {s} (consume i live e h) v = consume-Sound n s v i live e
Step-Sound {n} {s} (consumed e) v =
    move-Sound n s v executing s.tasks (ground (arith, ap (emptied n) e)) tt
Step-Sound {n} {s} (take_top xs ys t now deleted e top least due) v =
    subst (λ p. Sound n (record s { tasks = xs ++ ys; pc = p })) (sym e)
      (move-Sound n s v executing (xs ++ ys) (ground (arith, ap (emptied n) e)) tt)
Step-Sound {n} {s} (none_due now e due) v =
    move-Sound n s v deciding s.tasks (ground (arith, ap (emptied n) e)) tt
Step-Sound {n} {s} (look_again e h) v = move-Sound n s v resetting s.tasks (omega arith) tt
Step-Sound {n} {s} (wait e h) v = wait-Sound n s v e h
Step-Sound {n} {s} (wake t e) v = move-Sound n s v resetting s.tasks (omega arith) tt
Step-Sound {n} {s} stop_and_join v = stop-Sound n s v
Step-Sound {n} {s} (leave e go) v = move-Sound n s v stopped s.tasks (omega arith) tt

started-Sound : (n : ℕ) → Sound n started
unfolding new_bucket
started-Sound n = record {
  bucket = λ j. refl;
  covered = λ j lt. absurd (omega arith);
  bound = omega arith;
  waits = tt;
}

Reach-Sound : {n : ℕ} {t : System} → Reach n started t → Sound n t
Reach-Sound {n} here = started-Sound n
Reach-Sound (later r st) = Step-Sound st (Reach-Sound r)

-- Whenever the timer thread waits for a time, it has been signalled since it settled for that time,
-- or a call of `schedule` is still on its way to look, or no task in any bucket and none in its
-- heap is due before that time.
pub waiting-earliest :
    {n : ℕ} {s : System} (t : ℕ)
    → Reach n started s
    → s.pc ≡ waiting t
    → s.signalled ≡ false
    → s.pending ≡ []
    → (t ≤ earliest s.tasks) × ((j : ℕ) → j < n → t ≤ earliest (s.buckets j).tasks)
waiting-earliest {n} {s} t r e quiet done =
    let v = Reach-Sound r in
    let (same, heap) = subst (PcOk s.nearest_run_time s.signalled s.tasks) e v.waits in
    (
      heap,
      λ j lt. omega (
        arith,
        same quiet,
        v.bucket j,
        ap (low s.nearest_run_time) done,
        v.covered j (subst (λ p. j < emptied n p) (sym e) lt),
      ),
    )
