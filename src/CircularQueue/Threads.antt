-- ===== src/CircularQueue/Threads.antt =====
-- One producer and one consumer on a ring, their accesses to it interleaved in any order. Each
-- thread reads its own index and then the other's; the read of its own, which only it writes, is
-- one step with the read of the other's. The acquire and release orders are those of the steps.
use codelab.Base.{
  ℕ, ◌+◌, ◌≤◌, ◌<◌, ◌≡◌, ◌≢◌, refl, sym, ◌∙◌, ap, List, [], ◌∷◌, ◌++◌, some, arith, length,
  length-append, length-set, get_elem?, set, subst,
}
use mathlib.Core.List.{append_assoc}
use codelab.CircularQueue.{CircularQueue, next_tail, next_head}
use codelab.CircularQueue.Refine.{
  Represents, meets_head, head_tail, write_keeps, publish_room, pop_room, front_cell,
}

-- Where a call of `Push` stands, with its local variables: before it, about to write the cell,
-- about to store the tail.
pub data Producer (A : Type 0) : Type 0 where
  idle : Producer A
  checked : (item : A) (curr_tail next : ℕ) → Producer A
  wrote : (item : A) (next : ℕ) → Producer A

-- Likewise `Pop`: about to read the cell, about to store the head.
pub data Consumer (A : Type 0) : Type 0 where
  idle : Consumer A
  checked : (curr_head : ℕ) → Consumer A
  took : (item : A) (curr_head : ℕ) → Consumer A

-- `pushed` and `popped` are the items of the calls that returned true, in order.
pub record System (A : Type 0) : Type 0 where
  pub ring : CircularQueue A
  pub producer : Producer A
  pub consumer : Consumer A
  pub pushed : List A
  pub popped : List A

pub data Step {A : Type 0} (s : System A) : System A → Type 0 where
  push_full : s.producer ≡ Producer.idle → next_tail s.ring s.ring.tail ≡ s.ring.head → Step s s
  push_check :
      (x : A)
      → s.producer ≡ Producer.idle
      → next_tail s.ring s.ring.tail ≢ s.ring.head
      → Step s
          (record s { producer = Producer.checked x s.ring.tail (next_tail s.ring s.ring.tail) })
  push_write :
      (x : A) (t n : ℕ)
      → s.producer ≡ Producer.checked x t n
      → Step s (record s {
        ring = record s.ring { queue = set s.ring.queue t x };
        producer = Producer.wrote x n;
      })
  push_publish :
      (x : A) (n : ℕ)
      → s.producer ≡ Producer.wrote x n
      → Step s (record s {
        ring = record s.ring { tail = n };
        producer = Producer.idle;
        pushed = s.pushed ++ x ∷ [];
      })
  pop_empty : s.consumer ≡ Consumer.idle → s.ring.head ≡ s.ring.tail → Step s s
  pop_check :
      s.consumer ≡ Consumer.idle
      → s.ring.head ≢ s.ring.tail
      → Step s (record s { consumer = Consumer.checked s.ring.head })
  pop_read :
      (h : ℕ) (x : A)
      → s.consumer ≡ Consumer.checked h
      → get_elem? s.ring.queue h ≡ some x
      → Step s (record s { consumer = Consumer.took x h })
  pop_advance :
      (x : A) (h : ℕ)
      → s.consumer ≡ Consumer.took x h
      → Step s (record s {
        ring = record s.ring { head = next_head s.ring h };
        consumer = Consumer.idle;
        popped = s.popped ++ x ∷ [];
      })

pub data Reach {A : Type 0} (s : System A) : System A → Type 0 where
  here : Reach s s
  next : {t u : System A} → Reach s t → Step t u → Reach s u

-- What the threads' local variables say of the ring, which holds `xs`.
abbrev pub ProducerOk : {A : Type 0} → CircularQueue A → List A → Producer A → Type 0
ProducerOk q xs Producer.idle = Unit {0}
ProducerOk q xs (Producer.checked x t n) =
    (t ≡ q.tail) × (n ≡ next_tail q q.tail) × (length xs + 1 < length q.queue)
ProducerOk q xs (Producer.wrote x n) =
    (n ≡ next_tail q q.tail)
    × (length xs + 1 < length q.queue)
    × (get_elem? q.queue q.tail ≡ some x)

abbrev pub ConsumerOk : {A : Type 0} → (head : ℕ) → List A → Consumer A → Type 0
ConsumerOk head xs Consumer.idle = Unit {0}
ConsumerOk head xs (Consumer.checked h) = (h ≡ head) × (0 < length xs)
ConsumerOk head xs (Consumer.took x h) = (h ≡ head) × (get_elem? xs 0 ≡ some x)

pub record Sound {A : Type 0} (s : System A) : Type 0 where
  pub items : List A
  pub holds : Represents s.ring items
  pub fifo : s.pushed ≡ s.popped ++ items
  pub producing : ProducerOk s.ring items s.producer
  pub consuming : ConsumerOk s.ring.head items s.consumer

-- The other thread's steps keep what a thread knows: the producer's never take the front item, and
-- the consumer's never make the queue longer.
consumer_keeps :
    {A : Type 0} (head : ℕ) (xs ys : List A) (c : Consumer A)
    → ((x : A) → get_elem? xs 0 ≡ some x → get_elem? ys 0 ≡ some x)
    → length xs ≤ length ys
    → ConsumerOk head xs c
    → ConsumerOk head ys c
consumer_keeps head xs ys Consumer.idle front longer ok = tt
consumer_keeps head xs ys (Consumer.checked h) front longer ok = (ok.0, omega (arith, ok.1))
consumer_keeps head xs ys (Consumer.took x h) front longer ok = (ok.0, front x ok.1)

producer_keeps :
    {A : Type 0} (q : CircularQueue A) (h : ℕ) (xs ys : List A) (p : Producer A)
    → length ys ≤ length xs
    → ProducerOk q xs p
    → ProducerOk (record q { head = h }) ys p
unfolding next_tail
producer_keeps q h xs ys Producer.idle shorter ok = tt
producer_keeps q h xs ys (Producer.checked x t n) shorter ok = (ok.0, ok.1, omega (arith, ok.2))
producer_keeps q h xs ys (Producer.wrote x n) shorter ok = (ok.0, omega (arith, ok.1), ok.2)

some_eq : {A : Type 0} {x y : A} → some x ≡ some y → x ≡ y
some_eq e = cc

front_append :
    {A : Type 0} (xs ys : List A) (x : A)
    → get_elem? xs 0 ≡ some x
    → get_elem? (xs ++ ys) 0 ≡ some x
front_append [] ys x e = cc
front_append (z ∷ xs) ys x e = e

module _ {A : Type 0} (s : System A) (v : Sound s) where
  check_push-Sound :
      (x : A)
      → next_tail s.ring s.ring.tail ≢ s.ring.head
      → Sound
          (record s { producer = Producer.checked x s.ring.tail (next_tail s.ring s.ring.tail) })
  check_push-Sound x apart = record {
    items = v.items;
    holds = v.holds;
    fifo = v.fifo;
    producing =
        (refl, refl, ground (arith, meets_head s.ring v.items v.holds, v.holds.room, v.holds.size));
    consuming = v.consuming;
  }

  write-Sound :
      (x : A) (t n : ℕ)
      → s.producer ≡ Producer.checked x t n
      → Sound (record s {
        ring = record s.ring { queue = set s.ring.queue t x };
        producer = Producer.wrote x n;
      })
  unfolding next_tail
  write-Sound x t n e =
      let (at_tail, behind, room) = subst (ProducerOk s.ring v.items) e v.producing in
      let (kept, written) = write_keeps s.ring v.items x v.holds in
      subst
        (λ i. Sound (record s {
          ring = record s.ring { queue = set s.ring.queue i x };
          producer = Producer.wrote x n;
        }))
        (sym at_tail)
        (record {
          items = v.items;
          holds = kept;
          fifo = v.fifo;
          producing = (behind, omega (arith, length-set s.ring.queue s.ring.tail x), written);
          consuming = v.consuming;
        })

  publish-Sound :
      (x : A) (n : ℕ)
      → s.producer ≡ Producer.wrote x n
      → Sound (record s {
        ring = record s.ring { tail = n };
        producer = Producer.idle;
        pushed = s.pushed ++ x ∷ [];
      })
  publish-Sound x n e =
      let (behind, room, written) = subst (ProducerOk s.ring v.items) e v.producing in
      record {
        items = v.items ++ x ∷ [];
        holds =
            subst (λ i. Represents (record s.ring { tail = i }) (v.items ++ x ∷ [])) (sym behind)
              (publish_room s.ring v.items x v.holds written (omega (arith, room, v.holds.size)));
        fifo = ap (λ l. l ++ x ∷ []) v.fifo ∙ append_assoc s.popped v.items (x ∷ []);
        producing = tt;
        consuming =
            consumer_keeps s.ring.head v.items (v.items ++ x ∷ []) s.consumer
              (λ y. front_append v.items (x ∷ []) y) (omega (arith, length-append v.items (x ∷ [])))
              v.consuming;
      }

  check_pop-Sound :
      s.ring.head ≢ s.ring.tail → Sound (record s { consumer = Consumer.checked s.ring.head })
  check_pop-Sound apart = record {
    items = v.items;
    holds = v.holds;
    fifo = v.fifo;
    producing = v.producing;
    consuming = (refl, ground (arith, head_tail s.ring v.items v.holds));
  }

  read-Sound :
      (h : ℕ) (x : A)
      → s.consumer ≡ Consumer.checked h
      → get_elem? s.ring.queue h ≡ some x
      → Sound (record s { consumer = Consumer.took x h })
  read-Sound h x e cell =
      let (at_head, some_item) = subst (ConsumerOk s.ring.head v.items) e v.consuming in
      record {
        items = v.items;
        holds = v.holds;
        fifo = v.fifo;
        producing = v.producing;
        consuming = (
          at_head,
          front_is v.items v.holds some_item (ap (get_elem? s.ring.queue) (sym at_head) ∙ cell),
        );
      }
    where
      front_is :
          (xs : List A)
          → Represents s.ring xs
          → 0 < length xs
          → get_elem? s.ring.queue s.ring.head ≡ some x
          → get_elem? xs 0 ≡ some x
      front_is [] r pos at = absurd (omega arith)
      front_is (y ∷ xs) r pos at = sym (front_cell s.ring y xs r) ∙ at

  advance_from :
      (x : A) (h : ℕ) (xs : List A)
      → Represents s.ring xs
      → s.pushed ≡ s.popped ++ xs
      → ProducerOk s.ring xs s.producer
      → h ≡ s.ring.head
      → get_elem? xs 0 ≡ some x
      → Sound (record s {
        ring = record s.ring { head = next_head s.ring h };
        consumer = Consumer.idle;
        popped = s.popped ++ x ∷ [];
      })
  advance_from x h [] r f p at front = cc
  advance_from x h (y ∷ xs) r f p at front = record {
    items = xs;
    holds =
        subst (λ i. Represents (record s.ring { head = next_head s.ring i }) xs) (sym at)
          (pop_room s.ring y xs r);
    fifo =
        f
        ∙ sym (append_assoc s.popped (y ∷ []) xs)
        ∙ ap (λ z. (s.popped ++ z ∷ []) ++ xs) (some_eq front);
    producing = producer_keeps s.ring (next_head s.ring h) (y ∷ xs) xs s.producer (omega arith) p;
    consuming = tt;
  }

  advance-Sound :
      (x : A) (h : ℕ)
      → s.consumer ≡ Consumer.took x h
      → Sound (record s {
        ring = record s.ring { head = next_head s.ring h };
        consumer = Consumer.idle;
        popped = s.popped ++ x ∷ [];
      })
  advance-Sound x h e =
      let (at, front) = subst (ConsumerOk s.ring.head v.items) e v.consuming in
      advance_from x h v.items v.holds v.fifo v.producing at front

Step-Sound : {A : Type 0} {s t : System A} → Step s t → Sound s → Sound t
Step-Sound (push_full i e) v = v
Step-Sound {s} (push_check x i e) v = check_push-Sound s v x e
Step-Sound {s} (push_write x t n e) v = write-Sound s v x t n e
Step-Sound {s} (push_publish x n e) v = publish-Sound s v x n e
Step-Sound (pop_empty i e) v = v
Step-Sound {s} (pop_check i e) v = check_pop-Sound s v e
Step-Sound {s} (pop_read h x e c) v = read-Sound s v h x e c
Step-Sound {s} (pop_advance x h e) v = advance-Sound s v x h e

Reach-Sound : {A : Type 0} {s t : System A} → Sound s → Reach s t → Sound t
Reach-Sound v here = v
Reach-Sound v (next r st) = Step-Sound st (Reach-Sound v r)

-- However the accesses of one producer and one consumer interleave, the items popped so far,
-- followed by those that the ring holds, are the items pushed so far, in order: none is lost,
-- doubled, reordered or made up.
pub Reach-fifo :
    {A : Type 0} {s t : System A}
    → Sound s
    → Reach s t
    → (xs : List A) × Represents t.ring xs × (t.pushed ≡ t.popped ++ xs)
Reach-fifo v r = let w = Reach-Sound v r in (w.items, w.holds, w.fifo)

-- A consumer that has passed its test is never stuck: the cell that it reads is in bounds, and holds
-- the item that was pushed first of those not yet popped.
pub Reach-read :
    {A : Type 0} {s t : System A} (h : ℕ)
    → Sound s
    → Reach s t
    → t.consumer ≡ Consumer.checked h
    → (x : A) × (xs : List A) × (get_elem? t.ring.queue h ≡ some x)
      × (t.pushed ≡ t.popped ++ x ∷ xs)
Reach-read {A} {t} h v r e =
    let w = Reach-Sound v r in
    let (at, pos) = subst (ConsumerOk t.ring.head w.items) e w.consuming in
    front w.items w.holds w.fifo pos at
  where
    front :
        (xs : List A)
        → Represents t.ring xs
        → t.pushed ≡ t.popped ++ xs
        → 0 < length xs
        → h ≡ t.ring.head
        → (x : A) × (ys : List A) × (get_elem? t.ring.queue h ≡ some x)
          × (t.pushed ≡ t.popped ++ x ∷ ys)
    front [] holds f pos at = absurd (omega arith)
    front (y ∷ ys) holds f pos at =
        (y, ys, ap (get_elem? t.ring.queue) at ∙ front_cell t.ring y ys holds, f)
