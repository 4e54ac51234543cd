-- ===== src/CircularQueue/Refine.antt =====
-- A ring against the list of the items that it holds.
use native.Mathlib.Nat.{mod-lt}
use codelab.Base.{
  ℕ, suc, ◌+◌, ◌-◌, ◌%◌, ◌^◌, ◌≤◌, ◌<◌, ◌≡◌, ◌≢◌, refl, sym, ◌∙◌, ap, true, false, List, [], ◌∷◌,
  ◌++◌, none, some, arith, dec_lt, ℕ_discrete, length, length-append, length-set, get_elem?, set,
  get_elem?-set_self, get_elem?-set_ne, ltb, ◌==◌, if◌then◌else◌,
}
use codelab.Base.Bits.{bit_and_ones, bit_and_comm, pow-pos}
use codelab.CircularQueue.{CircularQueue, push, pop, may_empty, may_full, next_tail, next_head}
use codelab.CircularQueue.Rotation.{
  mod_ne, mod_round, mod_suc, get_elem?-append_left, get_elem?-append_end,
}

module _ {ℓ} {A : Type ℓ} where
  -- The ring `q` of `2 ^ bits` cells holds `xs`, oldest first, from the index `start` on.
  pub record Represents (q : CircularQueue A) (xs : List A) : Type ℓ where
    pub bits : ℕ
    pub start : ℕ
    pub small : 2 ^ bits ≤ 2 ^ 30
    pub mask : q.capacity_mask ≡ 2 ^ bits - 1
    pub size : length q.queue ≡ 2 ^ bits
    pub head : q.head ≡ start % 2 ^ bits
    pub tail : q.tail ≡ (start + length xs) % 2 ^ bits
    pub room : length xs < 2 ^ bits
    pub cells :
        (i : ℕ) → i < length xs → get_elem? q.queue ((start + i) % 2 ^ bits) ≡ get_elem? xs i

  -- Incrementing an index and masking it takes it one step round the ring.
  next_tail_lem :
      (q : CircularQueue A) (xs : List A) (r : Represents q xs) (a : ℕ)
      → next_tail q (a % 2 ^ r.bits) ≡ (a + 1) % 2 ^ r.bits
  unfolding next_tail
  next_tail_lem q xs r a =
      let c = 2 ^ r.bits in
      let in_range : a % c < c = mod-lt a (pow-pos r.bits) in
      let no_wrap : (a % c + 1) % 2 ^ 32 ≡ a % c + 1 = omega (arith, in_range, r.small) in
      rw (no_wrap, r.mask, bit_and_comm, bit_and_ones r.bits) (mod_suc a c)

  next_head_lem :
      (q : CircularQueue A) (xs : List A) (r : Represents q xs) (a : ℕ)
      → next_head q (a % 2 ^ r.bits) ≡ (a + 1) % 2 ^ r.bits
  unfolding next_head
  next_head_lem q xs r a = bit_and_comm _ _ ∙ unfold next_tail in next_tail_lem q xs r a

  -- The index behind the tail meets the head exactly when one cell alone is free.
  pub meets_head :
      (q : CircularQueue A) (xs : List A) (r : Represents q xs)
      → (next_tail q q.tail == q.head) ≡ (length xs + 1 == 2 ^ r.bits)
  meets_head q xs r =
      let c = 2 ^ r.bits in
      let next : next_tail q q.tail ≡ (r.start + length xs + 1) % c =
        ap (next_tail q) r.tail ∙ next_tail_lem q xs r (r.start + length xs) in
      elim (ℕ_discrete (length xs + 1) c) [
        | yes full ↦
            let round : (r.start + length xs + 1) % c ≡ r.start % c =
              ap (λ t. t % c) (let e : r.start + length xs + 1 ≡ r.start + c = omega arith in e)
              ∙ mod_round r.start c (pow-pos r.bits) in
            ground (arith, next, round, r.head)
        | no room ↦
            let apart : (r.start + (length xs + 1)) % c ≢ r.start % c =
              mod_ne r.start (length xs + 1) c (omega arith) (omega (arith, r.room)) in
            let same : (r.start + length xs + 1) % c ≡ (r.start + (length xs + 1)) % c =
              ap (λ t. t % c) (omega arith) in
            ground (arith, next, same, apart, r.head)
      ]

  tail_in_range : (q : CircularQueue A) (xs : List A) → Represents q xs → q.tail < length q.queue
  tail_in_range q xs r =
      omega (arith, r.tail, r.size, mod-lt (r.start + length xs) (pow-pos r.bits))

  -- The cell that `Push` writes is none of those that hold items.
  pub write_keeps :
      (q : CircularQueue A) (xs : List A) (x : A)
      → Represents q xs
      → Represents (record q { queue = set q.queue q.tail x }) xs
        × (get_elem? (set q.queue q.tail x) q.tail ≡ some x)
  write_keeps q xs x r = (
    record {
      bits = r.bits;
      start = r.start;
      small = r.small;
      mask = r.mask;
      size = length-set q.queue q.tail x ∙ r.size;
      head = r.head;
      tail = r.tail;
      room = r.room;
      cells = λ i h.
          let apart : (r.start + i + (length xs - i)) % 2 ^ r.bits ≢ (r.start + i) % 2 ^ r.bits =
            mod_ne (r.start + i) (length xs - i) (2 ^ r.bits) (omega arith)
              (omega (arith, r.room)) in
          let same : (r.start + i + (length xs - i)) % 2 ^ r.bits
              ≡ (r.start + length xs) % 2 ^ r.bits =
            ap (λ t. t % 2 ^ r.bits) (omega arith) in
          get_elem?-set_ne q.queue x (λ e. apart (same ∙ sym r.tail ∙ e)) ∙ r.cells i h;
    },
    get_elem?-set_self q.queue q.tail x (tail_in_range q xs r),
  )

  -- Moving the tail on adds the item that its cell holds.
  pub publish_room :
      (q : CircularQueue A) (xs : List A) (x : A) (r : Represents q xs)
      → get_elem? q.queue q.tail ≡ some x
      → length xs + 1 < 2 ^ r.bits
      → Represents (record q { tail = next_tail q q.tail }) (xs ++ x ∷ [])
  publish_room q xs x r written room = record {
    bits = r.bits;
    start = r.start;
    small = r.small;
    mask = r.mask;
    size = r.size;
    head = r.head;
    tail =
        ap (next_tail q) r.tail
        ∙ next_tail_lem q xs r (r.start + length xs)
        ∙ ap (λ t. t % 2 ^ r.bits) (omega (arith, length-append xs (x ∷ [])));
    room = omega (arith, length-append xs (x ∷ []));
    cells = λ i h. elim (ℕ_discrete i (length xs)) [
      | yes last ↦
          ap (get_elem? q.queue) (ap (λ t. (r.start + t) % 2 ^ r.bits) last ∙ sym r.tail)
          ∙ written
          ∙ sym (get_elem?-append_end xs x i last)
      | no before ↦
          let below : i < length xs = omega (arith, length-append xs (x ∷ [])) in
          r.cells i below ∙ sym (get_elem?-append_left xs (x ∷ []) i below)
    ];
  }

  push_room :
      (q : CircularQueue A) (xs : List A) (x : A) (r : Represents q xs)
      → length xs + 1 < 2 ^ r.bits
      → Represents
          (record q { queue = set q.queue q.tail x; tail = next_tail q q.tail })
          (xs ++ x ∷ [])
  unfolding next_tail
  push_room q xs x r room =
      let (kept, written) = write_keeps q xs x r in
      publish_room (record q { queue = set q.queue q.tail x }) xs x kept written
        (omega (arith, r.size, kept.size, length-set q.queue q.tail x))

  -- `Push` fails exactly when one cell alone is free, and then changes nothing; else it adds the
  -- item at the end.
  pub push_refines :
      (q : CircularQueue A) (xs : List A) (x : A)
      → Represents q xs
      → ((push x q).0 ≡ ltb (length xs + 1) (length q.queue))
        × Represents (push x q).1 (if (push x q).0 then xs ++ x ∷ [] else xs)
  unfolding push
  push_refines q xs x r = elim (dec_lt (length xs + 1) (2 ^ r.bits)) [
    | yes room ↦
        let open_cell : (next_tail q q.tail == q.head) ≡ false =
          ground (arith, meets_head q xs r) in
        rw open_cell (ground (arith, r.size), push_room q xs x r room)
    | no full ↦
        let met : (next_tail q q.tail == q.head) ≡ true =
          ground (arith, meets_head q xs r, r.room) in
        rw met (ground (arith, r.size), r)
  ]

  -- What `Pop` does to a queue that holds `xs`.
  abbrev pub Pops : CircularQueue A → List A → Type ℓ
  Pops q [] = pop q ≡ (false, none, q)
  Pops q (x ∷ xs) = (q' : CircularQueue A) × (pop q ≡ (true, some x, q')) × Represents q' xs

  pub head_tail :
      (q : CircularQueue A) (xs : List A) (r : Represents q xs)
      → (q.head == q.tail) ≡ (length xs == 0)
  head_tail q [] r =
      let same : r.start % 2 ^ r.bits ≡ (r.start + 0) % 2 ^ r.bits =
        ap (λ t. t % 2 ^ r.bits) (omega arith) in
      ground (arith, r.head, r.tail, same)
  head_tail q (x ∷ xs) r =
      ground
        (arith, r.head, r.tail, mod_ne r.start (length (x ∷ xs)) (2 ^ r.bits) (omega arith) r.room)

  pub front_cell :
      (q : CircularQueue A) (x : A) (xs : List A)
      → Represents q (x ∷ xs)
      → get_elem? q.queue q.head ≡ some x
  front_cell q x xs r =
      ap (get_elem? q.queue) (r.head ∙ ap (λ t. t % 2 ^ r.bits) (omega arith))
      ∙ r.cells 0 (omega arith)

  pub pop_room :
      (q : CircularQueue A) (x : A) (xs : List A)
      → Represents q (x ∷ xs)
      → Represents (record q { head = next_head q q.head }) xs
  pop_room q x xs r = record {
    bits = r.bits;
    start = r.start + 1;
    small = r.small;
    mask = r.mask;
    size = r.size;
    head = ap (next_head q) r.head ∙ next_head_lem q (x ∷ xs) r r.start;
    tail = r.tail ∙ ap (λ t. t % 2 ^ r.bits) (omega arith);
    room = omega (arith, r.room);
    cells = λ i h.
        ap (λ t. get_elem? q.queue (t % 2 ^ r.bits)) (omega arith) ∙ r.cells (suc i) (omega arith);
  }

  -- `Pop` fails exactly on the empty queue, and then changes nothing; else it takes the oldest item.
  pub pop_refines : (q : CircularQueue A) (xs : List A) → Represents q xs → Pops q xs
  unfolding pop
  pop_refines q [] r = rw (head_tail q [] r) refl
  pop_refines q (x ∷ xs) r = (
    record q { head = next_head q q.head },
    ground (arith, head_tail q (x ∷ xs) r, front_cell q x xs r),
    pop_room q x xs r,
  )

  sides_agree : (q : CircularQueue A) (i : ℕ) → next_head q i ≡ next_tail q i
  unfolding next_head next_tail
  sides_agree q i = bit_and_comm _ _

  -- With no call in progress `MayEmpty` and `MayFull` are exact: the queue is empty, or one cell
  -- alone is free.
  pub may_full_iff :
      (q : CircularQueue A) (xs : List A)
      → Represents q xs
      → (may_empty q ≡ (length xs == 0)) × (may_full q ≡ (length xs + 1 == length q.queue))
  unfolding may_empty may_full
  may_full_iff q xs r = (
    head_tail q xs r,
    ap (λ t. t == q.head) (sides_agree q q.tail)
        ∙ meets_head q xs r
        ∙ ap (λ t. length xs + 1 == t) (sym r.size),
  )
