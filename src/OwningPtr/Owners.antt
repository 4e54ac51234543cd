-- ===== src/OwningPtr/Owners.antt =====
-- The owners of objects over a history of calls.
use codelab.Base.{
  ℕ, ◌≡◌, ◌≢◌, refl, Bool, true, false, ◌&&◌, not, List, [], ◌∷◌, Option, none, some, ◌==◌,
  if◌then◌else◌, arith, inl, inr, Bool-cases, ℕ_discrete, subst, sym,
}
use codelab.OwningPtr.{Store, update, delete, init_ptr, release, reset, take_over, assign, destroy}

pub data Call : Type 0 where
  creating : (i p : ℕ) → Call
  taking_over assigning : (i j : ℕ) → Call
  destroying releasing : (i : ℕ) → Call
  resetting : (i p : ℕ) → Call

-- `raw` says which objects the client owns: those that it got from `release`.
pub record Client : Type 0 where
  pub store : Store
  pub raw : ℕ → Bool

-- A call that the client does not make changes nothing: a variable is constructed where none holds an object, from a new object at a free address or
-- from a variable; and `reset` is given null or an object that the client owns.
pub serve : Call → Client → Option Client
serve (creating i p) c =
    if c.store.ptr i == 0 && not (p == 0) && not (c.store.live p)
    then some
        (record c { store = init_ptr i p (record c.store { live = update c.store.live p true }) })
    else some c
serve (taking_over i j) c =
    if c.store.ptr i == 0 then some (record c { store = take_over i j c.store }) else some c
serve (assigning i j) c = elim (assign i j c.store) [
  | none ↦ none
  | some s ↦ some (record c { store = s })
]
serve (destroying i) c = elim (destroy i c.store) [
  | none ↦ none
  | some s ↦ some (record c { store = s })
]
serve (releasing i) c = some (record {
  store = (release i c.store).1;
  raw = if (release i c.store).0 == 0 then c.raw else update c.raw (release i c.store).0 true;
})
serve (resetting i p) c =
    if p == 0
    then (elim (reset i 0 c.store) [ none ↦ none | some s ↦ some (record c { store = s }) ])
    else (if c.raw p
        then (elim (reset i p c.store) [
          | none ↦ none
          | some s ↦ some (record { store = s; raw = update c.raw p false })
        ])
        else some c)

pub run : List Call → Client → Option Client
run [] c = some c
run (call ∷ calls) c = elim (serve call c) [ none ↦ none | some c' ↦ run calls c' ]

abbrev pub fresh_client : Client
fresh_client = record { store = record { live = λ _. false; ptr = λ _. 0 }; raw = λ _. false }

-- What a variable or the client owns is live, and nothing has two owners.
pub record Owned (c : Client) : Type 0 where
  pub held :
      (i : ℕ)
      → c.store.ptr i ≢ 0
      → (c.store.live (c.store.ptr i) ≡ true) × (c.raw (c.store.ptr i) ≡ false)
  pub apart : (i j : ℕ) → i ≢ j → c.store.ptr i ≢ 0 → c.store.ptr i ≢ c.store.ptr j
  pub raw_live : (p : ℕ) → c.raw p ≡ true → (p ≢ 0) × (c.store.live p ≡ true)

abbrev pub Serves : Option Client → Type 0
Serves o = (d : Client) × (o ≡ some d) × Owned d

module _ (c : Client) (v : Owned c) where
  creating-Serves : (i p : ℕ) → Serves (serve (creating i p) c)
  unfolding serve init_ptr
  creating-Serves i p =
      elim (Bool-cases (c.store.ptr i == 0 && not (p == 0) && not (c.store.live p))) [
        | inr e ↦ (c, ground arith, v)
        | inl e ↦ (
          record c { store = init_ptr i p (record c.store { live = update c.store.live p true }) },
          ground arith,
          record {
            held = λ k n. ground (arith, v.held k, v.raw_live p);
            apart = λ k l ne n. ground (arith, v.apart k l ne, v.held k, v.held l);
            raw_live = λ q n. ground (arith, v.raw_live q);
          },
        )
      ]

  taking_over-Serves : (i j : ℕ) → Serves (serve (taking_over i j) c)
  unfolding serve take_over init_ptr release
  taking_over-Serves i j = elim (Bool-cases (c.store.ptr i == 0)) [
    | inr e ↦ (c, ground arith, v)
    | inl e ↦ (
      record c { store = take_over i j c.store },
      ground arith,
      record {
        held = λ k n. ground (arith, v.held k, v.held j);
        apart = λ k l ne n. ground (arith, v.apart k l ne, v.apart j l, v.apart k j);
        raw_live = λ q n. ground (arith, v.raw_live q);
      },
    )
  ]

  -- The store that an assignment leaves, unless both variables are null or the same.
  abbrev assigned : (i j : ℕ) → Store
  assigned i j = record {
    live = if c.store.ptr i == 0 then c.store.live else update c.store.live (c.store.ptr i) false;
    ptr = update (update c.store.ptr j 0) i (c.store.ptr j);
  }

  assigning_same : (i : ℕ) → Serves (serve (assigning i i) c)
  unfolding serve assign release reset delete
  assigning_same i = elim (Bool-cases (c.store.ptr i == 0)) [
    | inl e ↦ (
      record c { store = record c.store { ptr = update c.store.ptr i 0 } },
      ground arith,
      record {
        held = λ k n. ground (arith, v.held k);
        apart = λ k l ne n. ground (arith, v.apart k l ne);
        raw_live = v.raw_live;
      },
    )
    | inr e ↦ (
      record c {
        store = record c.store { ptr = update (update c.store.ptr i 0) i (c.store.ptr i) };
      },
      ground arith,
      record {
        held = λ k n. ground (arith, v.held k);
        apart = λ k l ne n. ground (arith, v.apart k l ne);
        raw_live = v.raw_live;
      },
    )
  ]

  assigning_other : (i j : ℕ) → i ≢ j → Serves (serve (assigning i j) c)
  unfolding serve assign release reset delete
  assigning_other i j differ = elim (Bool-cases (c.store.ptr j == c.store.ptr i)) [
    | inl e ↦ (
      record c { store = record c.store { ptr = update c.store.ptr j 0 } },
      ground arith,
      record {
        held = λ k n. ground (arith, v.held k);
        apart = λ k l ne n. ground (arith, v.apart k l ne);
        raw_live = v.raw_live;
      },
    )
    | inr e ↦ (
      record c { store = assigned i j },
      ground (arith, v.held i),
      record {
        held = λ k n. ground (arith, v.held k, v.held j, v.apart i k, v.apart k i, v.apart i j);
        apart = λ k l ne n. ground (arith, v.apart k l ne, v.apart j l, v.apart k j);
        raw_live = λ q n. ground (arith, v.raw_live q, v.held i);
      },
    )
  ]

  destroying-Serves : (i : ℕ) → Serves (serve (destroying i) c)
  unfolding serve destroy delete
  destroying-Serves i = (
    record c {
      store = record {
        live =
            if c.store.ptr i == 0 then c.store.live else update c.store.live (c.store.ptr i) false;
        ptr = update c.store.ptr i 0;
      };
    },
    ground (arith, v.held i),
    record {
      held = λ k n. ground (arith, v.held k, v.apart i k);
      apart = λ k l ne n. ground (arith, v.apart k l ne);
      raw_live = λ q n. ground (arith, v.raw_live q, v.held i);
    },
  )

  releasing-Serves : (i : ℕ) → Serves (serve (releasing i) c)
  unfolding serve release
  releasing-Serves i = (
    record {
      store = (release i c.store).1;
      raw = if c.store.ptr i == 0 then c.raw else update c.raw (c.store.ptr i) true;
    },
    ground arith,
    record {
      held = λ k n. ground (arith, v.held k, v.apart i k);
      apart = λ k l ne n. ground (arith, v.apart k l ne);
      raw_live = λ q n. ground (arith, v.raw_live q, v.held i);
    },
  )

  resetting_null : (i : ℕ) → Serves (serve (resetting i 0) c)
  unfolding serve reset delete
  resetting_null i = elim (Bool-cases (c.store.ptr i == 0)) [
    | inl e ↦ (c, ground arith, v)
    | inr e ↦ (
      record c {
        store = record {
          live = update c.store.live (c.store.ptr i) false;
          ptr = update c.store.ptr i 0;
        };
      },
      ground (arith, v.held i),
      record {
        held = λ k n. ground (arith, v.held k, v.apart i k);
        apart = λ k l ne n. ground (arith, v.apart k l ne);
        raw_live = λ q n. ground (arith, v.raw_live q, v.held i);
      },
    )
  ]

  resetting_raw : (i p : ℕ) → p ≢ 0 → Serves (serve (resetting i p) c)
  unfolding serve reset delete
  resetting_raw i p some_object = elim (Bool-cases (c.raw p)) [
    | inr e ↦ (c, ground arith, v)
    | inl e ↦ (
      record {
        store = record {
          live =
              if c.store.ptr i == 0
              then c.store.live
              else update c.store.live (c.store.ptr i) false;
          ptr = update c.store.ptr i p;
        };
        raw = update c.raw p false;
      },
      ground (arith, v.held i, v.raw_live p e),
      record {
        held = λ k n. ground (arith, v.held k, v.held i, v.apart i k, v.raw_live p e);
        apart = λ k l ne n. ground (arith, v.apart k l ne, v.held k, v.held l, v.raw_live p e);
        raw_live = λ q n. ground (arith, v.raw_live q, v.held i);
      },
    )
  ]

  serve-Serves : (call : Call) → Serves (serve call c)
  serve-Serves (creating i p) = creating-Serves i p
  serve-Serves (taking_over i j) = taking_over-Serves i j
  serve-Serves (assigning i j) = elim (ℕ_discrete i j) [
    | yes same ↦ subst (λ k. Serves (serve (assigning i k) c)) same (assigning_same i)
    | no differ ↦ assigning_other i j differ
  ]
  serve-Serves (destroying i) = destroying-Serves i
  serve-Serves (releasing i) = releasing-Serves i
  serve-Serves (resetting i p) = elim (ℕ_discrete p 0) [
    | yes null ↦ subst (λ q. Serves (serve (resetting i q) c)) (sym null) (resetting_null i)
    | no some_object ↦ resetting_raw i p some_object
  ]

run-Serves : (calls : List Call) (c : Client) → Owned c → Serves (run calls c)
unfolding run
run-Serves [] c v = (c, refl, v)
run-Serves (call ∷ calls) c v =
    let (d, q, w) = serve-Serves c v call in
    let (e, q', w') = run-Serves calls d w in (e, ground arith, w')

-- Any history of calls on no variables runs through, with no object deleted twice, if a variable is
-- constructed where none holds an object, from a new object or from another variable, and `reset`
-- is given null or an object that the client owns; and then what a variable or the client owns was
-- not deleted, no object has two owners, and null is no object that the client owns.
pub run-fresh_client : (calls : List Call) → Serves (run calls fresh_client)
run-fresh_client calls = run-Serves calls fresh_client (record {
  held = λ i n. absurd (n refl);
  apart = λ i j ne n. absurd (n refl);
  raw_live = λ p e. absurd (ground arith);
})
