-- ===== src/LruCache/Sound.antt =====
-- When the lists, the index and the counts of a cache agree, `held` being the references that
-- clients have to each handle; and `Ref` and `Unref` on such a cache.
use codelab.Base.{
  ℕ, suc, ◌+◌, ◌-◌, ◌≤◌, ◌<◌, ◌≡◌, refl, Bool, true, false, ◌&&◌, List, [], ◌∷◌, ◌++◌, Option, none,
  some, ◌==◌, if◌then◌else◌, arith, length, length-append, Option-cases, ◌⊎◌, inl, inr, ℕ_discrete,
  Bool-cases,
}
use codelab.Base.Bag.{one, occ, remove, occ-remove, length-remove, occ-append}
use codelab.LruCache.{
  LruHandle, LruCache, update, put, link_remove, append_lru, int_max, add_ref, pred_word, unref,
}

-- A handle in the index is on the first list while no client holds it and else on the second; one
-- that was taken off the index is on none, and lives while a client holds it. The numbers say how
-- often the handle is on each list, how often it is among the loose ones, and the references.
abbrev pub PlaceOk : Bool → (a b f k ref : ℕ) → Type 0
PlaceOk true a b f k ref =
    (ref ≡ suc k) × (a ≡ (if k == 0 then 1 else 0)) × (b ≡ (if k == 0 then 0 else 1)) × (f ≡ 0)
PlaceOk false a b f k ref = (ref ≡ k) × (0 < k) × (a ≡ 0) × (b ≡ 0) × (f ≡ 1)

abbrev pub HandleOk : (a b f k : ℕ) → Option LruHandle → Type 0
HandleOk a b f k none = (a ≡ 0) × (b ≡ 0) × (f ≡ 0) × (k ≡ 0)
HandleOk a b f k (some h) = PlaceOk h.valid a b f k h.ref

-- Whether the index has the handle at `p`.
abbrev pub listed : ℕ → Option ℕ → ℕ
listed p none = 0
listed p (some q) = one p q

-- A key finds the handle when it is the key of the handle, and that was not taken off.
abbrev pub expected : ℕ → Option LruHandle → ℕ
expected key none = 0
expected key (some h) = if h.valid && key == h.key then 1 else 0

pub record Sound (c : LruCache) (loose : List ℕ) (held : ℕ → ℕ) : Type 0 where
  pub places : (p : ℕ) → HandleOk (occ p c.lru) (occ p c.in_use) (occ p loose) (held p) (c.heap p)
  pub keys : (p key : ℕ) → listed p (c.index key) ≡ expected key (c.heap p)
  pub count : c.usage ≡ length c.lru + length c.in_use + length loose
  pub bound : c.usage ≤ c.capacity

abbrev pub bump : (ℕ → ℕ) → ℕ → ℕ → ℕ
bump held e p = if e == p then suc (held p) else held p

abbrev pub drop_one : (ℕ → ℕ) → ℕ → ℕ → ℕ
drop_one held e p = if e == p then held p - 1 else held p

module _ (c : LruCache) (loose : List ℕ) (held : ℕ → ℕ) (v : Sound c loose held) where
  keys-put :
      (e p key : ℕ) (h k : LruHandle)
      → c.heap e ≡ some h
      → k.key ≡ h.key
      → k.valid ≡ h.valid
      → listed p (c.index key) ≡ expected key (update c.heap e (some k) p)
  keys-put e p key h k f same kept = ground (arith, v.keys p key)

  -- The first reference moves the handle to the second list.
  add_ref_first :
      (e : ℕ) (h : LruHandle)
      → c.heap e ≡ some h
      → h.valid ≡ true
      → held e ≡ 0
      → (d : LruCache) × (add_ref e c ≡ some d) × Sound d loose (bump held e)
  unfolding add_ref link_remove
  add_ref_first e h f valid first = (
    put e (some (record h { ref = suc h.ref }))
        (record c { lru = remove e c.lru; in_use = c.in_use ++ e ∷ [] }),
    ground (arith, v.places e),
    record {
      places = λ p. ground (
        arith,
        v.places e,
        v.places p,
        occ-remove p e c.lru (ground (arith, v.places e)),
        occ-append p c.in_use (e ∷ []),
      );
      keys = λ p key. keys-put e p key h (record h { ref = suc h.ref }) f refl refl;
      count = ground (
        arith,
        v.count,
        v.places e,
        length-remove e c.lru (ground (arith, v.places e)),
        length-append c.in_use (e ∷ []),
      );
      bound = v.bound;
    },
  )

  -- Any further reference only counts.
  add_ref_again :
      (e : ℕ) (h : LruHandle)
      → c.heap e ≡ some h
      → 0 < held e
      → suc (held e) < int_max
      → (d : LruCache) × (add_ref e c ≡ some d) × Sound d loose (bump held e)
  unfolding add_ref
  add_ref_again e h f again few = (
    put e (some (record h { ref = suc h.ref })) c,
    ground (arith, v.places e),
    record {
      places = λ p. ground (arith, v.places e, v.places p);
      keys = λ p key. keys-put e p key h (record h { ref = suc h.ref }) f refl refl;
      count = v.count;
      bound = v.bound;
    },
  )

  pub add_ref-Sound :
      (e : ℕ) (h : LruHandle)
      → c.heap e ≡ some h
      → (h.valid ≡ true) ⊎ (0 < held e)
      → suc (held e) < int_max
      → (d : LruCache) × (add_ref e c ≡ some d) × Sound d loose (bump held e)
  add_ref-Sound e h f (inl valid) few = elim (ℕ_discrete (held e) 0) [
    | yes first ↦ add_ref_first e h f valid first
    | no again ↦ add_ref_again e h f (omega arith) few
  ]
  add_ref-Sound e h f (inr again) few = add_ref_again e h f again few

  -- The last client of a handle in the index moves it back to the first list, at its end.
  unref_idle :
      (e : ℕ) (h : LruHandle)
      → c.heap e ≡ some h
      → h.valid ≡ true
      → held e ≡ 1
      → (d : LruCache) × (unref e c ≡ some d) × Sound d loose (drop_one held e)
  unfolding unref link_remove
  unref_idle e h f valid last = (
    append_lru e
        (put e (some (record h { ref = h.ref - 1 })) (record c { in_use = remove e c.in_use })),
    ground (arith, v.places e),
    record {
      places = λ p. ground (
        arith,
        v.places e,
        v.places p,
        occ-remove p e c.in_use (ground (arith, v.places e)),
        occ-append p c.lru (e ∷ []),
      );
      keys = λ p key. keys-put e p key h (record h { ref = h.ref - 1 }) f refl refl;
      count = ground (
        arith,
        v.count,
        v.places e,
        length-remove e c.in_use (ground (arith, v.places e)),
        length-append c.lru (e ∷ []),
      );
      bound = v.bound;
    },
  )

  unref_kept :
      (e : ℕ) (h : LruHandle)
      → c.heap e ≡ some h
      → 1 < held e
      → (d : LruCache) × (unref e c ≡ some d) × Sound d loose (drop_one held e)
  unfolding unref
  unref_kept e h f more = (
    put e (some (record h { ref = h.ref - 1 })) c,
    ground (arith, v.places e),
    record {
      places = λ p. ground (arith, v.places e, v.places p);
      keys = λ p key. keys-put e p key h (record h { ref = h.ref - 1 }) f refl refl;
      count = v.count;
      bound = v.bound;
    },
  )

  -- The last client of a handle that was taken off the index frees it.
  unref_freed :
      (e : ℕ) (h : LruHandle)
      → c.heap e ≡ some h
      → h.valid ≡ false
      → held e ≡ 1
      → (d : LruCache) × (unref e c ≡ some d) × Sound d (remove e loose) (drop_one held e)
  unfolding unref
  unref_freed e h f invalid last = (
    put e none (record c { usage = pred_word c.usage }),
    ground (arith, v.places e),
    record {
      places = λ p.
          ground (arith, v.places e, v.places p, occ-remove p e loose (ground (arith, v.places e)));
      keys = λ p key. ground (arith, v.keys e key, v.keys p key);
      count =
          ground (arith, v.count, v.places e, length-remove e loose (ground (arith, v.places e)));
      bound =
          ground (
            arith,
            v.bound,
            v.count,
            v.places e,
            length-remove e loose (ground (arith, v.places e)),
          );
    },
  )

  pub unref-Sound :
      (e : ℕ)
      → 0 < held e
      → (d : LruCache) × (rest : List ℕ) × (unref e c ≡ some d) × Sound d rest (drop_one held e)
  unref-Sound e some_held = elim (Option-cases (c.heap e)) [
    | inl f ↦ absurd (ground (arith, v.places e))
    | inr (h, f) ↦ elim (ℕ_discrete (held e) 1) [
      | no more ↦ let (d, eq, w) = unref_kept e h f (omega arith) in (d, loose, eq, w)
      | yes last ↦ elim (Bool-cases h.valid) [
        | inl valid ↦ let (d, eq, w) = unref_idle e h f valid last in (d, loose, eq, w)
        | inr invalid ↦
            let (d, eq, w) = unref_freed e h f invalid last in (d, remove e loose, eq, w)
      ]
    ]
  ]
