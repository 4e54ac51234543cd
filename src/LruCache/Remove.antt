-- ===== src/LruCache/Remove.antt =====
-- `Erase` and the loop of `Insert` on a sound cache.
use codelab.Base.{
  ℕ, zero, suc, ◌-◌, ◌<◌, ◌≡◌, refl, true, false, List, [], ◌∷◌, Option, none, some, arith, length,
  Option-cases, ◌⊎◌, inl, inr, ℕ_discrete, dec_lt, List-cases, ◌∙◌,
}
use codelab.Base.Bag.{occ, remove, occ-remove, length-remove}
use codelab.LruCache.{
  LruHandle, LruCache, update, put, link_remove, pred_word, unref, remove_from_lru, erase, evict,
}
use codelab.LruCache.Sound.{Sound}

-- What an operation leaves, `rest` being the loose handles after it.
abbrev pub Leaves : Option LruCache → List ℕ → (ℕ → ℕ) → Type 0
Leaves o rest held = (d : LruCache) × (o ≡ some d) × Sound d rest held

module _ (c : LruCache) (loose : List ℕ) (held : ℕ → ℕ) (v : Sound c loose held) (key : ℕ) where
  erase_absent : c.index key ≡ none → Leaves (erase key c) loose held
  unfolding erase remove_from_lru
  erase_absent f = (
    record c { index = update c.index key none },
    ground arith,
    record {
      places = v.places;
      keys = λ p k. ground (arith, v.keys p k);
      count = v.count;
      bound = v.bound;
    },
  )

  pub indexed_handle :
      (e : ℕ)
      → c.index key ≡ some e
      → (h : LruHandle) × (c.heap e ≡ some h) × (h.valid ≡ true) × (h.key ≡ key)
  indexed_handle e f = elim (Option-cases (c.heap e)) [
    | inl g ↦ absurd (ground (arith, v.keys e key))
    | inr (h, g) ↦ (h, g, ground (arith, v.keys e key), ground (arith, v.keys e key))
  ]

  module _ (e : ℕ) (h : LruHandle) (f : c.index key ≡ some e) (g : c.heap e ≡ some h)
      (valid : h.valid ≡ true) (same : h.key ≡ key) where
    erased_idle : LruCache
    erased_idle =
        put e none
          (record (put e (some (record h { valid = false }))
            (record c { lru = remove e c.lru; index = update c.index key none })) {
              usage = pred_word c.usage;
            })

    erase_idle : held e ≡ 0 → (erase key c ≡ some erased_idle) × Sound erased_idle loose held
    unfolding erase remove_from_lru link_remove unref erased_idle
    erase_idle idle =
        let on_list : 0 < occ e c.lru = ground (arith, v.places e) in
        (
          ground (arith, v.places e),
          record {
            places = λ p. ground (arith, v.places e, v.places p, occ-remove p e c.lru on_list);
            keys = λ p k. ground (arith, v.keys e k, v.keys p k);
            count = ground (arith, v.count, length-remove e c.lru on_list);
            bound = ground (arith, v.count, v.bound, length-remove e c.lru on_list);
          },
        )

    erased_held : LruCache
    erased_held = put e (some (record h { valid = false; ref = h.ref - 1 })) (
        put e (some (record h { valid = false }))
          (record c { in_use = remove e c.in_use; index = update c.index key none }))

    erase_held : 0 < held e → (erase key c ≡ some erased_held) × Sound erased_held (e ∷ loose) held
    unfolding erase remove_from_lru link_remove unref erased_held
    erase_held some_held =
        let on_list : 0 < occ e c.in_use = ground (arith, v.places e) in
        (
          ground (arith, v.places e),
          record {
            places = λ p. ground (arith, v.places e, v.places p, occ-remove p e c.in_use on_list);
            keys = λ p k. ground (arith, v.keys e k, v.keys p k);
            count = ground (arith, v.count, length-remove e c.in_use on_list);
            bound = v.bound;
          },
        )

  pub erase-Sound : (rest : List ℕ) × Leaves (erase key c) rest held
  erase-Sound = elim (Option-cases (c.index key)) [
    | inl f ↦ (loose, erase_absent f)
    | inr (e, f) ↦
        let (h, g, valid, same) = indexed_handle e f in
        elim (ℕ_discrete (held e) 0) [
          | yes idle ↦
              let (q, w) = erase_idle e h f g valid same idle in
              (loose, (erased_idle e h f g valid same, q, w))
          | no some_held ↦
              let (q, w) = erase_held e h f g valid same (omega arith) in
              (e ∷ loose, (erased_held e h f g valid same, q, w))
        ]
  ]

-- What the loop leaves: there is room, or no handle is idle. It frees idle handles alone.
pub record Evicted (c : LruCache) (loose : List ℕ) (held : ℕ → ℕ) (d : LruCache) : Type 0 where
  pub sound : Sound d loose held
  pub done : (d.usage < d.capacity) ⊎ (d.lru ≡ [])
  pub in_use : d.in_use ≡ c.in_use
  pub capacity : d.capacity ≡ c.capacity
  pub frees : (p : ℕ) → c.heap p ≡ none → d.heap p ≡ none

first_idle :
    (c : LruCache) (loose : List ℕ) (held : ℕ → ℕ)
    → Sound c loose held
    → (e : ℕ) (es : List ℕ) → c.lru ≡ e ∷ es
    → (h : LruHandle) × (c.heap e ≡ some h)
      × (h.valid ≡ true)
      × (held e ≡ 0)
      × (c.index h.key ≡ some e)
first_idle c loose held v e es f = elim (Option-cases (c.heap e)) [
  | inl g ↦ absurd (ground (arith, v.places e))
  | inr (h, g) ↦ (
    h,
    g,
    ground (arith, v.places e),
    ground (arith, v.places e),
    ground (arith, v.places e, v.keys e h.key),
  )
]

-- On a sound cache, with more rounds than there are idle handles, the loop of `Insert` ends: it
-- leaves a sound cache with the same references and handles in use, in which there is room or no
-- handle is idle, and it allocates nothing.
pub evict-Evicted :
    (n : ℕ) (c : LruCache) (loose : List ℕ) (held : ℕ → ℕ)
    → Sound c loose held
    → length c.lru < n
    → (d : LruCache) × (evict n c ≡ some d) × Evicted c loose held d
unfolding evict
evict-Evicted zero c loose held v le = absurd (omega arith)
evict-Evicted (suc n) c loose held v le = elim (dec_lt c.usage c.capacity) [
  | yes room ↦ (
    c,
    ground arith,
    record { sound = v; done = inl room; in_use = refl; capacity = refl; frees = λ p e. e },
  )
  | no full ↦ elim (List-cases c.lru) [
    | inl empty ↦ (
      c,
      ground arith,
      record { sound = v; done = inr empty; in_use = refl; capacity = refl; frees = λ p e. e },
    )
    | inr (e, es, f) ↦
        let (h, g, valid, idle, at) = first_idle c loose held v e es f in
        let (q, w) = erase_idle c loose held v h.key e h at g valid refl idle in
        let c' = erased_idle c loose held v h.key e h at g valid refl in
        let (d, q', ok) = evict-Evicted n c' loose held w (unfold erased_idle in ground arith) in
        (
          d,
          ground arith,
          record {
            sound = ok.sound;
            done = ok.done;
            in_use = ok.in_use ∙ (unfold erased_idle in refl);
            capacity = ok.capacity ∙ (unfold erased_idle in refl);
            frees = λ p x. ok.frees p (unfold erased_idle in ground arith);
          },
        )
  ]
]
