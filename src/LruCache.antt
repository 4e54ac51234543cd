-- ===== src/LruCache.antt =====
-- idea/lru_cache.cpp: a cache of handles that clients hold by counted references. A handle stands
-- at an address of the heap; each of the two lists is the sequence of the handles from its
-- sentinel on. An operation that reads a freed handle or goes through a null pointer, or that unlinks a handle which is on no
-- list, is `none`.
pub mod Sound
pub mod Remove
pub mod Released
pub mod Destroy
mod Tests
use codelab.Base.{
  ℕ, zero, suc, ◌+◌, ◌-◌, ◌^◌, Bool, true, false, ◌&&◌, List, [], ◌∷◌, ◌++◌, Option, none, some,
  ◌==◌, ltb, leb, if◌then◌else◌, length,
}
use codelab.Base.Bag.{occ, remove}

-- The links are those of the lists that the handle is on.
pub record LruHandle : Type 0 where
  pub value : ℕ
  pub key : ℕ
  pub ref : ℕ
  pub valid : Bool

pub record LruCache : Type 0 where
  pub usage : ℕ
  pub capacity : ℕ
  pub lru : List ℕ
  pub in_use : List ℕ
  pub index : ℕ → Option ℕ
  pub heap : ℕ → Option LruHandle

abbrev pub update {ℓ} : {A : Type ℓ} → (ℕ → A) → ℕ → A → ℕ → A
update f p a q = if p == q then a else f q

abbrev pub new_cache : ℕ → LruCache
new_cache n = record {
  usage = 0;
  capacity = n;
  lru = [];
  in_use = [];
  index = λ _. none;
  heap = λ _. none;
}

abbrev pub put : ℕ → Option LruHandle → LruCache → LruCache
put e h c = record c { heap = update c.heap e h }

pub link_remove : ℕ → LruCache → Option LruCache
link_remove e c =
    if ltb 0 (occ e c.lru)
    then some (record c { lru = remove e c.lru })
    else (if ltb 0 (occ e c.in_use) then some (record c { in_use = remove e c.in_use }) else none)

abbrev pub append_lru : ℕ → LruCache → LruCache
append_lru e c = record c { lru = c.lru ++ e ∷ [] }

abbrev pub append_in_use : ℕ → LruCache → LruCache
append_in_use e c = record c { in_use = c.in_use ++ e ∷ [] }

-- `INT_MAX`.
abbrev pub int_max : ℕ
int_max = 2 ^ 31 - 1

-- `Ref`; a count that would go past the largest `int` is `none`.
pub add_ref : ℕ → LruCache → Option LruCache
add_ref e c = elim (c.heap e) [
  | none ↦ none
  | some h ↦
      if h.ref == int_max
      then none
      else if h.valid && h.ref == 1
      then (elim (link_remove e c) [
        | none ↦ none
        | some c' ↦ some (put e (some (record h { ref = suc h.ref })) (append_in_use e c'))
      ])
      else some (put e (some (record h { ref = suc h.ref })) c)
]

-- On a `size_t`.
abbrev pub pred_word : ℕ → ℕ
pred_word n = if n == 0 then 2 ^ 64 - 1 else n - 1

-- A count that would fall below zero is `none` too.
pub unref : ℕ → LruCache → Option LruCache
unref e c = elim (c.heap e) [
  | none ↦ none
  | some h ↦
      if h.ref == 0
      then none
      else (if h.ref == 1
          then some (put e none (record c { usage = pred_word c.usage }))
          else (if h.valid && h.ref == 2
              then (elim (link_remove e (put e (some (record h { ref = h.ref - 1 })) c)) [
                | none ↦ none
                | some c' ↦ some (append_lru e c')
              ])
              else some (put e (some (record h { ref = h.ref - 1 })) c)))
]

-- `RemoveFromLRU`; no caller uses what it returns.
pub remove_from_lru : Option ℕ → LruCache → Option LruCache
remove_from_lru none c = some c
remove_from_lru (some e) c = elim (link_remove e c) [
  | none ↦ none
  | some c' ↦ elim (c'.heap e) [
    | none ↦ none
    | some h ↦ unref e (put e (some (record h { valid = false })) c')
  ]
]

-- `Erase`: the index first, then the handle that it had.
pub erase : ℕ → LruCache → Option LruCache
erase key c = remove_from_lru (c.index key) (record c { index = update c.index key none })

-- `Lookup`; no handle is null.
pub lookup : ℕ → LruCache → Option (Option ℕ × LruCache)
lookup key c = elim (c.index key) [
  | none ↦ some (none, c)
  | some e ↦ elim (add_ref e c) [ none ↦ none | some c' ↦ some (some e, c') ]
]

-- The loop of `Insert`, for at most as many rounds as the first argument.
pub evict : ℕ → LruCache → Option LruCache
evict zero c = none
evict (suc n) c =
    if leb c.capacity c.usage
    then (elim c.lru [
      | [] ↦ some c
      | old ∷ _ ↦ elim (c.heap old) [
        | none ↦ none
        | some h ↦ elim (erase h.key c) [ none ↦ none | some c' ↦ evict n c' ]
      ]
    ])
    else some c

-- `release` of a `unique_ptr`: what it returns, and what the `unique_ptr` then holds.
abbrev pub release : Option ℕ → Option ℕ × Option ℕ
release e = (e, none)

-- Two writes through a pointer, as `e->valid = ...; e->ref = ...;`.
abbrev pub write_both : Option ℕ → Bool → ℕ → LruCache → Option LruCache
write_both none valid ref c = none
write_both (some e) valid ref c = elim (c.heap e) [
  | none ↦ none
  | some h ↦ some (put e (some (record h { valid = valid; ref = ref })) c)
]

-- `Insert` once there is room: `e` is the new handle and `raw` what its memory happens to hold.
pub insert_new : (e : ℕ) (raw : LruHandle) (key value : ℕ) → LruCache → Option LruCache
insert_new e raw key value c =
    let (handle, left) = release (some e) in
    elim (remove_from_lru (c.index key)
      (record (put e (some (record raw { key = key; value = value })) (append_lru e c)) {
        usage = suc c.usage;
        index = update c.index key handle;
      })) [ none ↦ none | some c' ↦ write_both left true 1 c' ]

-- Each round of the loop takes a handle off the first list. A handle that is not stored is freed.
pub insert : (e : ℕ) (raw : LruHandle) (key value : ℕ) → LruCache → Option (Bool × LruCache)
insert e raw key value c = elim (evict (suc (length c.lru)) c) [
  | none ↦ none
  | some c' ↦
      if ltb c'.usage c'.capacity
      then (elim (insert_new e raw key value c') [ none ↦ none | some c'' ↦ some (true, c'') ])
      else some (false, c')
]

-- The loop of the destructor over the handles from `lru_.next` on.
pub destroy_loop : List ℕ → LruCache → Option LruCache
destroy_loop [] c = some c
destroy_loop (e ∷ es) c = elim (c.heap e) [
  | none ↦ none
  | some h ↦ elim (unref e (put e (some (record h { valid = false })) c)) [
    | none ↦ none
    | some c' ↦ destroy_loop es c'
  ]
]

-- The destructor.
pub destroy : LruCache → Option LruCache
destroy c = destroy_loop c.lru c
