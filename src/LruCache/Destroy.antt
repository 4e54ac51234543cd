-- ===== src/LruCache/Destroy.antt =====
-- The destructor.
use codelab.Base.{
  ℕ, ◌+◌, ◌<◌, ◌≤◌, ◌≡◌, refl, false, List, [], ◌∷◌, Option, none, some, arith, ◌==◌, if◌then◌else◌,
  length, inl, inr, Option-cases,
}
use codelab.Base.Bag.{occ}
use codelab.LruCache.{LruHandle, LruCache, put, unref, pred_word, destroy_loop, destroy}
use codelab.LruCache.Sound.{Sound}

-- Each of the handles is live, with the one reference of the index, and none is there twice.
abbrev Single : List ℕ → LruCache → Type 0
Single es c =
    (p : ℕ) → 0 < occ p es → (occ p es ≡ 1) × (h : LruHandle) × (c.heap p ≡ some h) × (h.ref ≡ 1)

abbrev Freed : List ℕ → LruCache → LruCache → Type 0
Freed es c d = (p : ℕ) → d.heap p ≡ (if occ p es == 0 then c.heap p else none)

free_one :
    (e : ℕ) (h : LruHandle) (c : LruCache)
    → c.heap e ≡ some h
    → h.ref ≡ 1
    → (d : LruCache) × (unref e (put e (some (record h { valid = false })) c) ≡ some d)
      × ((p : ℕ) → d.heap p ≡ (if e == p then none else c.heap p))
      × (d.usage ≡ pred_word c.usage)
unfolding unref
free_one e h c f g = (
  put e none (record (put e (some (record h { valid = false })) c) { usage = pred_word c.usage }),
  ground arith,
  (λ p. ground arith),
  refl,
)

freed_both :
    (e p : ℕ) (es : List ℕ) (before between after : Option LruHandle)
    → between ≡ (if e == p then none else before)
    → after ≡ (if occ p es == 0 then between else none)
    → after ≡ (if occ p (e ∷ es) == 0 then before else none)
freed_both e p es before between after f g = ground arith

destroy_loop-Freed :
    (es : List ℕ) (c : LruCache)
    → Single es c
    → length es ≤ c.usage
    → (d : LruCache) × (destroy_loop es c ≡ some d) × Freed es c d × (d.usage + length es ≡ c.usage)
unfolding destroy_loop
destroy_loop-Freed [] c single le = (c, refl, (λ p. refl), omega arith)
destroy_loop-Freed (e ∷ es) c single le =
    let (once, h, f, g) = single e (ground arith) in
    let (d, q, freed, usage) = free_one e h c f g in
    let single' : Single es d = λ p some_p.
      let (once', h', f', g') = single p (omega arith) in
      (ground arith, h', ground (arith, freed p), g') in
    let (d', q', freed', usage') = destroy_loop-Freed es d single' (ground (arith, usage)) in
    (
      d',
      ground arith,
      (λ p. freed_both e p es (c.heap p) (d.heap p) (d'.heap p) (freed p) (freed' p)),
      ground (arith, usage, usage'),
    )

-- On a sound cache the destructor ends and reads no freed handle. It frees the idle handles,
-- and no other: those that clients hold stay, with none left to free them but the clients.
pub destroy-Freed :
    (c : LruCache) (loose : List ℕ) (held : ℕ → ℕ)
    → Sound c loose held
    → (d : LruCache) × (destroy c ≡ some d)
      × ((p : ℕ) → d.heap p ≡ (if held p == 0 then none else c.heap p))
      × (d.usage ≡ length c.in_use + length loose)
unfolding destroy
destroy-Freed c loose held v =
    let single : Single c.lru c = λ p some_p. elim (Option-cases (c.heap p)) [
      | inl e ↦ absurd (ground (arith, v.places p))
      | inr (h, e) ↦ (ground (arith, v.places p), h, e, ground (arith, v.places p))
    ] in
    let (d, q, freed, usage) = destroy_loop-Freed c.lru c single (omega (arith, v.count)) in
    (
      d,
      q,
      (λ p. elim (Option-cases (c.heap p)) [
        | inl e ↦ ground (arith, freed p)
        | inr (h, e) ↦ ground (arith, v.places p, freed p)
      ]),
      omega (arith, v.count, usage),
    )
