-- ===== src/CircularQueue/Init.antt =====
-- Which capacities `Init` accepts, and the ring that it makes.
use Prim.Native.Nat.{bit_and}
use native.Mathlib.Nat.{zero-mod}
use codelab.Base.{
  ℕ, ◌-◌, ◌^◌, ◌≤◌, ◌<◌, ◌≡◌, ◌↔◌, ◌⊎◌, inl, inr, refl, sym, ◌∙◌, ap, true, List, [], some, arith,
  length, ◌==◌, ℕ_discrete,
}
use codelab.Base.Bits.{bit_and-pred_iff, zero-bit_and, pow-pos}
use codelab.CircularQueue.{CircularQueue, init_queue, minus_one}
use codelab.CircularQueue.Refine.{Represents}

-- What the constructor leaves; the fields that it does not set hold anything.
abbrev pub fresh {ℓ} : {A : Type ℓ} → List A → ℕ → ℕ → CircularQueue A
fresh b c m = record { queue = b; capacity = c; capacity_mask = m; head = 0; tail = 0 }

module _ {ℓ} {A : Type ℓ} where
  status_lem :
      (b : List A) (c : ℕ) (q : CircularQueue A)
      → (init_queue (some b) c q).0 ≡ (bit_and c (minus_one c) == 0)
  unfolding init_queue
  status_lem b c q = ground arith

  -- When the buffer can be allocated, `Init` accepts the powers of two, and zero as well.
  pub init_queue_iff :
      (b : List A) (c : ℕ) (q : CircularQueue A)
      → c < 2 ^ 31
      → ((init_queue (some b) c q).0 ≡ true) ↔ ((c ≡ 0) ⊎ ((k : ℕ) × (c ≡ 2 ^ k)))
  init_queue_iff b c q small = elim (ℕ_discrete c 0) [
    | yes none_at_all ↦
        let cleared : bit_and c (minus_one c) ≡ 0 =
          ap (λ t. bit_and t (minus_one c)) none_at_all ∙ zero-bit_and (minus_one c) in
        (λ h. inl none_at_all, λ h. ground (arith, status_lem b c q))
    | no some_cells ↦
        let less : minus_one c ≡ c - 1 = omega arith in
        let test : bit_and c (minus_one c) ≡ bit_and c (c - 1) = ap (bit_and c) less in
        let decides = bit_and-pred_iff c (omega arith) in
        (
          λ h. inr (decides.0 (sym test ∙ ground (arith, status_lem b c q))),
          λ h. elim h [
            | inl z ↦ absurd (some_cells z)
            | inr p ↦
                let cleared : bit_and c (c - 1) ≡ 0 = decides.1 p in
                ground (arith, status_lem b c q)
          ],
        )
  ]

  -- With a power of two that leaves room for the indices, `Init` makes an empty ring.
  pub init_queue-Represents :
      (b b' : List A) (k c' m' : ℕ)
      → 2 ^ k ≤ 2 ^ 30
      → length b ≡ 2 ^ k
      → ((init_queue (some b) (2 ^ k) (fresh b' c' m')).0 ≡ true)
        × Represents (init_queue (some b) (2 ^ k) (fresh b' c' m')).1 []
  unfolding init_queue
  init_queue-Represents b b' k c' m' small size =
      let less : minus_one (2 ^ k) ≡ 2 ^ k - 1 = omega (arith, pow-pos k) in
      let test : bit_and (2 ^ k) (minus_one (2 ^ k)) ≡ 0 =
        ap (bit_and (2 ^ k)) less ∙ (bit_and-pred_iff (2 ^ k) (pow-pos k)).1 (k, refl) in
      rw test (
        refl,
        record {
          bits = k;
          start = 0;
          small = small;
          mask = less;
          size = size;
          head = sym (zero-mod (2 ^ k));
          tail = sym (zero-mod (2 ^ k));
          room = pow-pos k;
          cells = λ i h. absurd (omega arith);
        },
      )
