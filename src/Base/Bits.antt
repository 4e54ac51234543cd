-- ===== src/Base/Bits.antt =====
-- The bit operations that the components use: masks of ones, and the test for a power of two.
use Prim.Native.Nat.{min, max, bit_and, bit_or, digits, bitwise, bit_and-bitwise, bit_or-bitwise}
use native.Mathlib.Nat.{pow-suc, pow-succ', mod_self}
use codelab.Base.{
  ℕ, zero, suc, ◌+◌, ◌-◌, ◌*◌, ◌/◌, ◌%◌, ◌^◌, ◌≤◌, ◌<◌, ◌≡◌, ◌↔◌, refl, ap, sym, ◌∙◌, arith,
  ℕ_discrete, subst,
}

-- Induction over the halves of a number: its binary digits from the highest on.
module _ {ℓ} (P : ℕ → Type ℓ) (base : P 0) (double : (a : ℕ) → 0 < a → P (a / 2) → P a) where
  halving_below : (bound a : ℕ) → a ≤ bound → P a
  halving_below bound zero le = base
  halving_below zero (suc a) le = absurd (omega arith)
  halving_below (suc bound) (suc a) le =
      double (suc a) (omega arith) (halving_below bound (suc a / 2) (omega arith))

  halving : (a : ℕ) → P a
  halving a = halving_below a a (omega arith)

-- A bitwise operation runs on as many digits as its first argument says, of which more than that
-- argument has make no difference.
module _ (z : ℕ → ℕ) (f : ℕ → ℕ → ℕ) where
  spare_digit : (n a b : ℕ) → a ≤ n → digits z f (suc n) a b ≡ digits z f n a b
  spare_digit zero zero b le = refl
  spare_digit (suc n) zero b le = refl
  spare_digit zero (suc a) b le = absurd (omega arith)
  spare_digit (suc n) (suc a) b le =
      ap (λ t. t * 2 + f (suc a % 2) (b % 2)) (spare_digit n (suc a / 2) (b / 2) (omega arith))

  spare_digits : (n a b : ℕ) → a ≤ n → digits z f n a b ≡ bitwise z f a b
  spare_digits zero zero b le = refl
  spare_digits zero (suc a) b le = absurd (omega arith)
  spare_digits (suc n) a b le = elim (ℕ_discrete a (suc n)) [
    | yes same ↦ subst (λ c. digits z f c a b ≡ bitwise z f a b) same refl
    | no less ↦ spare_digit n a b (omega arith) ∙ spare_digits n a b (omega arith)
  ]

  bitwise_halves :
      (a b : ℕ) → 0 < a → bitwise z f a b ≡ bitwise z f (a / 2) (b / 2) * 2 + f (a % 2) (b % 2)
  bitwise_halves zero b pos = absurd (omega arith)
  bitwise_halves (suc a) b pos =
      ap (λ t. t * 2 + f (suc a % 2) (b % 2)) (spare_digits a (suc a / 2) (b / 2) (omega arith))

pub zero-bit_and : (b : ℕ) → bit_and 0 b ≡ 0
zero-bit_and b = bit_and-bitwise 0 b

bit_and_halves : (a b : ℕ) → 0 < a → bit_and a b ≡ bit_and (a / 2) (b / 2) * 2 + min (a % 2) (b % 2)
bit_and_halves a b pos = omega (
  arith,
  bit_and-bitwise a b,
  bit_and-bitwise (a / 2) (b / 2),
  bitwise_halves (λ _. 0) min a b pos,
)

bit_and-zero : (a : ℕ) → bit_and a 0 ≡ 0
bit_and-zero =
    halving (λ a. bit_and a 0 ≡ 0) (zero-bit_and 0)
      (λ a pos half. omega (arith, bit_and_halves a 0 pos, half))

-- The lowest digit apart, whatever the first number.
bit_and_step : (a b : ℕ) → bit_and a b ≡ bit_and (a / 2) (b / 2) * 2 + min (a % 2) (b % 2)
bit_and_step a b = elim (ℕ_discrete a 0) [
  | no some_digit ↦ bit_and_halves a b (omega arith)
  | yes empty ↦ rw empty (omega (arith, zero-bit_and b, zero-bit_and (b / 2)))
]

bit_and_self : (a : ℕ) → bit_and a a ≡ a
bit_and_self =
    halving (λ a. bit_and a a ≡ a) (zero-bit_and 0)
      (λ a pos half. omega (arith, bit_and_halves a a pos, half))

pub pow-pos : (k : ℕ) → 0 < 2 ^ k
pow-pos zero = omega arith
pow-pos (suc k) = omega (arith, pow-suc 2 k, pow-pos k)

mod_double : (a n : ℕ) → 0 < n → a % (2 * n) ≡ a / 2 % n * 2 + a % 2
mod_double a n h = grind arith

half_ones : (k : ℕ) → (2 ^ suc k - 1) / 2 ≡ 2 ^ k - 1
half_ones k = omega (arith, pow-suc 2 k, pow-pos k)

-- `x & (2^k - 1)` is `x % 2^k`.
pub bit_and_ones : (k a : ℕ) → bit_and a (2 ^ k - 1) ≡ a % 2 ^ k
bit_and_ones zero a = omega (arith, bit_and-zero a)
bit_and_ones (suc k) a = omega (
  arith,
  pow-suc 2 k,
  pow-pos k,
  bit_and_step a (2 ^ suc k - 1),
  bit_and_ones k (a / 2),
  mod_double a (2 ^ k) (pow-pos k),
  ap (bit_and (a / 2)) (half_ones k),
  ap (λ t. a % t) (pow-succ' 2 k),
)

pub bit_and_comm : (a b : ℕ) → bit_and a b ≡ bit_and b a
bit_and_comm =
    halving (λ a. (b : ℕ) → bit_and a b ≡ bit_and b a) (λ b. zero-bit_and b ∙ sym (bit_and-zero b))
      (λ a pos half b. omega (arith, bit_and_step a b, bit_and_step b a, half (b / 2)))

half_pred : (c : ℕ) → c % 2 ≡ 0 → (c - 1) / 2 ≡ c / 2 - 1
half_pred c h = omega arith

odd_case : (c : ℕ) → c % 2 ≡ 1 → bit_and c (c - 1) ≡ 0 → c ≡ 1
odd_case c h e = omega (
  arith,
  bit_and_step c (c - 1),
  ap (bit_and (c / 2)) (let p : (c - 1) / 2 ≡ c / 2 = omega arith in p),
  bit_and_self (c / 2),
)

-- A number whose bits vanish against its predecessor's is a power of two.
pub power_of_two_fuel : (n c : ℕ) → c ≤ n → 0 < c → bit_and c (c - 1) ≡ 0 → (k : ℕ) × (c ≡ 2 ^ k)
power_of_two_fuel zero c h pos e = absurd (omega arith)
power_of_two_fuel (suc n) c h pos e = elim (ℕ_discrete (c % 2) 0) [
  | yes even ↦
      let (k, p) =
        power_of_two_fuel n (c / 2) (omega arith) (omega arith)
          (omega (arith, bit_and_step c (c - 1), ap (bit_and (c / 2)) (half_pred c even))) in
      (suc k, omega (arith, pow-suc 2 k))
  | no odd ↦ (0, odd_case c (omega arith) e)
]

pow-bit_and : (k : ℕ) → bit_and (2 ^ k) (2 ^ k - 1) ≡ 0
pow-bit_and k = bit_and_ones k (2 ^ k) ∙ mod_self (2 ^ k)

pub bit_and-pred_iff : (c : ℕ) → 0 < c → (bit_and c (c - 1) ≡ 0) ↔ ((k : ℕ) × (c ≡ 2 ^ k))
bit_and-pred_iff c pos = (power_of_two_fuel c c (omega arith) pos, λ (k, p). rw p (pow-bit_and k))

zero-bit_or : (b : ℕ) → bit_or 0 b ≡ b
zero-bit_or b = bit_or-bitwise 0 b

bit_or_step : (a b : ℕ) → bit_or a b ≡ bit_or (a / 2) (b / 2) * 2 + max (a % 2) (b % 2)
bit_or_step a b = elim (ℕ_discrete a 0) [
  | no some_digit ↦ omega (
    arith,
    bit_or-bitwise a b,
    bit_or-bitwise (a / 2) (b / 2),
    bitwise_halves (λ b. b) max a b (omega arith),
  )
  | yes empty ↦ rw empty (omega (arith, zero-bit_or b, zero-bit_or (b / 2)))
]

bit_or-zero : (a : ℕ) → bit_or a 0 ≡ a
bit_or-zero =
    halving (λ a. bit_or a 0 ≡ a) (zero-bit_or 0)
      (λ a pos half. omega (arith, bit_or_step a 0, half))

halve_shifted : (k a : ℕ) → a * 2 ^ suc k / 2 ≡ a * 2 ^ k
halve_shifted k a = omega (arith, ap (λ t. a * t) (pow-suc 2 k))

shifted_even : (k a : ℕ) → a * 2 ^ suc k % 2 ≡ 0
shifted_even k a = omega (arith, ap (λ t. a * t) (pow-suc 2 k))

-- `(a << k) | b` is a sum where `b` has at most `k` bits.
pub bit_or_shifted : (k a b : ℕ) → b < 2 ^ k → bit_or (a * 2 ^ k) b ≡ a * 2 ^ k + b
bit_or_shifted zero a b h =
    omega
      (arith, ap (bit_or (a * 2 ^ 0)) (let e : b ≡ 0 = omega arith in e), bit_or-zero (a * 2 ^ 0))
bit_or_shifted (suc k) a b h = omega (
  arith,
  bit_or_step (a * 2 ^ suc k) b,
  ap (λ t. bit_or t (b / 2)) (halve_shifted k a),
  shifted_even k a,
  halve_shifted k a,
  bit_or_shifted k a (b / 2) (omega (arith, pow-suc 2 k)),
)
