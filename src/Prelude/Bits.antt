-- ===== src/Prelude/Bits.antt =====
-- Shifts, masks and disjunctions of disjoint fields as plain arithmetic, at every width.
use Prim.Native.Nat.{ℕ, zero, suc, ◌+◌, ◌-◌, ◌*◌, ◌/◌, ◌%◌, ◌^◌, ◌≤◌, ◌<◌, min, max}
use Prim.Native.Nat.{bit_and, bit_or, digits, bitwise, bit_and-bitwise, bit_or-bitwise}
use mathlib.Core.Path.{◌≡◌, refl, ap, ◌∙◌}
use native.Mathlib.Nat.{pow-suc, one-le-pow, div-div-eq-div-mul}
use native.Mathlib.Omega.{arith}

-- The fuel of the digit recursion does not matter once it reaches the first number.
module _ (z : ℕ → ℕ) (op : ℕ → ℕ → ℕ) where
  digits_enough : (k l a b : ℕ) → a ≤ k → a ≤ l → digits z op k a b ≡ digits z op l a b
  digits_enough zero zero a b hk hl = refl
  digits_enough zero (suc l) zero b hk hl = refl
  digits_enough zero (suc l) (suc a) b hk hl = absurd (omega arith)
  digits_enough (suc k) zero zero b hk hl = refl
  digits_enough (suc k) zero (suc a) b hk hl = absurd (omega arith)
  digits_enough (suc k) (suc l) zero b hk hl = refl
  digits_enough (suc k) (suc l) (suc a) b hk hl =
      rw (digits_enough k l (suc a / 2) (b / 2) (omega arith) (omega arith))

  bitwise_digit :
      (a b : ℕ)
      → bitwise z op (suc a) b ≡ bitwise z op (suc a / 2) (b / 2) * 2 + op (suc a % 2) (b % 2)
  bitwise_digit a b =
      omega (arith, digits_enough a (suc a / 2) (suc a / 2) (b / 2) (omega arith) (omega arith))

-- The lowest binary digit of `|` and of `&`.
pub bit_or_digit : (a b : ℕ) → bit_or a b ≡ bit_or (a / 2) (b / 2) * 2 + max (a % 2) (b % 2)
bit_or_digit zero b = simp bit_or-bitwise (omega arith)
bit_or_digit (suc a) b = simp bit_or-bitwise (bitwise_digit (λ y. y) max a b)

pub bit_and_digit : (a b : ℕ) → bit_and a b ≡ bit_and (a / 2) (b / 2) * 2 + min (a % 2) (b % 2)
bit_and_digit zero b = simp bit_and-bitwise (omega arith)
bit_and_digit (suc a) b = simp bit_and-bitwise (bitwise_digit (λ y. 0) min a b)

zero-bit_or : (b : ℕ) → bit_or 0 b ≡ b
zero-bit_or b = bit_or-bitwise 0 b

bit_and-zero_below : (n a : ℕ) → a ≤ n → bit_and a 0 ≡ 0
bit_and-zero_below n zero h = refl
bit_and-zero_below zero (suc a) h = absurd (omega arith)
bit_and-zero_below (suc n) (suc a) h =
    omega (arith, bit_and_digit (suc a) 0, bit_and-zero_below n (suc a / 2) (omega arith))

pub bit_and-zero : (a : ℕ) → bit_and a 0 ≡ 0
bit_and-zero a = bit_and-zero_below a a (omega arith)

pub double_pow : (q k : ℕ) → q * 2 ^ suc k ≡ 2 * (q * 2 ^ k)
double_pow q k = omega (arith, ap (λ (t : ℕ). q * t) (pow-suc 2 k))

-- `r | (q << k)` is a sum when `r` has no bit from `k` on.
pub bit_or_high : (k r q : ℕ) → r < 2 ^ k → bit_or r (q * 2 ^ k) ≡ r + q * 2 ^ k
bit_or_high zero r q h = omega (arith, ap (λ (t : ℕ). bit_or t (q * 1)) small, zero-bit_or (q * 1))
  where
    small : r ≡ 0
    small = omega arith
bit_or_high (suc k) r q h = ground (
  arith,
  bit_or_digit r (q * 2 ^ suc k),
  double_pow q k,
  bit_or_high k (r / 2) q (omega (arith, pow-suc 2 k)),
)

mask_fields : (k q r : ℕ) → r < 2 ^ k → bit_and (q * 2 ^ k + r) (2 ^ k - 1) ≡ r
mask_fields zero q r h = omega (arith, bit_and-zero (q * 1 + r))
mask_fields (suc k) q r h = ground (
  arith,
  bit_and_digit (q * 2 ^ suc k + r) (2 ^ suc k - 1),
  double_pow q k,
  pow-suc 2 k,
  one-le-pow k 2,
  mask_fields k q (r / 2),
)

-- `x & (2 ^ k - 1)` is the remainder by `2 ^ k`.
pub bit_and_mask : (k x : ℕ) → bit_and x (2 ^ k - 1) ≡ x % 2 ^ k
bit_and_mask k x = ground (arith, one-le-pow k 2, mask_fields k (x / 2 ^ k) (x % 2 ^ k))

-- `x & (1 << k)` is bit `k` of `x`, in its place.
pub bit_and_bit : (k x : ℕ) → bit_and x (2 ^ k) ≡ x / 2 ^ k % 2 * 2 ^ k
bit_and_bit zero x = omega (arith, bit_and_digit x 1, bit_and-zero (x / 2))
bit_and_bit (suc k) x = ground (
  arith,
  bit_and_digit x (2 ^ suc k),
  pow-suc 2 k,
  bit_and_bit k (x / 2),
  halves,
  double_pow (x / 2 ^ suc k % 2) k,
)
  where
    halves : x / 2 / 2 ^ k ≡ x / 2 ^ suc k
    halves = div-div-eq-div-mul x 2 (2 ^ k) ∙ ap (λ (t : ℕ). x / t) (omega (arith, pow-suc 2 k))

-- `(v >> 8 k) & 0xFF` for the four bytes of a word.
pub low_byte : (v : ℕ) → bit_and v 0xff ≡ v % 256
low_byte v = bit_and_mask 8 v
