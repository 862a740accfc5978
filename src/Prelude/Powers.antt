-- ===== src/Prelude/Powers.antt =====
-- Quotients and remainders by powers of two, a bit at a time.
use native.Mathlib.Nat.{pow-suc, one-le-pow, pow-le-pow_right, div-div-eq-div-mul}
use native.Mathlib.Nat.{div-add-mod, add-mul-mod_self_left, mod-eq_of_lt, mod-lt}
use bus_test_platform.Prelude.{
  ℕ, zero, suc, ◌+◌, ◌*◌, ◌/◌, ◌%◌, ◌^◌, ◌≤◌, ◌<◌, ◌≡◌, sym, ap, ◌∙◌, arith,
}

pub pow_pos : (k : ℕ) → 1 ≤ 2 ^ k
pow_pos k = one-le-pow k 2 (omega arith)

pub pow_mono : (j k : ℕ) → j ≤ k → 2 ^ j ≤ 2 ^ k
pow_mono j k h = pow-le-pow_right (omega arith) h

pub pow_double : (k : ℕ) → 2 ^ suc k ≡ 2 * 2 ^ k
pow_double k = omega (arith, pow-suc 2 k)

-- The lowest bit of a remainder by `2 ^ (k + 1)`, and the bits above it.
pub mod-pow-suc : (x k : ℕ) → x % 2 ^ suc k ≡ x % 2 + 2 * (x / 2 % 2 ^ k)
mod-pow-suc x k =
    ap (λ (t : ℕ). t % 2 ^ suc k) regroup
    ∙ add-mul-mod_self_left (x % 2 + 2 * (x / 2 % 2 ^ k)) (2 ^ suc k) (x / 2 / 2 ^ k)
    ∙ mod-eq_of_lt (omega (arith, pow_double k, mod-lt (x / 2) (pow_pos k)))
  where
    regroup : x ≡ x % 2 + 2 * (x / 2 % 2 ^ k) + 2 ^ suc k * (x / 2 / 2 ^ k)
    regroup =
        omega
          (arith, div-add-mod (x / 2) (2 ^ k), ap (λ (t : ℕ). t * (x / 2 / 2 ^ k)) (pow_double k))

pub div-pow-suc : (x k : ℕ) → x / 2 ^ suc k ≡ x / 2 ^ k / 2
div-pow-suc x k = ap (λ (t : ℕ). x / t) (pow-suc 2 k) ∙ sym (div-div-eq-div-mul x (2 ^ k) 2)

pub pow_add : (a b : ℕ) → 2 ^ (a + b) ≡ 2 ^ a * 2 ^ b
pow_add zero b = ap (λ (t : ℕ). 2 ^ t) {x = 0 + b} {y = b} (omega arith) ∙ omega arith
pow_add (suc a) b =
    ap (λ (t : ℕ). 2 ^ t) {x = suc a + b} {y = suc (a + b)} (omega arith)
    ∙ omega (arith, pow_double (a + b), pow_add a b, ap (λ (t : ℕ). t * 2 ^ b) (pow_double a))

pub pow_eight : (n : ℕ) → 2 ^ (8 + n) ≡ 256 * 2 ^ n
pow_eight n = pow_add 8 n

pub mul_le_one : (m b : ℕ) → b ≤ 1 → m * b ≤ m
mul_le_one m b h = grind arith

-- The highest bit of a remainder by `2 ^ (k + 1)`, and the bits below it.
pub mod-pow-top : (x k : ℕ) → x % 2 ^ suc k ≡ x / 2 ^ k % 2 * 2 ^ k + x % 2 ^ k
mod-pow-top x k =
    ap (λ (t : ℕ). t % 2 ^ suc k) regroup
    ∙ add-mul-mod_self_left (x / 2 ^ k % 2 * 2 ^ k + x % 2 ^ k) (2 ^ suc k) (x / 2 ^ k / 2)
    ∙ mod-eq_of_lt (
        omega (
          arith,
          pow_double k,
          mod-lt x (pow_pos k),
          mul_le_one (2 ^ k) (x / 2 ^ k % 2) (omega arith),
        ))
  where
    q : ℕ
    q = x / 2 ^ k

    regroup : x ≡ x / 2 ^ k % 2 * 2 ^ k + x % 2 ^ k + 2 ^ suc k * (x / 2 ^ k / 2)
    regroup = omega (
      arith,
      div-add-mod x (2 ^ k),
      ap (λ (t : ℕ). t * 2 ^ k) (div-add-mod q 2),
      ap (λ (t : ℕ). t * (q / 2)) (pow_double k),
    )

pub pow_lt : (j k : ℕ) → j < k → 2 ^ j < 2 ^ k
pow_lt j k h = omega (arith, pow_double j, pow_pos j, pow_mono (suc j) k h)

pub div-pow-add : (x a b : ℕ) → x / 2 ^ a / 2 ^ b ≡ x / 2 ^ (a + b)
div-pow-add x a b = div-div-eq-div-mul x (2 ^ a) (2 ^ b) ∙ ap (λ (t : ℕ). x / t) (sym (pow_add a b))
