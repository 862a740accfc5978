-- ===== src/Can/Numbers.antt =====
-- A payload as one number, little-endian and big-endian, and its single bits.
use native.Mathlib.Nat.{div-div-eq-div-mul, mul-add-div_right, div-eq_of_lt}
use bus_test_platform.Prelude.{
  ℕ, zero, suc, ◌+◌, ◌-◌, ◌*◌, ◌/◌, ◌%◌, ◌^◌, ◌≤◌, ◌<◌, ◌≡◌, sym, ap, ◌∙◌, List, [], ◌∷◌, length,
  get_or, All, arith,
}
use bus_test_platform.Prelude.Powers.{pow_double, pow_pos, pow_add, pow_eight}
use bus_test_platform.Frame.{IsByte}

-- The first byte is the lowest.
abbrev pub little : List ℕ → ℕ
little [] = 0
little (b ∷ bytes) = b + 256 * little bytes

-- The first byte is the highest.
abbrev pub big : List ℕ → ℕ
big [] = 0
big (b ∷ bytes) = b * 2 ^ (8 * length bytes) + big bytes

low_bit : (b q r : ℕ) → r < 8 → (b + 256 * q) / 2 ^ r % 2 ≡ b / 2 ^ r % 2
low_bit b q zero h = omega arith
low_bit b q (suc zero) h = omega arith
low_bit b q (suc (suc zero)) h = omega arith
low_bit b q (suc (suc (suc zero))) h = omega arith
low_bit b q (suc (suc (suc (suc zero)))) h = omega arith
low_bit b q (suc (suc (suc (suc (suc zero))))) h = omega arith
low_bit b q (suc (suc (suc (suc (suc (suc zero)))))) h = omega arith
low_bit b q (suc (suc (suc (suc (suc (suc (suc zero))))))) h = omega arith
low_bit b q (suc (suc (suc (suc (suc (suc (suc (suc r)))))))) h = absurd (omega arith)

-- Bit `r` of byte `j` is bit `8 * j + r` of the little-endian number.
pub little_bit :
    (bytes : List ℕ) (j r : ℕ)
    → r < 8
    → All IsByte bytes
    → little bytes / 2 ^ (8 * j + r) % 2 ≡ get_or bytes j 0 / 2 ^ r % 2
little_bit [] j r hr h = omega arith
little_bit (b ∷ bytes) zero r hr h =
    ap (λ (t : ℕ). little (b ∷ bytes) / 2 ^ t % 2) {x = 8 * 0 + r} (omega arith)
    ∙ low_bit b (little bytes) r hr
little_bit (b ∷ bytes) (suc j) r hr h =
    ap (λ (t : ℕ). (b + 256 * little bytes) / t % 2) next
    ∙ ap (λ (t : ℕ). t % 2)
        (sym (div-div-eq-div-mul (b + 256 * little bytes) 256 (2 ^ (8 * j + r)))
          ∙ ap (λ (t : ℕ). t / 2 ^ (8 * j + r)) (omega arith))
    ∙ little_bit bytes j r hr h.1
  where
    next : 2 ^ (8 * suc j + r) ≡ 256 * 2 ^ (8 * j + r)
    next =
        ap (λ (t : ℕ). 2 ^ t) {x = 8 * suc j + r} {y = 8 + (8 * j + r)} (omega arith)
        ∙ pow_eight (8 * j + r)

mul_mono : (a b c : ℕ) → a ≤ b → a * c ≤ b * c
mul_mono a b c h = grind arith

next_byte : (n : ℕ) → 2 ^ (8 * suc n) ≡ 256 * 2 ^ (8 * n)
next_byte n =
    ap (λ (t : ℕ). 2 ^ t) {x = 8 * suc n} {y = 8 + 8 * n} (omega arith) ∙ pow_eight (8 * n)

pub big-lt : (bytes : List ℕ) → All IsByte bytes → big bytes < 2 ^ (8 * length bytes)
big-lt [] h = omega arith
big-lt (b ∷ bytes) h = omega (
  arith,
  next_byte (length bytes),
  big-lt bytes h.1,
  mul_mono b 255 (2 ^ (8 * length bytes)) (omega arith),
)

pub little-lt : (bytes : List ℕ) → All IsByte bytes → little bytes < 2 ^ (8 * length bytes)
little-lt [] h = omega arith
little-lt (b ∷ bytes) h = omega (arith, next_byte (length bytes), little-lt bytes h.1)

-- The highest byte is what stands above the other bytes.
top_byte : (b m n r : ℕ) → m < 2 ^ n → (b * 2 ^ n + m) / 2 ^ (n + r) ≡ b / 2 ^ r
top_byte b m n r h =
    ap (λ (t : ℕ). (b * 2 ^ n + m) / t) (pow_add n r)
    ∙ sym (div-div-eq-div-mul (b * 2 ^ n + m) (2 ^ n) (2 ^ r))
    ∙ ap (λ (t : ℕ). t / 2 ^ r) (mul-add-div_right (pow_pos n) b m ∙ omega (arith, div-eq_of_lt h))

-- A multiple of a higher power does not reach bit `e`.
bit_below : (b m e c : ℕ) → (b * 2 ^ (suc c + e) + m) / 2 ^ e % 2 ≡ m / 2 ^ e % 2
bit_below b m e c =
    ap (λ (t : ℕ). t % 2)
      (ap (λ (t : ℕ). (t + m) / 2 ^ e) regroup ∙ mul-add-div_right (pow_pos e) (b * (2 * 2 ^ c)) m)
    ∙ omega arith
  where
    regroup : b * 2 ^ (suc c + e) ≡ b * (2 * 2 ^ c) * 2 ^ e
    regroup = omega (
      arith,
      ap (λ (t : ℕ). b * t) (pow_add (suc c) e),
      ap (λ (t : ℕ). b * (t * 2 ^ e)) (pow_double c),
    )

-- Bit `r` of byte `j` is bit `8 * (length - 1 - j) + r` of the big-endian number.
pub big_bit :
    (bytes : List ℕ) (j r e : ℕ)
    → r < 8
    → j < length bytes
    → All IsByte bytes
    → e + 8 * j + 8 ≡ 8 * length bytes + r
    → big bytes / 2 ^ e % 2 ≡ get_or bytes j 0 / 2 ^ r % 2
big_bit [] j r e hr hj h he = absurd (omega arith)
big_bit (b ∷ bytes) zero r e hr hj h he =
    ap (λ (t : ℕ). big (b ∷ bytes) / 2 ^ t % 2) {y = 8 * length bytes + r} (omega arith)
    ∙ ap (λ (t : ℕ). t % 2) (top_byte b (big bytes) (8 * length bytes) r (big-lt bytes h.1))
big_bit (b ∷ bytes) (suc j) r e hr hj h he =
    ap (λ (t : ℕ). (b * 2 ^ t + big bytes) / 2 ^ e % 2) {y = suc (8 * length bytes - e - 1) + e}
      (omega arith)
    ∙ bit_below b (big bytes) e (8 * length bytes - e - 1)
    ∙ big_bit bytes j r e hr (omega arith) h.1 (omega arith)
