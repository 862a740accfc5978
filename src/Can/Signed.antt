-- ===== src/Can/Signed.antt =====
-- `CanDecoder::sign_extend` of software/src/protocol/can/can_decoder.cpp.
use native.Mathlib.Nat.{div-eq_of_lt, div-eq-sub-div}
use bus_test_platform.Prelude.{
  ℕ, zero, suc, ◌+◌, ◌-◌, ◌*◌, ◌/◌, ◌%◌, ◌^◌, ◌≤◌, ◌<◌, ◌≡◌, ap, ◌∙◌, ltb, leb, ◌!=◌, if◌then◌else◌,
  arith, Bool-cases, inl, inr, bit_and, bit_or,
}
use bus_test_platform.Prelude.Bits.{bit_and_bit, bit_or_high}
use bus_test_platform.Prelude.Int.{ℤ, pos, negsuc, signed64}
use bus_test_platform.Prelude.Powers.{pow_double, pow_pos, pow_mono, pow_add}
use bus_test_platform.Can.{sign_extend}

-- The integer that a `len`-bit two's-complement pattern stands for.
abbrev pub signed_value : ℕ → ℕ → ℤ
signed_value len raw = if ltb raw (2 ^ (len - 1)) then pos raw else negsuc (2 ^ len - raw - 1)

-- `~((1 << length) - 1)` is a multiple of `2 ^ length`.
high_mask : (len : ℕ) → len ≤ 64 → 2 ^ 64 - 1 - (2 ^ len - 1) ≡ (2 ^ (64 - len) - 1) * 2 ^ len
high_mask len h = omega (
  arith,
  pow_pos len,
  pow_add (64 - len) len,
  ap (λ (t : ℕ). 2 ^ t) {x = 64 - len + len} {y = 64} (omega arith),
  ap (λ (t : ℕ). t * 2 ^ len) {x = 2 ^ (64 - len)} {y = 2 ^ (64 - len) - 1 + 1}
      (omega (arith, pow_pos (64 - len))),
)

-- `raw & sign` tests whether the field is in the upper half of its range.
sign_bit : (raw k : ℕ) → raw < 2 ^ suc k → (bit_and raw (2 ^ k) != 0) ≡ leb (2 ^ k) raw
sign_bit raw k h = elim (Bool-cases (leb (2 ^ k) raw)) [
  | inl upper ↦ ground (
    arith,
    bit_and_bit k raw,
    ap (λ (t : ℕ). t % 2 * 2 ^ k) (quotient_one (ground arith)),
    pow_pos k,
  )
  | inr lower ↦ ground (
    arith,
    bit_and_bit k raw,
    ap (λ (t : ℕ). t % 2 * 2 ^ k) {y = 0} (div-eq_of_lt {n = raw} {m = 2 ^ k} (ground arith)),
  )
]
  where
    quotient_one : 2 ^ k ≤ raw → raw / 2 ^ k ≡ 1
    quotient_one le =
        div-eq-sub-div (pow_pos k) le
        ∙ omega (arith, div-eq_of_lt {n = raw - 2 ^ k} {m = 2 ^ k} (omega (arith, pow_double k)))

-- `raw |= ~((1 << length) - 1)` fills the bits above the field.
fill_sign :
    (raw len : ℕ)
    → raw < 2 ^ len
    → len ≤ 64
    → bit_or raw (2 ^ 64 - 1 - (2 ^ len - 1)) ≡ raw + (2 ^ 64 - 2 ^ len)
fill_sign raw len h hl =
    ap (bit_or raw) (high_mask len hl)
    ∙ bit_or_high len raw (2 ^ (64 - len) - 1) h
    ∙ omega (arith, high_mask len hl, pow_pos len)

-- For a field of 1 to 64 bits, the sign-extended 64-bit pattern stands for the same integer as the
-- field's own two's-complement pattern.
pub sign_extend-signed_value :
    (raw len : ℕ)
    → 1 ≤ len
    → len ≤ 64
    → raw < 2 ^ len
    → signed64 (sign_extend raw len) ≡ signed_value len raw
unfolding sign_extend
sign_extend-signed_value raw zero lo hi h = absurd (omega arith)
sign_extend-signed_value raw (suc k) lo hi h = elim (Bool-cases (leb 64 (suc k))) [
  | inl whole ↦ ground (arith, ap (λ (t : ℕ). 2 ^ t) {x = k} {y = 63} (ground arith), pow_double k)
  | inr part ↦ ground (
    arith,
    sign_bit raw k h,
    fill_sign raw (suc k) h hi,
    pow_double k,
    pow_mono (suc k) 63 (ground arith),
  )
]
