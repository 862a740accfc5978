-- ===== src/Wire/Bytes.antt =====
-- Little-endian words read and written through shifts and masks.
use bus_test_platform.Prelude.{ℕ, ◌+◌, ◌*◌, ◌^◌, ◌<◌, ◌≡◌, bit_or, arith}
use bus_test_platform.Prelude.Bits.{bit_or_high}

-- `b0 | (b1 << 8)`
pub join_u16 : (b0 b1 : ℕ) → b0 < 256 → bit_or b0 (b1 * 2 ^ 8) ≡ b0 + b1 * 256
join_u16 b0 b1 h = bit_or_high 8 b0 b1 h

-- `b0 | (b1 << 8) | (b2 << 16) | (b3 << 24)`
pub join_u32 :
    (b0 b1 b2 b3 : ℕ)
    → b0 < 256
    → b1 < 256
    → b2 < 256
    → bit_or (bit_or (bit_or b0 (b1 * 2 ^ 8)) (b2 * 2 ^ 16)) (b3 * 2 ^ 24)
      ≡ b0 + b1 * 256 + b2 * 65536 + b3 * 16777216
join_u32 b0 b1 b2 b3 h0 h1 h2 =
    rw (bit_or_high 8 b0 b1 h0, bit_or_high 16 (b0 + b1 * 2 ^ 8) b2 (omega arith))
      (bit_or_high 24 (b0 + b1 * 2 ^ 8 + b2 * 2 ^ 16) b3 (omega arith))
