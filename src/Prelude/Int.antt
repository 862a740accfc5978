-- ===== src/Prelude/Int.antt =====
-- Signed integers over the native numbers, under the library's names.
use bus_test_platform.Prelude.{ℕ, ◌-◌, ◌%◌, ◌^◌, ltb, if◌then◌else◌}

-- `negsuc n` is -(n + 1).
pub data ℤ : Type 0 where
  pos : ℕ → ℤ
  negsuc : ℕ → ℤ

-- The integer that a `w`-bit two's-complement pattern stands for, for w = 64.
abbrev pub signed64 : ℕ → ℤ
signed64 v = if ltb v (2 ^ 63) then pos v else negsuc (2 ^ 64 - v - 1)

-- `static_cast<uint32_t>` of an `int`
abbrev pub unsigned32 : ℤ → ℕ
unsigned32 (pos n) = n % 2 ^ 32
unsigned32 (negsuc n) = 2 ^ 32 - 1 - n % 2 ^ 32
