-- ===== src/Signal.antt =====
-- A DBC signal and its scaling, software/src/core/signal.h. `double` is an interface: its arithmetic
-- is that of the floating-point unit, and nothing is assumed of it here.
use bus_test_platform.Prelude.{ℕ, Bool, List, if◌then◌else◌}
use bus_test_platform.Prelude.Int.{ℤ, signed64}

-- `of_u64`, `of_i64` and `to_u64` are the casts between `double` and the 64-bit integers; the four
-- constants are 0.0, 0.5, 1.0 and 0.1. `leb` and `ltb` are `<=` and `<`, both false on a NaN.
pub record Doubles : Type 1 where
  pub Double : Type 0
  pub of_u64 : ℕ → Double
  pub of_i64 : ℤ → Double
  pub to_u64 : Double → ℕ
  pub add : Double → Double → Double
  pub sub : Double → Double → Double
  pub mul : Double → Double → Double
  pub div : Double → Double → Double
  pub leb : Double → Double → Bool
  pub ltb : Double → Double → Bool
  pub nought : Double
  pub half : Double
  pub unit : Double
  pub tenth : Double

-- `struct Signal`; `unit_text` is its field `unit`.
pub record Signal (d : Doubles) : Type 0 where
  pub name : List ℕ
  pub start_bit : ℕ
  pub len : ℕ
  pub factor : d.Double
  pub offset : d.Double
  pub min_value : d.Double
  pub max_value : d.Double
  pub unit_text : List ℕ
  pub is_signed : Bool
  pub little_endian : Bool

module _ (d : Doubles) where
  unfoldable pub raw_to_physical : Signal d → ℕ → d.Double
  raw_to_physical s raw =
      if s.is_signed
      then d.add (d.mul (d.of_i64 (signed64 raw)) s.factor) s.offset
      else d.add (d.mul (d.of_u64 raw) s.factor) s.offset

  unfoldable pub physical_to_raw : Signal d → d.Double → ℕ
  physical_to_raw s physical =
      let raw = d.div (d.sub physical s.offset) s.factor in
      if d.leb raw d.nought then 0 else d.to_u64 (d.add raw d.half)
