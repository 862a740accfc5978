-- ===== src/Tests/Data.antt =====
-- Data for the concrete runs.
use bus_test_platform.Prelude.{
  ℕ, ◌+◌, ◌-◌, ◌*◌, ◌/◌, Bool, true, false, List, [], ◌∷◌, replicate, leb, ltb, arith,
}
use bus_test_platform.Prelude.Int.{pos, negsuc}
use bus_test_platform.Frame.{BusFrame, IsFrame, canfd, rx, frame_ok}
use bus_test_platform.Signal.{Doubles, Signal}
use bus_test_platform.Dbc.{DbcMessage}

-- A buffer of 128 bytes, and a frame of eight bytes.
abbrev pub room : List ℕ
room = replicate 128 0xee

abbrev pub bytes : List ℕ
bytes = 0x12 ∷ 0x34 ∷ 0x56 ∷ 0x78 ∷ 0x9a ∷ 0xbc ∷ 0xde ∷ 0xf0 ∷ replicate 56 0

abbrev pub frame : BusFrame
frame = record {
  timestamp_ns100 = 1000;
  bus = canfd;
  channel = 2;
  dir = rx;
  id = 0x123;
  extended = 0;
  fd = 1;
  dlc = 8;
  payload = bytes;
  status = frame_ok;
}

pub frame-IsFrame : IsFrame frame
frame-IsFrame = record {
  timestamp_fits = omega arith;
  channel_fits = omega arith;
  id_fits = omega arith;
  extended_fits = omega arith;
  fd_fits = omega arith;
  dlc_fits = omega arith;
  payload_length = omega arith;
  payload_bytes = omega arith;
}

-- Whole numbers in the place of `double`.
abbrev pub whole : Doubles
whole = record {
  Double = ℕ;
  of_u64 = λ n. n;
  of_i64 = λ z. elim z [ pos n ↦ n | negsuc n ↦ 0 ];
  to_u64 = λ n. n;
  add = λ a b. a + b;
  sub = λ a b. a - b;
  mul = λ a b. a * b;
  div = λ a b. a / b;
  leb = leb;
  ltb = ltb;
  nought = 0;
  half = 0;
  unit = 1;
  tenth = 0;
}

-- Twelve bits from bit 4 on, in either byte order.
abbrev pub signal : Bool → Signal whole
signal little_endian = record {
  name = 83 ∷ [];
  start_bit = 4;
  len = 12;
  factor = 2;
  offset = 5;
  min_value = 0;
  max_value = 0;
  unit_text = [];
  is_signed = false;
  little_endian = little_endian;
}

abbrev pub message : DbcMessage whole
message = record {
  id = 0x123;
  name = 77 ∷ [];
  dlc = 8;
  tx_node = [];
  signals = signal true ∷ signal false ∷ [];
}
