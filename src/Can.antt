-- ===== src/Can.antt =====
-- Decoding the signals of a frame: software/src/protocol/can/can_decoder.h and can_decoder.cpp.
pub mod Numbers
pub mod Extract
pub mod Signed
pub mod Database
pub mod Decode
use bus_test_platform.Prelude.{
  ℕ, zero, suc, ◌+◌, ◌-◌, ◌*◌, ◌/◌, ◌%◌, ◌^◌, Bool, true, false, ◌||◌, Option, none, some, List, [],
  ◌∷◌, ◌++◌, ltb, leb, ◌==◌, ◌!=◌, if◌then◌else◌, get_or, bit_and, bit_or,
}
use bus_test_platform.Frame.{BusFrame}
use bus_test_platform.Dbc.{DbcMessage}
use bus_test_platform.Signal.{Doubles, Signal, raw_to_physical}

-- The Intel loop at index `i`, with `left` rounds to go: `start_bit` is the lowest bit. The loop
-- ends early at the first bit behind the frame.
unfoldable pub intel_loop : ℕ → List ℕ → ℕ → ℕ → ℕ → ℕ → ℕ
intel_loop zero bytes dlc start i v = v
intel_loop (suc left) bytes dlc start i v =
    let bit = start + i in
    let byte = bit / 8 in
    let hit = bit_and (get_or bytes byte 0 / 2 ^ (bit % 8)) 1 != 0 in
    let rest =
      intel_loop left bytes dlc start (i + 1) (if hit then bit_or v (2 ^ i % 2 ^ 64) else v) in
    if leb dlc byte then v else rest

-- The Motorola loop at position `p`, counted from the highest bit of the first byte on.
unfoldable pub motorola_loop : ℕ → List ℕ → ℕ → ℕ → ℕ → ℕ
motorola_loop zero bytes dlc p v = v
motorola_loop (suc left) bytes dlc p v =
    let byte = p / 8 in
    let b = 7 - p % 8 in
    let bit = bit_and (get_or bytes byte 0 / 2 ^ b) 1 in
    let rest = motorola_loop left bytes dlc (p + 1) (bit_or (v * 2 % 2 ^ 64) bit) in
    if leb dlc byte then v else rest

-- `(sig.length > 64U) ? 64U : sig.length`
abbrev pub clamp_length : ℕ → ℕ
clamp_length len = if ltb 64 len then 64 else len

-- At length 0 both loops return the 0 that they start from.
unfoldable pub extract_raw : {d : Doubles} → Signal d → Option (List ℕ) → ℕ → ℕ
extract_raw s none dlc = 0
extract_raw s (some bytes) dlc =
    let n = clamp_length s.len in
    if n == 0
    then 0
    else if s.little_endian
    then intel_loop n bytes dlc s.start_bit 0 0
    else motorola_loop n bytes dlc s.start_bit 0

-- `~x` on a `uint64_t` is `2 ^ 64 - 1 - x`.
unfoldable pub sign_extend : ℕ → ℕ → ℕ
sign_extend raw len =
    let sign = 2 ^ (len - 1) in
    if len == 0 || leb 64 len
    then raw
    else if bit_and raw sign != 0
    then bit_or raw (2 ^ 64 - 1 - (2 ^ len - 1))
    else raw

-- `struct SignalValue`
pub record SignalValue (d : Doubles) : Type 0 where
  pub message_name : List ℕ
  pub signal_name : List ℕ
  pub raw : ℕ
  pub physical : d.Double

module _ (d : Doubles) where
  unfoldable pub decode_signal : DbcMessage d → BusFrame → Signal d → SignalValue d
  decode_signal msg frame s =
      let raw = extract_raw s (some frame.payload) frame.dlc in
      let raw' = if s.is_signed then sign_extend raw s.len else raw in
      record {
        message_name = msg.name;
        signal_name = s.name;
        raw = raw';
        physical = raw_to_physical d s raw';
      }

  -- The loop over `msg.signals`, with what has been pushed into `*out`.
  unfoldable pub decode_loop :
      DbcMessage d → BusFrame → List (Signal d) → List (SignalValue d) → List (SignalValue d)
  decode_loop msg frame [] out = out
  decode_loop msg frame (s ∷ rest) out =
      decode_loop msg frame rest (out ++ decode_signal msg frame s ∷ [])

  -- `*out` is cleared first; a null `out` is the return value false.
  unfoldable pub decode_frame :
      DbcMessage d → BusFrame → Option (List (SignalValue d)) → Option (List (SignalValue d))
  decode_frame msg frame none = none
  decode_frame msg frame (some out) = some (decode_loop msg frame msg.signals [])
