-- ===== src/Can/Decode.antt =====
-- `CanDecoder::extract_raw` and `decode_frame` of software/src/protocol/can/can_decoder.cpp.
use native.Mathlib.Nat.{mod-lt}
use bus_test_platform.Prelude.{
  ℕ, zero, suc, ◌+◌, ◌-◌, ◌*◌, ◌/◌, ◌%◌, ◌^◌, ◌≤◌, ◌<◌, ◌≡◌, refl, sym, ap, ◌∙◌, min, Bool, true,
  false, some, List, [], ◌∷◌, ◌++◌, map, append_assoc, append-nil, leb, ◌==◌, if◌then◌else◌, length,
  take, All, get_or-take, arith,
}
use bus_test_platform.Prelude.Powers.{pow_pos, pow_mono}
use bus_test_platform.Frame.{BusFrame, IsByte}
use bus_test_platform.Dbc.{DbcMessage}
use bus_test_platform.Signal.{Doubles, Signal, raw_to_physical}
use bus_test_platform.Can.{
  intel_loop, motorola_loop, clamp_length, extract_raw, SignalValue, decode_signal, decode_loop,
  decode_frame,
}
use bus_test_platform.Can.Extract.{intel_bits, motorola_bits, intel_loop-bits, motorola_loop-bits}
use bus_test_platform.Can.Numbers.{little, big}
use bus_test_platform.Can.Signed.{signed_value, sign_extend-signed_value}

-- The value of a field of `len` bits.
abbrev pub field_bits : Bool → List ℕ → ℕ → ℕ → ℕ → ℕ
field_bits true bytes dlc start len = intel_bits bytes dlc start len
field_bits false bytes dlc start len = motorola_bits bytes dlc start len

loop-field_bits :
    (le : Bool) (n : ℕ) (bytes : List ℕ) (dlc start : ℕ)
    → All IsByte bytes
    → dlc ≤ length bytes
    → n ≤ 64
    → (if n == 0
        then 0
        else if le
        then intel_loop n bytes dlc start 0 0
        else motorola_loop n bytes dlc start 0)
      ≡ field_bits le bytes dlc start n
loop-field_bits true zero bytes dlc start h hd hn = omega arith
loop-field_bits false zero bytes dlc start h hd hn = omega (
  arith,
  ap (λ (t : ℕ). big (take dlc bytes) / 2 ^ (8 * dlc - start - t) % 2 ^ t)
      {x = min 0 (8 * dlc - start)} {y = 0} (omega arith),
)
loop-field_bits true (suc n) bytes dlc start h hd hn = ground (
  arith,
  intel_loop-bits (suc n) bytes dlc start 0 0 h,
  ap (λ (t : ℕ). intel_bits bytes dlc t (suc n)) {x = start + 0} {y = start} (omega arith),
)
loop-field_bits false (suc n) bytes dlc start h hd hn =
    ground
      (arith, motorola_loop-bits (suc n) (min (suc n) (8 * dlc - start)) bytes dlc start 0 0 h hd)

field_bits-lt :
    (le : Bool) (bytes : List ℕ) (dlc start len : ℕ) → field_bits le bytes dlc start len < 2 ^ len
field_bits-lt true bytes dlc start len = mod-lt (little (take dlc bytes) / 2 ^ start) (pow_pos len)
field_bits-lt false bytes dlc start len =
    let n = min len (8 * dlc - start) in
    omega (
      arith,
      mod-lt (big (take dlc bytes) / 2 ^ (8 * dlc - start - n)) (pow_pos n),
      pow_mono n len (omega arith),
    )

module _ {d : Doubles} where
  -- For a payload of bytes that holds `dlc` of them, and against it read as one number: a
  -- little-endian signal is its bits `start_bit .. start_bit + length - 1`, with zeros behind the
  -- frame; a big-endian one is the bits from position `start_bit` on, counted from the top, cut
  -- off at the end of the frame. More than 64 bits are clamped to 64.
  pub extract_raw-field_bits :
      (s : Signal d) (bytes : List ℕ) (dlc : ℕ)
      → All IsByte bytes
      → dlc ≤ length bytes
      → extract_raw s (some bytes) dlc
        ≡ field_bits s.little_endian bytes dlc s.start_bit (clamp_length s.len)
  unfolding extract_raw
  extract_raw-field_bits s bytes dlc h hd =
      loop-field_bits s.little_endian (clamp_length s.len) bytes dlc s.start_bit h hd (ground arith)

  -- The raw value fits the length of the signal.
  pub extract_raw-lt :
      (s : Signal d) (bytes : List ℕ) (dlc : ℕ)
      → All IsByte bytes
      → dlc ≤ length bytes
      → extract_raw s (some bytes) dlc < 2 ^ clamp_length s.len
  extract_raw-lt s bytes dlc h hd =
      rw (extract_raw-field_bits s bytes dlc h hd)
        (field_bits-lt s.little_endian bytes dlc s.start_bit (clamp_length s.len))

-- The loops read no byte from index 40 on.
intel_loop-take :
    (left : ℕ) (bytes : List ℕ) (dlc start i v : ℕ)
    → start + i + left ≤ 320
    → intel_loop left bytes dlc start i v ≡ intel_loop left (take 40 bytes) dlc start i v
unfolding intel_loop
intel_loop-take zero bytes dlc start i v h = refl
intel_loop-take (suc left) bytes dlc start i v h =
    rw (get_or-take 40 bytes ((start + i) / 8) 0 (omega arith)) (
      ap (λ t. if leb dlc ((start + i) / 8) then v else t)
        (intel_loop-take left bytes dlc start (i + 1) _ (omega arith)))

motorola_loop-take :
    (left : ℕ) (bytes : List ℕ) (dlc p v : ℕ)
    → p + left ≤ 320
    → motorola_loop left bytes dlc p v ≡ motorola_loop left (take 40 bytes) dlc p v
unfolding motorola_loop
motorola_loop-take zero bytes dlc p v h = refl
motorola_loop-take (suc left) bytes dlc p v h = rw (get_or-take 40 bytes (p / 8) 0 (omega arith)) (
    ap (λ t. if leb dlc (p / 8) then v else t)
      (motorola_loop-take left bytes dlc (p + 1) _ (omega arith)))

-- Whatever `dlc` a frame claims, and for a start bit of at most 255, only the first forty bytes of
-- the payload are read, so the read stays inside the array of 64.
pub extract_raw-take :
    {d : Doubles} (s : Signal d) (bytes : List ℕ) (dlc : ℕ)
    → s.start_bit < 256
    → extract_raw s (some bytes) dlc ≡ extract_raw s (some (take 40 bytes)) dlc
unfolding extract_raw
extract_raw-take s bytes dlc h = ground (
  arith,
  intel_loop-take (clamp_length s.len) bytes dlc s.start_bit 0 0,
  motorola_loop-take (clamp_length s.len) bytes dlc s.start_bit 0,
)

module _ (d : Doubles) where
  decode_loop-map :
      (msg : DbcMessage d) (frame : BusFrame) (signals : List (Signal d))
      (out : List (SignalValue d))
      → decode_loop d msg frame signals out ≡ out ++ map (decode_signal d msg frame) signals
  unfolding decode_loop
  decode_loop-map msg frame [] out = sym (append-nil out)
  decode_loop-map msg frame (s ∷ rest) out =
      decode_loop-map msg frame rest (out ++ decode_signal d msg frame s ∷ [])
      ∙ append_assoc out (decode_signal d msg frame s ∷ []) (map (decode_signal d msg frame) rest)

  -- `decode_frame` returns one value for each signal of the message, in order, whatever `*out` held.
  pub decode_frame-map :
      (msg : DbcMessage d) (frame : BusFrame) (out : List (SignalValue d))
      → decode_frame d msg frame (some out) ≡ some (map (decode_signal d msg frame) msg.signals)
  unfolding decode_frame
  decode_frame-map msg frame out = ap some (decode_loop-map msg frame msg.signals [])

  -- In a frame whose payload holds `dlc` bytes, the physical value of a signal of 1 to 64 bits is
  -- `raw * factor + offset`, where `raw` is the integer that the signal's bits stand for: in two's
  -- complement if it is signed, else unsigned.
  pub decode_signal-physical :
      (msg : DbcMessage d) (frame : BusFrame) (s : Signal d)
      → All IsByte frame.payload
      → frame.dlc ≤ length frame.payload
      → 1 ≤ s.len
      → s.len ≤ 64
      → let bits = field_bits s.little_endian frame.payload frame.dlc s.start_bit s.len in
        (decode_signal d msg frame s).physical ≡ (
          if s.is_signed
          then d.add (d.mul (d.of_i64 (signed_value s.len bits)) s.factor) s.offset
          else d.add (d.mul (d.of_u64 bits) s.factor) s.offset)
  unfolding decode_signal raw_to_physical
  decode_signal-physical msg frame s hb hd lo hi = ground (
    arith,
    extract_raw-field_bits s frame.payload frame.dlc hb hd,
    extract_raw-lt s frame.payload frame.dlc hb hd,
    sign_extend-signed_value (extract_raw s (some frame.payload) frame.dlc) s.len lo hi,
  )
