-- ===== src/Frame/Text/Bounds.antt =====
-- Neither the buffer nor the payload is read behind its end by `frame_to_string`
-- (software/src/core/bus_frame.cpp).
use bus_test_platform.Prelude.{
  ℕ, zero, suc, ◌+◌, ◌/◌, ◌%◌, ◌≤◌, ◌<◌, ◌≡◌, refl, true, leb, Bool-cases, inl, inr, none, some,
  List, [], ◌∷◌, ◌++◌, ltb, if◌then◌else◌, length, length-append, take, arith,
}
use bus_test_platform.Prelude.Print.{codes, dec64, chain, length-show, length-pad}
use bus_test_platform.Frame.{
  BusFrame, IsFrame, BusType, unknown, can, canfd, canxl, lin, Direction, rx, tx, bus_type_str,
  timestamp_ns,
}
use bus_test_platform.Frame.Text.{
  dir_str, status_code, header_texts, format_buffer, hex_byte, payload_text, frame_to_string,
}

length-bus_type_str : (b : BusType) → length (codes (bus_type_str b)) ≤ 7
unfolding bus_type_str
length-bus_type_str unknown = omega arith
length-bus_type_str can = omega arith
length-bus_type_str canfd = omega arith
length-bus_type_str canxl = omega arith
length-bus_type_str lin = omega arith

length-dir_str : (d : Direction) → length (dir_str d) ≡ 2
length-dir_str rx = refl
length-dir_str tx = refl

-- The lengths of the texts of a chain.
abbrev lengths : List (List ℕ) → ℕ
lengths [] = 0
lengths (s ∷ texts) = length s + lengths texts

length-chain : (texts : List (List ℕ)) → length (chain texts []) ≡ lengths texts
length-chain [] = refl
length-chain (s ∷ texts) = omega (arith, length-append s (chain texts []), length-chain texts)

-- The header is short enough for the buffer of 256 bytes, whatever the frame holds.
length-header : (f : BusFrame) → length (chain (header_texts f) []) < 256
unfolding header_texts
length-header f = omega (
  arith,
  length-chain (header_texts f),
  length-show 20 10 (timestamp_ns f / 1000) [],
  length-show 20 10 (timestamp_ns f % 1000) [],
  length-pad 3 (dec64 (timestamp_ns f % 1000)),
  length-bus_type_str f.bus,
  length-show 10 10 f.channel [],
  length-dir_str f.dir,
  length-show 8 16 f.id [],
  length-show 10 10 f.extended [],
  length-show 10 10 f.fd [],
  length-show 10 10 f.dlc [],
  length-show 10 10 (status_code f.status) [],
)

-- The bytes in hexadecimal, each with a blank.
abbrev pub hex_bytes : List ℕ → List ℕ
hex_bytes [] = []
hex_bytes (b ∷ bytes) = hex_byte b ++ hex_bytes bytes

payload_text-hex_bytes :
    (n : ℕ) (payload : List ℕ)
    → n ≤ length payload
    → payload_text n payload ≡ some (hex_bytes (take n payload))
unfolding payload_text
payload_text-hex_bytes zero payload h = refl
payload_text-hex_bytes (suc n) [] h = absurd (omega arith)
payload_text-hex_bytes (suc n) (b ∷ payload) h =
    rw (payload_text-hex_bytes n payload (omega arith)) refl

payload_text-overread :
    (n : ℕ) (payload : List ℕ) → length payload < n → payload_text n payload ≡ none
unfolding payload_text
payload_text-overread zero payload h = absurd (omega arith)
payload_text-overread (suc n) [] h = refl
payload_text-overread (suc n) (b ∷ payload) h =
    rw (payload_text-overread n payload (omega arith)) refl

-- What `frame_to_string` does with a well-formed frame: with a `dlc` of at most 64 it reads neither
-- its buffer nor the payload behind the end, the header fits the buffer whole, and behind it and a
-- blank stand the first `dlc` bytes of the payload in hexadecimal. With a larger `dlc`, which the
-- field can hold, it reads behind the payload.
pub frame_to_string_lem :
    (f : BusFrame)
    → IsFrame f
    → frame_to_string f ≡ (
        if leb f.dlc 64
        then some (chain (header_texts f) [] ++ 32 ∷ hex_bytes (take f.dlc f.payload))
        else none)
unfolding frame_to_string format_buffer
frame_to_string_lem f h =
    let fits : ltb (length (chain (header_texts f) [])) 256 ≡ true =
      ground (arith, length-header f) in
    elim (Bool-cases (leb f.dlc 64)) [
      | inl within ↦
          let held : f.dlc ≤ length f.payload = ground (arith, h.payload_length, within) in
          rw (fits, within, payload_text-hex_bytes f.dlc f.payload held) refl
      | inr beyond ↦
          let short : length f.payload < f.dlc = ground (arith, h.payload_length, beyond) in
          rw (fits, beyond, payload_text-overread f.dlc f.payload short) refl
    ]
