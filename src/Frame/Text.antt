-- ===== src/Frame/Text.antt =====
-- `frame_to_string` of software/src/core/bus_frame.cpp. A text is the list of its bytes.
pub mod Bounds
pub mod Read
pub mod RoundTrip
use bus_test_platform.Prelude.{
  ◌>>=◌, ℕ, zero, suc, ◌+◌, ◌/◌, ◌%◌, ◌^◌, Option, none, some, List, [], ◌∷◌, ◌++◌, ltb,
  if◌then◌else◌, length, take,
}
use bus_test_platform.Prelude.Print.{codes, dec32, dec64, hex32, show, pad, chain}
use bus_test_platform.Frame.{
  BusFrame, Direction, rx, tx, FrameStatus, frame_ok, frame_error, frame_overrun, bus_type_str,
  timestamp_ns,
}

-- `f.dir == BT_DIR_RX ? "RX" : "TX"`
abbrev pub dir_str : Direction → List ℕ
dir_str rx = codes "RX"
dir_str tx = codes "TX"

-- `static_cast<unsigned>(f.status)`
abbrev pub status_code : FrameStatus → ℕ
status_code frame_ok = 0
status_code frame_error = 1
status_code frame_overrun = 2

-- The pieces of the format with its arguments, in their order.
unfoldable pub header_texts : BusFrame → List (List ℕ)
header_texts f =
    codes "["
    ∷ dec64 (timestamp_ns f / 1000)
    ∷ codes "."
    ∷ pad 3 (dec64 (timestamp_ns f % 1000))
    ∷ codes " us] "
    ∷ codes (bus_type_str f.bus)
    ∷ codes " ch"
    ∷ dec32 f.channel
    ∷ codes " "
    ∷ dir_str f.dir
    ∷ codes " id=0x"
    ∷ hex32 f.id
    ∷ codes " ext="
    ∷ dec32 f.extended
    ∷ codes " fd="
    ∷ dec32 f.fd
    ∷ codes " dlc="
    ∷ dec32 f.dlc
    ∷ codes " st="
    ∷ dec32 (status_code f.status)
    ∷ []

-- `std::string(buf, n)` after `snprintf` into the 256 bytes of `buf`: what does not fit is cut off
-- and a NUL ends it. `none` is a read behind `buf`.
unfoldable pub format_buffer : List ℕ → Option (List ℕ)
format_buffer text =
    if ltb (length text) 256
    then some text
    else if ltb 256 (length text)
    then none
    else some (take 255 text ++ 0 ∷ [])

-- `"%02X "`
abbrev pub hex_byte : ℕ → List ℕ
hex_byte b = pad 2 (hex32 b) ++ 32 ∷ []

-- The loop over `f.data` with `n` rounds to go; `none` is a read behind `data`.
unfoldable pub payload_text : ℕ → List ℕ → Option (List ℕ)
payload_text zero payload = some []
payload_text (suc n) [] = none
payload_text (suc n) (b ∷ payload) = do rest ← payload_text n payload; some (hex_byte b ++ rest)

unfoldable pub frame_to_string : BusFrame → Option (List ℕ)
frame_to_string f = do
  header ← format_buffer (chain (header_texts f) [])
  bytes ← payload_text f.dlc f.payload
  some (header ++ 32 ∷ bytes)
