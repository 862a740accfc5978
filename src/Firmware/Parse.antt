-- ===== src/Firmware/Parse.antt =====
-- `usb_protocol_parse` and `usb_protocol_handle_cmd` of
-- firmware/src/protocol/usb_protocol_handler.c.
use bus_test_platform.Prelude.{
  ℕ, ◌+◌, ◌*◌, ◌/◌, ◌%◌, ◌^◌, ◌≤◌, ◌<◌, ◌≡◌, ◌⊎◌, ◌≢◌, none, some, List, ◌++◌, leb, if◌then◌else◌,
  take, drop, bit_or, arith, get_or-take,
}
use bus_test_platform.Wire.{Header, header_bytes, magic}
use bus_test_platform.Wire.Bytes.{join_u16, join_u32}
use bus_test_platform.Firmware.{get_u16, get_u32, read_header, Parsed, accept_header, parse}

-- Joining the two bytes of a word gives the word back.
pub join-u16_bytes : (v : ℕ) → v < 2 ^ 16 → bit_or (v % 256) (v / 256 % 256 * 2 ^ 8) % 2 ^ 16 ≡ v
join-u16_bytes v h = rw (join_u16 (v % 256) (v / 256 % 256) (omega arith)) (omega arith)

pub join-u32_bytes :
    (v : ℕ)
    → v < 2 ^ 32
    → bit_or
        (bit_or (bit_or (v % 256) (v / 256 % 256 * 2 ^ 8)) (v / 65536 % 256 * 2 ^ 16))
        (v / 16777216 % 256 * 2 ^ 24)
      ≡ v
join-u32_bytes v h =
    rw
      (join_u32 (v % 256) (v / 256 % 256) (v / 65536 % 256) (v / 16777216 % 256) (omega arith)
        (omega arith) (omega arith))
      (omega arith)

-- The header that the wire format stores in its twelve bytes.
abbrev pub sent_header : ℕ → ℕ → ℕ → Header
sent_header kind len seq = record {
  magic_field = magic;
  version_field = 1;
  kind = kind;
  length_field = len;
  seq = seq;
  reserved = 0;
}

pub read_header-header_bytes :
    (kind len seq : ℕ) (rest : List ℕ)
    → len < 2 ^ 16
    → seq < 2 ^ 16
    → read_header (header_bytes kind len seq ++ rest) ≡ sent_header kind len seq
unfolding read_header get_u16 get_u32
read_header-header_bytes kind len seq rest hl hs = rw (join-u16_bytes len hl, join-u16_bytes seq hs)

-- On the bytes of a header, with 16-bit length and sequence number, and what follows it,
-- `usb_protocol_parse` succeeds exactly when the announced payload lies within the given length,
-- and then hands out the header that was sent and the bytes behind it.
pub parse-header_bytes :
    (kind len seq n : ℕ) (rest : List ℕ)
    → len < 2 ^ 16
    → seq < 2 ^ 16
    → parse (some (header_bytes kind len seq ++ rest)) n ≡ (
        if leb (12 + len) n
        then some (record { header = sent_header kind len seq; payload = rest; payload_len = len })
        else none)
unfolding parse accept_header
parse-header_bytes kind len seq n rest hl hs =
    ground (arith, read_header-header_bytes kind len seq rest hl hs)

-- Whatever the buffer holds: a packet that `usb_protocol_parse` accepts has the magic number and the
-- version of the protocol, and its payload lies wholly within the given length.
pub parse_sound :
    (buf : List ℕ) (len : ℕ) {p : Parsed}
    → parse (some buf) len ≡ some p
    → (p.header ≡ read_header buf)
      × (p.header.magic_field ≡ 0x5442)
      × (p.header.version_field ≡ 1)
      × (p.payload ≡ drop 12 buf)
      × (p.payload_len ≡ p.header.length_field)
      × (12 + p.payload_len ≤ len)
unfolding parse accept_header
parse_sound buf len h = ground arith

-- A packet is refused only for a reason: it is shorter than a header, its magic number or version is
-- wrong, or it announces more payload than the given length holds.
pub parse_refuses :
    (buf : List ℕ) (len : ℕ)
    → parse (some buf) len ≡ none
    → (len < 12)
      ⊎ (((read_header buf).magic_field ≢ 0x5442)
          ⊎ (((read_header buf).version_field ≢ 1) ⊎ (len < 12 + (read_header buf).length_field)))
unfolding parse accept_header
parse_refuses buf len h = ground arith

-- The header is read from the first twelve bytes only.
read_header-take : (buf : List ℕ) → read_header (take 12 buf) ≡ read_header buf
unfolding read_header get_u16 get_u32
read_header-take buf = rw (
  get_or-take 12 buf 0 0 (omega arith),
  get_or-take 12 buf 1 0 (omega arith),
  get_or-take 12 buf 2 0 (omega arith),
  get_or-take 12 buf 3 0 (omega arith),
  get_or-take 12 buf 4 0 (omega arith),
  get_or-take 12 buf 5 0 (omega arith),
  get_or-take 12 buf 6 0 (omega arith),
  get_or-take 12 buf 7 0 (omega arith),
  get_or-take 12 buf 8 0 (omega arith),
  get_or-take 12 buf 9 0 (omega arith),
  get_or-take 12 buf 10 0 (omega arith),
  get_or-take 12 buf 11 0 (omega arith),
)
