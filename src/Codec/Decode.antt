-- ===== src/Codec/Decode.antt =====
-- The decoders of software/src/protocol/usb/usb_frame_codec.cpp, and how they agree with the
-- firmware's parser.
use bus_test_platform.Prelude.{
  ℕ, ◌+◌, ◌^◌, ◌≤◌, ◌<◌, ◌≡◌, refl, ap, ◌∙◌, true, Option, none, some, List, ◌++◌, leb,
  if◌then◌else◌, arith, is_some,
}
use bus_test_platform.Firmware.{read_header, get_u16, Parsed, accept_header, parse, handle_cmd}
use bus_test_platform.Firmware.Parse.{join-u16_bytes, join-u32_bytes}
use bus_test_platform.Wire.{header_bytes, request_bytes, kind_cmd}
use bus_test_platform.Codec.{Fields, parse_header, read_request, decode_request, decode_cmd}

abbrev pub fields_of : Option Parsed → Option Fields
fields_of none = none
fields_of (some p) =
    some (record { kind = p.header.kind; len = p.header.length_field; seq = p.header.seq })

-- The host's `parse_header` accepts exactly the packets that the firmware's `usb_protocol_parse`
-- accepts, and reads the same kind, length and sequence number.
pub parse_header-eq-parse :
    (buf : Option (List ℕ)) (len : ℕ) → parse_header buf len ≡ fields_of (parse buf len)
unfolding parse_header parse accept_header read_header get_u16
parse_header-eq-parse none len = refl
parse_header-eq-parse (some buf) len = ground arith

pub handle_cmd-eq-decode_cmd :
    (pkt : Option (List ℕ)) (len : ℕ) → handle_cmd pkt len ≡ is_some (decode_cmd pkt len)
unfolding handle_cmd decode_cmd decode_request parse_header parse accept_header read_header get_u16
handle_cmd-eq-decode_cmd none len = refl
handle_cmd-eq-decode_cmd (some buf) len = ground arith

-- The host's reading of a header that was sent.
pub parse_header-header_bytes :
    (kind len seq n : ℕ) (rest : List ℕ)
    → len < 2 ^ 16
    → seq < 2 ^ 16
    → parse_header (some (header_bytes kind len seq ++ rest)) n
      ≡ (if leb (12 + len) n then some (record { kind = kind; len = len; seq = seq }) else none)
unfolding parse_header
parse_header-header_bytes kind len seq n rest hl hs =
    ground (arith, join-u16_bytes len hl, join-u16_bytes seq hs)

read_request-request_bytes :
    (code channel param : ℕ) (payload : List ℕ)
    → code < 2 ^ 16
    → channel < 2 ^ 16
    → param < 2 ^ 32
    → read_request (request_bytes code channel param payload)
      ≡ record { code = code; channel = channel; param = param }
unfolding read_request
read_request-request_bytes code channel param payload hc hh hp =
    rw (join-u16_bytes code hc, join-u16_bytes channel hh, join-u32_bytes param hp)

-- On the bytes of a header of the asked kind and a request behind it, the decoder hands out what
-- was sent, if the given length holds the announced payload of at least eight bytes.
pub decode_request-bytes :
    (kind len seq n code channel param : ℕ) (payload : List ℕ)
    → 8 ≤ len
    → len < 2 ^ 16
    → seq < 2 ^ 16
    → 12 + len ≤ n
    → code < 2 ^ 16
    → channel < 2 ^ 16
    → param < 2 ^ 32
    → decode_request kind
        (some (header_bytes kind len seq ++ request_bytes code channel param payload))
        n
      ≡ some (record { code = code; channel = channel; param = param })
unfolding decode_request
decode_request-bytes kind len seq n code channel param payload h8 hl hs hn hc hh hp = ground (
  arith,
  parse_header-header_bytes kind len seq n (request_bytes code channel param payload) hl hs,
  read_request-request_bytes code channel param payload hc hh hp,
)

-- Of the bytes of a command packet whose announced payload has at least eight bytes and lies within
-- the given length, the dispatcher takes every one, whatever its 16-bit code: also a code that no
-- command of the protocol has.
pub handle_cmd-request_bytes :
    (len seq n code channel param : ℕ) (payload : List ℕ)
    → 8 ≤ len
    → len < 2 ^ 16
    → seq < 2 ^ 16
    → 12 + len ≤ n
    → code < 2 ^ 16
    → channel < 2 ^ 16
    → param < 2 ^ 32
    → handle_cmd
        (some (header_bytes kind_cmd len seq ++ request_bytes code channel param payload))
        n
      ≡ true
unfolding decode_cmd
handle_cmd-request_bytes len seq n code channel param payload h8 hl hs hn hc hh hp =
    let pkt = header_bytes kind_cmd len seq ++ request_bytes code channel param payload in
    handle_cmd-eq-decode_cmd (some pkt) n
    ∙ ap is_some
        (decode_request-bytes kind_cmd len seq n code channel param payload h8 hl hs hn hc hh hp)
