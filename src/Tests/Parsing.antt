-- ===== src/Tests/Parsing.antt =====
-- The parsers of both ends of the USB link on concrete bytes.
use bus_test_platform.Prelude.{
  ℕ, ◌+◌, ◌≡◌, ◌≢◌, ◌⊎◌, ◌<◌, ◌≤◌, none, some, List, [], ◌∷◌, ◌++◌, arith, drop,
}
use bus_test_platform.Wire.{header_bytes, kind_cmd}
use bus_test_platform.Firmware.{Parsed, read_header, parse}
use bus_test_platform.Firmware.Parse.{parse-header_bytes, parse_sound, parse_refuses, sent_header}
use bus_test_platform.Codec.{parse_header}
use bus_test_platform.Codec.Decode.{fields_of, parse_header-eq-parse}

abbrev packet : List ℕ
packet = header_bytes kind_cmd 2 9 ++ 5 ∷ 6 ∷ []

abbrev parsed : Parsed
parsed = record { header = sent_header kind_cmd 2 9; payload = 5 ∷ 6 ∷ []; payload_len = 2 }

accepted_packet : parse (some packet) 14 ≡ some parsed
accepted_packet = parse-header_bytes kind_cmd 2 9 14 (5 ∷ 6 ∷ []) (omega arith) (omega arith)

parse_sound_example :
    (parsed.header ≡ read_header packet)
    × (parsed.header.magic_field ≡ 0x5442)
    × (parsed.header.version_field ≡ 1)
    × (parsed.payload ≡ drop 12 packet)
    × (parsed.payload_len ≡ parsed.header.length_field)
    × (12 + parsed.payload_len ≤ 14)
parse_sound_example = parse_sound packet 14 {p = parsed} accepted_packet

-- One byte short of the announced payload.
short : parse (some packet) 13 ≡ none
short = parse-header_bytes kind_cmd 2 9 13 (5 ∷ 6 ∷ []) (omega arith) (omega arith)

parse_refuses_example :
    (13 < 12)
    ⊎ (((read_header packet).magic_field ≢ 0x5442)
        ⊎ (((read_header packet).version_field ≢ 1)
            ⊎ (13 < 12 + (read_header packet).length_field)))
parse_refuses_example = parse_refuses packet 13 short

parse_header-eq-parse_example : parse_header (some packet) 14 ≡ fields_of (parse (some packet) 14)
parse_header-eq-parse_example = parse_header-eq-parse (some packet) 14
