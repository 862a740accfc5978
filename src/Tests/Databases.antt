-- ===== src/Tests/Databases.antt =====
-- A DBC file with one message and one signal.
use bus_test_platform.Prelude.{
  ◌>>=◌, map, ℕ, ◌+◌, ◌-◌, ◌*◌, ◌≡◌, refl, ◌&&◌, true, false, ◌++◌, none, some, List, [], ◌∷◌, leb,
  ◌==◌, if◌then◌else◌, arith,
}
use bus_test_platform.Frame.{BusFrame, IsFrame}
use bus_test_platform.Can.{decode_frame}
use bus_test_platform.Can.Database.{shown_value, decode_frame-db_text}
use bus_test_platform.Dbc.{find_message}
use bus_test_platform.Dbc.Text.{Numbers, is_space, parse_u32}
use bus_test_platform.Dbc.Result.{taken}
use bus_test_platform.Dbc.Scan.{Decimals, Without, parse_double}
use bus_test_platform.Dbc.Sg.{parse_sg}
use bus_test_platform.Dbc.Sg.Print.{SgText, sg_line, is_plain, IsPrintable}
use bus_test_platform.Dbc.Sg.RoundTrip.{Reads, sg_line_to, parse_sg-sg_line, parse_sg-no_range}
use bus_test_platform.Dbc.File.{parse}
use bus_test_platform.Dbc.File.Print.{BoText, db_text, BoReadable, message_of}
use bus_test_platform.Dbc.File.RoundTrip.{parse-db_text}
use bus_test_platform.Tests.Data.{whole, frame}

-- The decimal digits in front, and how many they are.
abbrev leading : ℕ → ℕ → List ℕ → ℕ × ℕ
leading v pos [] = (v, pos)
leading v pos (c ∷ s) =
    let rest = leading (v * 10 + (c - 48)) (pos + 1) s in
    if leb 48 c && leb c 57 then rest else (v, pos)

abbrev decimal : Numbers
decimal = record {
  stoul = λ tok. let (v, pos) = leading 0 0 tok in if pos == 0 then none else some (v, pos);
}

-- "291", "Eng", "8" and "ECU"
abbrev id : List ℕ
id = 50 ∷ 57 ∷ 49 ∷ []

abbrev name : List ℕ
name = 69 ∷ 110 ∷ 103 ∷ []

abbrev node : List ℕ
node = 69 ∷ 67 ∷ 85 ∷ []

abbrev digits : Decimals whole
digits = record {
  stod = λ tok. let (v, pos) = leading 0 0 tok in if pos == 0 then none else some (v, pos);
}

-- `SG_ Rpm : 4|12@0+ (2,5) [0|9] "<unit>" ECU`
abbrev speed : List ℕ → SgText
speed unit_text = record {
  name = b'R' ∷ b'p' ∷ b'm' ∷ [];
  start = b'4' ∷ [];
  len = b'1' ∷ b'2' ∷ [];
  little = true;
  signed = false;
  factor = b'2' ∷ [];
  offset = b'5' ∷ [];
  lowest = b'0' ∷ [];
  highest = b'9' ∷ [];
  unit_text = unit_text;
  receivers = node;
}

-- "km h" and "rpm"
abbrev two_words : List ℕ
two_words = b'k' ∷ b'm' ∷ 32 ∷ b'h' ∷ []

two_words_closed : Without b'"' two_words
two_words_closed = (omega arith, (omega arith, (omega arith, (omega arith, tt))))

abbrev one_word : List ℕ
one_word = b'r' ∷ b'p' ∷ b'm' ∷ []

speed_reads : (unit_text : List ℕ) → Reads decimal digits (speed unit_text)
unfolding parse_u32 parse_double
speed_reads unit_text = record {
  start_bit = 4;
  len = 12;
  factor = 2;
  offset = 5;
  min_value = 0;
  max_value = 9;
  start_read = refl;
  len_read = refl;
  factor_read = refl;
  offset_read = refl;
  lowest_read = refl;
  highest_read = refl;
}

speed-IsPrintable : (unit_text : List ℕ) → Without b'"' unit_text → IsPrintable (speed unit_text)
unfolding is_plain is_space
speed-IsPrintable unit_text closed = record {
  named = refl;
  name_word = (refl, (refl, (refl, tt)));
  start_word = (refl, tt);
  len_word = (refl, (refl, tt));
  factor_word = (refl, tt);
  offset_word = (refl, tt);
  lowest_word = (refl, tt);
  highest_word = (refl, tt);
  unit_closed = closed;
}

parse_sg-sg_line_example :
    parse_sg decimal digits (sg_line (speed two_words))
    ≡ taken (record {
      name = b'R' ∷ b'p' ∷ b'm' ∷ [];
      start_bit = 4;
      len = 12;
      factor = 2;
      offset = 5;
      min_value = 0;
      max_value = 9;
      unit_text = two_words;
      is_signed = false;
      little_endian = true;
    })
unfolding speed_reads
parse_sg-sg_line_example =
    parse_sg-sg_line decimal digits (speed two_words) (speed_reads two_words)
      (speed-IsPrintable two_words two_words_closed)

-- Without the range, "rpm" is lost.
parse_sg-no_range_example :
    parse_sg decimal digits
      (sg_line_to (speed one_word) (b'"' ∷ ((one_word ++ b'"' ∷ []) ++ 32 ∷ node)))
    ≡ taken (record {
      name = b'R' ∷ b'p' ∷ b'm' ∷ [];
      start_bit = 4;
      len = 12;
      factor = 2;
      offset = 5;
      min_value = 0;
      max_value = 0;
      unit_text = [];
      is_signed = false;
      little_endian = true;
    })
unfolding is_plain is_space speed_reads
parse_sg-no_range_example =
    parse_sg-no_range decimal digits (speed one_word) (speed_reads one_word)
      (speed-IsPrintable one_word (omega arith, (omega arith, (omega arith, tt))))
      (refl, (refl, (refl, tt))) (refl, (refl, (refl, tt)))

abbrev engine : BoText
engine = record {
  id = id;
  name = name;
  dlc = b'8' ∷ [];
  node = node;
  signals = speed two_words ∷ [];
}

engine_readable : BoReadable decimal digits engine
unfolding parse_u32 is_space
engine_readable = record {
  id = 291;
  dlc = 8;
  id_read = refl;
  dlc_read = refl;
  dlc_short = omega arith;
  id_token = (refl, (refl, (refl, (refl, tt))));
  name_token = (refl, (refl, (refl, (refl, (refl, tt)))));
  dlc_token = (refl, (refl, tt));
  node_token = (refl, (refl, (refl, (refl, tt))));
  signals = (
    record {
      reads = speed_reads two_words;
      printable = speed-IsPrintable two_words two_words_closed;
      receivers_token = (refl, (refl, (refl, (refl, tt))));
      unit_line = (omega arith, (omega arith, (omega arith, (omega arith, tt))));
    },
    tt,
  );
}

parse-db_text_example : parse decimal digits (db_text (engine ∷ [])) ≡ (
  record {
    id = 291;
    name = name;
    dlc = 8;
    tx_node = node;
    signals =
        record {
          name = b'R' ∷ b'p' ∷ b'm' ∷ [];
          start_bit = 4;
          len = 12;
          factor = 2;
          offset = 5;
          min_value = 0;
          max_value = 9;
          unit_text = two_words;
          is_signed = false;
          little_endian = true;
        }
        ∷ [];
  }
      ∷ [],
  none,
)
unfolding engine_readable speed_reads
parse-db_text_example = parse-db_text decimal digits (engine ∷ []) (engine_readable, tt)

-- The frame 291 with eight bytes: the twelve bits from bit 4 on are 0x341.
abbrev engine_frame : BusFrame
engine_frame = record frame { id = 291 }

engine_frame-IsFrame : IsFrame engine_frame
engine_frame-IsFrame = record {
  timestamp_fits = omega arith;
  channel_fits = omega arith;
  id_fits = omega arith;
  extended_fits = omega arith;
  fd_fits = omega arith;
  dlc_fits = omega arith;
  payload_length = omega arith;
  payload_bytes = omega arith;
}

decode_frame-db_text_example :
    (do
      found ← find_message (parse decimal digits (db_text (engine ∷ []))).0 291
      values ← decode_frame whole found engine_frame (some [])
      some (map shown_value values))
    ≡ some ((b'R' ∷ b'p' ∷ b'm' ∷ [], 0x341 * 2 + 5) ∷ [])
unfolding engine_readable speed_reads
decode_frame-db_text_example =
    decode_frame-db_text decimal digits (engine ∷ []) (engine_readable, tt) 0
      (message_of decimal digits engine engine_readable) engine_frame [] (tt, tt) refl refl
      engine_frame-IsFrame (omega arith) ((omega arith, omega arith), tt)

-- "VERSION", "SG_", and "SG_ x"
abbrev version_line : List ℕ
version_line = b'V' ∷ b'E' ∷ b'R' ∷ []

abbrev short_line : List ℕ
short_line = 32 ∷ b'S' ∷ b'G' ∷ b'_' ∷ 32 ∷ b'x' ∷ []
