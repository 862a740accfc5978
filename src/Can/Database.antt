-- ===== src/Can/Database.antt =====
-- From the text of a database to the values of a frame: `DbcParser::parse` and `find_message` of
-- software/src/protocol/dbc/dbc_parser.cpp, then `CanDecoder::decode_frame` of
-- software/src/protocol/can/can_decoder.cpp.
use mathlib.Core.Option.{some-injective}
use bus_test_platform.Prelude.{
  ◌>>=◌, ℕ, zero, suc, ◌≤◌, ◌≡◌, refl, sym, ap, ap₂, ◌∙◌, true, false, some, List, [], ◌∷◌, map,
  ◌==◌, if◌then◌else◌, get_elem?, All, arith,
}
use bus_test_platform.Prelude.Keys.{Absent, Distinct}
use bus_test_platform.Frame.{BusFrame, IsFrame}
use bus_test_platform.Signal.{Doubles, Signal}
use bus_test_platform.Dbc.{DbcMessage, find_message}
use bus_test_platform.Dbc.Text.{Numbers}
use bus_test_platform.Dbc.Scan.{Decimals}
use bus_test_platform.Dbc.File.{parse}
use bus_test_platform.Dbc.File.Print.{BoText, BoReadable, db_text, messages_of}
use bus_test_platform.Dbc.File.RoundTrip.{parse-db_text}
use bus_test_platform.Can.{SignalValue, decode_signal, decode_frame}
use bus_test_platform.Can.Signed.{signed_value}
use bus_test_platform.Can.Decode.{field_bits, decode_frame-map, decode_signal-physical}

module _ {d : Doubles} where
  Absent-at :
      (messages : List (DbcMessage d)) (id place : ℕ) (m : DbcMessage d)
      → Absent (λ (k : DbcMessage d). k.id) ◌==◌ id messages
      → get_elem? messages place ≡ some m
      → m.id == id ≡ false
  Absent-at [] id place m h e = absurd (cc)
  Absent-at (k ∷ messages) id zero m (hk, h) e =
      ap (λ (x : DbcMessage d). x.id == id) (sym (some-injective k m e)) ∙ hk
  Absent-at (k ∷ messages) id (suc place) m (hk, h) e = Absent-at messages id place m h e

  -- Where no two messages share an identifier, each is found under its own.
  find_message-at :
      (messages : List (DbcMessage d)) (place : ℕ) (m : DbcMessage d)
      → Distinct (λ (k : DbcMessage d). k.id) ◌==◌ messages
      → get_elem? messages place ≡ some m
      → find_message messages m.id ≡ some m
  unfolding find_message
  find_message-at [] place m h e = absurd (cc)
  find_message-at (k ∷ messages) zero m (hk, h) e =
      let same : k ≡ m = some-injective k m e in
      let found : k.id == m.id ≡ true =
        (let ids : k.id ≡ m.id = ap (λ (x : DbcMessage d). x.id) same in ground arith) in
      rw (found) (ap some same)
  find_message-at (k ∷ messages) (suc place) m (hk, h) e =
      let apart = Absent-at messages k.id place m hk e in
      let passed : k.id == m.id ≡ false = ground arith in
      rw (passed) (find_message-at messages place m h e)

  -- The name of a signal and the value that its bits in a frame stand for.
  abbrev pub reading : BusFrame → Signal d → List ℕ × d.Double
  reading frame s =
      let bits = field_bits s.little_endian frame.payload frame.dlc s.start_bit s.len in
      (
        s.name,
        if s.is_signed
            then d.add (d.mul (d.of_i64 (signed_value s.len bits)) s.factor) s.offset
            else d.add (d.mul (d.of_u64 bits) s.factor) s.offset,
      )

  abbrev pub shown_value : SignalValue d → List ℕ × d.Double
  shown_value v = (v.signal_name, v.physical)

  readings :
      (msg : DbcMessage d) (frame : BusFrame) (signals : List (Signal d))
      → IsFrame frame
      → frame.dlc ≤ 64
      → All (λ (s : Signal d). (1 ≤ s.len) × (s.len ≤ 64)) signals
      → map shown_value (map (decode_signal d msg frame) signals) ≡ map (reading frame) signals
  unfolding decode_signal
  readings msg frame [] hf hd h = refl
  readings msg frame (s ∷ signals) hf hd (hs, h) =
      ap₂ ◌∷◌
        (ap (λ (x : d.Double). (s.name, x))
          (decode_signal-physical d msg frame s hf.payload_bytes (omega (arith, hf.payload_length))
            hs.0 hs.1))
        (readings msg frame signals hf hd h)

  -- A frame, as the message at a place of a database says it: the file is written from messages and
  -- signals that can be read (as for `parse-db_text`), no two messages share an identifier, the
  -- frame is well formed, carries the identifier of the message and holds `dlc` bytes, and each
  -- signal of the message has 1 to 64 bits. Then parsing the file, finding the message of the frame and
  -- decoding the frame gives, for each signal in order, its name and the value that its bits stand for.
  pub decode_frame-db_text :
      (n : Numbers) (r : Decimals d) (ms : List BoText) (h : All (BoReadable n r) ms) (place : ℕ)
      (msg : DbcMessage d) (frame : BusFrame) (out : List (SignalValue d))
      → Distinct (λ (k : DbcMessage d). k.id) ◌==◌ (messages_of n r ms h)
      → get_elem? (messages_of n r ms h) place ≡ some msg
      → frame.id ≡ msg.id
      → IsFrame frame
      → frame.dlc ≤ 64
      → All (λ (s : Signal d). (1 ≤ s.len) × (s.len ≤ 64)) msg.signals
      → (do
        found ← find_message (parse n r (db_text ms)).0 frame.id
        values ← decode_frame d found frame (some out)
        some (map shown_value values))
        ≡ some (map (reading frame) msg.signals)
  decode_frame-db_text n r ms h place msg frame out hi hp hm hf hd hs =
      rw
        (
          parse-db_text n r ms h,
          ap (find_message (messages_of n r ms h)) hm
              ∙ find_message-at (messages_of n r ms h) place msg hi hp,
          decode_frame-map d msg frame out,
        )
        (ap some (readings msg frame msg.signals hf hd hs))
