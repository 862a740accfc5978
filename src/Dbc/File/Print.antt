-- ===== src/Dbc/File/Print.antt =====
-- A DBC file written out: message lines of Dbc/Bo, signal lines of Dbc/Sg/Print, each behind the
-- message it belongs to.
use bus_test_platform.Prelude.{ℕ, ◌≤◌, ◌≡◌, some, List, [], ◌∷◌, ◌++◌, All}
use bus_test_platform.Signal.{Doubles, Signal}
use bus_test_platform.Dbc.{DbcMessage}
use bus_test_platform.Dbc.Text.{Numbers, parse_u32, IsToken}
use bus_test_platform.Dbc.Bo.{bo_line}
use bus_test_platform.Dbc.Scan.{Decimals, Without}
use bus_test_platform.Dbc.Sg.Print.{SgText, sg_line, IsPrintable}
use bus_test_platform.Dbc.Sg.RoundTrip.{Reads, signal_of}

pub record BoText : Type 0 where
  pub id : List ℕ
  pub name : List ℕ
  pub dlc : List ℕ
  pub node : List ℕ
  pub signals : List SgText

abbrev pub sg_text : List SgText → List ℕ
sg_text [] = []
sg_text (t ∷ ts) = sg_line t ++ 10 ∷ sg_text ts

abbrev pub db_text : List BoText → List ℕ
db_text [] = []
db_text (m ∷ ms) = bo_line m.id m.name m.dlc m.node ++ 10 ∷ (sg_text m.signals ++ db_text ms)

module _ {d : Doubles} (n : Numbers) (r : Decimals d) where
  -- The texts of a signal line can be read, and its unit is on one line.
  pub record SgReadable (t : SgText) : Type 0 where
    pub reads : Reads n r t
    pub printable : IsPrintable t
    pub receivers_token : IsToken t.receivers
    pub unit_line : Without 10 t.unit_text

  pub record BoReadable (m : BoText) : Type 0 where
    pub id : ℕ
    pub dlc : ℕ
    pub id_read : parse_u32 n m.id ≡ some id
    pub dlc_read : parse_u32 n m.dlc ≡ some dlc
    pub dlc_short : dlc ≤ 64
    pub id_token : IsToken m.id
    pub name_token : IsToken (m.name ++ b':' ∷ [])
    pub dlc_token : IsToken m.dlc
    pub node_token : IsToken m.node
    pub signals : All SgReadable m.signals

  abbrev pub signals_of : (ts : List SgText) → All SgReadable ts → List (Signal d)
  signals_of [] h = []
  signals_of (t ∷ ts) (ht, h) = signal_of t ht.reads ∷ signals_of ts h

  abbrev pub message_of : (m : BoText) → BoReadable m → DbcMessage d
  message_of m h = record {
    id = h.id;
    name = m.name;
    dlc = h.dlc;
    tx_node = m.node;
    signals = signals_of m.signals h.signals;
  }

  abbrev pub messages_of : (ms : List BoText) → All BoReadable ms → List (DbcMessage d)
  messages_of [] h = []
  messages_of (m ∷ ms) (hm, h) = message_of m hm ∷ messages_of ms h
