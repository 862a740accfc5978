-- ===== src/Dbc/File.antt =====
-- The whole of a DBC file: `DbcParser::parse` of software/src/protocol/dbc/dbc_parser.cpp. The list
-- is `messages_`, in its order.
pub mod Lines
pub mod Whole
pub mod Print
pub mod RoundTrip
use bus_test_platform.Prelude.{
  ℕ, Bool, true, false, ◌||◌, Option, none, some, List, [], ◌∷◌, ◌++◌, if◌then◌else◌,
}
use bus_test_platform.Signal.{Doubles, Signal}
use bus_test_platform.Dbc.{DbcMessage}
use bus_test_platform.Dbc.Text.{Numbers, is_nil, trim}
use bus_test_platform.Dbc.Bo.{BoResult, parsed, refused as bo_refused, parse_bo}
use bus_test_platform.Dbc.Result.{DbcError, bo_error, sg_before_bo, Result, refused, taken, ◌>>=◌}
use bus_test_platform.Dbc.Scan.{Decimals, starts_with, getlines}
use bus_test_platform.Dbc.Sg.{parse_sg}

-- `t.rfind("BO_ ", 0) == 0`
abbrev pub is_bo : List ℕ → Bool
is_bo = starts_with (b'B' ∷ b'O' ∷ b'_' ∷ 32 ∷ [])

-- `t.rfind("SG_ ", 0) == 0`
abbrev pub is_sg : List ℕ → Bool
is_sg = starts_with (b'S' ∷ b'G' ∷ b'_' ∷ 32 ∷ [])

-- `t.empty() || t.rfind("//", 0) == 0`
abbrev pub is_comment : List ℕ → Bool
is_comment t = is_nil t || starts_with (b'/' ∷ b'/' ∷ []) t

module _ {d : Doubles} where
  -- `messages_.back().signals.push_back(sig)`
  unfoldable pub add_signal : List (DbcMessage d) → Signal d → List (DbcMessage d)
  add_signal [] s = []
  add_signal (m ∷ ms) s =
      let rest = add_signal ms s in
      if is_nil ms
      then (record {
        id = m.id;
        name = m.name;
        dlc = m.dlc;
        tx_node = m.tx_node;
        signals = m.signals ++ s ∷ [];
      })
        ∷ []
      else m ∷ rest

  module _ (n : Numbers) (r : Decimals d) where
    -- `messages_` behind a `BO_` line.
    unfoldable pub add_message : List (DbcMessage d) → List ℕ → Result (List (DbcMessage d))
    add_message ms t = elim (parse_bo {d = d} n t) [
      | bo_refused e ↦ refused (bo_error e)
      | parsed m ↦ taken (ms ++ m ∷ [])
    ]

    -- The body of the loop, on a trimmed line.
    unfoldable pub parse_line : List (DbcMessage d) → List ℕ → Result (List (DbcMessage d))
    parse_line ms t =
        if is_comment t
        then taken ms
        else if is_bo t
        then add_message ms t
        else if is_sg t
        then (if is_nil ms
            then refused sg_before_bo
            else (do s ← parse_sg n r t; taken (add_signal ms s)))
        else taken ms

    -- The loop: `messages_` at its end, and the error that ended it.
    unfoldable pub parse_lines :
        List (DbcMessage d) → List (List ℕ) → List (DbcMessage d) × Option DbcError
    parse_lines ms [] = (ms, none)
    parse_lines ms (line ∷ lines) = elim (parse_line ms (trim line)) [
      | refused e ↦ (ms, some e)
      | taken now ↦ parse_lines now lines
    ]

    unfoldable pub parse : List ℕ → List (DbcMessage d) × Option DbcError
    parse text = parse_lines [] (getlines text)
