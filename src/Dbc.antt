-- ===== src/Dbc.antt =====
-- DBC messages and their lookup, software/src/protocol/dbc/dbc_parser.h and dbc_parser.cpp. A
-- `std::string` is the list of its bytes.
pub mod Text
pub mod Bo
pub mod Result
pub mod Scan
pub mod Sg
pub mod File
use bus_test_platform.Prelude.{same_name, ℕ, Option, none, some, List, [], ◌∷◌, ◌==◌, if◌then◌else◌}
use bus_test_platform.Signal.{Doubles, Signal}

-- `struct DbcMessage`
pub record DbcMessage (d : Doubles) : Type 0 where
  pub id : ℕ
  pub name : List ℕ
  pub dlc : ℕ
  pub tx_node : List ℕ
  pub signals : List (Signal d)

module _ {d : Doubles} where
  -- `find_message(uint32_t)`; `none` is the null pointer.
  unfoldable pub find_message : List (DbcMessage d) → ℕ → Option (DbcMessage d)
  find_message [] id = none
  find_message (m ∷ messages) id = if m.id == id then some m else find_message messages id

  -- `find_message(const std::string&)`
  unfoldable pub find_message_named : List (DbcMessage d) → List ℕ → Option (DbcMessage d)
  find_message_named [] name = none
  find_message_named (m ∷ messages) name =
      if same_name m.name name then some m else find_message_named messages name
