-- ===== src/Dbc/Bo.antt =====
-- The message line of a DBC file: `DbcParser::parse_bo` of
-- software/src/protocol/dbc/dbc_parser.cpp. The messages of the errors are constructors.
use bus_test_platform.Prelude.{
  ◌>>=◌, ℕ, ◌≤◌, ◌≡◌, refl, Bool, false, ◌&&◌, Option, none, some, List, [], ◌∷◌, ◌++◌, ltb, ◌==◌,
  if◌then◌else◌, drop, arith,
}
use bus_test_platform.Signal.{Doubles}
use bus_test_platform.Dbc.{DbcMessage}
use bus_test_platform.Dbc.Text.{
  is_nil, read_token, Numbers, parse_u32, IsToken, read_token-token, read_token-blank,
  read_token-last,
}

pub data BoError : Type 0 where
  malformed_line : List ℕ → BoError
  bad_id : List ℕ → BoError
  bad_dlc : List ℕ → BoError

pub data BoResult (d : Doubles) : Type 0 where
  refused : BoError → BoResult d
  parsed : DbcMessage d → BoResult d

-- `name_tok.back() == ':'` and `pop_back`
unfoldable pub strip_colon : List ℕ → Option (List ℕ)
strip_colon [] = none
strip_colon (c ∷ s) =
    if is_nil s
    then (if c == 58 then some [] else none)
    else do rest ← strip_colon s; some (c ∷ rest)

-- `colon_tok == ":"`
unfoldable pub is_colon : List ℕ → Bool
is_colon [] = false
is_colon (c ∷ s) = is_nil s && c == 58

-- The name without its colon, which may be a token of its own, and the stream behind it.
unfoldable pub read_name : List ℕ → List ℕ → Option (List ℕ × List ℕ)
read_name name s = elim (strip_colon name) [
  | some short ↦ some (short, s)
  | none ↦ do (colon, rest) ← read_token s; if is_colon colon then some (name, rest) else none
]

-- The tokens of the line: identifier, name, length and node, the last empty if it is missing.
unfoldable pub bo_tokens : List ℕ → Option (List ℕ × List ℕ × List ℕ × List ℕ)
bo_tokens line = do
  (id, s1) ← read_token (drop 4 line)
  (name, s2) ← read_token s1
  (short, s3) ← read_name name s2
  (dlc, s4) ← read_token s3
  some (id, short, dlc, elim (read_token s4) [ some (node, s5) ↦ node | none ↦ [] ])

module _ {d : Doubles} (n : Numbers) where
  unfoldable pub bo_message : List ℕ × List ℕ × List ℕ × List ℕ → BoResult d
  bo_message (id, name, dlc, node) = elim (parse_u32 n id) [
    | none ↦ refused (bad_id id)
    | some v ↦ elim (parse_u32 n dlc) [
      | none ↦ refused (bad_dlc dlc)
      | some k ↦
          if ltb 64 k
          then refused (bad_dlc dlc)
          else parsed (record { id = v; name = name; dlc = k; tx_node = node; signals = [] })
    ]
  ]

  -- The message that is appended to `messages_`, or the error.
  unfoldable pub parse_bo : List ℕ → BoResult d
  parse_bo line = elim (bo_tokens line) [
    | none ↦ refused (malformed_line line)
    | some tokens ↦ bo_message tokens
  ]

-- A `BO_` line with the colon glued to the name.
abbrev pub bo_line : List ℕ → List ℕ → List ℕ → List ℕ → List ℕ
bo_line id name dlc node =
    66 ∷ 79 ∷ 95 ∷ 32 ∷ (id ++ 32 ∷ ((name ++ 58 ∷ []) ++ 32 ∷ (dlc ++ 32 ∷ node)))

strip_colon-append : (name : List ℕ) → strip_colon (name ++ 58 ∷ []) ≡ some name
unfolding strip_colon
strip_colon-append [] = refl
strip_colon-append (c ∷ []) = refl
strip_colon-append (c ∷ b ∷ name) = rw (strip_colon-append (b ∷ name)) refl

bo_tokens-bo_line :
    (id name dlc node : List ℕ)
    → IsToken id
    → IsToken (name ++ 58 ∷ [])
    → IsToken dlc
    → IsToken node
    → bo_tokens (bo_line id name dlc node) ≡ some (id, name, dlc, node)
unfolding bo_tokens read_name
bo_tokens-bo_line id name dlc node hi hn hd ht =
    rw
      (
        bo_tokens,
        read_token-token id ((name ++ 58 ∷ []) ++ 32 ∷ (dlc ++ 32 ∷ node)) hi,
        read_token-blank ((name ++ 58 ∷ []) ++ 32 ∷ (dlc ++ 32 ∷ node)),
        read_token-token (name ++ 58 ∷ []) (dlc ++ 32 ∷ node) hn,
        read_name,
        strip_colon-append name,
        read_token-blank (dlc ++ 32 ∷ node),
        read_token-token dlc node hd,
        read_token-blank node,
        read_token-last node ht,
      )
      refl

-- A `BO_` line printed from its tokens, with the colon glued to the name and a node at its end, is
-- parsed back to them, where the identifier and the length are read as numbers and the length is at
-- most 64.
pub parse_bo-bo_line :
    {d : Doubles} (n : Numbers) (id name dlc node : List ℕ) (v k : ℕ)
    → IsToken id
    → IsToken (name ++ 58 ∷ [])
    → IsToken dlc
    → IsToken node
    → parse_u32 n id ≡ some v
    → parse_u32 n dlc ≡ some k
    → k ≤ 64
    → parse_bo {d = d} n (bo_line id name dlc node)
      ≡ parsed (record { id = v; name = name; dlc = k; tx_node = node; signals = [] })
unfolding parse_bo bo_message
parse_bo-bo_line n id name dlc node v k hi hn hd ht ei ek hk =
    let short : ltb 64 k ≡ false = ground arith in
    rw (parse_bo, bo_tokens-bo_line id name dlc node hi hn hd ht, bo_message, ei, ek, short) refl
