-- ===== src/Dbc/Sg.antt =====
-- The signal line of a DBC file: `DbcParser::parse_sg` of
-- software/src/protocol/dbc/dbc_parser.cpp, in the steps that the line is read in.
pub mod Print
pub mod Geometry
pub mod Pieces
pub mod RoundTrip
use bus_test_platform.Prelude.{
  ℕ, ◌+◌, ◌-◌, ◌%◌, ◌^◌, Bool, true, false, not, ◌&&◌, ◌||◌, Option, none, some, List, [], ◌∷◌, leb,
  ltb, ◌==◌, if◌then◌else◌, length, drop, get_or, same_name,
}
use bus_test_platform.Signal.{Doubles, Signal}
use bus_test_platform.Dbc.Text.{Numbers, read_token, parse_u32, trim}
use bus_test_platform.Dbc.Bo.{strip_colon, is_colon}
use bus_test_platform.Dbc.Result.{
  DbcError, malformed_sg, missing_geometry, malformed_mux, unexpected_token, bad_geometry,
  bad_start_len, bad_order, missing_factor, bad_factor, Result, refused, taken, ◌>>=◌, want,
}
use bus_test_platform.Dbc.Scan.{find, substr, Decimals, parse_double}

-- The first byte, 0 if there is none.
abbrev pub front : List ℕ → ℕ
front [] = 0
front (c ∷ s) = c

-- `tok == "M" || (!tok.empty() && tok[0] == 'm')`
abbrev pub is_mux : List ℕ → Bool
is_mux tok = same_name tok (b'M' ∷ []) || front tok == b'm'

-- Behind a name without a colon: a colon, with a multiplexer mark before it or not.
unfoldable pub sg_colon : List ℕ → List ℕ → Result (List ℕ)
sg_colon line s = do
  (tok, s1) ← want (read_token s) (missing_geometry line)
  if is_colon tok
      then taken s1
      else if is_mux tok
      then (do
        (colon, s2) ← want (read_token s1) (malformed_mux line)
        if is_colon colon then taken s2 else refused (malformed_mux line))
      else refused (unexpected_token tok)

-- The name, and the stream behind its colon.
unfoldable pub sg_name : List ℕ → List ℕ → List ℕ → Result (List ℕ × List ℕ)
sg_name line name s = elim (strip_colon name) [
  | some short ↦ taken (short, s)
  | none ↦ do rest ← sg_colon line s; taken (name, rest)
]

-- `<start>|<len>@<order><sign>`: the start bit, the length, and the two flags.
unfoldable pub sg_flags : List ℕ → ℕ → ℕ → ℕ → Result (ℕ × ℕ × Bool × Bool)
sg_flags geom at start len =
    if leb (length geom) (at + 2)
    then refused (bad_order geom)
    else taken (
      start % 2 ^ 8,
      (if ltb 64 len then 64 else len),
      get_or geom (at + 1) 0 == b'0',
      get_or geom (at + 2) 0 == b'-',
    )

unfoldable pub sg_geometry : Numbers → List ℕ → Result (ℕ × ℕ × Bool × Bool)
sg_geometry n geom = do
  bar ← want (find b'|' geom) (bad_geometry geom)
  at ← want (find b'@' geom) (bad_geometry geom)
  if ltb at bar then refused (bad_geometry geom) else (do
    start ← want (parse_u32 n (substr geom 0 bar)) (bad_start_len geom)
    len ← want (parse_u32 n (substr geom (bar + 1) (at - bar - 1))) (bad_start_len geom)
    sg_flags geom at start len)

module _ {d : Doubles} (r : Decimals d) where
  -- `(<factor>,<offset>)`
  unfoldable pub sg_scaling : List ℕ → Result (d.Double × d.Double)
  sg_scaling phys = do
    lp ← want (find b'(' phys) (bad_factor phys)
    rp ← want (find b')' phys) (bad_factor phys)
    if leb rp lp then refused (bad_factor phys) else (do
      let inner = substr phys (lp + 1) (rp - lp - 1)
      comma ← want (find b',' inner) (bad_factor phys)
      factor ← want (parse_double r (substr inner 0 comma)) (bad_factor phys)
      offset ← want (parse_double r (drop (comma + 1) inner)) (bad_factor phys)
      taken (factor, offset))

  -- Both bounds of `<min>|<max>`, if both are numbers.
  unfoldable pub sg_limits : List ℕ → Option (d.Double × d.Double)
  sg_limits inner = elim (find b'|' inner) [
    | none ↦ none
    | some bar ↦ elim (parse_double r (substr inner 0 bar)) [
      | none ↦ none
      | some mn ↦ elim (parse_double r (drop (bar + 1) inner)) [
        | none ↦ none
        | some mx ↦ some (mn, mx)
      ]
    ]
  ]

  -- The bounds that the token behind the scaling gives, 0.0 and 0.0 if it gives none.
  unfoldable pub sg_bounds : List ℕ → d.Double × d.Double
  sg_bounds range =
      let unset : d.Double × d.Double = (d.nought, d.nought) in
      if front range == b'['
      then elim (find b']' range) [
        | none ↦ unset
        | some rb ↦ elim (sg_limits (substr range 1 (rb - 1))) [
          | none ↦ unset
          | some limits ↦ limits
        ]
      ]
      else unset

  -- The token is taken off the stream whether it is a range or not.
  unfoldable pub sg_range : List ℕ → (d.Double × d.Double) × List ℕ
  sg_range s = elim (read_token s) [
    | none ↦ ((d.nought, d.nought), [])
    | some (range, rest) ↦ (sg_bounds range, rest)
  ]

-- The text between the first two quotation marks, if the text starts with one.
unfoldable pub quoted_text : List ℕ → List ℕ
quoted_text rest =
    if front rest == b'"'
    then elim (find b'"' (drop 1 rest)) [ none ↦ [] | some q ↦ substr rest 1 q ]
    else []

unfoldable pub sg_unit : List ℕ → List ℕ
sg_unit s = quoted_text (trim s)

-- The signal that is appended to `msg->signals`, or the error.
unfoldable pub parse_sg : {d : Doubles} → Numbers → Decimals d → List ℕ → Result (Signal d)
parse_sg {d} n r line = do
  (name_tok, s1) ← want (read_token (drop 4 line)) (malformed_sg line)
  (name, s2) ← sg_name line name_tok s1
  (geom, s3) ← want (read_token s2) (missing_geometry line)
  (start, len, little, signed) ← sg_geometry n geom
  (phys, s4) ← want (read_token s3) (missing_factor line)
  (factor, offset) ← sg_scaling r phys
  let ((mn, mx), s5) = sg_range r s4
  taken (record {
    name = name;
    start_bit = start;
    len = len;
    factor = factor;
    offset = offset;
    min_value = mn;
    max_value = mx;
    unit_text = sg_unit s5;
    is_signed = signed;
    little_endian = little;
  })
