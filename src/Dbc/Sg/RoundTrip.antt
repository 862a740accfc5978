-- ===== src/Dbc/Sg/RoundTrip.antt =====
-- `DbcParser::parse_sg` of software/src/protocol/dbc/dbc_parser.cpp on the lines of Dbc/Sg/Print.
use bus_test_platform.Prelude.{
  ℕ, ◌%◌, ◌^◌, ◌≡◌, refl, ap, ◌∙◌, Bool, true, false, some, List, [], ◌∷◌, ◌++◌, ◌==◌, ltb,
  if◌then◌else◌,
}
use bus_test_platform.Signal.{Doubles, Signal}
use bus_test_platform.Dbc.Text.{is_space, Numbers, parse_u32, read_token-token, read_token-blank}
use bus_test_platform.Dbc.Result.{taken}
use bus_test_platform.Dbc.Scan.{Decimals, parse_double}
use bus_test_platform.Dbc.Sg.{parse_sg, sg_range, sg_bounds, sg_unit}
use bus_test_platform.Dbc.Sg.Print.{
  SgText, geometry, scaling, limits, quoted, sg_line, IsWord, IsWord-Solid, Solid-append,
  IsPrintable,
}
use bus_test_platform.Dbc.Sg.Geometry.{sg_geometry-text, geometry-IsToken}
use bus_test_platform.Dbc.Sg.Pieces.{
  sg_scaling-text, sg_bounds-text, sg_unit-quoted, bracket-IsToken, sg_name-text, sg_range-text,
  sg_unit-word,
}

-- The number texts of a line, read.
pub record Reads {d : Doubles} (n : Numbers) (r : Decimals d) (t : SgText) : Type 0 where
  pub start_bit : ℕ
  pub len : ℕ
  pub factor : d.Double
  pub offset : d.Double
  pub min_value : d.Double
  pub max_value : d.Double
  pub start_read : parse_u32 n t.start ≡ some start_bit
  pub len_read : parse_u32 n t.len ≡ some len
  pub factor_read : parse_double r t.factor ≡ some factor
  pub offset_read : parse_double r t.offset ≡ some offset
  pub lowest_read : parse_double r t.lowest ≡ some min_value
  pub highest_read : parse_double r t.highest ≡ some max_value

abbrev pub signal_of :
    {d : Doubles} {n : Numbers} {r : Decimals d} (t : SgText) → Reads n r t → Signal d
signal_of t v = record {
  name = t.name;
  start_bit = v.start_bit % 2 ^ 8;
  len = if ltb 64 v.len then 64 else v.len;
  factor = v.factor;
  offset = v.offset;
  min_value = v.min_value;
  max_value = v.max_value;
  unit_text = t.unit_text;
  is_signed = t.signed;
  little_endian = t.little;
}

mark-signed : (b : Bool) → ((if b then b'-' else b'+') == b'-') ≡ b
mark-signed true = refl
mark-signed false = refl

order-little : (b : Bool) → ((if b then b'0' else b'1') == b'0') ≡ b
order-little true = refl
order-little false = refl

-- A signal line up to its scaling, and what stands behind it.
abbrev pub sg_line_to : SgText → List ℕ → List ℕ
sg_line_to t tail =
    b'S'
    ∷ b'G'
    ∷ b'_'
    ∷ 32
    ∷ (t.name ++ 32 ∷ b':' ∷ 32 ∷ (geometry t ++ 32 ∷ (scaling t ++ 32 ∷ tail)))

-- The signal of such a line, by what the range and the unit are read as.
pub parse_sg-sg_line_to :
    {d : Doubles} (n : Numbers) (r : Decimals d) (t : SgText) (v : Reads n r t)
    → IsPrintable t
    → (tail : List ℕ) (mn mx : d.Double) (rest : List ℕ) → sg_range r (32 ∷ tail) ≡ ((mn, mx), rest)
    → parse_sg n r (sg_line_to t tail)
      ≡ taken (record {
        name = t.name;
        start_bit = v.start_bit % 2 ^ 8;
        len = if ltb 64 v.len then 64 else v.len;
        factor = v.factor;
        offset = v.offset;
        min_value = mn;
        max_value = mx;
        unit_text = sg_unit rest;
        is_signed = t.signed;
        little_endian = t.little;
      })
unfolding parse_sg is_space
parse_sg-sg_line_to n r t v h tail mn mx rest e =
    let after_geometry = scaling t ++ 32 ∷ tail in
    let after_colon = geometry t ++ 32 ∷ after_geometry in
    rw
      (
        read_token-token t.name (b':' ∷ 32 ∷ after_colon)
            (h.named, IsWord-Solid t.name h.name_word),
        sg_name-text (sg_line_to t tail) t.name after_colon h.name_word,
        read_token-blank after_colon,
        read_token-token (geometry t) after_geometry (geometry-IsToken t h),
        sg_geometry-text n t.start t.len (if t.little then b'0' else b'1')
            (if t.signed then b'-' else b'+') v.start_bit v.len h.start_word h.len_word v.start_read
            v.len_read,
        read_token-blank after_geometry,
        read_token-token (scaling t) tail (
            bracket-IsToken b'(' b')' b',' t.factor t.offset refl refl refl h.factor_word
              h.offset_word),
        sg_scaling-text r t.factor t.offset v.factor v.offset h.factor_word h.offset_word
            v.factor_read v.offset_read,
        e,
        mark-signed t.signed,
        order-little t.little,
      )
      refl

-- A signal line written from its texts is read back: the name, the byte order, the sign, the
-- numbers as they are read from their texts, with the start bit modulo 256 and the length cut to
-- 64, and the unit, blanks included. The name and the numbers are words, the numbers can be read,
-- and the unit has no quotation mark.
pub parse_sg-sg_line :
    {d : Doubles} (n : Numbers) (r : Decimals d) (t : SgText) (v : Reads n r t)
    → IsPrintable t
    → parse_sg n r (sg_line t) ≡ taken (signal_of t v)
unfolding is_space
parse_sg-sg_line n r t v h =
    let limits-IsToken =
      bracket-IsToken b'[' b']' b'|' t.lowest t.highest refl refl refl h.lowest_word
        h.highest_word in
    let bounds =
      sg_bounds-text r t.lowest t.highest v.min_value v.max_value h.lowest_word h.highest_word
        v.lowest_read v.highest_read in
    parse_sg-sg_line_to n r t v h (limits t ++ 32 ∷ quoted t) v.min_value v.max_value
      (32 ∷ quoted t)
      (sg_range-text r (limits t) (quoted t) limits-IsToken ∙ ap (λ b. (b, 32 ∷ quoted t)) bounds)
    ∙ ap
        (λ u. taken (record {
          name = t.name;
          start_bit = v.start_bit % 2 ^ 8;
          len = if ltb 64 v.len then 64 else v.len;
          factor = v.factor;
          offset = v.offset;
          min_value = v.min_value;
          max_value = v.max_value;
          unit_text = u;
          is_signed = t.signed;
          little_endian = t.little;
        }))
        (sg_unit-quoted t.unit_text (32 ∷ t.receivers) h.unit_closed)

-- A signal line that leaves the range out loses its unit: where the unit is one word and the
-- receivers are one word, the text in quotation marks is taken for the range, so that both bounds
-- are 0.0 and the unit is empty, whatever the line gives as its unit.
pub parse_sg-no_range :
    {d : Doubles} (n : Numbers) (r : Decimals d) (t : SgText) (v : Reads n r t)
    → IsPrintable t
    → IsWord t.unit_text
    → IsWord t.receivers
    → parse_sg n r (sg_line_to t (b'"' ∷ ((t.unit_text ++ b'"' ∷ []) ++ 32 ∷ t.receivers)))
      ≡ taken (record {
        name = t.name;
        start_bit = v.start_bit % 2 ^ 8;
        len = if ltb 64 v.len then 64 else v.len;
        factor = v.factor;
        offset = v.offset;
        min_value = d.nought;
        max_value = d.nought;
        unit_text = [];
        is_signed = t.signed;
        little_endian = t.little;
      })
unfolding is_space sg_bounds
parse_sg-no_range {d} n r t v h hu hr =
    let token = b'"' ∷ (t.unit_text ++ b'"' ∷ []) in
    let solid = Solid-append t.unit_text (b'"' ∷ []) (IsWord-Solid t.unit_text hu) (refl, tt) in
    parse_sg-sg_line_to n r t v h (token ++ 32 ∷ t.receivers) d.nought d.nought (32 ∷ t.receivers)
      (sg_range-text r token t.receivers (refl, (refl, solid)))
    ∙ rw (sg_unit-word t.receivers hr) refl
