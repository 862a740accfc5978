-- ===== src/Dbc/Sg/Print.antt =====
-- A signal line of a DBC file written out, in the layout that the comment on `parse_sg` in
-- software/src/protocol/dbc/dbc_parser.cpp gives.
use bus_test_platform.Prelude.{
  ℕ, ◌≡◌, refl, ap, Bool, true, false, not, ◌&&◌, ◌||◌, none, List, [], ◌∷◌, ◌++◌, ◌==◌,
  if◌then◌else◌, All, arith,
}
use bus_test_platform.Dbc.Text.{is_nil, is_space}
use bus_test_platform.Dbc.Bo.{strip_colon}
use bus_test_platform.Dbc.Scan.{Without}

-- The texts of a line: the numbers as they are written.
pub record SgText : Type 0 where
  pub name : List ℕ
  pub start : List ℕ
  pub len : List ℕ
  pub little : Bool
  pub signed : Bool
  pub factor : List ℕ
  pub offset : List ℕ
  pub lowest : List ℕ
  pub highest : List ℕ
  pub unit_text : List ℕ
  pub receivers : List ℕ

abbrev pub geometry : SgText → List ℕ
geometry t =
    t.start
    ++ b'|'
      ∷ (t.len ++ b'@' ∷ (if t.little then b'0' else b'1') ∷ (if t.signed then b'-' else b'+') ∷ [])

abbrev pub scaling : SgText → List ℕ
scaling t = b'(' ∷ ((t.factor ++ b',' ∷ t.offset) ++ b')' ∷ [])

abbrev pub limits : SgText → List ℕ
limits t = b'[' ∷ ((t.lowest ++ b'|' ∷ t.highest) ++ b']' ∷ [])

abbrev pub quoted : SgText → List ℕ
quoted t = b'"' ∷ (t.unit_text ++ b'"' ∷ 32 ∷ t.receivers)

abbrev pub sg_line : SgText → List ℕ
sg_line t =
    b'S'
    ∷ b'G'
    ∷ b'_'
    ∷ 32
    ∷ (t.name
        ++ 32 ∷ b':' ∷ 32 ∷ (geometry t ++ 32 ∷ (scaling t ++ 32 ∷ (limits t ++ 32 ∷ quoted t))))

-- A byte that stands for itself in a name or a number: no space and no mark of the layout.
unfoldable pub is_plain : ℕ → Bool
is_plain c =
    not (is_space c)
    && not (
        c == b'|'
        || c == b'@'
        || c == b'('
        || c == b')'
        || c == b','
        || c == b'['
        || c == b']'
        || c == b'"'
        || c == b':')

abbrev pub IsWord : List ℕ → Type 0
IsWord s = All (λ (c : ℕ). is_plain c ≡ true) s

pub record IsPrintable (t : SgText) : Type 0 where
  pub named : is_nil t.name ≡ false
  pub name_word : IsWord t.name
  pub start_word : IsWord t.start
  pub len_word : IsWord t.len
  pub factor_word : IsWord t.factor
  pub offset_word : IsWord t.offset
  pub lowest_word : IsWord t.lowest
  pub highest_word : IsWord t.highest
  pub unit_closed : Without b'"' t.unit_text

pub IsWord-Without : (c : ℕ) (s : List ℕ) → is_plain c ≡ false → IsWord s → Without c s
IsWord-Without c [] hc h = tt
IsWord-Without c (x ∷ s) hc (hx, h) =
    (λ e. let clash = ap is_plain e in cc, IsWord-Without c s hc h)

-- No byte of `s` is a space.
abbrev pub Solid : List ℕ → Type 0
Solid s = All (λ (c : ℕ). is_space c ≡ false) s

pub IsWord-Solid : (s : List ℕ) → IsWord s → Solid s
unfolding is_plain
IsWord-Solid [] h = tt
IsWord-Solid (c ∷ s) (hc, h) = (ground (arith, hc), IsWord-Solid s h)

pub Solid-append : (s t : List ℕ) → Solid s → Solid t → Solid (s ++ t)
Solid-append [] t hs ht = ht
Solid-append (x ∷ s) t (hx, hs) ht = (hx, Solid-append s t hs ht)

pub strip_colon-IsWord : (s : List ℕ) → Without 58 s → strip_colon s ≡ none
unfolding strip_colon
strip_colon-IsWord [] h = refl
strip_colon-IsWord (c ∷ []) (hc, h) =
    let other : (c == 58) ≡ false = ground arith in rw (other) refl
strip_colon-IsWord (c ∷ b ∷ s) (hc, h) = rw (strip_colon-IsWord (b ∷ s) h) refl
