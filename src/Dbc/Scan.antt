-- ===== src/Dbc/Scan.antt =====
-- Searching and cutting text as software/src/protocol/dbc/dbc_parser.cpp does: `find`, `substr`,
-- prefixes, `std::getline`, and `parse_double`.
use bus_test_platform.Prelude.{
  ◌>>=◌, ℕ, suc, ◌+◌, ◌≡◌, ◌≢◌, refl, ap, ◌∙◌, Bool, true, false, ◌&&◌, Option, none, some, List,
  [], ◌∷◌, ◌++◌, ◌==◌, if◌then◌else◌, length, get_or, take, drop, take-append, All, arith,
}
use bus_test_platform.Signal.{Doubles}
use bus_test_platform.Dbc.Text.{is_nil}

-- `s.find(c)`; `none` is `npos`.
unfoldable pub find : ℕ → List ℕ → Option ℕ
find c [] = none
find c (x ∷ s) =
    let rest = find c s in
    if x == c then some 0 else elim rest [ some i ↦ some (i + 1) | none ↦ none ]

-- `s.substr(pos, n)`
abbrev pub substr : List ℕ → ℕ → ℕ → List ℕ
substr s pos n = take n (drop pos s)

-- `s.rfind(prefix, 0) == 0`
unfoldable pub starts_with : List ℕ → List ℕ → Bool
starts_with [] s = true
starts_with (c ∷ prefix) [] = false
starts_with (c ∷ prefix) (x ∷ s) = c == x && starts_with prefix s

-- A line in front of the lines of what follows it.
abbrev pub join_line : ℕ → List (List ℕ) → List (List ℕ)
join_line c [] = (c ∷ []) ∷ []
join_line c (line ∷ lines) = (c ∷ line) ∷ lines

-- What `std::getline` reads, one call after the other.
unfoldable pub getlines : List ℕ → List (List ℕ)
getlines [] = []
getlines (c ∷ text) = let rest = getlines text in if c == 10 then [] ∷ rest else join_line c rest

-- `std::stod(tok, &pos)`: the value and `pos`, or `none` for an exception.
pub record Decimals (d : Doubles) : Type 0 where
  pub stod : List ℕ → Option (d.Double × ℕ)

module _ {d : Doubles} where
  unfoldable pub parse_double : Decimals d → List ℕ → Option d.Double
  parse_double r tok =
      if is_nil tok
      then none
      else do (v, pos) ← r.stod tok; if pos == length tok then some v else none

-- None of the bytes of `s` is `c`.
abbrev pub Without : ℕ → List ℕ → Type 0
Without c s = All (λ (x : ℕ). x ≢ c) s

pub find-append : (c : ℕ) (s rest : List ℕ) → Without c s → find c (s ++ c ∷ rest) ≡ some (length s)
unfolding find
find-append c [] rest h = let same : (c == c) ≡ true = ground arith in rw (same) refl
find-append c (x ∷ s) rest (hx, h) =
    let other : (x == c) ≡ false = ground arith in
    rw (other, find-append c s rest h) (ap some (omega arith))

pub getlines-line :
    (line rest : List ℕ) → Without 10 line → getlines (line ++ 10 ∷ rest) ≡ line ∷ getlines rest
unfolding getlines
getlines-line [] rest h = refl
getlines-line (c ∷ line) rest (hc, h) =
    let other : (c == 10) ≡ false = ground arith in rw (other, getlines-line line rest h) refl

pub Without-append : (c : ℕ) (s t : List ℕ) → Without c s → Without c t → Without c (s ++ t)
Without-append c [] t hs ht = ht
Without-append c (x ∷ s) t (hx, hs) ht = (hx, Without-append c s t hs ht)

-- What stands behind the byte `c`, and a piece of it.
pub drop-past : (a w : List ℕ) (c p : ℕ) → p ≡ length a + 1 → drop p (a ++ c ∷ w) ≡ w
drop-past [] w c p e = ap (λ (k : ℕ). drop k (c ∷ w)) {y = 1} (omega arith)
drop-past (x ∷ a) w c p e =
    ap (λ (k : ℕ). drop k (x ∷ (a ++ c ∷ w))) {x = p} {y = suc (length a + 1)} (omega arith)
    ∙ drop-past a w c (length a + 1) refl

pub substr-past :
    (a b w : List ℕ) (c p n : ℕ)
    → p ≡ length a + 1
    → n ≡ length b
    → substr (a ++ c ∷ (b ++ w)) p n ≡ b
substr-past a b w c p n ep en = ap (take n) (drop-past a (b ++ w) c p ep) ∙ take-append n b w en

pub get_or-past : (a w : List ℕ) (k p z : ℕ) → p ≡ length a + k → get_or (a ++ w) p z ≡ get_or w k z
get_or-past [] w k p z e = ap (λ (i : ℕ). get_or w i z) {y = k} (omega arith)
get_or-past (x ∷ a) w k p z e =
    ap (λ (i : ℕ). get_or (x ∷ (a ++ w)) i z) {x = p} {y = suc (length a + k)} (omega arith)
    ∙ get_or-past a w k (length a + k) z refl
