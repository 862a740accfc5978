-- ===== src/Dbc/Text.antt =====
-- Text as software/src/protocol/dbc/dbc_parser.cpp reads it: `trim`, the tokens of an
-- `std::istringstream`, and `parse_u32`.
use bus_test_platform.Prelude.{
  ◌>>=◌, ℕ, ◌%◌, ◌^◌, Bool, true, false, ◌&&◌, ◌||◌, ◌≡◌, refl, Option, none, some, List, [], ◌∷◌,
  ◌++◌, leb, ◌==◌, if◌then◌else◌, length, All,
}

-- `std::isspace`: blank, and the bytes 9 to 13
unfoldable pub is_space : ℕ → Bool
is_space c = c == 32 || leb 9 c && leb c 13

-- One of " \t\r\n".
unfoldable pub is_trimmed : ℕ → Bool
is_trimmed c = c == 32 || c == 9 || c == 13 || c == 10

unfoldable pub trim_front : List ℕ → List ℕ
trim_front [] = []
trim_front (c ∷ s) = let rest = trim_front s in if is_trimmed c then rest else c ∷ s

abbrev pub is_nil {ℓ} : {A : Type ℓ} → List A → Bool
is_nil [] = true
is_nil (x ∷ xs) = false

unfoldable pub trim_back : List ℕ → List ℕ
trim_back [] = []
trim_back (c ∷ s) = let rest = trim_back s in if is_trimmed c && is_nil rest then [] else c ∷ rest

unfoldable pub trim : List ℕ → List ℕ
trim s = trim_back (trim_front s)

unfoldable pub skip_spaces : List ℕ → List ℕ
skip_spaces [] = []
skip_spaces (c ∷ s) = let rest = skip_spaces s in if is_space c then rest else c ∷ s

unfoldable pub split_token : List ℕ → List ℕ × List ℕ
split_token [] = ([], [])
split_token (c ∷ s) =
    let (tok, rest) = split_token s in if is_space c then ([], c ∷ s) else (c ∷ tok, rest)

-- `iss >> tok`: the token and what is left of the stream.
unfoldable pub read_token : List ℕ → Option (List ℕ × List ℕ)
read_token s =
    let (tok, rest) = split_token (skip_spaces s) in if is_nil tok then none else some (tok, rest)

-- `std::stoul(tok, &pos, 0)`: the value and `pos`, or `none` for an exception.
pub record Numbers : Type 0 where
  pub stoul : List ℕ → Option (ℕ × ℕ)

unfoldable pub parse_u32 : Numbers → List ℕ → Option ℕ
parse_u32 n tok =
    if is_nil tok
    then none
    else do (v, pos) ← n.stoul tok; if pos == length tok then some (v % 2 ^ 32) else none

-- A token: not empty, and without spaces.
abbrev pub IsToken : List ℕ → Type 0
IsToken tok = (is_nil tok ≡ false) × All (λ (c : ℕ). is_space c ≡ false) tok

split_token-append :
    (tok rest : List ℕ)
    → All (λ (c : ℕ). is_space c ≡ false) tok
    → split_token (tok ++ 32 ∷ rest) ≡ (tok, 32 ∷ rest)
unfolding split_token
split_token-append [] rest h = unfold is_space in refl
split_token-append (c ∷ tok) rest (hc, h) = rw (hc, split_token-append tok rest h) refl

skip_spaces-token : (tok rest : List ℕ) → IsToken tok → skip_spaces (tok ++ rest) ≡ tok ++ rest
unfolding skip_spaces
skip_spaces-token [] rest (h, hs) = absurd (cc)
skip_spaces-token (c ∷ tok) rest (h, (hc, hs)) = rw (hc) refl

-- A token followed by a blank is read back, behind one blank or none.
pub read_token-token :
    (tok rest : List ℕ) → IsToken tok → read_token (tok ++ 32 ∷ rest) ≡ some (tok, 32 ∷ rest)
unfolding read_token
read_token-token tok rest h =
    rw (skip_spaces-token tok (32 ∷ rest) h, split_token-append tok rest h.1, h.0) refl

split_token-last :
    (tok : List ℕ) → All (λ (c : ℕ). is_space c ≡ false) tok → split_token tok ≡ (tok, [])
unfolding split_token
split_token-last [] h = refl
split_token-last (c ∷ tok) (hc, h) = rw (hc, split_token-last tok h) refl

pub read_token-last : (tok : List ℕ) → IsToken tok → read_token tok ≡ some (tok, [])
unfolding read_token skip_spaces
read_token-last [] h = absurd (cc)
read_token-last (c ∷ tok) (h, (hc, hs)) = rw (hc, split_token-last (c ∷ tok) (hc, hs)) refl

pub read_token-blank : (s : List ℕ) → read_token (32 ∷ s) ≡ read_token s
unfolding read_token skip_spaces is_space
read_token-blank s = refl
