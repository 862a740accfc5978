-- ===== src/Prelude/Print.antt =====
-- The conversions of `printf` that the program uses, and what reads them back. A text is the list of
-- its bytes.
use Prim.Native.Char.{code}
use Prim.Native.String.{String}
use native.Mathlib.Nat.{mod-lt, div-add-mod', div-lt_iff_lt-mul, pow-suc, pow-zero}
use bus_test_platform.Prelude.{
  ℕ, zero, suc, ◌+◌, ◌-◌, ◌*◌, ◌/◌, ◌%◌, ◌^◌, ◌≤◌, ◌<◌, ◌≡◌, refl, ap, ◌∙◌, Bool, true, false, ◌&&◌,
  ◌||◌, List, [], ◌∷◌, ◌++◌, append_assoc, leb, ltb, if◌then◌else◌, length, length-append,
  replicate, length-replicate, arith, Bool-cases, inl, inr,
}

-- The bytes of an ASCII literal.
abbrev pub codes : String → List ℕ
codes String.[] = []
codes (String.◌∷◌ c s) = code c ∷ codes s

abbrev pub digit : ℕ → ℕ
digit d = if ltb d 10 then b'0' + d else b'A' + (d - 10)

-- The digits of `n` in front of `out`, at most `fuel` of them.
unfoldable pub show : ℕ → ℕ → ℕ → List ℕ → List ℕ
show zero base n out = out
show (suc fuel) base n out =
    let rest = show fuel base (n / base) (digit (n % base) ∷ out) in
    if ltb n base then digit n ∷ out else rest

-- `%llu`, `%u` and `%X`: a 64-bit number has at most 20 decimal digits, a 32-bit number at most 10,
-- and at most 8 in hexadecimal.
abbrev pub dec64 : ℕ → List ℕ
dec64 n = show 20 10 n []

abbrev pub dec32 : ℕ → List ℕ
dec32 n = show 10 10 n []

abbrev pub hex32 : ℕ → List ℕ
hex32 n = show 8 16 n []

-- The `0` flag with a width.
abbrev pub pad : ℕ → List ℕ → List ℕ
pad width s = replicate (width - length s) b'0' ++ s

-- Texts one behind the other, with a text behind them all.
abbrev pub chain : List (List ℕ) → List ℕ → List ℕ
chain [] tail = tail
chain (s ∷ texts) tail = s ++ chain texts tail

pub chain-append :
    (texts : List (List ℕ)) (s t : List ℕ) → chain texts s ++ t ≡ chain texts (s ++ t)
chain-append [] s t = refl
chain-append (x ∷ texts) s t =
    append_assoc x (chain texts s) t ∙ ap (λ r. x ++ r) (chain-append texts s t)

pub length-show :
    (fuel base n : ℕ) (out : List ℕ) → length (show fuel base n out) ≤ fuel + length out
unfolding show
length-show zero base n out = omega arith
length-show (suc fuel) base n out =
    ground (arith, length-show fuel base (n / base) (digit (n % base) ∷ out))

pub length-pad : (width : ℕ) (s : List ℕ) → length (pad width s) ≤ width + length s
length-pad width s = omega (
  arith,
  length-append (replicate (width - length s) b'0') s,
  length-replicate {A = ℕ} (width - length s) b'0',
)

-- A digit below 16, and what it stands for.
abbrev pub is_digit : ℕ → ℕ → Bool
is_digit base c = leb b'0' c && leb c b'9' || leb b'A' c && ltb c (b'A' + base - 10)

abbrev pub digit_value : ℕ → ℕ
digit_value c = if leb c b'9' then c - b'0' else c - b'A' + 10

-- The number that the digits in front spell behind `n`, and the rest of the text.
unfoldable pub read_number : ℕ → ℕ → List ℕ → ℕ × List ℕ
read_number base n [] = (n, [])
read_number base n (c ∷ s) =
    let more = read_number base (n * base + digit_value c) s in
    if is_digit base c then more else (n, c ∷ s)

is_digit-digit : (base d : ℕ) → 10 ≤ base → base ≤ 16 → d < base → is_digit base (digit d) ≡ true
is_digit-digit base d lo hi h = ground arith

digit_value-digit : (d : ℕ) → d < 16 → digit_value (digit d) ≡ d
digit_value-digit d h = ground arith

read_number-digit :
    (base n d : ℕ) (out : List ℕ)
    → 10 ≤ base
    → base ≤ 16
    → d < base
    → read_number base n (digit d ∷ out) ≡ read_number base (n * base + d) out
unfolding read_number
read_number-digit base n d out lo hi h =
    rw (is_digit-digit base d lo hi h, digit_value-digit d (omega arith)) refl

-- A number that `fuel` digits can hold is read back from its print.
read_number-show :
    (fuel base n : ℕ) (out : List ℕ)
    → 10 ≤ base
    → base ≤ 16
    → n < base ^ fuel
    → read_number base 0 (show fuel base n out) ≡ read_number base n out
unfolding show
read_number-show zero base n out lo hi h =
    ap (λ k. read_number base k out) {x = 0} (omega (arith, pow-zero base))
read_number-show (suc fuel) base n out lo hi h = elim (Bool-cases (ltb n base)) [
  | inl small ↦ rw (small) (
      read_number-digit base 0 n out lo hi (ground arith)
      ∙ ap (λ k. read_number base k out) {y = n} (omega arith))
  | inr large ↦
      let below : n / base < base ^ fuel =
        (div-lt_iff_lt-mul {k = base} {x = n} {y = base ^ fuel} (omega arith)).1
          (omega (arith, pow-suc base fuel)) in
      rw (large) (
        read_number-show fuel base (n / base) (digit (n % base) ∷ out) lo hi below
        ∙ read_number-digit base (n / base) (n % base) out lo hi (mod-lt n (omega arith))
        ∙ ap (λ k. read_number base k out) (div-add-mod' n base))
]

show-append :
    (fuel base n : ℕ) (out rest : List ℕ)
    → show fuel base n out ++ rest ≡ show fuel base n (out ++ rest)
unfolding show
show-append zero base n out rest = refl
show-append (suc fuel) base n out rest = elim (Bool-cases (ltb n base)) [
  | inl small ↦ rw (small) refl
  | inr large ↦ rw (large) (show-append fuel base (n / base) (digit (n % base) ∷ out) rest)
]

-- A number is read back from its print in front of a byte that is no digit.
pub read_number-print :
    (fuel base n c : ℕ) (rest : List ℕ)
    → 10 ≤ base
    → base ≤ 16
    → n < base ^ fuel
    → is_digit base c ≡ false
    → read_number base 0 (show fuel base n [] ++ c ∷ rest) ≡ (n, c ∷ rest)
unfolding read_number
read_number-print fuel base n c rest lo hi h stop =
    ap (read_number base 0) (show-append fuel base n [] (c ∷ rest))
    ∙ read_number-show fuel base n (c ∷ rest) lo hi h
    ∙ rw (stop) refl

-- The end of the text stops it as well.
pub read_number-last :
    (fuel base n : ℕ)
    → 10 ≤ base
    → base ≤ 16
    → n < base ^ fuel
    → read_number base 0 (show fuel base n []) ≡ (n, [])
unfolding read_number
read_number-last fuel base n lo hi h = read_number-show fuel base n [] lo hi h

read_number-zeros :
    (k base : ℕ) (s : List ℕ)
    → 10 ≤ base
    → base ≤ 16
    → read_number base 0 (replicate k b'0' ++ s) ≡ read_number base 0 s
read_number-zeros zero base s lo hi = refl
read_number-zeros (suc k) base s lo hi =
    read_number-digit base 0 0 (replicate k b'0' ++ s) lo hi (omega arith)
    ∙ ap (λ n. read_number base n (replicate k b'0' ++ s)) {y = 0} (omega arith)
    ∙ read_number-zeros k base s lo hi

pub read_number-pad :
    (width fuel base n c : ℕ) (rest : List ℕ)
    → 10 ≤ base
    → base ≤ 16
    → n < base ^ fuel
    → is_digit base c ≡ false
    → read_number base 0 (pad width (show fuel base n []) ++ c ∷ rest) ≡ (n, c ∷ rest)
read_number-pad width fuel base n c rest lo hi h stop =
    let digits = show fuel base n [] in
    ap (read_number base 0)
      (append_assoc (replicate (width - length digits) b'0') digits (c ∷ rest))
    ∙ read_number-zeros (width - length digits) base (digits ++ c ∷ rest) lo hi
    ∙ read_number-print fuel base n c rest lo hi h stop
