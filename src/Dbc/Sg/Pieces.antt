-- ===== src/Dbc/Sg/Pieces.antt =====
-- The pieces of a signal line of Dbc/Sg/Print, each read by the step of `DbcParser::parse_sg`
-- (software/src/protocol/dbc/dbc_parser.cpp) that reads it.
use bus_test_platform.Prelude.{
  ℕ, suc, ◌+◌, ◌-◌, ◌≡◌, ◌≢◌, refl, ap, ◌∙◌, false, some, List, [], ◌∷◌, ◌++◌, ◌==◌, leb, length,
  take-append, arith, Bool-cases, inl, inr,
}
use bus_test_platform.Signal.{Doubles}
use bus_test_platform.Dbc.Text.{
  is_space, IsToken, read_token-token, read_token-blank, trim, trim_front, trim_back, is_trimmed,
}
use bus_test_platform.Dbc.Bo.{is_colon}
use bus_test_platform.Dbc.Result.{taken}
use bus_test_platform.Dbc.Scan.{
  find, Decimals, parse_double, Without, find-append, Without-append, drop-past,
}
use bus_test_platform.Dbc.Sg.{
  sg_colon, sg_name, sg_scaling, sg_limits, sg_bounds, sg_range, quoted_text, sg_unit,
}
use bus_test_platform.Dbc.Sg.Print.{
  is_plain, IsWord, IsWord-Without, IsWord-Solid, Solid-append, strip_colon-IsWord,
}
use bus_test_platform.Dbc.Sg.Geometry.{is_nil-append}

-- A text between brackets, and what its closing bracket and its inside are.
find_close :
    (c e : ℕ) (body w : List ℕ)
    → c ≢ e
    → Without e body
    → find e (c ∷ (body ++ e ∷ w)) ≡ some (suc (length body))
find_close c e body w hc h = find-append e (c ∷ body) w (hc, h)

pub sg_scaling-text :
    {d : Doubles} (r : Decimals d) (f o : List ℕ) (factor offset : d.Double)
    → IsWord f
    → IsWord o
    → parse_double r f ≡ some factor
    → parse_double r o ≡ some offset
    → sg_scaling r (b'(' ∷ ((f ++ b',' ∷ o) ++ b')' ∷ [])) ≡ taken (factor, offset)
unfolding sg_scaling is_plain is_space
sg_scaling-text r f o factor offset hf ho ef eo =
    let body = f ++ b',' ∷ o in
    let opened : find b'(' (b'(' ∷ (body ++ b')' ∷ [])) ≡ some 0 = unfold find in refl in
    let closed = find_close b'(' b')' body [] (omega arith) (
      Without-append b')' f (b',' ∷ o) (IsWord-Without b')' f refl hf)
        (omega arith, IsWord-Without b')' o refl ho)) in
    let after : leb (suc (length body)) 0 ≡ false = ground arith in
    rw
      (
        opened,
        closed,
        after,
        take-append (suc (length body) - 0 - 1) body (b')' ∷ []) (omega arith),
        find-append b',' f o (IsWord-Without b',' f refl hf),
        take-append (length f) f (b',' ∷ o) refl,
        ef,
        drop-past f o b',' (length f + 1) refl,
        eo,
      )
      refl

pub sg_limits-text :
    {d : Doubles} (r : Decimals d) (lo hi : List ℕ) (mn mx : d.Double)
    → IsWord lo
    → parse_double r lo ≡ some mn
    → parse_double r hi ≡ some mx
    → sg_limits r (lo ++ b'|' ∷ hi) ≡ some (mn, mx)
unfolding sg_limits is_plain is_space
sg_limits-text r lo hi mn mx hl el eh =
    rw
      (
        sg_limits,
        find-append b'|' lo hi (IsWord-Without b'|' lo refl hl),
        take-append (length lo) lo (b'|' ∷ hi) refl,
        el,
        drop-past lo hi b'|' (length lo + 1) refl,
        eh,
      )
      refl

pub sg_bounds-text :
    {d : Doubles} (r : Decimals d) (lo hi : List ℕ) (mn mx : d.Double)
    → IsWord lo
    → IsWord hi
    → parse_double r lo ≡ some mn
    → parse_double r hi ≡ some mx
    → sg_bounds r (b'[' ∷ ((lo ++ b'|' ∷ hi) ++ b']' ∷ [])) ≡ (mn, mx)
unfolding sg_bounds is_plain is_space
sg_bounds-text r lo hi mn mx hl hh el eh =
    let body = lo ++ b'|' ∷ hi in
    let closed = find_close b'[' b']' body [] (omega arith) (
      Without-append b']' lo (b'|' ∷ hi) (IsWord-Without b']' lo refl hl)
        (omega arith, IsWord-Without b']' hi refl hh)) in
    rw
      (
        closed,
        take-append (suc (length body) - 1) body (b']' ∷ []) (omega arith),
        sg_limits-text r lo hi mn mx hl el eh,
      )
      refl

trim_back-append :
    (s : List ℕ) (c : ℕ) (x : List ℕ)
    → is_trimmed c ≡ false
    → trim_back (s ++ c ∷ x) ≡ s ++ c ∷ trim_back x
unfolding trim_back
trim_back-append [] c x h = rw (h) refl
trim_back-append (y ∷ s) c x h =
    rw (trim_back-append s c x h, is_nil-append s c (trim_back x))
      (elim (Bool-cases (is_trimmed y)) [ inl t ↦ rw (t) refl | inr f ↦ rw (f) refl ])

trim_quoted : (u x : List ℕ) → trim (32 ∷ b'"' ∷ (u ++ b'"' ∷ x)) ≡ b'"' ∷ (u ++ b'"' ∷ trim_back x)
unfolding trim trim_front is_trimmed
trim_quoted u x = trim_back-append (b'"' ∷ u) b'"' x refl

quoted_text-quoted : (u x : List ℕ) → Without b'"' u → quoted_text (b'"' ∷ (u ++ b'"' ∷ x)) ≡ u
unfolding quoted_text
quoted_text-quoted u x h =
    rw (find-append b'"' u x h, take-append (length u) u (b'"' ∷ x) refl) refl

pub sg_unit-quoted : (u x : List ℕ) → Without b'"' u → sg_unit (32 ∷ b'"' ∷ (u ++ b'"' ∷ x)) ≡ u
unfolding sg_unit
sg_unit-quoted u x h = ap quoted_text (trim_quoted u x) ∙ quoted_text-quoted u (trim_back x) h

pub bracket-IsToken :
    (c e m : ℕ) (a b : List ℕ)
    → is_space c ≡ false
    → is_space e ≡ false
    → is_space m ≡ false
    → IsWord a
    → IsWord b
    → IsToken (c ∷ ((a ++ m ∷ b) ++ e ∷ []))
bracket-IsToken c e m a b hc he hm ha hb = (
  refl,
  (
    hc,
    Solid-append (a ++ m ∷ b) (e ∷ [])
        (Solid-append a (m ∷ b) (IsWord-Solid a ha) (hm, IsWord-Solid b hb)) (he, tt),
  ),
)

-- The name and the lone colon behind it.
pub sg_name-text :
    (line name rest : List ℕ)
    → IsWord name
    → sg_name line name (32 ∷ b':' ∷ 32 ∷ rest) ≡ taken (name, 32 ∷ rest)
unfolding sg_name sg_colon is_plain is_space is_colon
sg_name-text line name rest h =
    rw
      (
        sg_name,
        strip_colon-IsWord name (IsWord-Without 58 name refl h),
        sg_colon,
        read_token-blank (b':' ∷ 32 ∷ rest),
        read_token-token (b':' ∷ []) rest (refl, (refl, tt)),
      )
      refl

pub sg_range-text :
    {d : Doubles} (r : Decimals d) (s rest : List ℕ)
    → IsToken s
    → sg_range r (32 ∷ (s ++ 32 ∷ rest)) ≡ (sg_bounds r s, 32 ∷ rest)
unfolding sg_range
sg_range-text r s rest h =
    rw (sg_range, read_token-blank (s ++ 32 ∷ rest), read_token-token s rest h) refl

-- Behind the last blank there is no unit.
pub sg_unit-word : (s : List ℕ) → IsWord s → sg_unit (32 ∷ s) ≡ []
unfolding sg_unit trim trim_front is_trimmed quoted_text is_plain is_space trim_back
sg_unit-word [] h = refl
sg_unit-word (c ∷ s) (hc, h) =
    let kept : is_trimmed c ≡ false = ground (arith, hc) in
    let bare : (c == b'"') ≡ false = ground (arith, hc) in
    let trimmed : trim (32 ∷ c ∷ s) ≡ c ∷ trim_back s = rw (kept) (trim_back-append [] c s kept) in
    ap quoted_text trimmed ∙ rw (bare) refl
