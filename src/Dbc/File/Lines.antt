-- ===== src/Dbc/File/Lines.antt =====
-- Which lines the loop of `DbcParser::parse` (software/src/protocol/dbc/dbc_parser.cpp) passes over,
-- and what the first line that it refuses leaves behind.
use bus_test_platform.Prelude.{
  ℕ, ◌≡◌, refl, sym, ap, ◌∙◌, Bool, true, false, ◌||◌, not, arith, Option, none, some, List, [],
  ◌∷◌, ◌++◌, if◌then◌else◌, All, inl, inr,
}
use bus_test_platform.Signal.{Doubles}
use bus_test_platform.Dbc.{DbcMessage}
use bus_test_platform.Dbc.Text.{Numbers, trim}
use bus_test_platform.Dbc.Result.{DbcError, sg_before_bo, refused, taken, Result-cases}
use bus_test_platform.Dbc.Scan.{Decimals, starts_with}
use bus_test_platform.Dbc.File.{is_bo, is_sg, is_comment, parse_line, parse_lines}

-- Neither a message line nor a signal line.
abbrev pub is_passed : List ℕ → Bool
is_passed line = is_comment (trim line) || not (is_bo (trim line) || is_sg (trim line))

pass :
    {A : Type 0} {x : A} (y z : A) (c b s : Bool)
    → (c || not (b || s)) ≡ true
    → (if c then x else if b then y else if s then z else x) ≡ x
pass y z true b s h = refl
pass y z false true s h = absurd (cc)
pass y z false false true h = absurd (cc)
pass y z false false false h = refl

module _ {d : Doubles} (n : Numbers) (r : Decimals d) where
  -- What the loop does with the lines behind those that it has taken.
  abbrev pub go_on :
      List (DbcMessage d) × Option DbcError → List (List ℕ) → List (DbcMessage d) × Option DbcError
  go_on (ms, none) lines = parse_lines n r ms lines
  go_on (ms, some e) lines = (ms, some e)

  parse_lines-stop :
      (ms : List (DbcMessage d)) (line : List ℕ) (lines : List (List ℕ)) (e : DbcError)
      → parse_line n r ms (trim line) ≡ refused e
      → parse_lines n r ms (line ∷ lines) ≡ (ms, some e)
  unfolding parse_lines
  parse_lines-stop ms line lines e h = rw (parse_lines, h) refl

  pub parse_lines-taken :
      (ms now : List (DbcMessage d)) (line : List ℕ) (lines : List (List ℕ))
      → parse_line n r ms (trim line) ≡ taken now
      → parse_lines n r ms (line ∷ lines) ≡ parse_lines n r now lines
  unfolding parse_lines
  parse_lines-taken ms now line lines h = rw (parse_lines, h) refl

  pub parse_lines-append :
      (ms : List (DbcMessage d)) (a b : List (List ℕ))
      → parse_lines n r ms (a ++ b) ≡ go_on (parse_lines n r ms a) b
  unfolding parse_lines
  parse_lines-append ms [] b = refl
  parse_lines-append ms (line ∷ a) b = elim (Result-cases (parse_line n r ms (trim line))) [
    | inl (e, h) ↦ rw (parse_lines-stop ms line (a ++ b) e h, parse_lines-stop ms line a e h) refl
    | inr (next, h) ↦
        rw (parse_lines-taken ms next line (a ++ b) h, parse_lines-taken ms next line a h)
          (parse_lines-append next a b)
  ]

  parse_line-passed :
      (ms : List (DbcMessage d)) (line : List ℕ)
      → is_passed line ≡ true
      → parse_line n r ms (trim line) ≡ taken ms
  unfolding parse_line
  parse_line-passed ms line h =
      pass _ _ (is_comment (trim line)) (is_bo (trim line)) (is_sg (trim line)) h

  -- A line that is empty, a comment, or neither a message line nor a signal line, changes nothing,
  -- wherever it stands among the lines and whatever was parsed before them.
  pub parse_lines-passed :
      (ms : List (DbcMessage d)) (a b : List (List ℕ)) (line : List ℕ)
      → is_passed line ≡ true
      → parse_lines n r ms (a ++ line ∷ b) ≡ parse_lines n r ms (a ++ b)
  unfolding parse_lines
  parse_lines-passed ms a b line h =
      parse_lines-append ms a (line ∷ b)
      ∙ go_on-passed (parse_lines n r ms a)
      ∙ sym (parse_lines-append ms a b)
    where
      go_on-passed : (o : List (DbcMessage d) × Option DbcError) → go_on o (line ∷ b) ≡ go_on o b
      go_on-passed (now, none) = parse_lines-taken now now line b (parse_line-passed now line h)
      go_on-passed (now, some e) = refl

  -- The first line that is refused ends the parse: its error is the result, the lines behind it are
  -- not looked at, and the messages are those of the lines before it.
  pub parse_lines-refused :
      (ms now : List (DbcMessage d)) (a b : List (List ℕ)) (line : List ℕ) (e : DbcError)
      → parse_lines n r ms a ≡ (now, none)
      → parse_line n r now (trim line) ≡ refused e
      → parse_lines n r ms (a ++ line ∷ b) ≡ (now, some e)
  unfolding parse_lines
  parse_lines-refused ms now a b line e h he =
      parse_lines-append ms a (line ∷ b)
      ∙ ap (λ o. go_on o (line ∷ b)) h
      ∙ parse_lines-stop now line b e he

  All-passed :
      (ms : List (DbcMessage d)) (a : List (List ℕ))
      → All (λ line. is_passed line ≡ true) a
      → parse_lines n r ms a ≡ (ms, none)
  unfolding parse_lines
  All-passed ms [] h = refl
  All-passed ms (line ∷ a) (hl, h) =
      parse_lines-taken ms ms line a (parse_line-passed ms line hl) ∙ All-passed ms a h

  is_sg-only : (t : List ℕ) → is_sg t ≡ true → (is_comment t ≡ false) × (is_bo t ≡ false)
  unfolding starts_with
  is_sg-only [] h = absurd (cc)
  is_sg-only (c ∷ t) h = (ground (arith, h), ground (arith, h))

  parse_line-early : (t : List ℕ) → is_sg t ≡ true → parse_line n r [] t ≡ refused sg_before_bo
  unfolding parse_line
  parse_line-early t h = let (hc, hb) = is_sg-only t h in rw (hc, hb, h) refl

  -- A signal line that only empty lines, comments and lines of other keywords precede is refused,
  -- and no message is kept.
  pub parse_lines-early :
      (a b : List (List ℕ)) (line : List ℕ)
      → All (λ line. is_passed line ≡ true) a
      → is_sg (trim line) ≡ true
      → parse_lines n r [] (a ++ line ∷ b) ≡ ([], some sg_before_bo)
  parse_lines-early a b line ha h =
      parse_lines-refused [] [] a b line sg_before_bo (All-passed [] a ha)
        (parse_line-early (trim line) h)
