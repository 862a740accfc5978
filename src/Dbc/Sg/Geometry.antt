-- ===== src/Dbc/Sg/Geometry.antt =====
-- The geometry of a signal line of Dbc/Sg/Print, read by `DbcParser::parse_sg`
-- (software/src/protocol/dbc/dbc_parser.cpp).
use bus_test_platform.Prelude.{
  ℕ, suc, ◌+◌, ◌-◌, ◌%◌, ◌^◌, ◌≡◌, refl, sym, ap, ◌∙◌, false, some, List, [], ◌∷◌, ◌++◌,
  append_assoc, ◌==◌, leb, ltb, if◌then◌else◌, length, length-append, take-append, get_or, arith,
}
use bus_test_platform.Dbc.Text.{is_nil, is_space, IsToken, Numbers, parse_u32}
use bus_test_platform.Dbc.Result.{taken}
use bus_test_platform.Dbc.Scan.{find, find-append, Without-append, substr-past, get_or-past}
use bus_test_platform.Dbc.Sg.{sg_flags, sg_geometry}
use bus_test_platform.Dbc.Sg.Print.{
  SgText, geometry, is_plain, IsWord, IsPrintable, IsWord-Without, IsWord-Solid, Solid-append,
}

pub is_nil-append : (s : List ℕ) (c : ℕ) (r : List ℕ) → is_nil (s ++ c ∷ r) ≡ false
is_nil-append [] c r = refl
is_nil-append (x ∷ s) c r = refl

-- Where the marks of a geometry stand.
find_bar : (s w : List ℕ) → IsWord s → find b'|' (s ++ b'|' ∷ w) ≡ some (length s)
unfolding is_plain is_space
find_bar s w h = find-append b'|' s w (IsWord-Without b'|' s refl h)

find_at :
    (s l w : List ℕ)
    → IsWord s
    → IsWord l
    → find b'@' (s ++ b'|' ∷ (l ++ b'@' ∷ w)) ≡ some (length s + 1 + length l)
unfolding is_plain is_space
find_at s l w hs hl =
    ap (find b'@') (sym (append_assoc s (b'|' ∷ l) (b'@' ∷ w)))
    ∙ find-append b'@' (s ++ b'|' ∷ l) w (
        Without-append b'@' s (b'|' ∷ l) (IsWord-Without b'@' s refl hs)
          (omega arith, IsWord-Without b'@' l refl hl))
    ∙ ap some (omega (arith, length-append s (b'|' ∷ l)))

flags_at :
    (s l : List ℕ) (o g : ℕ) (v k : ℕ)
    → sg_flags (s ++ b'|' ∷ (l ++ b'@' ∷ o ∷ g ∷ [])) (length s + 1 + length l) v k
      ≡ taken (v % 2 ^ 8, (if ltb 64 k then 64 else k), o == b'0', g == b'-')
unfolding sg_flags
flags_at s l o g v k =
    let geom = s ++ b'|' ∷ (l ++ b'@' ∷ o ∷ g ∷ []) in
    let at = length s + 1 + length l in
    let size = length-append s (b'|' ∷ (l ++ b'@' ∷ o ∷ g ∷ [])) in
    let tail = length-append l (b'@' ∷ o ∷ g ∷ []) in
    let fits : leb (length geom) (at + 2) ≡ false = ground arith in
    let order : get_or geom (at + 1) 0 ≡ o =
      get_or-past s (b'|' ∷ (l ++ b'@' ∷ o ∷ g ∷ [])) (suc (length l + 1)) (at + 1) 0 (omega arith)
      ∙ get_or-past l (b'@' ∷ o ∷ g ∷ []) 1 (length l + 1) 0 refl in
    let mark : get_or geom (at + 2) 0 ≡ g =
      get_or-past s (b'|' ∷ (l ++ b'@' ∷ o ∷ g ∷ [])) (suc (length l + 2)) (at + 2) 0 (omega arith)
      ∙ get_or-past l (b'@' ∷ o ∷ g ∷ []) 2 (length l + 2) 0 refl in
    rw (fits, order, mark) refl

pub sg_geometry-text :
    (n : Numbers) (s l : List ℕ) (o g : ℕ) (v k : ℕ)
    → IsWord s
    → IsWord l
    → parse_u32 n s ≡ some v
    → parse_u32 n l ≡ some k
    → sg_geometry n (s ++ b'|' ∷ (l ++ b'@' ∷ o ∷ g ∷ []))
      ≡ taken (v % 2 ^ 8, (if ltb 64 k then 64 else k), o == b'0', g == b'-')
unfolding sg_geometry
sg_geometry-text n s l o g v k hs hl ev ek =
    let w = b'@' ∷ o ∷ g ∷ [] in
    let at = length s + 1 + length l in
    let after : ltb at (length s) ≡ false = ground arith in
    rw
      (
        find_bar s (l ++ w) hs,
        find_at s l (o ∷ g ∷ []) hs hl,
        after,
        take-append (length s) s (b'|' ∷ (l ++ w)) refl,
        ev,
        substr-past s l w b'|' (length s + 1) (at - length s - 1) refl (omega arith),
        ek,
      )
      (flags_at s l o g v k)

pub geometry-IsToken : (t : SgText) → IsPrintable t → IsToken (geometry t)
unfolding is_space
geometry-IsToken t h = (
  is_nil-append t.start b'|' (t.len ++ b'@' ∷ order ∷ mark ∷ []),
  Solid-append t.start (b'|' ∷ (t.len ++ b'@' ∷ order ∷ mark ∷ []))
      (IsWord-Solid t.start h.start_word)
      (
        refl,
        Solid-append t.len (b'@' ∷ order ∷ mark ∷ []) (IsWord-Solid t.len h.len_word)
            (refl, (ground arith, (ground arith, tt))),
      ),
)
  where
    order : ℕ
    order = if t.little then b'0' else b'1'

    mark : ℕ
    mark = if t.signed then b'-' else b'+'
