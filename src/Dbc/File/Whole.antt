-- ===== src/Dbc/File/Whole.antt =====
-- Lines that `std::getline` and `trim` leave as they are: no line feed, and no blank at an end.
use bus_test_platform.Prelude.{
  ℕ, ◌≡◌, refl, false, List, [], ◌∷◌, ◌++◌, arith, Bool-cases, inl, inr,
}
use bus_test_platform.Dbc.Text.{is_nil, is_space, is_trimmed, trim_front, trim_back, trim, IsToken}
use bus_test_platform.Dbc.Bo.{bo_line}
use bus_test_platform.Dbc.Scan.{Without, Without-append}
use bus_test_platform.Dbc.Sg.Geometry.{geometry-IsToken}
use bus_test_platform.Dbc.Sg.Pieces.{bracket-IsToken}
use bus_test_platform.Dbc.Sg.Print.{
  SgText, geometry, scaling, limits, quoted, sg_line, IsPrintable, IsWord-Solid, Solid,
}

-- Nothing is trimmed off the end.
pub record IsSettled (s : List ℕ) : Type 0 where
  pub kept : trim_back s ≡ s
  pub full : is_nil s ≡ false

IsSettled-cons : (c : ℕ) (s : List ℕ) → IsSettled s → IsSettled (c ∷ s)
unfolding trim_back
IsSettled-cons c s h = record {
  kept =
      rw (h.kept, h.full)
        (elim (Bool-cases (is_trimmed c)) [ inl t ↦ rw (t) refl | inr f ↦ rw (f) refl ]);
  full = refl;
}

IsSettled-append : (x s : List ℕ) → IsSettled s → IsSettled (x ++ s)
IsSettled-append [] s h = h
IsSettled-append (c ∷ x) s h = IsSettled-cons c (x ++ s) (IsSettled-append x s h)

not_trimmed : (c : ℕ) → is_space c ≡ false → is_trimmed c ≡ false
unfolding is_space is_trimmed
not_trimmed c h = ground (arith, h)

IsSettled-token : (tok : List ℕ) → IsToken tok → IsSettled tok
unfolding trim_back
IsSettled-token [] (h, hs) = absurd (cc)
IsSettled-token (c ∷ tok) (h, hs) = record { kept = solid (c ∷ tok) hs; full = refl }
  where
    solid : (s : List ℕ) → Solid s → trim_back s ≡ s
    solid [] h = refl
    solid (c ∷ s) (hc, h) = rw (solid s h, not_trimmed c hc) refl

settled_trim :
    (c : ℕ) (s : List ℕ) → is_trimmed c ≡ false → IsSettled (c ∷ s) → trim (c ∷ s) ≡ c ∷ s
unfolding trim trim_front
settled_trim c s hc h = rw (hc) h.kept

Solid-Without : (s : List ℕ) → Solid s → Without 10 s
unfolding is_space
Solid-Without [] h = tt
Solid-Without (c ∷ s) (hc, h) = (ground (arith, hc), Solid-Without s h)

pub trim-bo_line :
    (id name dlc node : List ℕ)
    → IsToken node
    → trim (bo_line id name dlc node) ≡ bo_line id name dlc node
unfolding is_trimmed
trim-bo_line id name dlc node h = settled_trim b'B' _ refl (
    IsSettled-append (b'B' ∷ b'O' ∷ b'_' ∷ 32 ∷ id) _ (
      IsSettled-append (32 ∷ (name ++ b':' ∷ [])) _
        (IsSettled-append (32 ∷ dlc) _ (IsSettled-cons 32 node (IsSettled-token node h)))))

pub trim-sg_line : (t : SgText) → IsToken t.receivers → trim (sg_line t) ≡ sg_line t
unfolding is_trimmed
trim-sg_line t h = settled_trim b'S' _ refl (
    IsSettled-append (b'S' ∷ b'G' ∷ b'_' ∷ 32 ∷ t.name) _ (
      IsSettled-append (32 ∷ b':' ∷ 32 ∷ geometry t) _ (
        IsSettled-append (32 ∷ scaling t) _ (
          IsSettled-append (32 ∷ limits t) _ (
            IsSettled-append (32 ∷ b'"' ∷ t.unit_text) _
              (IsSettled-append (b'"' ∷ 32 ∷ []) t.receivers (IsSettled-token t.receivers h)))))))

-- A line that is put together from pieces without line feeds has none.
pub bo_line-Without :
    (id name dlc node : List ℕ)
    → IsToken id
    → IsToken (name ++ b':' ∷ [])
    → IsToken dlc
    → IsToken node
    → Without 10 (bo_line id name dlc node)
bo_line-Without id name dlc node hi hn hd ht = (
  omega arith,
  (
    omega arith,
    (
      omega arith,
      (
        omega arith,
        Without-append 10 id _ (Solid-Without id hi.1) (
          omega arith,
          Without-append 10 (name ++ b':' ∷ []) _ (Solid-Without (name ++ b':' ∷ []) hn.1) (
            omega arith,
            Without-append 10 dlc _ (Solid-Without dlc hd.1) (omega arith, Solid-Without node ht.1),
          ),
        ),
      ),
    ),
  ),
)

pub sg_line-Without :
    (t : SgText)
    → IsPrintable t
    → IsToken t.receivers
    → Without 10 t.unit_text
    → Without 10 (sg_line t)
unfolding is_space
sg_line-Without t h hr hu =
    let unit : Without 10 (32 ∷ quoted t) = (
      omega arith,
      (
        omega arith,
        Without-append 10 t.unit_text _ hu
            (omega arith, (omega arith, Solid-Without t.receivers hr.1)),
      ),
    ) in
    let range : Without 10 (32 ∷ (limits t ++ 32 ∷ quoted t)) = (
      omega arith,
      Without-append 10 (limits t) _
          (Solid-Without (limits t)
            (bracket-IsToken b'[' b']' b'|' t.lowest t.highest refl refl refl h.lowest_word
              h.highest_word).1)
          unit,
    ) in
    let physical : Without 10 (32 ∷ (scaling t ++ 32 ∷ (limits t ++ 32 ∷ quoted t))) = (
      omega arith,
      Without-append 10 (scaling t) _
          (Solid-Without (scaling t)
            (bracket-IsToken b'(' b')' b',' t.factor t.offset refl refl refl h.factor_word
              h.offset_word).1)
          range,
    ) in
    (
      omega arith,
      (
        omega arith,
        (
          omega arith,
          (
            omega arith,
            Without-append 10 t.name _ (Solid-Without t.name (IsWord-Solid t.name h.name_word)) (
              omega arith,
              (
                omega arith,
                (
                  omega arith,
                  Without-append 10 (geometry t) _
                      (Solid-Without (geometry t) (geometry-IsToken t h).1) physical,
                ),
              ),
            ),
          ),
        ),
      ),
    )
