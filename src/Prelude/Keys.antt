-- ===== src/Prelude/Keys.antt =====
-- Lists of elements with keys, of which no two are the same. A search compares a key with the one
-- asked for.
use bus_test_platform.Prelude.{◌≡◌, Bool, false, List, [], ◌∷◌, ◌++◌}

module _ {ℓ κ} {A : Type ℓ} {K : Type κ} (key : A → K) (same : K → K → Bool) where
  -- No element has the key `k`.
  abbrev pub Absent : K → List A → Type 0
  Absent k [] = Unit
  Absent k (x ∷ xs) = (same (key x) k ≡ false) × Absent k xs

  abbrev pub Distinct : List A → Type 0
  Distinct [] = Unit
  Distinct (x ∷ xs) = Absent (key x) xs × Distinct xs

  pub Absent-append :
      (k : K) (xs : List A) (y : A) → Absent k xs → same (key y) k ≡ false → Absent k (xs ++ y ∷ [])
  Absent-append k [] y h hy = (hy, tt)
  Absent-append k (x ∷ xs) y (hx, h) hy = (hx, Absent-append k xs y h hy)

  -- Symmetric in what it refuses.
  pub Distinct-append :
      ((a b : K) → same a b ≡ false → same b a ≡ false)
      → (xs : List A) (y : A) → Distinct xs
      → Absent (key y) xs
      → Distinct (xs ++ y ∷ [])
  Distinct-append turn [] y h hy = (tt, tt)
  Distinct-append turn (x ∷ xs) y (hx, h) (hxy, hy) =
      (Absent-append (key x) xs y hx (turn (key x) (key y) hxy), Distinct-append turn xs y h hy)
