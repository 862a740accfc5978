-- ===== src/Prelude/Blit.antt =====
-- Writing a run of bytes into a buffer, the effect of `memcpy` and of every copy loop.
use Prim.Native.Nat.{ℕ, zero, suc, ◌+◌, ◌≤◌}
use mathlib.Core.Path.{◌≡◌, refl, ap}
use mathlib.Core.List.{List, [], ◌∷◌, ◌++◌}
use native.Mathlib.Omega.{arith}
use bus_test_platform.Prelude.Lists.{length, set, drop, take}

module _ {ℓ} {A : Type ℓ} where
  -- Overwrites `buf` from index `i` on by `src`; what does not fit is lost.
  abbrev pub blit : List A → ℕ → List A → List A
  blit [] i src = []
  blit (b ∷ buf) zero [] = b ∷ buf
  blit (b ∷ buf) zero (x ∷ src) = x ∷ blit buf zero src
  blit (b ∷ buf) (suc i) src = b ∷ blit buf i src

  pub length-blit : (buf : List A) (i : ℕ) (src : List A) → length (blit buf i src) ≡ length buf
  length-blit [] i src = refl
  length-blit (b ∷ buf) zero [] = refl
  length-blit (b ∷ buf) zero (x ∷ src) = ap suc (length-blit buf zero src)
  length-blit (b ∷ buf) (suc i) src = ap suc (length-blit buf i src)

  pub blit-nil : (buf : List A) (i : ℕ) → blit buf i [] ≡ buf
  blit-nil [] i = refl
  blit-nil (b ∷ buf) zero = refl
  blit-nil (b ∷ buf) (suc i) = ap (◌∷◌ b) (blit-nil buf i)

  pub set-eq-blit : (buf : List A) (i : ℕ) (v : A) → set buf i v ≡ blit buf i (v ∷ [])
  set-eq-blit [] i v = refl
  set-eq-blit (b ∷ buf) zero v = ap (◌∷◌ v) (sym_nil buf)
    where
      sym_nil : (bs : List A) → bs ≡ blit bs zero []
      sym_nil [] = refl
      sym_nil (c ∷ bs) = refl
  set-eq-blit (b ∷ buf) (suc i) v = ap (◌∷◌ b) (set-eq-blit buf i v)

  -- Two writes of adjacent runs are one write.
  pub blit-blit :
      (buf : List A) (i j : ℕ) (xs ys : List A)
      → j ≡ i + length xs
      → blit (blit buf i xs) j ys ≡ blit buf i (xs ++ ys)
  blit-blit [] i j xs ys e = refl
  blit-blit (b ∷ buf) zero zero [] ys e = refl
  blit-blit (b ∷ buf) zero (suc j) [] ys e = absurd (omega arith)
  blit-blit (b ∷ buf) zero zero (x ∷ xs) ys e = absurd (omega arith)
  blit-blit (b ∷ buf) zero (suc j) (x ∷ xs) ys e =
      ap (◌∷◌ x) (blit-blit buf zero j xs ys (omega arith))
  blit-blit (b ∷ buf) (suc i) zero xs ys e = absurd (omega arith)
  blit-blit (b ∷ buf) (suc i) (suc j) xs ys e = ap (◌∷◌ b) (blit-blit buf i j xs ys (omega arith))

  -- A run that fits at the front is followed by what stood behind it.
  pub blit_front :
      (buf xs : List A) → length xs ≤ length buf → blit buf 0 xs ≡ xs ++ drop (length xs) buf
  blit_front [] [] h = refl
  blit_front [] (x ∷ xs) h = absurd (omega arith)
  blit_front (b ∷ buf) [] h = refl
  blit_front (b ∷ buf) (x ∷ xs) h = ap (◌∷◌ x) (blit_front buf xs (omega arith))

  pub take-blit :
      (buf xs : List A) (n : ℕ)
      → length xs ≤ length buf
      → n ≡ length xs
      → take n (blit buf 0 xs) ≡ xs
  take-blit buf [] zero h e = refl
  take-blit buf [] (suc n) h e = absurd (omega arith)
  take-blit [] (x ∷ xs) n h e = absurd (omega arith)
  take-blit (b ∷ buf) (x ∷ xs) zero h e = absurd (omega arith)
  take-blit (b ∷ buf) (x ∷ xs) (suc n) h e =
      ap (◌∷◌ x) (take-blit buf xs n (omega arith) (omega arith))
