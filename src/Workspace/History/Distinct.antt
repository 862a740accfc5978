-- ===== src/Workspace/History/Distinct.antt =====
-- A call through one pointer keeps the keys of a list apart if it keeps the key of its element: the
-- channels by identifier and the nodes by name in software/src/core/workspace.cpp.
use bus_test_platform.Prelude.{ℕ, zero, suc, ◌≡◌, ap, ◌∙◌, Bool, List, [], ◌∷◌}
use bus_test_platform.Prelude.Keys.{Absent, Distinct}
use bus_test_platform.Workspace.History.{through}

module _ {ℓ κ} {A : Type ℓ} {K : Type κ} (key : A → K) (same : K → K → Bool) where
  pub Absent-through :
      (call : A → A)
      → ((x : A) → key (call x) ≡ key x)
      → (k : K) (place : ℕ) (xs : List A) → Absent key same k xs
      → Absent key same k (through place call xs)
  Absent-through call keeps k place [] h = tt
  Absent-through call keeps k zero (x ∷ xs) (hx, h) = (ap (λ j. same j k) (keeps x) ∙ hx, h)
  Absent-through call keeps k (suc place) (x ∷ xs) (hx, h) =
      (hx, Absent-through call keeps k place xs h)

  pub Distinct-through :
      (call : A → A)
      → ((x : A) → key (call x) ≡ key x)
      → (place : ℕ) (xs : List A) → Distinct key same xs
      → Distinct key same (through place call xs)
  Distinct-through call keeps place [] h = tt
  Distinct-through call keeps zero (x ∷ xs) (hx, h) = (rw (keeps x) hx, h)
  Distinct-through call keeps (suc place) (x ∷ xs) (hx, h) =
      (Absent-through call keeps (key x) place xs hx, Distinct-through call keeps place xs h)
