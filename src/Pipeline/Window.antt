-- ===== src/Pipeline/Window.antt =====
-- Runs of slots in the ring, by indices that only grow.
use native.Mathlib.Nat.{mod-add-mod, mod-eq_of_lt, mod-eq-sub-mod, mod-lt}
use native.Mathlib.Decide.{dec_lt}
use bus_test_platform.Prelude.{
  ℕ, zero, suc, ◌+◌, ◌-◌, ◌%◌, ◌<◌, ◌≡◌, ◌≢◌, refl, sym, ap, ap₂, ◌∙◌, List, [], ◌∷◌, ◌++◌, length,
  get_or, set, get_or-set_self, get_or-set_ne, arith,
}

-- Two indices less than a turn apart do not share a slot.
pub slots_ne : (capacity a b : ℕ) → a < b → b < a + capacity → a % capacity ≢ b % capacity
slots_ne capacity a b h k e = elim (dec_lt (a % capacity + (b - a)) capacity) [
  | yes short ↦ omega (arith, e, shifted, mod-eq_of_lt short)
  | no wraps ↦ omega (
    arith,
    e,
    shifted,
    mod-lt a {m = capacity} (omega arith),
    mod-eq-sub-mod {n = a % capacity + (b - a)} {m = capacity} (omega arith),
    mod-eq_of_lt {n = a % capacity + (b - a) - capacity} {m = capacity}
        (omega (arith, mod-lt a {m = capacity} (omega arith))),
  )
]
  where
    shifted : (a % capacity + (b - a)) % capacity ≡ b % capacity
    shifted = mod-add-mod a capacity (b - a) ∙ ap (λ (t : ℕ). t % capacity) (omega arith)

module _ {ℓ} {A : Type ℓ} (blank : A) (capacity : ℕ) where
  -- The `n` entries from index `h` on.
  abbrev pub window : List A → ℕ → ℕ → List A
  window buf h zero = []
  window buf h (suc n) = get_or buf (h % capacity) blank ∷ window buf (h + 1) n

  pub length-window : (buf : List A) (h n : ℕ) → length (window buf h n) ≡ n
  length-window buf h zero = refl
  length-window buf h (suc n) = ap suc (length-window buf (h + 1) n)

  -- A write just behind a window of less than a turn appends to it.
  pub window-set :
      (buf : List A) (h n t : ℕ) (x : A)
      → 0 < capacity
      → length buf ≡ capacity
      → n < capacity
      → t ≡ h + n
      → window (set buf (t % capacity) x) h (suc n) ≡ window buf h n ++ x ∷ []
  window-set buf h zero t x hc hb hn e =
      ap (λ y. y ∷ [])
        (ap (λ i. get_or (set buf (t % capacity) x) (i % capacity) blank) {y = t} (omega arith)
          ∙ get_or-set_self buf (t % capacity) x blank (omega (arith, mod-lt t hc)))
  window-set buf h (suc n) t x hc hb hn e =
      ap₂ ◌∷◌
        (get_or-set_ne buf x blank
          (λ same. slots_ne capacity h t (omega arith) (omega arith) (sym same)))
        (window-set buf (h + 1) n t x hc hb (omega arith) (omega arith))

  -- The last entry of a window.
  pub window-suc :
      (buf : List A) (h n t : ℕ)
      → t ≡ h + n
      → window buf h (suc n) ≡ window buf h n ++ get_or buf (t % capacity) blank ∷ []
  window-suc buf h zero t e = ap (λ i. get_or buf (i % capacity) blank ∷ []) {x = h} (omega arith)
  window-suc buf h (suc n) t e =
      ap (◌∷◌ (get_or buf (h % capacity) blank)) (window-suc buf (h + 1) n t (omega arith))

  -- A write just behind a window of less than a turn leaves it alone.
  pub window-set_behind :
      (buf : List A) (h n t : ℕ) (x : A)
      → n < capacity
      → t ≡ h + n
      → window (set buf (t % capacity) x) h n ≡ window buf h n
  window-set_behind buf h zero t x hn e = refl
  window-set_behind buf h (suc n) t x hn e =
      ap₂ ◌∷◌
        (get_or-set_ne buf x blank
          (λ same. slots_ne capacity h t (omega arith) (omega arith) (sym same)))
        (window-set_behind buf (h + 1) n t x (omega arith) (omega arith))
