-- ===== src/Dbc/Result.antt =====
-- What a line parser of software/src/protocol/dbc/dbc_parser.cpp returns: a value, or the message that
-- it leaves in `*error`, as a constructor with the text that the message ends with.
use bus_test_platform.Prelude.{ℕ, ◌≡◌, refl, ◌⊎◌, inl, inr, Option, none, some, List}
use bus_test_platform.Dbc.Bo.{BoError}

pub data DbcError : Type 0 where
  bo_error : BoError → DbcError
  sg_before_bo : DbcError
  malformed_sg missing_geometry malformed_mux unexpected_token bad_geometry : List ℕ → DbcError
  bad_start_len bad_order missing_factor bad_factor : List ℕ → DbcError

pub data Result (A : Type 0) : Type 0 where
  refused : DbcError → Result A
  taken : A → Result A

infixl 5 ◌>>=◌
abbrev pub ◌>>=◌ : {A B : Type 0} → Result A → (A → Result B) → Result B
refused e >>= f = refused e
taken a >>= f = f a

abbrev pub want : {A : Type 0} → Option A → DbcError → Result A
want none e = refused e
want (some a) e = taken a

pub Result-cases :
    {A : Type 0} (x : Result A) → ((e : DbcError) × (x ≡ refused e)) ⊎ ((a : A) × (x ≡ taken a))
Result-cases (refused e) = inl (e, refl)
Result-cases (taken a) = inr (a, refl)
