-- ===== src/Cli/Options.antt =====
-- The options of `cmd_bench` in software/src/main.cpp: the last argument that gives an option decides.
use bus_test_platform.Prelude.{
  ℕ, ◌≡◌, refl, Bool, true, false, ◌||◌, Option, none, some, List, [], ◌∷◌, if◌then◌else◌, drop,
  Bool-cases, Option-cases, inl, inr, length, ◌==◌, ◌!=◌, arith,
}
use bus_test_platform.Prelude.Int.{ℤ, unsigned32}
use bus_test_platform.Prelude.Print.{codes}
use bus_test_platform.Signal.{Doubles}
use bus_test_platform.Dbc.Scan.{starts_with}
use bus_test_platform.Cli.{bench_options}

-- The value of the last argument that begins with `prefix`, if there is one.
abbrev pub last_option : List ℕ → List (List ℕ) → Option (List ℕ)
last_option prefix [] = none
last_option prefix (a ∷ args) =
    let later = last_option prefix args in
    elim later [
      | some value ↦ some value
      | none ↦ if starts_with prefix a then some (drop (length prefix) a) else none
    ]

abbrev pub or_else {ℓ κ} : {A : Type ℓ} {B : Type κ} → B → (A → B) → Option A → B
or_else default read none = default
or_else default read (some a) = read a

-- Its reading, or a default.
abbrev pub wanted {ℓ} : {A : Type ℓ} → List ℕ → (List ℕ → A) → A → List (List ℕ) → A
wanted prefix read default args = or_else default read (last_option prefix args)

-- Two prefixes that differ at some place.
abbrev clash : List ℕ → List ℕ → Bool
clash [] q = false
clash (x ∷ p) [] = false
clash (x ∷ p) (y ∷ q) = x != y || clash p q

starts_with-clash :
    (p q s : List ℕ) → clash p q ≡ true → starts_with p s ≡ true → starts_with q s ≡ false
unfolding starts_with
starts_with-clash [] q s h hp = absurd (cc)
starts_with-clash (x ∷ p) [] s h hp = absurd (cc)
starts_with-clash (x ∷ p) (y ∷ q) [] h hp = refl
starts_with-clash (x ∷ p) (y ∷ q) (c ∷ s) h hp = elim (Bool-cases (x == c)) [
  | inl same ↦
      let rest : starts_with p s ≡ true = rw (same) at hp in
      elim (Bool-cases (x == y)) [
        | inl equal ↦
            let below : clash p q ≡ true =
              (let kept : x != y ≡ false = ground arith in rw (kept) at h) in
            let next : y == c ≡ true = ground arith in
            rw (next, starts_with-clash p q s below rest) refl
        | inr differ ↦ let next : y == c ≡ false = ground arith in rw (next) refl
      ]
  | inr other ↦ absurd (let no = rw (other) at hp in cc)
]

module _ {ℓ} {A : Type ℓ} (prefix : List ℕ) (read : List ℕ → A) (default : A) (a : List ℕ)
    (args : List (List ℕ)) where
  wanted-take :
      starts_with prefix a ≡ true
      → wanted prefix read default (a ∷ args)
        ≡ wanted prefix read (read (drop (length prefix) a)) args
  wanted-take h = elim (Option-cases (last_option prefix args)) [
    | inl nothing ↦ rw (nothing, h) refl
    | inr (value, found) ↦ rw (found) refl
  ]

  wanted-skip :
      starts_with prefix a ≡ false
      → wanted prefix read default (a ∷ args) ≡ wanted prefix read default args
  wanted-skip h = elim (Option-cases (last_option prefix args)) [
    | inl nothing ↦ rw (nothing, h) refl
    | inr (value, found) ↦ rw (found) refl
  ]

module _ (d : Doubles) (atof : List ℕ → d.Double) (atoi : List ℕ → ℤ) where
  -- The two options, each from the last argument that gives it.
  abbrev pub wanted_options : List (List ℕ) → d.Double × ℕ
  wanted_options args = (
    wanted (codes "--duration=") atof d.unit args,
    wanted (codes "--rate=") (λ s. unsigned32 (atoi s)) 50000 args,
  )

  pub bench_options_lem :
      (duration : d.Double) (rate : ℕ) (args : List (List ℕ))
      → bench_options d atof atoi duration rate args ≡ (
        wanted (codes "--duration=") atof duration args,
        wanted (codes "--rate=") (λ s. unsigned32 (atoi s)) rate args,
      )
  unfolding bench_options
  bench_options_lem duration rate [] = refl
  bench_options_lem duration rate (a ∷ args) =
      elim (Bool-cases (starts_with (codes "--duration=") a)) [
        | inl takes ↦
            let skips = starts_with-clash (codes "--duration=") (codes "--rate=") a refl takes in
            rw
              (
                wanted-take (codes "--duration=") atof duration a args takes,
                wanted-skip (codes "--rate=") (λ s. unsigned32 (atoi s)) rate a args skips,
                takes,
              )
              (bench_options_lem (atof (drop 11 a)) rate args)
        | inr passes ↦ elim (Bool-cases (starts_with (codes "--rate=") a)) [
          | inl takes ↦
              rw
                (
                  wanted-skip (codes "--duration=") atof duration a args passes,
                  wanted-take (codes "--rate=") (λ s. unsigned32 (atoi s)) rate a args takes,
                  passes,
                  takes,
                )
                (bench_options_lem duration (unsigned32 (atoi (drop 7 a))) args)
          | inr skips ↦
              rw
                (
                  wanted-skip (codes "--duration=") atof duration a args passes,
                  wanted-skip (codes "--rate=") (λ s. unsigned32 (atoi s)) rate a args skips,
                  passes,
                  skips,
                )
                (bench_options_lem duration rate args)
        ]
      ]
