-- ===== src/Cli/Exit.antt =====
-- The exit codes of software/src/main.cpp, and the options of the benchmark.
use bus_test_platform.Prelude.{
  ℕ, ◌≡◌, refl, Bool, true, false, not, ◌&&◌, ◌||◌, Option, some, List, [], ◌∷◌, if◌then◌else◌,
  same_name, drop, Bool-cases, inl, inr, ◌==◌, arith,
}
use bus_test_platform.Prelude.Int.{ℤ}
use bus_test_platform.Prelude.Print.{codes}
use bus_test_platform.Signal.{Doubles}
use bus_test_platform.Workspace.{
  make_channel, find_in, find_channel, add_channel, find_node_in, find_node, add_node,
}
use bus_test_platform.Workspace.History.{empty_workspace}
use bus_test_platform.Bench.{pass_loss_accounting}
use bus_test_platform.Bench.Report.{BenchReport, pass_throughput, pass_latency}
use bus_test_platform.Cli.{cmd_info, cmd_demo, cmd_usage, cmd_bench, busmon_main}
use bus_test_platform.Cli.Options.{wanted_options, bench_options_lem}

-- The first argument is one of the two names of the benchmark.
abbrev pub asks_bench : List (List ℕ) → Bool
asks_bench [] = false
asks_bench (self ∷ []) = false
asks_bench (self ∷ cmd ∷ args) = same_name cmd (codes "--bench") || same_name cmd (codes "-b")

cmd_info-code : (v : List ℕ) → (cmd_info v).code ≡ 0
unfolding cmd_info
cmd_info-code v = refl

cmd_demo_quiet : (d : Doubles) → ((cmd_demo d).code ≡ 0) × ((cmd_demo d).errors ≡ [])
unfolding cmd_demo add_channel find_channel find_in add_node find_node find_node_in empty_workspace
    make_channel
cmd_demo_quiet d = (refl, refl)

cmd_usage_quiet :
    (argv0 : Option (List ℕ)) → ((cmd_usage argv0).code ≡ 0) × ((cmd_usage argv0).errors ≡ [])
unfolding cmd_usage
cmd_usage_quiet argv0 = (refl, refl)

same_name_sound : (s t : List ℕ) → same_name s t ≡ true → s ≡ t
same_name_sound [] [] h = refl
same_name_sound [] (y ∷ t) h = absurd (cc)
same_name_sound (x ∷ s) [] h = absurd (cc)
same_name_sound (x ∷ s) (y ∷ t) h = elim (Bool-cases (x == y)) [
  | inl same ↦
      let head : x ≡ y = ground arith in
      rw (head, same_name_sound s t (let rest = rw (same) at h in rest)) refl
  | inr other ↦ absurd (let no = rw (other) at h in cc)
]

-- Exclusive names: what matches one of two names matches neither of two others.
module _ (cmd a b c e : List ℕ) (ac : same_name a c ≡ false) (ae : same_name a e ≡ false)
    (bc : same_name b c ≡ false) (be : same_name b e ≡ false) where
  names_apart :
      same_name cmd a || same_name cmd b ≡ true → same_name cmd c || same_name cmd e ≡ false
  names_apart h = elim (Bool-cases (same_name cmd a)) [
    | inl same ↦ rw (same_name_sound cmd a same, ac, ae) refl
    | inr other ↦
        let last : same_name cmd b ≡ true = rw (other) at h in
        rw (same_name_sound cmd b last, bc, be) refl
  ]

-- The three gates together.
abbrev pub all_gates : {d : Doubles} → BenchReport d → Bool
all_gates r = pass_throughput r && pass_latency r && pass_loss_accounting r.frames r.dropped

module _ (d : Doubles) (atof : List ℕ → d.Double) (atoi : List ℕ → ℤ) where
  module _ (fixed : ℕ → d.Double → List ℕ) (suite : d.Double → ℕ → BenchReport d) where
    cmd_bench_quiet :
        (argv : List (List ℕ))
        → let options = wanted_options d atof atoi (drop 2 argv) in
          let run = cmd_bench d atof atoi fixed suite argv in
          (run.code ≡ (if not (all_gates (suite options.0 options.1)) then 2 else 0))
          × (run.errors ≡ [])
    unfolding cmd_bench
    cmd_bench_quiet argv =
        let args = drop 2 argv in
        let options = wanted_options d atof atoi args in
        elim (Bool-cases (all_gates (suite options.0 options.1))) [
          | inl pass ↦ rw (bench_options_lem d atof atoi d.unit 50000 args, pass) (refl, refl)
          | inr fail ↦ rw (bench_options_lem d atof atoi d.unit 50000 args, fail) (refl, refl)
        ]

    -- For every argument vector: the exit code is 2 just when the first argument asks for the
    -- benchmark and its report, for the duration and the rate that the last `--duration=` and the
    -- last `--rate=` ask for, fails a gate; otherwise it is 0. Nothing is written to `stderr`.
    pub main_lem :
        (project_version : List ℕ) (argv : List (List ℕ))
        → let options = wanted_options d atof atoi (drop 2 argv) in
          let run = busmon_main d atof atoi fixed suite project_version argv in
          (run.code
            ≡ (if asks_bench argv && not (all_gates (suite options.0 options.1)) then 2 else 0))
          × (run.errors ≡ [])
    unfolding busmon_main cmd_info
    main_lem v [] = (refl, refl)
    main_lem v (self ∷ []) = (refl, refl)
    main_lem v (self ∷ cmd ∷ args) =
        elim (Bool-cases (same_name cmd (codes "--info") || same_name cmd (codes "-i"))) [
          | inl info ↦
              rw
                (
                  info,
                  names_apart cmd (codes "--info") (codes "-i") (codes "--bench") (codes "-b") refl
                      refl refl refl info,
                )
                (refl, refl)
          | inr not_info ↦
              elim (Bool-cases (same_name cmd (codes "--demo") || same_name cmd (codes "-d"))) [
                | inl demo ↦
                    rw
                      (
                        not_info,
                        demo,
                        names_apart cmd (codes "--demo") (codes "-d") (codes "--bench") (codes "-b")
                            refl refl refl refl demo,
                      )
                      (cmd_demo_quiet d)
                | inr not_demo ↦
                    elim (Bool-cases
                      (same_name cmd (codes "--bench") || same_name cmd (codes "-b"))) [
                        | inl bench ↦
                            rw (not_info, not_demo, bench) (cmd_bench_quiet (self ∷ cmd ∷ args))
                        | inr not_bench ↦
                            rw (not_info, not_demo, not_bench) (cmd_usage_quiet (some self))
                      ]
              ]
        ]
