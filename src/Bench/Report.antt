-- ===== src/Bench/Report.antt =====
-- The report of the benchmark: `BenchReport` in software/src/bench/bench.h, its gates, and
-- `print_bench_report` in bench.cpp. What `printf` makes of a `double` is a parameter.
use bus_test_platform.Prelude.{ℕ, Bool, List, [], ◌∷◌, ◌++◌, if◌then◌else◌}
use bus_test_platform.Prelude.Print.{codes, dec64, chain}
use bus_test_platform.Signal.{Doubles}
use bus_test_platform.Bench.{pass_loss_accounting}

pub record BenchReport (d : Doubles) : Type 0 where
  pub duration_s : d.Double
  pub frames : ℕ
  pub pipeline_throughput : d.Double
  pub latency_avg_us : d.Double
  pub latency_max_us : d.Double
  pub dropped : ℕ
  pub codec_frames : ℕ
  pub codec_throughput : d.Double
  pub e2e_frames : ℕ
  pub e2e_throughput : d.Double
  pub e2e_latency_avg_us : d.Double
  pub e2e_latency_max_us : d.Double
  pub e2e_dropped : ℕ
  pub sim_rate_achieved : d.Double

-- A printed line from its pieces.
abbrev pub line : List (List ℕ) → List ℕ
line texts = chain texts (10 ∷ [])

-- `ok ? "PASS" : "FAIL"`
abbrev pub verdict : Bool → List ℕ
verdict ok = if ok then codes "PASS" else codes "FAIL"

module _ {d : Doubles} where
  unfoldable pub pass_throughput : BenchReport d → Bool
  pass_throughput r = d.leb (d.of_u64 50000) r.pipeline_throughput

  unfoldable pub pass_latency : BenchReport d → Bool
  pass_latency r = d.ltb r.e2e_latency_avg_us (d.of_u64 1000)

  -- `fixed n x` is what `%.nf` prints for `x`.
  unfoldable pub print_bench_report : (ℕ → d.Double → List ℕ) → BenchReport d → List ℕ
  print_bench_report fixed r =
      line (codes "==== busmon bench (M1 host-side acceptance) ====" ∷ [])
      ++ line (
          codes "[pipeline]   "
          ∷ fixed 0 r.pipeline_throughput
          ∷ codes " msg/s  ("
          ∷ dec64 r.frames
          ∷ codes " frames / "
          ∷ fixed 2 r.duration_s
          ∷ codes "s)"
          ∷ [])
      ++ line (
          codes "[latency]    avg "
          ∷ fixed 2 r.latency_avg_us
          ∷ codes " us | max "
          ∷ fixed 2 r.latency_max_us
          ∷ codes " us (push->pop)"
          ∷ [])
      ++ line (codes "[overflow]   " ∷ dec64 r.dropped ∷ codes " frames dropped and accounted" ∷ [])
      ++ line (
          codes "[codec]      "
          ∷ fixed 0 r.codec_throughput
          ∷ codes " msg/s encode+decode round-trip"
          ∷ [])
      ++ line (
          codes "[e2e]        "
          ∷ fixed 0 r.e2e_throughput
          ∷ codes " msg/s consumed | sim "
          ∷ fixed 0 r.sim_rate_achieved
          ∷ codes " msg/s"
          ∷ [])
      ++ line (
          codes "[e2e lat]    avg "
          ∷ fixed 1 r.e2e_latency_avg_us
          ∷ codes " us | max "
          ∷ fixed 1 r.e2e_latency_max_us
          ∷ codes " us | dropped "
          ∷ dec64 r.e2e_dropped
          ∷ [])
      ++ line (codes "---- M1 host gate ----" ∷ [])
      ++ line (
          codes "  throughput >= 50k msg/s : "
          ∷ verdict (pass_throughput r)
          ∷ codes " ("
          ∷ fixed 0 r.pipeline_throughput
          ∷ codes ")"
          ∷ [])
      ++ line (
          codes "  latency    < 1 ms      : "
          ∷ verdict (pass_latency r)
          ∷ codes " ("
          ∷ fixed 1 r.e2e_latency_avg_us
          ∷ codes " us avg e2e)"
          ∷ [])
      ++ line (
          codes "  loss accounting (REQ-DIAG-001) : "
          ∷ verdict (pass_loss_accounting r.frames r.dropped)
          ∷ [])
