-- ===== src/Tests/Stages.antt =====
-- The benchmark on a clock of few readings.
use bus_test_platform.Prelude.{
  ℕ, ◌≡◌, refl, some, none, true, [], ◌∷◌, length-replicate, replicate, arith,
}
use bus_test_platform.Bench.{pass_loss_accounting}
use bus_test_platform.Bench.Report.{BenchReport}
use bus_test_platform.Bench.Suite.{Observed, deadline_of, clamp_duration, run_bench_suite}
use bus_test_platform.Bench.Suite.Outcome.{run_bench_suite_lem}
use bus_test_platform.Tests.Data.{whole, frame}
use bus_test_platform.Tests.Layout.{lp64}

-- One second on a clock of few readings: two rounds in stage 1, one in stage 3, one frame in stage 4.
abbrev seen : Observed
seen = record {
  pipeline_start = 5;
  rounds =
      record { pushed_at = 6; popped_at = 7; now = 500 }
      ∷ record { pushed_at = 501; popped_at = 502; now = 1000000006 }
      ∷ [];
  codec_start = 10;
  pkt = replicate 1548 0;
  decoded = replicate 16 frame;
  codec_readings = 20 ∷ 1000000010 ∷ [];
  codec_end = 1000000011;
  e2e_start = 20;
  polls =
      record { now = 30; got = some (frame, 200000) }
      ∷ record { now = 2000000000; got = none }
      ∷ [];
  e2e_end = 2000000001;
  e2e_dropped = 0;
  generated = 1;
}

run_bench_suite_lem_example :
    (r : BenchReport whole) × (run_bench_suite whole lp64 1 seen ≡ some r)
    × (r.frames ≡ 2)
    × (r.dropped ≡ 984)
    × (r.codec_frames ≡ 1)
    × (pass_loss_accounting r.frames r.dropped ≡ true)
unfolding deadline_of clamp_duration
run_bench_suite_lem_example =
    run_bench_suite_lem whole lp64 1 seen 2 1
      (record {
        before = 5 ∷ 500 ∷ [];
        last = 1000000006;
        rest = [];
        split = refl;
        early = (omega arith, (omega arith, tt));
        late = omega arith;
        counted = refl;
      })
      (record {
        before = 20 ∷ [];
        last = 1000000010;
        rest = [];
        split = refl;
        early = (omega arith, tt);
        late = omega arith;
        counted = refl;
      })
      (record {
        before = record { now = 30; got = some (frame, 200000) } ∷ [];
        last = record { now = 2000000000; got = none };
        rest = [];
        split = refl;
        late = omega arith;
      })
      (length-replicate {A = ℕ} 1548 0) (omega arith) (omega arith)
