-- ===== src/Bench/Suite.antt =====
-- `run_bench_suite` of software/src/bench/bench.cpp: the four stages with their latencies, and the
-- report. The readings of the steady clock are arguments, in the order in which the code takes them;
-- so is what the threads of stage 4 do.
pub mod Outcome
use bus_test_platform.Prelude.{
  ◌>>=◌, ℕ, ◌+◌, ◌-◌, ◌*◌, ◌%◌, ◌^◌, Bool, true, false, ◌&&◌, Option, none, some, is_some, List, [],
  ◌∷◌, ltb, if◌then◌else◌, replicate,
}
use bus_test_platform.Frame.{BusFrame}
use bus_test_platform.Frame.Layout.{FrameLayout}
use bus_test_platform.Signal.{Doubles}
use bus_test_platform.Pipeline.{Pipeline, make, push, pop, blank_frame}
use bus_test_platform.Pipeline.Runs.{flood}
use bus_test_platform.Bench.{sample_frame}
use bus_test_platform.Bench.Report.{BenchReport}
use bus_test_platform.Bench.Stages.{packet_max, codec_loop}

-- The readings that a round of stage 1 takes, if it comes to them: `a`, `b` and `now`.
pub record Times : Type 0 where
  pub pushed_at : ℕ
  pub popped_at : ℕ
  pub now : ℕ

-- A round of the loop of stage 4: the reading of its condition, and the frame popped, if there is one,
-- with the reading that its latency is taken from.
pub record Poll : Type 0 where
  pub now : ℕ
  pub got : Option (BusFrame × ℕ)

-- What a run of the suite observes. `pkt` and `decoded` are the buffers
-- of stage 3 as the stack holds them.
pub record Observed : Type 0 where
  pub pipeline_start : ℕ
  pub rounds : List Times
  pub codec_start : ℕ
  pub pkt : List ℕ
  pub decoded : List BusFrame
  pub codec_readings : List ℕ
  pub codec_end : ℕ
  pub e2e_start : ℕ
  pub polls : List Poll
  pub e2e_end : ℕ
  pub e2e_dropped : ℕ
  pub generated : ℕ

module _ (d : Doubles) where
  -- `lat_sum_us` and `lat_max_us`
  pub record Latency : Type 0 where
    pub sum : d.Double
    pub max : d.Double

  unfoldable pub add_latency : d.Double → Latency → Latency
  add_latency us lat = record {
    sum = d.add lat.sum us;
    max = if d.ltb lat.max us then us else lat.max;
  }

  -- The time between two readings, which the code subtracts in 64 bits, in units of `scale` ns.
  unfoldable pub elapsed : ℕ → ℕ → ℕ → d.Double
  elapsed scale since now =
      d.div (d.of_u64 ((now + (2 ^ 64 - since % 2 ^ 64)) % 2 ^ 64)) (d.of_u64 scale)

  unfoldable pub clamp_duration : d.Double → d.Double
  clamp_duration s = if d.ltb s d.tenth then d.tenth else s

  unfoldable pub deadline_of : ℕ → d.Double → ℕ
  deadline_of t0 dur = (t0 + d.to_u64 (d.mul dur (d.of_u64 1000000000))) % 2 ^ 64

  -- `n / (s > 0.0 ? s : 1.0)`
  unfoldable pub rate_of : ℕ → d.Double → d.Double
  rate_of n s = d.div (d.of_u64 n) (if d.ltb d.nought s then s else d.unit)

  -- The average stays 0.0 if nothing was counted.
  unfoldable pub average : ℕ → d.Double → d.Double
  average n sum = if ltb 0 n then d.div sum (d.of_u64 n) else d.nought

  -- Stage 1, with `now` as last read: `n`, `now`, the latencies and the pipeline at the deadline.
  unfoldable pub timed_loop :
      ℕ → ℕ → ℕ → Latency → Pipeline → List Times → Option (ℕ × ℕ × Latency × Pipeline)
  timed_loop deadline now n lat pipe [] =
      if ltb now deadline then none else some (n, now, lat, pipe)
  timed_loop deadline now n lat pipe (t ∷ times) =
      let (pushed, done) = push pipe sample_frame in
      let (popped, out) = pop pushed true in
      let lat' =
        if done && is_some out
        then add_latency (elapsed 1000 t.pushed_at t.popped_at) lat
        else lat in
      let rest =
        timed_loop deadline t.now (if done then (n + 1) % 2 ^ 64 else n) lat'
          (if done then popped else pushed) times in
      if ltb now deadline then rest else some (n, now, lat, pipe)

  -- `us` of stage 4, and `if (us >= 0.0)`
  unfoldable pub note_frame : BusFrame × ℕ → Latency → Latency
  note_frame (f, now) lat =
      let us = elapsed 1000 (f.timestamp_ns100 * 100 % 2 ^ 64) now in
      if d.leb d.nought us then add_latency us lat else lat

  unfoldable pub consume_loop : ℕ → ℕ → Latency → List Poll → Option (ℕ × Latency)
  consume_loop deadline consumed lat [] = none
  consume_loop deadline consumed lat (poll ∷ polls) =
      let rest : Option (ℕ × Latency) = elim poll.got [
        | none ↦ consume_loop deadline consumed lat polls
        | some got ↦ consume_loop deadline ((consumed + 1) % 2 ^ 64) (note_frame got lat) polls
      ] in
      if ltb poll.now deadline then rest else some (consumed, lat)

  -- The fields of the report, from what the loops leave.
  abbrev pub report_of : Observed → ℕ → ℕ → Latency → ℕ → ℕ → Latency → BenchReport d
  report_of seen n now lat codec_frames consumed e2e =
      let seconds = elapsed 1000000000 seen.pipeline_start now in
      let e2e_seconds = elapsed 1000000000 seen.e2e_start seen.e2e_end in
      record {
        duration_s = seconds;
        frames = n;
        pipeline_throughput = rate_of n seconds;
        latency_avg_us = average n lat.sum;
        latency_max_us = lat.max;
        dropped = (flood 1000 (make 16) sample_frame).dropped;
        codec_frames = codec_frames;
        codec_throughput =
            rate_of codec_frames (elapsed 1000000000 seen.codec_start seen.codec_end);
        e2e_frames = consumed;
        e2e_throughput = rate_of consumed e2e_seconds;
        e2e_latency_avg_us = average consumed e2e.sum;
        e2e_latency_max_us = e2e.max;
        e2e_dropped = seen.e2e_dropped;
        sim_rate_achieved = rate_of seen.generated e2e_seconds;
      }

  -- `none` if the readings end before a deadline.
  unfoldable pub run_bench_suite : FrameLayout → d.Double → Observed → Option (BenchReport d)
  run_bench_suite layout duration_s seen =
      let dur = clamp_duration duration_s in
      let still : Latency = record { sum = d.nought; max = d.nought } in
      do
        (n, now, lat, pipe) ←
            timed_loop (deadline_of seen.pipeline_start dur) seen.pipeline_start 0 still
              (make 65536) seen.rounds
        codec_frames ←
            codec_loop layout (deadline_of seen.codec_start dur) 0 seen.pkt seen.decoded
              seen.codec_readings
        (consumed, e2e) ← consume_loop (deadline_of seen.e2e_start dur) 0 still seen.polls
        some (report_of seen n now lat codec_frames consumed e2e)
