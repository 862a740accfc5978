-- ===== src/Bench/Suite/Outcome.antt =====
-- What `run_bench_suite` of software/src/bench/bench.cpp reports of frames and losses.
use mathlib.Core.Option.{some-injective}
use bus_test_platform.Prelude.{
  ℕ, ◌+◌, ◌%◌, ◌^◌, ◌≤◌, ◌<◌, ◌≡◌, refl, ap, ◌∙◌, true, false, Option, none, some, is_some, List,
  [], ◌∷◌, ◌++◌, ltb, length, All, arith, Bool-cases, inl, inr, Option-cases,
}
use bus_test_platform.Frame.Layout.{FrameLayout}
use bus_test_platform.Signal.{Doubles}
use bus_test_platform.Pipeline.{Pipeline, make, size}
use bus_test_platform.Pipeline.Refine.{make-IsValid}
use bus_test_platform.Pipeline.Runs.{flood, flood_lem}
use bus_test_platform.Bench.{sample_frame, pass_loss_accounting, pass_loss_accounting_always}
use bus_test_platform.Bench.Report.{BenchReport}
use bus_test_platform.Bench.Stages.{packet_max, pipeline_loop, codec_loop}
use bus_test_platform.Bench.Stages.Counts.{IsDrained, pipeline_loop_lem, codec_loop_lem}
use bus_test_platform.Bench.Suite.{
  Times, Poll, Observed, Latency, deadline_of, clamp_duration, timed_loop, note_frame, consume_loop,
  report_of, run_bench_suite,
}

-- The readings of the loop's condition.
abbrev pub nows : List Times → List ℕ
nows [] = []
nows (t ∷ times) = t.now ∷ nows times

-- Of these readings, `n` come before the deadline, and then one does not.
pub record Reaches (deadline : ℕ) (readings : List ℕ) (n : ℕ) : Type 0 where
  pub before : List ℕ
  pub last : ℕ
  pub rest : List ℕ
  pub split : readings ≡ before ++ last ∷ rest
  pub early : All (λ now. now < deadline) before
  pub late : deadline ≤ last
  pub counted : length before ≡ n

-- Of these polls, one comes after the deadline.
pub record Ends (deadline : ℕ) (polls : List Poll) : Type 0 where
  pub before : List Poll
  pub last : Poll
  pub rest : List Poll
  pub split : polls ≡ before ++ last ∷ rest
  pub late : deadline ≤ last.now

module _ (d : Doubles) where
  -- The count and the pipeline that the loop leaves.
  abbrev counts : Option (ℕ × ℕ × Latency d × Pipeline) → Option (ℕ × Pipeline)
  counts none = none
  counts (some (n, now, lat, pipe)) = some (n, pipe)

  -- The latencies do not bear on what stage 1 counts.
  timed_loop-counts :
      (deadline now n : ℕ) (lat : Latency d) (pipe : Pipeline) (times : List Times)
      → counts (timed_loop d deadline now n lat pipe times)
        ≡ pipeline_loop deadline n pipe (now ∷ nows times)
  unfolding timed_loop pipeline_loop
  timed_loop-counts deadline now n lat pipe [] = elim (Bool-cases (ltb now deadline)) [
    | inl on ↦ rw (on) refl
    | inr over ↦ rw (over) refl
  ]
  timed_loop-counts deadline now n lat pipe (t ∷ times) = elim (Bool-cases (ltb now deadline)) [
    | inl on ↦ rw (on) (timed_loop-counts deadline t.now _ _ _ times)
    | inr over ↦ rw (over) refl
  ]

  counts-some :
      (o : Option (ℕ × ℕ × Latency d × Pipeline)) (n : ℕ) (q : Pipeline)
      → counts o ≡ some (n, q)
      → (now : ℕ) × (lat : Latency d) × (o ≡ some (n, now, lat, q))
  counts-some none n q e = absurd (cc)
  counts-some (some (k, now, lat, p)) n q e = (
    now,
    lat,
    ap (λ (x : ℕ × Pipeline). some (x.0, now, lat, x.1)) (some-injective (k, p) (n, q) e),
  )

  -- Stage 4 ends with a poll that comes after the deadline.
  consume_loop-ends :
      (deadline : ℕ) (before rest : List Poll) (last : Poll) (consumed : ℕ) (lat : Latency d)
      → deadline ≤ last.now
      → is_some (consume_loop d deadline consumed lat (before ++ last ∷ rest)) ≡ true
  unfolding consume_loop
  consume_loop-ends deadline [] rest last consumed lat late =
      let over : ltb last.now deadline ≡ false = ground arith in rw (over) refl
  consume_loop-ends deadline (poll ∷ before) rest last consumed lat late =
      elim (Bool-cases (ltb poll.now deadline)) [
        | inr over ↦ rw (over) refl
        | inl on ↦ elim (Option-cases poll.got) [
          | inl nothing ↦
              rw (on, nothing) (consume_loop-ends deadline before rest last consumed lat late)
          | inr (got, e) ↦
              rw (on, e)
                (consume_loop-ends deadline before rest last ((consumed + 1) % 2 ^ 64)
                  (note_frame d got lat) late)
        ]
      ]

  -- Stage 2 drops what does not fit the sixteen slots.
  flood-dropped : (flood 1000 (make 16) sample_frame).dropped ≡ 984
  unfolding make size
  flood-dropped = omega (
    arith,
    flood_lem 1000 {p = make 16} sample_frame (make-IsValid 16 (omega arith)).0 (omega arith)
        (omega arith),
  )

  timed_loop-Reaches :
      (deadline now n : ℕ) (lat : Latency d) (p : Pipeline) (times : List Times)
      → Reaches deadline (now ∷ nows times) n
      → IsDrained p
      → p.tail + n < 2 ^ 64
      → p.dropped + 1 < 2 ^ 64
      → (last : ℕ) × (lat' : Latency d) × (q : Pipeline) × (timed_loop d deadline now 0 lat p times
          ≡ some (n, last, lat', q))
  timed_loop-Reaches deadline now n lat p times h hp ht hd =
      let (q, e, drained, none_lost) =
        pipeline_loop_lem deadline 0 p h.before h.rest h.last hp (omega (arith, h.counted)) hd
          (omega (arith, h.counted)) h.early h.late in
      let all : 0 + length h.before ≡ n = omega (arith, h.counted) in
      let (last, lat', found) = counts-some (timed_loop d deadline now 0 lat p times) n q (
        timed_loop-counts deadline now 0 lat p times
        ∙ ap (pipeline_loop deadline 0 p) h.split
        ∙ e
        ∙ ap (λ (k : ℕ). some (k, q)) all) in
      (last, lat', q, found)

  fresh-IsDrained : IsDrained (make 65536)
  unfolding make
  fresh-IsDrained = record { valid = (make-IsValid 65536 (omega arith)).0; drained = refl }

  fresh-counters : ((make 65536).tail ≡ 0) × ((make 65536).dropped ≡ 0)
  unfolding make
  fresh-counters = (refl, refl)

  -- The suite on a clock that reaches the deadline of each stage, on a packet buffer of the size that
  -- the code gives it, with fewer rounds than 64-bit counters have room for: it reports, whatever the
  -- arithmetic of `double` does. The frames of the pipeline and of the codec are the rounds before
  -- their deadlines, 984 of the thousand frames for sixteen slots are dropped, and the gate for the
  -- accounting of losses passes.
  pub run_bench_suite_lem :
      (layout : FrameLayout) (duration_s : d.Double) (seen : Observed) (rounds codec_rounds : ℕ)
      → let dur = clamp_duration d duration_s in
        Reaches
          (deadline_of d seen.pipeline_start dur)
          (seen.pipeline_start ∷ nows seen.rounds)
          rounds
        → Reaches (deadline_of d seen.codec_start dur) seen.codec_readings codec_rounds
        → Ends (deadline_of d seen.e2e_start dur) seen.polls
        → length seen.pkt ≡ packet_max layout
        → rounds + 984 < 2 ^ 64
        → codec_rounds < 2 ^ 64
        → (r : BenchReport d) × (run_bench_suite d layout duration_s seen ≡ some r)
          × (r.frames ≡ rounds)
          × (r.dropped ≡ 984)
          × (r.codec_frames ≡ codec_rounds)
          × (pass_loss_accounting r.frames r.dropped ≡ true)
  unfolding run_bench_suite
  run_bench_suite_lem layout duration_s seen rounds codec_rounds h1 h3 h4 hp hn hc =
      let dur = clamp_duration d duration_s in
      let still : Latency d = record { sum = d.nought; max = d.nought } in
      let (last, lat, q, timed) =
        timed_loop-Reaches (deadline_of d seen.pipeline_start dur) seen.pipeline_start rounds still
          (make 65536) seen.rounds h1 fresh-IsDrained (omega (arith, fresh-counters))
          (omega (arith, fresh-counters)) in
      let all : 0 + length h3.before ≡ codec_rounds = omega (arith, h3.counted) in
      let coded : codec_loop layout (deadline_of d seen.codec_start dur) 0 seen.pkt seen.decoded
            seen.codec_readings
          ≡ some codec_rounds =
        ap (codec_loop layout (deadline_of d seen.codec_start dur) 0 seen.pkt seen.decoded) h3.split
        ∙ codec_loop_lem layout (deadline_of d seen.codec_start dur) 0 seen.pkt seen.decoded
            h3.before h3.rest h3.last hp (omega (arith, h3.counted)) h3.early h3.late
        ∙ ap some all in
      let ends =
        ap (λ polls. is_some (consume_loop d (deadline_of d seen.e2e_start dur) 0 still polls))
          h4.split
        ∙ consume_loop-ends (deadline_of d seen.e2e_start dur) h4.before h4.rest h4.last 0 still
            h4.late in
      elim (Option-cases (consume_loop d (deadline_of d seen.e2e_start dur) 0 still seen.polls)) [
        | inl nothing ↦ absurd (let no = rw (nothing) at ends in cc)
        | inr ((consumed, e2e), got) ↦ (
          report_of d seen rounds last lat codec_rounds consumed e2e,
          rw (timed, coded, got) refl,
          refl,
          flood-dropped,
          refl,
          rw (flood-dropped) (pass_loss_accounting_always rounds 984 hn),
        )
      ]
