-- ===== src/Bench/Stages.antt =====
-- The single-threaded stages of `run_bench_suite`, software/src/bench/bench.cpp: the loops, their
-- counts, and the pipeline and buffers that they work on. The readings of the steady clock are a
-- list; those that are taken for the latencies only are left out, as the latencies are. Bench/Suite
-- has them.
pub mod Counts
use bus_test_platform.Prelude.{
  ◌>>=◌, ℕ, ◌+◌, ◌*◌, ◌%◌, ◌^◌, Bool, true, false, Option, none, some, List, [], ◌∷◌, ltb, ◌==◌,
  ◌!=◌, if◌then◌else◌,
}
use bus_test_platform.Frame.{BusFrame}
use bus_test_platform.Frame.Layout.{FrameLayout}
use bus_test_platform.Wire.{header_size, frames_per_packet}
use bus_test_platform.Codec.{encode_data, decode_data}
use bus_test_platform.Pipeline.{Pipeline, push, pop}
use bus_test_platform.Bench.{sample_frame}

-- Stage 1, from the reading `now` on: `n` and the pipeline when the deadline has come, `none` if the
-- readings end before it.
unfoldable pub pipeline_loop : ℕ → ℕ → Pipeline → List ℕ → Option (ℕ × Pipeline)
pipeline_loop deadline n pipe [] = none
pipeline_loop deadline n pipe (now ∷ readings) =
    let (pushed, done) = push pipe sample_frame in
    let rest =
      pipeline_loop deadline (if done then (n + 1) % 2 ^ 64 else n)
        (if done then (pop pushed true).0 else pushed) readings in
    if ltb now deadline then rest else some (n, pipe)

-- kMaxDataPkt
abbrev pub packet_max : FrameLayout → ℕ
packet_max layout = header_size + frames_per_packet * layout.size

module _ (layout : FrameLayout) where
  -- The body of the loop of stage 3, on `pkt` and `decoded`; `none` is a `break`.
  unfoldable pub codec_round : List ℕ → List BusFrame → Option (List ℕ × List BusFrame)
  codec_round pkt decoded = do
    (enc, pkt') ← encode_data layout (some pkt) (packet_max layout) (some (sample_frame ∷ [])) 1 0
    (dec, decoded', seq) ← decode_data layout (some pkt') enc (some decoded) frames_per_packet
    if dec != 1 then none else some (pkt', decoded')

  -- Stage 3: `n` when the deadline has come or a round has failed.
  unfoldable pub codec_loop : ℕ → ℕ → List ℕ → List BusFrame → List ℕ → Option ℕ
  codec_loop deadline n pkt decoded [] = none
  codec_loop deadline n pkt decoded (now ∷ readings) =
      if ltb now deadline
      then elim (codec_round pkt decoded) [
        | none ↦ some n
        | some (pkt', decoded') ↦ codec_loop deadline ((n + 1) % 2 ^ 64) pkt' decoded' readings
      ]
      else some n
