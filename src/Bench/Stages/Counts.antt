-- ===== src/Bench/Stages/Counts.antt =====
-- What the stages of software/src/bench/bench.cpp count.
use bus_test_platform.Prelude.{
  ℕ, ◌+◌, ◌%◌, ◌^◌, ◌≤◌, ◌<◌, ◌≡◌, refl, sym, ap, ◌∙◌, true, false, Option, some, List, [], ◌∷◌,
  ◌++◌, leb, ltb, length, All, arith, inl, inr,
}
use bus_test_platform.Frame.{BusFrame, IsFrame}
use bus_test_platform.Pipeline.{Pipeline, push, pop, distance}
use bus_test_platform.Pipeline.Refine.{IsValid, view, length-view, distance-valid, pop_refines}
use bus_test_platform.Pipeline.Queue
use bus_test_platform.Pipeline.Queue.{Queue}
use bus_test_platform.Pipeline.Threads.Atomic.{push-free}
use bus_test_platform.Capture.Threads.Outcome.{Took, push-cases, pop-tail, pop-dropped_same}
use bus_test_platform.Frame.Layout.{FrameLayout}
use bus_test_platform.Wire.{data_packet}
use bus_test_platform.Firmware.{frames_bytes}
use bus_test_platform.Firmware.Build.{length-frames_bytes}
use bus_test_platform.Codec.{encode_data}
use bus_test_platform.Codec.Encode.{encode_data_lem}
use bus_test_platform.Codec.Agree.{build_data-eq-encode_data}
use bus_test_platform.Codec.RoundTrip.{decode_data-build_data}
use bus_test_platform.Prelude.Blit.{blit, length-blit}
use bus_test_platform.Bench.{sample_frame, sample_frame-IsFrame}
use bus_test_platform.Bench.Stages.{pipeline_loop, packet_max, codec_round, codec_loop}

-- A valid pipeline that holds nothing, after `tail` frames.
pub record IsDrained (p : Pipeline) : Type 0 where
  pub valid : IsValid p
  pub drained : (view p).frames ≡ []

push-IsDrained :
    (p : Pipeline) (f : BusFrame)
    → IsDrained p
    → p.tail + 1 < 2 ^ 64
    → p.dropped + 1 < 2 ^ 64
    → Took p f
push-IsDrained p f h ht hd =
    let empty = ap (λ (fs : List BusFrame). length fs) h.drained in
    let free : leb p.capacity (distance p.tail p.head) ≡ false =
      ground (arith, distance-valid h.valid, length-view p, empty, h.valid.capacity_pos) in
    let took : (push p f).1 ≡ true = rw (push-free p f free) refl in
    elim (push-cases p f h.valid ht hd) [
      | inl t ↦ t
      | inr r ↦ absurd (let clash = sym took ∙ r.outcome in cc)
    ]

-- One round: the frame goes in and comes out.
round-IsDrained :
    (p : Pipeline) (f : BusFrame)
    → IsDrained p
    → p.tail + 1 < 2 ^ 64
    → p.dropped + 1 < 2 ^ 64
    → IsDrained (pop (push p f).0 true).0
unfolding Queue.pop
round-IsDrained p f h ht hd =
    let t = push-IsDrained p f h ht hd in
    let (same, kept, size) = pop_refines t.valid in
    let only : (view (push p f).0).frames ≡ f ∷ [] = t.frames ∙ ap (λ fs. fs ++ f ∷ []) h.drained in
    record {
      valid = kept;
      drained =
          ap (λ (o : Queue × Option BusFrame). o.0.frames) same
          ∙ ap
              (λ (fs : List BusFrame).
                (Queue.pop (record { frames = fs; lost = (push p f).0.dropped })).0.frames)
              only;
    }

pipeline_loop-round :
    (deadline n now : ℕ) (p : Pipeline) (readings : List ℕ)
    → now < deadline
    → n + 1 < 2 ^ 64
    → (push p sample_frame).1 ≡ true
    → pipeline_loop deadline n p (now ∷ readings)
      ≡ pipeline_loop deadline (n + 1) (pop (push p sample_frame).0 true).0 readings
unfolding pipeline_loop
pipeline_loop-round deadline n now p readings hnow hn done =
    let on : ltb now deadline ≡ true = ground arith in
    let up : (n + 1) % 2 ^ 64 ≡ n + 1 = omega arith in rw (on, done, up) refl

-- While the readings of the clock before the deadline are fewer than the 64-bit counters have room
-- for: from a valid and empty pipeline, each round of stage 1 pushes a frame with success and pops
-- it, so the stage counts every round, nothing is dropped, and the pipeline is empty again.
pub pipeline_loop_lem :
    (deadline n : ℕ) (p : Pipeline) (before rest : List ℕ) (last : ℕ)
    → IsDrained p
    → p.tail + length before < 2 ^ 64
    → p.dropped + 1 < 2 ^ 64
    → n + length before < 2 ^ 64
    → All (λ now. now < deadline) before
    → deadline ≤ last
    → (q : Pipeline) × (pipeline_loop deadline n p (before ++ last ∷ rest)
        ≡ some (n + length before, q))
      × IsDrained q
      × (q.dropped ≡ p.dropped)
unfolding pipeline_loop
pipeline_loop_lem deadline n p [] rest last h ht hd hn early late =
    let stop : ltb last deadline ≡ false = ground arith in
    (p, rw (stop) (ap (λ k. some (k, p)) (omega arith)), h, refl)
pipeline_loop_lem deadline n p (now ∷ before) rest last h ht hd hn (hnow, early) late =
    let t = push-IsDrained p sample_frame h (omega arith) hd in
    let p' = (pop (push p sample_frame).0 true).0 in
    let moved = pop-tail (push p sample_frame).0 ∙ t.tail in
    let counted = pop-dropped_same (push p sample_frame).0 ∙ t.dropped in
    let (q, e, hq, dq) =
      pipeline_loop_lem deadline (n + 1) p' before rest last
        (round-IsDrained p sample_frame h (omega arith) hd) (omega (arith, moved))
        (omega (arith, counted)) (omega arith) early late in
    (
      q,
      pipeline_loop-round deadline n now p (before ++ last ∷ rest) hnow (omega arith) t.outcome
          ∙ e
          ∙ ap (λ k. some (k, q)) (omega arith),
      hq,
      dq ∙ counted,
    )

module _ (layout : FrameLayout) where
  -- One round of stage 3 on a buffer of the size of `pkt`: the sample frame is encoded and decoded.
  codec_round_lem :
      (pkt : List ℕ) (decoded : List BusFrame)
      → length pkt ≡ packet_max layout
      → (pkt' : List ℕ) × (codec_round layout pkt decoded
          ≡ some (pkt', blit decoded 0 (sample_frame ∷ [])))
        × (length pkt' ≡ packet_max layout)
  unfolding codec_round
  codec_round_lem pkt decoded h =
      let one : All IsFrame (sample_frame ∷ []) = (sample_frame-IsFrame, tt) in
      let body = frames_bytes layout (sample_frame ∷ []) in
      let built =
        build_data-eq-encode_data layout (some pkt) (packet_max layout) (sample_frame ∷ []) 0 one in
      let encoded = encode_data_lem layout pkt (packet_max layout) (sample_frame ∷ []) 0 one in
      let size = length-frames_bytes layout (sample_frame ∷ []) one in
      let fits : leb (12 + length body) (packet_max layout) ≡ true = ground (arith, size) in
      let made : encode_data layout (some pkt) (packet_max layout) (some (sample_frame ∷ [])) 1 0
          ≡ some (12 + length body, blit pkt 0 (data_packet body 0)) =
        encoded ∙ rw (fits) refl in
      let back =
        decode_data-build_data layout pkt (packet_max layout) (sample_frame ∷ []) 0 decoded 16
          (12 + length body) (blit pkt 0 (data_packet body 0)) (omega arith) one (omega arith)
          (omega arith) (built ∙ made) in
      (
        blit pkt 0 (data_packet body 0),
        rw (made, back) refl,
        length-blit pkt 0 (data_packet body 0) ∙ h,
      )

  codec_loop-round :
      (deadline n now : ℕ) (pkt pkt' : List ℕ) (decoded decoded' : List BusFrame)
      (readings : List ℕ)
      → now < deadline
      → n + 1 < 2 ^ 64
      → codec_round layout pkt decoded ≡ some (pkt', decoded')
      → codec_loop layout deadline n pkt decoded (now ∷ readings)
        ≡ codec_loop layout deadline (n + 1) pkt' decoded' readings
  unfolding codec_loop
  codec_loop-round deadline n now pkt pkt' decoded decoded' readings hnow hn e =
      let on : ltb now deadline ≡ true = ground arith in
      let up : (n + 1) % 2 ^ 64 ≡ n + 1 = omega arith in rw (codec_loop, on, e, up) refl

  -- Under every frame layout, and on a packet buffer of the size that the code gives it: stage 3
  -- never breaks off, and counts one frame for each reading of the clock before the deadline, while
  -- these are fewer than the 64-bit counter has room for.
  pub codec_loop_lem :
      (deadline n : ℕ) (pkt : List ℕ) (decoded : List BusFrame) (before rest : List ℕ) (last : ℕ)
      → length pkt ≡ packet_max layout
      → n + length before < 2 ^ 64
      → All (λ now. now < deadline) before
      → deadline ≤ last
      → codec_loop layout deadline n pkt decoded (before ++ last ∷ rest) ≡ some (n + length before)
  unfolding codec_loop
  codec_loop_lem deadline n pkt decoded [] rest last h hn early late =
      let stop : ltb last deadline ≡ false = ground arith in rw (stop) (ap some (omega arith))
  codec_loop_lem deadline n pkt decoded (now ∷ before) rest last h hn (hnow, early) late =
      let (pkt', e, h') = codec_round_lem pkt decoded h in
      let after = blit decoded 0 (sample_frame ∷ []) in
      codec_loop-round deadline n now pkt pkt' decoded after (before ++ last ∷ rest) hnow
        (omega arith) e
      ∙ codec_loop_lem deadline (n + 1) pkt' after before rest last h' (omega arith) early late
      ∙ ap some (omega arith)
