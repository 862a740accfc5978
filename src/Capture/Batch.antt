-- ===== src/Capture/Batch.antt =====
-- One batch of software/src/data/capture_service.cpp on its way into the pipeline.
use bus_test_platform.Prelude.{
  ◌+◌, ◌%◌, ◌^◌, ◌<◌, ◌≤◌, ◌≡◌, refl, sym, ap, ◌∙◌, true, List, [], ◌∷◌, ◌++◌, append_assoc,
  append-nil, length, length-append, if◌then◌else◌, arith,
}
use bus_test_platform.Frame.{BusFrame}
use bus_test_platform.Hal.{UsbDevice}
use bus_test_platform.Pipeline.{Pipeline, push}
use bus_test_platform.Pipeline.Refine.{IsValid, view, length-view, push_refines, distance-valid}
use bus_test_platform.Pipeline.Queue
use bus_test_platform.Capture.{Capture, push_batch}

-- What a push into a pipeline with room does.
record Took (p : Pipeline) (f : BusFrame) : Type 0 where
  took : (push p f).1 ≡ true
  holds : (view (push p f).0).frames ≡ (view p).frames ++ f ∷ []
  valid : IsValid (push p f).0
  capacity_same : (push p f).0.capacity ≡ p.capacity
  tail_next : (push p f).0.tail ≡ p.tail + 1
  dropped_same : (push p f).0.dropped ≡ p.dropped

push-Took :
    (p : Pipeline) (f : BusFrame)
    → IsValid p
    → length (view p).frames < p.capacity
    → p.tail + 1 < 2 ^ 64
    → p.dropped + 1 < 2 ^ 64
    → Took p f
unfolding push Queue.push
push-Took p f v h ht hd =
    let r = push_refines f v ht hd in
    let d = distance-valid v in
    let l = length-view p in
    record {
      took = ground arith;
      holds = ground arith;
      valid = r.1;
      capacity_same = r.2;
      tail_next = ground arith;
      dropped_same = ground arith;
    }

-- A batch that fits the free room of a valid pipeline, while neither its index nor the counters
-- wrap, arrives there whole and in order, behind the frames already held; every frame is counted
-- as pushed and none as dropped.
pub push_batch-room :
    {d : UsbDevice} (frames : List BusFrame) (c : Capture d)
    → IsValid c.pipe
    → length (view c.pipe).frames + length frames ≤ c.pipe.capacity
    → c.pipe.tail + length frames < 2 ^ 64
    → c.pipe.dropped + 1 < 2 ^ 64
    → c.pushed + length frames < 2 ^ 64
    → let c' = push_batch c frames in
      ((view c'.pipe).frames ≡ (view c.pipe).frames ++ frames)
      × (c'.pushed ≡ c.pushed + length frames)
      × (c'.pipe.dropped ≡ c.pipe.dropped)
unfolding push_batch
push_batch-room [] c v hl ht hd hp = (sym (append-nil (view c.pipe).frames), omega arith, refl)
push_batch-room (f ∷ frames) c v hl ht hd hp =
    let t = push-Took c.pipe f v (omega arith) (omega arith) hd in
    let counted : (if (push c.pipe f).1 then (c.pushed + 1) % 2 ^ 64 else c.pushed) ≡ c.pushed + 1 =
      ground (arith, t.took) in
    let held =
      ap (λ (fs : List BusFrame). length fs) t.holds
      ∙ length-append (view c.pipe).frames (f ∷ []) in
    let rest =
      push_batch-room frames _ t.valid (omega (arith, t.capacity_same, held))
        (omega (arith, t.tail_next)) (omega (arith, t.dropped_same)) (omega (arith, counted)) in
    (
      rest.0
          ∙ ap (λ (fs : List BusFrame). fs ++ frames) t.holds
          ∙ append_assoc (view c.pipe).frames (f ∷ []) frames,
      rest.1 ∙ omega (arith, counted),
      rest.2 ∙ t.dropped_same,
    )
