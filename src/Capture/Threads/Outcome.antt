-- ===== src/Capture/Threads/Outcome.antt =====
-- What a `push` and a `pop` of software/src/data/pipeline.cpp do to the frames held, in the form
-- that the worker and the consumer of the capture service use.
use bus_test_platform.Prelude.{
  ℕ, ◌+◌, ◌%◌, ◌^◌, ◌<◌, ◌≡◌, ◌⊎◌, refl, sym, ap, ◌∙◌, true, false, Option, List, [], ◌∷◌, ◌++◌,
  append_assoc, leb, arith, Bool-cases, inl, inr,
}
use bus_test_platform.Frame.{BusFrame}
use bus_test_platform.Pipeline.{Pipeline, push, pop, distance}
use bus_test_platform.Pipeline.Queue
use bus_test_platform.Pipeline.Queue.{Queue}
use bus_test_platform.Pipeline.Refine.{
  IsValid, view, push_room, push_refines, pop_refines, distance-valid,
}
use bus_test_platform.Pipeline.Threads.Atomic.{handed_out, push-full, push-free}

pub record Took (p : Pipeline) (f : BusFrame) : Type 0 where
  pub outcome : (push p f).1 ≡ true
  pub valid : IsValid (push p f).0
  pub frames : (view (push p f).0).frames ≡ (view p).frames ++ f ∷ []
  pub dropped : (push p f).0.dropped ≡ p.dropped
  pub tail : (push p f).0.tail ≡ p.tail + 1

pub record Refused (p : Pipeline) (f : BusFrame) : Type 0 where
  pub outcome : (push p f).1 ≡ false
  pub valid : IsValid (push p f).0
  pub frames : (view (push p f).0).frames ≡ (view p).frames
  pub dropped : (push p f).0.dropped ≡ p.dropped + 1
  pub tail : (push p f).0.tail ≡ p.tail

pub push-cases :
    (p : Pipeline) (f : BusFrame)
    → IsValid p
    → p.tail + 1 < 2 ^ 64
    → p.dropped + 1 < 2 ^ 64
    → Took p f ⊎ Refused p f
push-cases p f v ht hd = elim (Bool-cases (leb p.capacity (distance p.tail p.head))) [
  | inl full ↦
      let count : p.dropped + 1 ≡ (p.dropped + 1) % 2 ^ 64 = omega arith in
      inr (record {
        outcome = rw (push-full p f full) refl;
        valid = (push_refines f v ht hd).1;
        frames = rw (push-full p f full) refl;
        dropped = rw (push-full p f full) (sym count);
        tail = rw (push-full p f full) refl;
      })
  | inr free ↦
      let count : (p.tail + 1) % 2 ^ 64 ≡ p.tail + 1 = omega arith in
      let room : p.tail < p.head + p.capacity = ground (arith, distance-valid v) in
      inl (record {
        outcome = rw (push-free p f free) refl;
        valid = (push_refines f v ht hd).1;
        frames = rw (push-free p f free, count) (push_room f v room);
        dropped = rw (push-free p f free) refl;
        tail = rw (push-free p f free) count;
      })
]

pub pop-tail : (p : Pipeline) → (pop p true).0.tail ≡ p.tail
unfolding pop
pop-tail p = ground arith

pub pop-dropped_same : (p : Pipeline) → (pop p true).0.dropped ≡ p.dropped
unfolding pop
pop-dropped_same p = ground arith

handed_out-pop :
    (delivered frames : List BusFrame) (lost : ℕ)
    → let (q, out) = Queue.pop (record { frames = frames; lost = lost }) in
      handed_out delivered out ++ q.frames ≡ delivered ++ frames
unfolding Queue.pop
handed_out-pop delivered [] lost = refl
handed_out-pop delivered (f ∷ rest) lost = append_assoc delivered (f ∷ []) rest

pub pop_order :
    (delivered : List BusFrame) (p : Pipeline)
    → IsValid p
    → handed_out delivered (pop p true).1 ++ (view (pop p true).0).frames
      ≡ delivered ++ (view p).frames
pop_order delivered p v =
    let (same, kept, size) = pop_refines v in
    ap (λ (o : Queue × Option BusFrame). handed_out delivered o.1 ++ o.0.frames) same
    ∙ handed_out-pop delivered (view p).frames (view p).lost
