-- ===== src/Capture/Accounting.antt =====
-- No frame that software/src/data/capture_service.cpp reads is lost without being counted, in every
-- interleaving of the worker's rounds with the consumer and with `start` and `stop`.
use mathlib.Core.Option.{some-injective}
use bus_test_platform.Prelude.{
  ℕ, ◌+◌, ◌%◌, ◌^◌, ◌≡◌, refl, subst, true, some, Option-cases, inl, inr, List, [], ◌∷◌,
  if◌then◌else◌, arith,
}
use bus_test_platform.Frame.{BusFrame}
use bus_test_platform.Hal.{UsbDevice}
use bus_test_platform.Pipeline.{Pipeline, make, push, pop}
use bus_test_platform.Capture.{Capture, make_capture, start, stop, push_batch, poll, consume}

-- What another thread can see happen between two of its own steps.
pub data Step {d : UsbDevice} : Capture d → Capture d → Type 0 where
  started : (c : Capture d) (now : ℕ) → Step c (start c now).0
  stopped : (c : Capture d) → Step c (stop c)
  polled :
      (c c' : Capture d) (now stamp : ℕ) → c.running ≡ true → poll c now stamp ≡ some c' → Step c c'
  consumed : (c : Capture d) → Step c (consume c).0

pub data Steps {d : UsbDevice} : Capture d → Capture d → Type 0 where
  done : (c : Capture d) → Steps c c
  next : (a b c : Capture d) → Step a b → Steps b c → Steps a c

-- The frames offered are those the pipeline accepted and those it dropped, in 64-bit counters.
abbrev pub Accounted : {d : UsbDevice} → Capture d → Type 0
Accounted c = c.offered % 2 ^ 64 ≡ (c.pushed + c.pipe.dropped) % 2 ^ 64

push-dropped :
    (p : Pipeline) (f : BusFrame)
    → (push p f).0.dropped ≡ (if (push p f).1 then p.dropped else (p.dropped + 1) % 2 ^ 64)
unfolding push
push-dropped p f = ground arith

pop-dropped : (p : Pipeline) → (pop p true).0.dropped ≡ p.dropped
unfolding pop
pop-dropped p = ground arith

push_batch-Accounted :
    {d : UsbDevice} (frames : List BusFrame) (c : Capture d)
    → Accounted c
    → Accounted (push_batch c frames)
unfolding push_batch
push_batch-Accounted [] c h = h
push_batch-Accounted (f ∷ frames) c h =
    push_batch-Accounted frames _ (ground (arith, push-dropped c.pipe f))

start-Accounted :
    {d : UsbDevice} (c : Capture d) (now : ℕ) → Accounted c → Accounted (start c now).0
unfolding start
start-Accounted c now h = ground arith

poll-Accounted :
    {d : UsbDevice} (c c' : Capture d) (now stamp : ℕ)
    → poll c now stamp ≡ some c'
    → Accounted c
    → Accounted c'
unfolding poll
poll-Accounted {d} c c' now stamp e h =
    elim (Option-cases (d.read_frames c.dev true 256 c.poll_timeout_ms now stamp)) [
      | inl stuck ↦ absurd (let no = rw (stuck) at e in cc)
      | inr ((dev, frames), got) ↦
          subst (λ (k : Capture d). Accounted k) (some-injective _ c' (rw (got) at e))
            (push_batch-Accounted frames (record c { dev = dev }) h)
    ]

Step-Accounted : {d : UsbDevice} {a b : Capture d} → Step a b → Accounted a → Accounted b
unfolding stop consume
Step-Accounted (started c now) h = start-Accounted c now h
Step-Accounted (stopped c) h = h
Step-Accounted (polled c c' now stamp on e) h = poll-Accounted c c' now stamp e h
Step-Accounted (consumed c) h = omega (arith, h, pop-dropped c.pipe)

-- From a new service with a new pipeline, in every interleaving of `start`, `stop`, the worker's
-- rounds and the consumer's `pop`: the frames offered are the frames pushed plus the frames the
-- pipeline counts as dropped, as 64-bit counters.
pub offered_lem :
    {d : UsbDevice} (dev : d.State) (capacity timeout_ms : ℕ) (c : Capture d)
    → Steps (make_capture dev (make capacity) timeout_ms) c
    → c.offered % 2 ^ 64 ≡ (c.pushed + c.pipe.dropped) % 2 ^ 64
unfolding make_capture make
offered_lem {d} dev capacity timeout_ms c steps = Steps-Accounted steps refl
  where
    Steps-Accounted : {a b : Capture d} → Steps a b → Accounted a → Accounted b
    Steps-Accounted (done c) h = h
    Steps-Accounted (next a b c s rest) h = Steps-Accounted rest (Step-Accounted s h)
