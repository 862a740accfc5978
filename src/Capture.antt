-- ===== src/Capture.antt =====
-- The capture service: software/src/data/capture_service.h and capture_service.cpp. The worker
-- thread is the sequence of its rounds; the flag `running_` and the counters are atomic.
pub mod Accounting
pub mod Batch
pub mod Threads
use bus_test_platform.Prelude.{
  ◌>>=◌, ℕ, ◌+◌, ◌%◌, ◌^◌, Bool, true, false, not, ◌&&◌, Option, none, some, List, [], ◌∷◌,
  if◌then◌else◌,
}
use bus_test_platform.Frame.{BusFrame}
use bus_test_platform.Hal.{UsbDevice}
use bus_test_platform.Pipeline.{Pipeline, push, pop}

-- kBatchFrames
abbrev pub batch_frames : ℕ
batch_frames = 256

-- `class CaptureService` with the device and the pipeline that it refers to.
pub record Capture (d : UsbDevice) : Type 0 where
  pub dev : d.State
  pub pipe : Pipeline
  pub poll_timeout_ms : ℕ
  pub running : Bool
  pub offered : ℕ
  pub pushed : ℕ
  pub poll_cycles : ℕ

module _ {d : UsbDevice} where
  unfoldable pub make_capture : d.State → Pipeline → ℕ → Capture d
  make_capture dev pipe poll_timeout_ms = record {
    dev = dev;
    pipe = pipe;
    poll_timeout_ms = poll_timeout_ms;
    running = false;
    offered = 0;
    pushed = 0;
    poll_cycles = 0;
  }

  -- `now` is the clock for the device's `open`, which is called only if the device is not open.
  unfoldable pub start : Capture d → ℕ → Capture d × Bool
  start c now =
      let (dev, opened) = d.open_device c.dev now in
      if c.running
      then (c, false)
      else if d.is_open c.dev
      then (record c { running = true }, true)
      else if opened
      then (record c { dev = dev; running = true }, true)
      else (record c { dev = dev }, false)

  unfoldable pub stop : Capture d → Capture d
  stop c = record c { running = false }

  -- The inner loop of `run` over the frames of one batch.
  unfoldable pub push_batch : Capture d → List BusFrame → Capture d
  push_batch c [] = c
  push_batch c (f ∷ frames) =
      let (pipe, done) = push c.pipe f in
      push_batch
        (record c {
          pipe = pipe;
          pushed = if done then (c.pushed + 1) % 2 ^ 64 else c.pushed;
          offered = (c.offered + 1) % 2 ^ 64;
        })
        frames

  -- One round of `run`, at two readings of the device's clock.
  unfoldable pub poll : Capture d → ℕ → ℕ → Option (Capture d)
  poll c now stamp = do
    (dev, frames) ← d.read_frames c.dev true batch_frames c.poll_timeout_ms now stamp
    some (
        let c' = push_batch (record c { dev = dev }) frames in
        record c' { poll_cycles = (c'.poll_cycles + 1) % 2 ^ 64 })

  -- The consumer's `pop` on the same pipeline.
  unfoldable pub consume : Capture d → Capture d × Option BusFrame
  consume c = let (pipe, out) = pop c.pipe true in (record c { pipe = pipe }, out)
