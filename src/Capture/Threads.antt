-- ===== src/Capture/Threads.antt =====
-- The capture service of software/src/data/capture_service.cpp with its worker thread, the thread
-- that starts and stops it, and the consumer of the pipeline, in any interleaving. One step is one
-- call or one access of an atomic; the accesses inside `push` and `pop` are those of
-- Pipeline/Threads.
pub mod Outcome
pub mod Invariant
pub mod Moves
pub mod Account
pub mod Stopping
pub mod Contract
pub mod Generator
use bus_test_platform.Prelude.{
  ℕ, ◌+◌, ◌%◌, ◌^◌, ◌≡◌, Bool, true, false, ◌||◌, Option, none, some, List, [], ◌∷◌, ◌++◌,
  if◌then◌else◌,
}
use bus_test_platform.Frame.{BusFrame}
use bus_test_platform.Hal.{UsbDevice}
use bus_test_platform.Pipeline.{Pipeline, make, push, pop}
use bus_test_platform.Pipeline.Threads.Atomic.{handed_out}
use bus_test_platform.Capture.{batch_frames}

-- Where `run` stands, with the frames of the batch that it has not come to yet.
pub data Worker : Type 0 where
  absent : Worker
  testing : Worker
  reading : Worker
  handing : List BusFrame → Worker
  took : List BusFrame → Worker
  counting : List BusFrame → Worker
  ended : Worker

-- Where the thread that owns the service stands: between calls, in `start` before the worker is
-- made, or in `stop` waiting for it.
pub data Caller : Type 0 where
  free : Caller
  spawning : Caller
  joining : Caller

-- The service, its device and pipeline, and what has happened: the frames that the device handed
-- out, those offered to the pipeline, those it took, and those the consumer has got.
pub record Service (d : UsbDevice) : Type 0 where
  pub dev : d.State
  pub pipe : Pipeline
  pub poll_timeout_ms : ℕ
  pub running : Bool
  pub offered : ℕ
  pub pushed : ℕ
  pub poll_cycles : ℕ
  pub worker : Worker
  pub caller : Caller
  pub read : List BusFrame
  pub tried : List BusFrame
  pub kept : List BusFrame
  pub delivered : List BusFrame

abbrev pub at_rest : {d : UsbDevice} → d.State → ℕ → ℕ → Service d
at_rest dev capacity timeout_ms = record {
  dev = dev;
  pipe = make capacity;
  poll_timeout_ms = timeout_ms;
  running = false;
  offered = 0;
  pushed = 0;
  poll_cycles = 0;
  worker = absent;
  caller = free;
  read = [];
  tried = [];
  kept = [];
  delivered = [];
}

-- A `start` with `running_` true and a `stop` with `running_` false return at once and change
-- nothing, so they are no steps.
pub data Move {d : UsbDevice} (s : Service d) : Service d → Type 0 where
  -- `start` up to the store of `running_`; the device is opened unless it is open.
  call_start :
      (now : ℕ)
      → s.caller ≡ free
      → s.running ≡ false
      → Move s (record s {
        dev = if d.is_open s.dev then s.dev else (d.open_device s.dev now).0;
        running = d.is_open s.dev || (d.open_device s.dev now).1;
        caller = if d.is_open s.dev || (d.open_device s.dev now).1 then spawning else free;
      })
  spawn : s.caller ≡ spawning → Move s (record s { worker = testing; caller = free })
  call_stop :
      s.caller ≡ free → s.running ≡ true → Move s (record s { running = false; caller = joining })
  joined :
      s.caller ≡ joining → s.worker ≡ ended → Move s (record s { worker = absent; caller = free })
  test_on : s.worker ≡ testing → s.running ≡ true → Move s (record s { worker = reading })
  test_off : s.worker ≡ testing → s.running ≡ false → Move s (record s { worker = ended })
  read_batch :
      (now stamp : ℕ) (dev : d.State) (batch : List BusFrame)
      → s.worker ≡ reading
      → d.read_frames s.dev true batch_frames s.poll_timeout_ms now stamp ≡ some (dev, batch)
      → Move s (record s { dev = dev; worker = handing batch; read = s.read ++ batch })
  hand :
      (f : BusFrame) (rest : List BusFrame)
      → s.worker ≡ handing (f ∷ rest)
      → Move s (record s {
        pipe = (push s.pipe f).0;
        worker = if (push s.pipe f).1 then took rest else counting rest;
        tried = s.tried ++ f ∷ [];
        kept = if (push s.pipe f).1 then s.kept ++ f ∷ [] else s.kept;
      })
  count_pushed :
      (rest : List BusFrame)
      → s.worker ≡ took rest
      → Move s (record s { worker = counting rest; pushed = (s.pushed + 1) % 2 ^ 64 })
  count_offered :
      (rest : List BusFrame)
      → s.worker ≡ counting rest
      → Move s (record s { worker = handing rest; offered = (s.offered + 1) % 2 ^ 64 })
  end_round :
      s.worker ≡ handing []
      → Move s (record s { worker = testing; poll_cycles = (s.poll_cycles + 1) % 2 ^ 64 })
  popped : Move s (record s {
    pipe = (pop s.pipe true).0;
    delivered = handed_out s.delivered (pop s.pipe true).1;
  })

-- The states that a new service with a new pipeline can get into.
pub data Reach {d : UsbDevice} (dev : d.State) (capacity timeout_ms : ℕ) : Service d → Type 0 where
  begin : Reach dev capacity timeout_ms (at_rest dev capacity timeout_ms)
  later :
      {s k : Service d}
      → Reach dev capacity timeout_ms s
      → Move s k
      → Reach dev capacity timeout_ms k
