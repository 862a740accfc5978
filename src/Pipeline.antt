-- ===== src/Pipeline.antt =====
-- The bounded frame queue between capture and consumers: software/src/data/pipeline.h and
-- pipeline.cpp, each operation run to its end by one caller at a time.
pub mod Queue
pub mod Window
pub mod Refine
pub mod Runs
pub mod Threads
use bus_test_platform.Prelude.{
  ℕ, ◌+◌, ◌-◌, ◌%◌, ◌^◌, Bool, true, false, not, Option, none, some, List, leb, ltb, ◌==◌,
  if◌then◌else◌, get_or, set, replicate,
}
use bus_test_platform.Frame.{BusFrame, unknown, rx, frame_ok, zero_payload}

-- A value-initialised frame, with which `buf_` is filled at first.
abbrev pub blank_frame : BusFrame
blank_frame = record {
  timestamp_ns100 = 0;
  bus = unknown;
  channel = 0;
  dir = rx;
  id = 0;
  extended = 0;
  fd = 0;
  dlc = 0;
  payload = zero_payload;
  status = frame_ok;
}

-- `class Pipeline`: `buf_`, `capacity_`, `head_`, `tail_`, `dropped_`
pub record Pipeline : Type 0 where
  pub buf : List BusFrame
  pub capacity : ℕ
  pub head : ℕ
  pub tail : ℕ
  pub dropped : ℕ

-- The constructor; a capacity of 0 is taken as 1.
unfoldable pub make : ℕ → Pipeline
make n =
    let capacity = if ltb 0 n then n else 1 in
    record {
      buf = replicate capacity blank_frame;
      capacity = capacity;
      head = 0;
      tail = 0;
      dropped = 0;
    }

-- `t - h` on `size_t`
abbrev pub distance : ℕ → ℕ → ℕ
distance t h = (t + 2 ^ 64 - h) % 2 ^ 64

unfoldable pub push : Pipeline → BusFrame → Pipeline × Bool
push p frame =
    if leb p.capacity (distance p.tail p.head)
    then (record p { dropped = (p.dropped + 1) % 2 ^ 64 }, false)
    else (
      record p { buf = set p.buf (p.tail % p.capacity) frame; tail = (p.tail + 1) % 2 ^ 64 },
      true,
    )

-- The flag says whether `out` is a valid pointer; `some` is the return value true with `*out`.
unfoldable pub pop : Pipeline → Bool → Pipeline × Option BusFrame
pop p false = (p, none)
pop p true = if p.head == p.tail then (p, none) else (
  record p { head = (p.head + 1) % 2 ^ 64 },
  some (get_or p.buf (p.head % p.capacity) blank_frame),
)

unfoldable pub size : Pipeline → ℕ
size p = distance p.tail p.head

unfoldable pub is_empty : Pipeline → Bool
unfolding size
is_empty p = size p == 0

unfoldable pub reset : Pipeline → Pipeline
reset p = record p { head = 0; tail = 0; dropped = 0 }
