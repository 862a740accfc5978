-- ===== src/Tests/Buffering.antt =====
-- The pipeline and the capture service on concrete frames.
use bus_test_platform.Prelude.{
  ◌+◌, ◌-◌, ◌%◌, ◌^◌, ◌≡◌, min, refl, Bool, true, false, none, some, [], ◌∷◌, replicate, arith,
}
use bus_test_platform.Pipeline.{Pipeline, make, push, pop, size}
use bus_test_platform.Pipeline.Queue
use bus_test_platform.Pipeline.Refine.{IsValid}
use bus_test_platform.Pipeline.Runs.{
  put, get, took, gave, run, run_queue, flood, run_refines, flood_lem,
}
use bus_test_platform.Hal.{UsbDevice}
use bus_test_platform.Capture.{Capture, make_capture, start, stop, push_batch, poll, consume}
use bus_test_platform.Capture.Accounting.{
  Steps, started, stopped, polled, consumed, done, next, offered_lem,
}
use bus_test_platform.Tests.Data.{frame}

-- Two slots, one of them taken, after seven frames.
abbrev pipe : Pipeline
pipe = record { buf = frame ∷ frame ∷ []; capacity = 2; head = 6; tail = 7; dropped = 0 }

pipe-IsValid : IsValid pipe
pipe-IsValid = record {
  capacity_pos = omega arith;
  capacity_fits = omega arith;
  storage = omega arith;
  ordered = omega arith;
  bounded = omega arith;
  tail_fits = omega arith;
}

-- The third push into two slots is refused; the pops give the frames back.
run_refines_example :
    run (make 2) (put frame ∷ put frame ∷ put frame ∷ get ∷ get ∷ get ∷ [])
    ≡ took true ∷ took true ∷ took false ∷ gave (some frame) ∷ gave (some frame) ∷ gave none ∷ []
unfolding run_queue Queue.push Queue.pop
run_refines_example =
    run_refines 2 (put frame ∷ put frame ∷ put frame ∷ get ∷ get ∷ get ∷ []) (omega arith)
      (omega arith)

flood_lem_example :
    (size (flood 5 pipe frame) ≡ min 2 (size pipe + 5))
    × ((flood 5 pipe frame).dropped ≡ 0 + (size pipe + 5 - 2))
flood_lem_example = flood_lem 5 {p = pipe} frame pipe-IsValid (omega arith) (omega arith)

-- A device that has three frames ready whenever it is asked.
abbrev pub feeder : UsbDevice
feeder = record {
  State = Bool;
  open_device = λ d now. (true, true);
  close_device = λ d. false;
  is_open = λ d. d;
  name = "feeder";
  send_command = λ d cmd channel param payload. (d, d);
  read_frames = λ d has_out max_frames timeout_ms now stamp. some (d, replicate 3 frame);
  error_count = λ d. 0;
}

-- A service in front of two slots, started, and after one round.
abbrev service : Capture feeder
service = make_capture false (make 2) 1

abbrev after_poll : Capture feeder
after_poll = record {
  dev = true;
  pipe = record { buf = frame ∷ frame ∷ []; capacity = 2; head = 0; tail = 2; dropped = 1 };
  poll_timeout_ms = 1;
  running = true;
  offered = 3;
  pushed = 2;
  poll_cycles = 1;
}

one_poll : poll (start service 0).0 10 20 ≡ some after_poll
unfolding poll push_batch push start make_capture make
one_poll = refl

abbrev idle : Capture feeder
idle = record {
  dev = true;
  pipe = pipe;
  poll_timeout_ms = 1;
  running = true;
  offered = 0;
  pushed = 0;
  poll_cycles = 0;
}

is_running : (start service 0).0.running ≡ true
unfolding start make_capture
is_running = refl

-- Started, polled, one frame consumed, stopped.
history : Steps service (stop (consume after_poll).0)
history = next _ _ _ (started service 0) (
    next _ _ _ (polled _ _ 10 20 is_running one_poll)
      (next _ _ _ (consumed after_poll) (next _ _ _ (stopped (consume after_poll).0) (done _))))

offered_lem_example : 3 % 2 ^ 64 ≡ (2 + 1) % 2 ^ 64
unfolding stop consume pop
offered_lem_example = offered_lem false 2 1 (stop (consume after_poll).0) history
