-- ===== src/Tests/Services.antt =====
-- The capture service with its worker on a concrete device.
use bus_test_platform.Prelude.{◌+◌, ◌≡◌, refl, true, false, [], ◌∷◌, ◌++◌, arith}
use bus_test_platform.Pipeline.{make, push, blank_frame}
use bus_test_platform.Pipeline.Refine.{view}
use bus_test_platform.Capture.Threads.{
  absent, handing, took, ended, free, joining, Service, Move, call_start, spawn, call_stop, joined,
  test_on, test_off, read_batch, hand, count_pushed, count_offered, end_round, Reach, begin, later,
}
use bus_test_platform.Capture.Threads.Invariant.{Split}
use bus_test_platform.Capture.Threads.Account.{frames_lem, stopped_lem}
use bus_test_platform.Capture.Threads.Stopping.{Works, stop_returns}
use bus_test_platform.Tests.Data.{frame}
use bus_test_platform.Tests.Buffering.{feeder}

-- The first of three frames has been pushed but not counted when `stop` is called.
abbrev stopping : Service feeder
stopping = record {
  dev = true;
  pipe = record { buf = frame ∷ blank_frame ∷ []; capacity = 2; head = 0; tail = 1; dropped = 0 };
  poll_timeout_ms = 1;
  running = false;
  offered = 0;
  pushed = 0;
  poll_cycles = 0;
  worker = took (frame ∷ frame ∷ []);
  caller = joining;
  read = frame ∷ frame ∷ frame ∷ [];
  tried = frame ∷ [];
  kept = frame ∷ [];
  delivered = [];
}

stopping_reached : Reach {d = feeder} false 2 1 stopping
unfolding make push
stopping_reached =
    later
      (later
        (later
          (later (later (later begin (call_start 0 refl refl)) (spawn refl)) (test_on refl refl))
          (read_batch 0 0 true (frame ∷ frame ∷ frame ∷ []) refl refl))
        (hand frame (frame ∷ frame ∷ []) refl))
      (call_stop refl refl)

frames_lem_example :
    (stopping.read ≡ stopping.tried ++ frame ∷ frame ∷ [])
    × Split stopping.tried stopping.kept 0
    × (stopping.kept ≡ [] ++ (view stopping.pipe).frames)
frames_lem_example = frames_lem {s = stopping} (omega arith) (omega arith) stopping_reached

stop_returns_example :
    (k : Service feeder) × Works stopping k
    × (k.worker ≡ ended)
    × (k.running ≡ false)
    × Move k (record k { worker = absent; caller = free })
stop_returns_example =
    stop_returns {s = stopping} (omega arith) (omega arith) stopping_reached refl
      (0, 0, true, frame ∷ frame ∷ frame ∷ [], refl)

-- The same call of `stop`, returned: two frames are held, and the third was dropped.
abbrev stopped_service : Service feeder
stopped_service = record {
  dev = true;
  pipe = record { buf = frame ∷ frame ∷ []; capacity = 2; head = 0; tail = 2; dropped = 1 };
  poll_timeout_ms = 1;
  running = false;
  offered = 3;
  pushed = 2;
  poll_cycles = 1;
  worker = absent;
  caller = free;
  read = frame ∷ frame ∷ frame ∷ [];
  tried = frame ∷ frame ∷ frame ∷ [];
  kept = frame ∷ frame ∷ [];
  delivered = [];
}

second_counted : Reach {d = feeder} false 2 1 (record stopping {
  pipe = record { buf = frame ∷ frame ∷ []; capacity = 2; head = 0; tail = 2; dropped = 0 };
  offered = 2;
  pushed = 2;
  worker = handing (frame ∷ []);
  tried = frame ∷ frame ∷ [];
  kept = frame ∷ frame ∷ [];
})
unfolding push
second_counted =
    later
      (later
        (later
          (later (later stopping_reached (count_pushed (frame ∷ frame ∷ []) refl))
            (count_offered (frame ∷ frame ∷ []) refl))
          (hand frame (frame ∷ []) refl))
        (count_pushed (frame ∷ []) refl))
      (count_offered (frame ∷ []) refl)

stopped_reached : Reach {d = feeder} false 2 1 stopped_service
unfolding push
stopped_reached =
    later
      (later
        (later (later (later second_counted (hand frame [] refl)) (count_offered [] refl))
          (end_round refl))
        (test_off refl refl))
      (joined refl refl)

stopped_lem_example :
    (stopped_service.worker ≡ absent)
    × (stopped_service.read ≡ stopped_service.tried)
    × (stopped_service.offered ≡ 3)
    × (stopped_service.offered ≡ 2 + 1)
stopped_lem_example =
    stopped_lem {s = stopped_service} (omega arith) (omega arith) stopped_reached refl refl
