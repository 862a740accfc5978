-- ===== src/Tests/Traffic.antt =====
-- The capture service in front of the generator.
use bus_test_platform.Prelude.{◌≡◌, refl, true, false, some, [], ◌∷◌, ◌++◌, All, arith}
use bus_test_platform.Frame.{BusFrame, canfd}
use bus_test_platform.Pipeline.{make, push, blank_frame}
use bus_test_platform.Pipeline.Refine.{view}
use bus_test_platform.Hal.Sim.{
  SimConfig, SimDevice, sim_device, make_sim, checked_config, open_sim, frames_due,
  enabled_channels, sim_frame, sim_frames, generate, read_sim,
}
use bus_test_platform.Capture.Threads.{
  took, free, Service, call_start, spawn, test_on, read_batch, hand, Reach, begin, later,
}
use bus_test_platform.Capture.Threads.Generator.{IsSimBody, delivered_sim}

-- A thousand frames in a second, on channels 0 and 2; the length is cut to 64.
abbrev traffic : SimConfig
traffic = record {
  rate_frames_per_sec = 1000;
  channel_mask = 5;
  bus_type = canfd;
  dlc = 80;
  id_base = 256;
  extended = false;
  fd = true;
  seed = 7;
}

abbrev opened : SimDevice
opened = record {
  cfg = record traffic { dlc = 64 };
  is_open_flag = true;
  generated = 0;
  opened_at_ns = 5;
  prng_state = 7;
  id_offset = 0;
}

-- The one frame that is due after a millisecond.
abbrev first : BusFrame
first = (sim_frame opened (0 ∷ 2 ∷ []) 0 900).1

abbrev after_first : SimDevice
after_first = record (sim_frame opened (0 ∷ 2 ∷ []) 0 900).0 { generated = 1 }

abbrev one_frame : Service sim_device
one_frame = record {
  dev = after_first;
  pipe = record { buf = first ∷ blank_frame ∷ []; capacity = 2; head = 0; tail = 1; dropped = 0 };
  poll_timeout_ms = 1;
  running = true;
  offered = 0;
  pushed = 0;
  poll_cycles = 0;
  worker = took [];
  caller = free;
  read = first ∷ [];
  tried = first ∷ [];
  kept = first ∷ [];
  delivered = [];
}

one_read : read_sim opened true 256 1 1000005 900 ≡ some (after_first, first ∷ [])
unfolding read_sim generate sim_frames enabled_channels frames_due
one_read = refl

one_frame_reached : Reach (make_sim traffic) 2 1 one_frame
unfolding make push make_sim checked_config open_sim
one_frame_reached =
    later
      (later (later (later (later begin (call_start 5 refl refl)) (spawn refl)) (test_on refl refl))
        (read_batch 1000005 900 after_first (first ∷ []) refl one_read))
      (hand first [] refl)

delivered_sim_example :
    All (IsSimBody (checked_config traffic)) ([] ++ (view one_frame.pipe).frames)
unfolding checked_config enabled_channels
delivered_sim_example =
    delivered_sim traffic {s = one_frame} (omega arith) (omega arith) (omega arith)
      one_frame_reached
