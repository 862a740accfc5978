-- ===== src/Bench.antt =====
-- The frame and the loss test of the benchmark, software/src/bench/bench.cpp.
pub mod Report
pub mod Stages
pub mod Suite
use bus_test_platform.Prelude.{
  ℕ, suc, zero, ◌+◌, ◌%◌, ◌^◌, ◌<◌, ◌≡◌, Bool, true, ◌||◌, List, leb, ◌==◌, set, arith,
}
use bus_test_platform.Frame.{BusFrame, IsFrame, canfd, rx, frame_ok, zero_payload}

-- `for (i = 0; i < 8; ++i) f.data[i] = i`, with `n` rounds to go.
unfoldable pub count_up : ℕ → ℕ → List ℕ → List ℕ
count_up zero i payload = payload
count_up (suc n) i payload = count_up n (i + 1) (set payload i i)

unfoldable pub sample_frame : BusFrame
sample_frame = record {
  timestamp_ns100 = 1000000000;
  bus = canfd;
  channel = 0;
  dir = rx;
  id = 0x123;
  extended = 0;
  fd = 1;
  dlc = 8;
  payload = count_up 8 0 zero_payload;
  status = frame_ok;
}

-- `pass_loss_accounting` of a report with these counts.
unfoldable pub pass_loss_accounting : ℕ → ℕ → Bool
pass_loss_accounting frames dropped = dropped == 0 || leb frames ((frames + dropped) % 2 ^ 64)

-- The sample is a well-formed frame.
pub sample_frame-IsFrame : IsFrame sample_frame
unfolding sample_frame count_up
sample_frame-IsFrame = record {
  timestamp_fits = omega arith;
  channel_fits = omega arith;
  id_fits = omega arith;
  extended_fits = omega arith;
  fd_fits = omega arith;
  dlc_fits = omega arith;
  payload_length = omega arith;
  payload_bytes = omega arith;
}

-- The loss test passes for all counts whose sum fits 64 bits, whatever was offered.
pub pass_loss_accounting_always :
    (frames dropped : ℕ) → frames + dropped < 2 ^ 64 → pass_loss_accounting frames dropped ≡ true
unfolding pass_loss_accounting
pass_loss_accounting_always frames dropped h = ground arith
