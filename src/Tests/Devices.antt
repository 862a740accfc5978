-- ===== src/Tests/Devices.antt =====
-- The traffic generator and the object model on concrete data.
use bus_test_platform.Prelude.{
  ℕ, ◌+◌, ◌-◌, ◌≡◌, min, refl, true, false, not, ◌&&◌, ◌==◌, is_some, none, some, List, [], ◌∷◌,
  length, if◌then◌else◌, arith,
}
use bus_test_platform.Frame.{BusFrame, canfd}
use bus_test_platform.Hal.Sim.{SimConfig, SimDevice, enabled_channels, frames_due, read_sim}
use bus_test_platform.Hal.Sim.Due.{due_at, read_sim_lem, read_sim-division_by_zero}
use bus_test_platform.Workspace.{Workspace, make_channel, find_channel, channel_count, add_channel}
use bus_test_platform.Workspace.Channels.{add_channel_lem}
use bus_test_platform.Tests.Data.{whole}

-- 50000 frames each second on the channels of `mask`.
abbrev config : ℕ → SimConfig
config mask = record {
  rate_frames_per_sec = 50000;
  channel_mask = mask;
  bus_type = canfd;
  dlc = 8;
  id_base = 0x100;
  extended = false;
  fd = true;
  seed = 1;
}

-- Open since 1000 ns, two frames handed out.
abbrev device : ℕ → SimDevice
device mask = record {
  cfg = config mask;
  is_open_flag = true;
  generated = 2;
  opened_at_ns = 1000;
  prng_state = 1;
  id_offset = 2;
}

-- 100 us after the start five frames are due and two of them are done.
read_sim_lem_example :
    (d' : SimDevice) × (frames : List BusFrame) × (read_sim (device 6) true 256 1 101000 101000
      ≡ some (d', frames))
    × (length frames ≡ min (due_at (device 6) 101000 - 2) 256)
    × (d'.generated ≡ 2 + length frames)
unfolding enabled_channels
read_sim_lem_example = read_sim_lem (device 6) 256 1 101000 101000 refl (omega arith)

-- Channel 9 alone: not one of the eight.
read_sim-division_by_zero_example : read_sim (device 512) true 256 1 101000 101000 ≡ none
unfolding frames_due
read_sim-division_by_zero_example =
    read_sim-division_by_zero (device 512) 256 1 101000 101000 refl (omega arith) (omega arith)
      (omega arith)

abbrev one_channel : Workspace whole
one_channel = record { channels = make_channel 3 canfd (65 ∷ []) ∷ []; nodes = [] }

add_channel_lem_example :
    let (w', made) = add_channel one_channel 5 canfd (66 ∷ []) in
    (is_some made ≡ not (is_some (find_channel one_channel 5)))
    × (find_channel w' 3 ≡ (if is_some made && 3 == 5 then made else find_channel one_channel 3))
    × (channel_count w' ≡ channel_count one_channel + (if is_some made then 1 else 0))
add_channel_lem_example = add_channel_lem one_channel 5 canfd (66 ∷ []) 3
