-- ===== src/Hal/Sim.antt =====
-- The traffic generator: software/src/hal/usb/usb_device_sim.h and usb_device_sim.cpp.
pub mod Due
pub mod Frames
use bus_test_platform.Prelude.{
  ℕ, zero, suc, ◌+◌, ◌-◌, ◌*◌, ◌/◌, ◌%◌, ◌^◌, bit_xor, bit_and, Bool, true, false, not, ◌||◌,
  Option, none, some, List, [], ◌∷◌, ◌++◌, leb, ltb, ◌==◌, ◌!=◌, if◌then◌else◌, length, set, get_or,
}
use bus_test_platform.Frame.{BusFrame, BusType, rx, frame_ok, max_payload, zero_payload}
use bus_test_platform.Hal.{UsbDevice}

pub record SimConfig : Type 0 where
  pub rate_frames_per_sec : ℕ
  pub channel_mask : ℕ
  pub bus_type : BusType
  pub dlc : ℕ
  pub id_base : ℕ
  pub extended : Bool
  pub fd : Bool
  pub seed : ℕ

-- `SimUsbDevice`
pub record SimDevice : Type 0 where
  pub cfg : SimConfig
  pub is_open_flag : Bool
  pub generated : ℕ
  pub opened_at_ns : ℕ
  pub prng_state : ℕ
  pub id_offset : ℕ

-- The guards of the constructor.
unfoldable pub checked_config : SimConfig → SimConfig
checked_config c = record c {
  rate_frames_per_sec = if c.rate_frames_per_sec == 0 then 1 else c.rate_frames_per_sec;
  dlc = if ltb max_payload c.dlc then max_payload else c.dlc;
  channel_mask = if c.channel_mask == 0 then 1 else c.channel_mask;
}

unfoldable pub make_sim : SimConfig → SimDevice
make_sim c = record {
  cfg = checked_config c;
  is_open_flag = false;
  generated = 0;
  opened_at_ns = 0;
  prng_state = if c.seed != 0 then c.seed else 1;
  id_offset = 0;
}

unfoldable pub open_sim : SimDevice → ℕ → SimDevice × Bool
open_sim d now =
    (record d { opened_at_ns = now; generated = 0; id_offset = 0; is_open_flag = true }, true)

unfoldable pub close_sim : SimDevice → SimDevice
close_sim d = record d { is_open_flag = false }

-- `due` of `read_frames`: 64-bit arithmetic on the nanoseconds since `open`.
unfoldable pub frames_due : ℕ → ℕ → ℕ
frames_due elapsed rate =
    (elapsed / 1000000000 * rate % 2 ^ 64 + elapsed % 1000000000 * rate % 2 ^ 64 / 1000000000)
    % 2 ^ 64

-- The loop that collects the channels whose bit of the mask is set, from bit `i`.
unfoldable pub enabled_channels : ℕ → ℕ → ℕ → List ℕ
enabled_channels zero i mask = []
enabled_channels (suc n) i mask =
    let rest = enabled_channels n (i + 1) mask in if mask / 2 ^ i % 2 != 0 then i ∷ rest else rest

-- One step of the generator, in `uint64_t`.
unfoldable pub xorshift : ℕ → ℕ
xorshift s0 =
    let s1 = bit_xor s0 (s0 * 2 ^ 13 % 2 ^ 64) in
    let s2 = bit_xor s1 (s1 / 2 ^ 7) in bit_xor s2 (s2 * 2 ^ 17 % 2 ^ 64)

-- `for (b = 0; b < cfg_.dlc; ++b)`, with `n` bytes to go.
unfoldable pub fill_payload : ℕ → ℕ → ℕ → List ℕ → ℕ × List ℕ
fill_payload zero b state payload = (state, payload)
fill_payload (suc n) b state payload =
    let next = xorshift state in fill_payload n (b + 1) next (set payload b (next / 2 ^ 56 % 2 ^ 8))

-- One round of the loop that writes `out`, for frame number `index = already + i`.
unfoldable pub sim_frame : SimDevice → List ℕ → ℕ → ℕ → SimDevice × BusFrame
sim_frame d channels index stamp =
    let c = d.cfg in
    let (state, payload) = fill_payload c.dlc 0 d.prng_state zero_payload in
    (
      record d { prng_state = state; id_offset = (d.id_offset + 1) % 2 ^ 32 },
      record {
        timestamp_ns100 = stamp / 100;
        bus = c.bus_type;
        channel = get_or channels (index % 2 ^ 64 % length channels) 0;
        dir = rx;
        id = (c.id_base + d.id_offset) % 2 ^ 32;
        extended = if c.extended then 1 else 0;
        fd = if c.fd then 1 else 0;
        dlc = c.dlc;
        payload = payload;
        status = frame_ok;
      },
    )

unfoldable pub sim_frames : ℕ → SimDevice → List ℕ → ℕ → ℕ → SimDevice × List BusFrame
sim_frames zero d channels index stamp = (d, [])
sim_frames (suc n) d channels index stamp =
    let (d', f) = sim_frame d channels index stamp in
    let (d'', fs) = sim_frames n d' channels (index + 1) stamp in (d'', f ∷ fs)

-- What `read_frames` does once `due > already`: `none` is the division by `nch` that is 0.
unfoldable pub generate : SimDevice → ℕ → ℕ → Option (SimDevice × List BusFrame)
generate d count stamp =
    let channels = enabled_channels 8 0 d.cfg.channel_mask in
    let (d', frames) = sim_frames count d channels d.generated stamp in
    if length channels == 0
    then none
    else some (record d' { generated = (d.generated + count) % 2 ^ 64 }, frames)

unfoldable pub read_sim : SimDevice → Bool → ℕ → ℕ → ℕ → ℕ → Option (SimDevice × List BusFrame)
read_sim d has_out max_frames timeout_ms now stamp =
    let due = frames_due ((now + 2 ^ 64 - d.opened_at_ns) % 2 ^ 64) d.cfg.rate_frames_per_sec in
    let count = due - d.generated in
    if not d.is_open_flag || not has_out || max_frames == 0
    then some (d, [])
    else if leb due d.generated
    then some (d, [])
    else generate d (if ltb max_frames count then max_frames else count) stamp

abbrev pub sim_device : UsbDevice
sim_device = record {
  State = SimDevice;
  open_device = open_sim;
  close_device = close_sim;
  is_open = λ d. d.is_open_flag;
  name = "sim://generator";
  send_command = λ d cmd channel param payload. (d, d.is_open_flag);
  read_frames = read_sim;
  error_count = λ d. 0;
}
