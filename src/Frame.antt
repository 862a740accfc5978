-- ===== src/Frame.antt =====
-- The unified bus frame: shared/include/bus/bus_types.h, and the helpers of
-- software/src/core/bus_frame.h and bus_frame.cpp. An integer field is the number it holds; its
-- width is a field of `IsFrame`.
pub mod Layout
pub mod Laws
pub mod Text
use Prim.Native.String.{String}
use bus_test_platform.Prelude.{
  ℕ, ◌+◌, ◌*◌, ◌%◌, ◌^◌, ◌<◌, ◌≤◌, ◌≡◌, Bool, ◌&&◌, Option, none, some, List, ltb, if◌then◌else◌,
  length, take, replicate, All,
}
use bus_test_platform.Prelude.Blit.{blit}

-- `bt_bus_type_t`, `bt_bus_direction_t`, `bt_frame_status_t`
pub data BusType : Type 0 where
  unknown can canfd canxl lin : BusType

pub data Direction : Type 0 where
  rx tx : Direction

pub data FrameStatus : Type 0 where
  frame_ok frame_error frame_overrun : FrameStatus

-- BT_BUS_MAX_PAYLOAD and BT_BUS_MAX_CHANNELS
abbrev pub max_payload : ℕ
max_payload = 64

abbrev pub max_channels : ℕ
max_channels = 8

-- `bt_bus_frame_t`; `payload` is its array `data`.
pub record BusFrame : Type 0 where
  pub timestamp_ns100 : ℕ
  pub bus : BusType
  pub channel : ℕ
  pub dir : Direction
  pub id : ℕ
  pub extended : ℕ
  pub fd : ℕ
  pub dlc : ℕ
  pub payload : List ℕ
  pub status : FrameStatus

abbrev pub IsByte : ℕ → Type 0
IsByte b = b < 256

-- The widths of the fields of `bt_bus_frame_t`.
pub record IsFrame (f : BusFrame) : Type 0 where
  pub timestamp_fits : f.timestamp_ns100 < 2 ^ 64
  pub channel_fits : f.channel < 256
  pub id_fits : f.id < 2 ^ 32
  pub extended_fits : f.extended < 256
  pub fd_fits : f.fd < 256
  pub dlc_fits : f.dlc < 256
  pub payload_length : length f.payload ≡ 64
  pub payload_bytes : All IsByte f.payload

unfoldable pub bus_type_str : BusType → String
bus_type_str can = "CAN"
bus_type_str canfd = "CANFD"
bus_type_str canxl = "CANXL"
bus_type_str lin = "LIN"
bus_type_str unknown = "UNKNOWN"

abbrev pub zero_payload : List ℕ
zero_payload = replicate 64 0

-- `f.dlc > 0U` is tested on the clamped value; `memcpy` copies `f.dlc` bytes of `data`.
copy_payload : Option (List ℕ) → ℕ → List ℕ
copy_payload none dlc = zero_payload
copy_payload (some bytes) dlc =
    if ltb 0 dlc then blit zero_payload 0 (take dlc bytes) else zero_payload

abbrev pub clamp_dlc : ℕ → ℕ
clamp_dlc dlc = if ltb max_payload dlc then max_payload else dlc

unfoldable pub make_frame :
    BusType → ℕ → Direction → ℕ → Bool → Bool → ℕ → Option (List ℕ) → ℕ → BusFrame
unfolding copy_payload
make_frame bus channel dir id extended fd dlc bytes timestamp = record {
  timestamp_ns100 = timestamp;
  bus = bus;
  channel = channel;
  dir = dir;
  id = id;
  extended = if extended then 1 else 0;
  fd = if fd then 1 else 0;
  dlc = clamp_dlc dlc;
  payload = copy_payload bytes (clamp_dlc dlc);
  status = frame_ok;
}

-- 100 ns per tick, in a `uint64_t`
unfoldable pub timestamp_ns : BusFrame → ℕ
timestamp_ns f = f.timestamp_ns100 * 100 % 2 ^ 64
