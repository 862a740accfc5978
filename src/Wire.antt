-- ===== src/Wire.antt =====
-- The USB link protocol, shared/include/bus/usb_protocol.h: constants, command and event codes, the
-- packet header, and the byte layout of the packets as the comments of that header give it.
pub mod Bytes
use bus_test_platform.Prelude.{
  ℕ, ◌+◌, ◌/◌, ◌%◌, ◌≤◌, Option, none, some, List, [], ◌∷◌, ◌++◌, length, take,
}

-- BT_USB_MAGIC, BT_USB_PROTOCOL_VERSION, BT_USB_HEADER_SIZE, BT_USB_FRAMES_PER_PACKET,
-- BT_USB_CMD_PAYLOAD_MAX and the length of the array `payload` of `bt_usb_evt_payload_t`
abbrev pub magic : ℕ
magic = 0x5442

abbrev pub version : ℕ
version = 1

abbrev pub header_size : ℕ
header_size = 12

abbrev pub frames_per_packet : ℕ
frames_per_packet = 16

abbrev pub cmd_payload_max : ℕ
cmd_payload_max = 256

abbrev pub evt_payload_max : ℕ
evt_payload_max = 64

-- BT_PKT_DATA, BT_PKT_CMD, BT_PKT_EVT
abbrev pub kind_data : ℕ
kind_data = 1

abbrev pub kind_cmd : ℕ
kind_cmd = 2

abbrev pub kind_evt : ℕ
kind_evt = 3

-- BT_EP_DATA_IN, BT_EP_CMD_OUT, BT_EP_EVT_IN
abbrev pub ep_data_in : ℕ
ep_data_in = 0x81

abbrev pub ep_cmd_out : ℕ
ep_cmd_out = 0x02

abbrev pub ep_evt_in : ℕ
ep_evt_in = 0x83

-- `bt_usb_cmd_t` and `bt_usb_evt_t`
pub data Command : Type 0 where
  cmd_none start_capture stop_capture set_filter send_frame set_schedule : Command
  sync_timestamp get_device_info dfu_begin dfu_data dfu_end cmd_max : Command

pub data Event : Type 0 where
  evt_none capture_overrun device_error dfu_status evt_max : Event

unfoldable pub command_code : Command → ℕ
command_code cmd_none = 0
command_code start_capture = 0x01
command_code stop_capture = 0x02
command_code set_filter = 0x03
command_code send_frame = 0x04
command_code set_schedule = 0x05
command_code sync_timestamp = 0x06
command_code get_device_info = 0x10
command_code dfu_begin = 0x20
command_code dfu_data = 0x21
command_code dfu_end = 0x22
command_code cmd_max = 0x23

unfoldable pub event_code : Event → ℕ
event_code evt_none = 0
event_code capture_overrun = 0x01
event_code device_error = 0x02
event_code dfu_status = 0x03
event_code evt_max = 0x04

-- `bt_usb_header_t`
pub record Header : Type 0 where
  pub magic_field : ℕ
  pub version_field : ℕ
  pub kind : ℕ
  pub length_field : ℕ
  pub seq : ℕ
  pub reserved : ℕ

-- Little-endian words.
abbrev pub u16_bytes : ℕ → List ℕ
u16_bytes v = v % 256 ∷ v / 256 % 256 ∷ []

abbrev pub u32_bytes : ℕ → List ℕ
u32_bytes v = v % 256 ∷ v / 256 % 256 ∷ v / 65536 % 256 ∷ v / 16777216 % 256 ∷ []

-- header: magic(2) version(1) kind(1) length(2) seq(2) reserved(4)
abbrev pub header_bytes : ℕ → ℕ → ℕ → List ℕ
header_bytes kind len seq =
    0x42 ∷ 0x54 ∷ 1 ∷ kind ∷ u16_bytes len ++ (u16_bytes seq ++ (0 ∷ 0 ∷ 0 ∷ 0 ∷ []))

-- command and event packets: code(2) channel(2) param(4) payload
abbrev pub request_bytes : ℕ → ℕ → ℕ → List ℕ → List ℕ
request_bytes code channel param payload =
    u16_bytes code ++ (u16_bytes channel ++ (u32_bytes param ++ payload))

-- A packet whose header announces `8 + plen` bytes, and a data packet with the given payload.
abbrev pub request_packet : ℕ → ℕ → ℕ → ℕ → ℕ → List ℕ → ℕ → List ℕ
request_packet kind plen code channel param payload seq =
    header_bytes kind (8 + plen) seq ++ request_bytes code channel param payload

abbrev pub data_packet : List ℕ → ℕ → List ℕ
data_packet body seq = header_bytes kind_data (length body) seq ++ body

-- The payload bytes that a sender copies: none through a NULL pointer.
abbrev pub sent : Option (List ℕ) → ℕ → List ℕ
sent none plen = []
sent (some payload) plen = take plen payload

-- A payload pointer is NULL or has `plen` bytes behind it.
abbrev pub Readable : Option (List ℕ) → ℕ → Type 0
Readable none plen = Unit
Readable (some payload) plen = plen ≤ length payload
