-- ===== src/Hal.antt =====
-- The USB hardware abstraction: software/src/hal/usb/usb_device.h and its null implementation,
-- usb_device_null.h and usb_device_null.cpp.
pub mod Sim
use Prim.Native.String.{String}
use bus_test_platform.Prelude.{
  ℕ, ◌+◌, ◌%◌, ◌^◌, Bool, true, false, Option, some, List, [], if◌then◌else◌,
}
use bus_test_platform.Frame.{BusFrame}

-- The class `UsbDevice`. An operation that reads the steady clock takes its readings, in order.
-- `has_out` tells whether `out` is not null; the frames copied stand for `out` and their number.
-- `none` stands for a call whose behaviour C++ does not define.
pub record UsbDevice : Type 1 where
  pub State : Type 0
  pub open_device : State → ℕ → State × Bool
  pub close_device : State → State
  pub is_open : State → Bool
  pub name : String
  pub send_command : State → ℕ → ℕ → ℕ → Option (List ℕ) → State × Bool
  pub read_frames : State → Bool → ℕ → ℕ → ℕ → ℕ → Option (State × List BusFrame)
  pub error_count : State → ℕ

-- `NullUsbDevice`
pub record NullDevice : Type 0 where
  pub is_open_flag : Bool
  pub cmd_count : ℕ

abbrev pub null_device : UsbDevice
null_device = record {
  State = NullDevice;
  open_device = λ d now. (record d { is_open_flag = true }, true);
  close_device = λ d. record d { is_open_flag = false };
  is_open = λ d. d.is_open_flag;
  name = "null://loopback";
  send_command = λ d cmd channel param payload.
      if d.is_open_flag
      then (record d { cmd_count = (d.cmd_count + 1) % 2 ^ 64 }, true)
      else (d, false);
  read_frames = λ d has_out max_frames timeout_ms now stamp. some (d, []);
  error_count = λ d. 0;
}
