-- ===== src/Frame/Layout.antt =====
-- The object representation of `bt_bus_frame_t`. Its size and byte order are fixed by the compiler
-- and its ABI, so the code that copies frames as raw bytes takes it as an interface.
use bus_test_platform.Prelude.{ℕ, ◌+◌, ◌*◌, ◌^◌, ◌<◌, ◌≡◌, List, length}
use bus_test_platform.Frame.{BusFrame, IsFrame}

-- `size` is `sizeof(bt_bus_frame_t)`. A full packet must fit the `uint16_t` of BT_USB_PACKET_MAX.
pub record FrameLayout : Type 0 where
  pub size : ℕ
  pub to_bytes : BusFrame → List ℕ
  pub of_bytes : List ℕ → BusFrame
  pub size_pos : 0 < size
  pub packet_fits : 12 + 16 * size < 2 ^ 16
  pub length-to_bytes : (f : BusFrame) → IsFrame f → length (to_bytes f) ≡ size
  pub of_bytes-to_bytes : (f : BusFrame) → IsFrame f → of_bytes (to_bytes f) ≡ f
