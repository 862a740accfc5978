-- ===== src/Firmware/Loop.antt =====
-- The main loop of the firmware, firmware/src/main.c, over the operations of its USB driver,
-- firmware/src/drivers/usb/usb_device.h, and the driver of usb_device.c. The hardware set-up before
-- the loop has no body yet.
use bus_test_platform.Prelude.{
  ℕ, ◌+◌, ◌*◌, ◌%◌, ◌^◌, ◌≡◌, refl, Bool, Option, none, some, List, [], ◌∷◌, ltb, if◌then◌else◌,
}
use bus_test_platform.Frame.Layout.{FrameLayout}
use bus_test_platform.Wire.{header_size, frames_per_packet}
use bus_test_platform.Firmware.{handle_cmd}

-- BT_USB_PACKET_MAX
abbrev pub usb_packet_max : FrameLayout → ℕ
usb_packet_max layout = (header_size + frames_per_packet * layout.size) % 2 ^ 16

-- `poll_cmd` takes the buffer, as it is, and its capacity; its result is `none` for the return value
-- -1, and the filled buffer with the length for 0.
pub record UsbDriver : Type 1 where
  pub State : Type 0
  pub poll_cmd : State → List ℕ → ℕ → State × Option (List ℕ × ℕ)
  pub poll_tx_stream : State → State

-- usb_device.c
abbrev pub skeleton_driver : UsbDriver
skeleton_driver = record {
  State = Unit;
  poll_cmd = λ s buf cap. (s, none);
  poll_tx_stream = λ s. s;
}

-- An answer in front of the later ones, if there is one.
abbrev pub note : Option Bool → List Bool → List Bool
note none answers = answers
note (some b) answers = b ∷ answers

module _ (layout : FrameLayout) (driver : UsbDriver) where
  -- One round, on `cmd_buf` as the stack holds it: the state after it, and what the dispatcher
  -- answered if it was called.
  unfoldable pub round : List ℕ → driver.State → driver.State × Option Bool
  round cmd_buf s =
      let (polled, command) = driver.poll_cmd s cmd_buf (usb_packet_max layout) in
      let answer : Option Bool = elim command [
        | none ↦ none
        | some (buf, len) ↦ if ltb 0 len then some (handle_cmd (some buf) len) else none
      ] in
      (driver.poll_tx_stream polled, answer)

  -- The first rounds of the loop, one for each content that `cmd_buf` begins with, and the answers of
  -- the dispatcher in them.
  unfoldable pub rounds : List (List ℕ) → driver.State → driver.State × List Bool
  rounds [] s = (s, [])
  rounds (cmd_buf ∷ bufs) s =
      let (next, answer) = round cmd_buf s in
      let (last, answers) = rounds bufs next in (last, note answer answers)

-- With the driver as it stands no round calls the dispatcher.
rounds-skeleton_driver :
    (layout : FrameLayout) (bufs : List (List ℕ)) → rounds layout skeleton_driver bufs tt ≡ (tt, [])
unfolding rounds round
rounds-skeleton_driver layout [] = refl
rounds-skeleton_driver layout (cmd_buf ∷ bufs) = rounds-skeleton_driver layout bufs
