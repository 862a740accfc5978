-- ===== src/Codec/Agree.antt =====
-- Both ends of the USB link agree byte for byte: the builders of
-- firmware/src/protocol/usb_protocol_handler.c and the encoders of
-- software/src/protocol/usb/usb_frame_codec.cpp.
use bus_test_platform.Prelude.{
  ℕ, ◌+◌, ◌≤◌, ◌<◌, ◌≡◌, refl, sym, ◌∙◌, Option, none, some, List, length, All, arith,
}
use bus_test_platform.Prelude.Blit.{blit}
use bus_test_platform.Frame.{BusFrame, IsFrame}
use bus_test_platform.Frame.Layout.{FrameLayout}
use bus_test_platform.Firmware.{build_cmd, build_evt, build_data}
use bus_test_platform.Firmware.Build.{build_cmd_lem, build_evt_lem, build_data_lem, request_result}
use bus_test_platform.Codec.{encode_8_plus_payload, encode_cmd, encode_evt, encode_data}
use bus_test_platform.Codec.Encode.{encode_8_plus_payload_lem, encode_data_lem}
use bus_test_platform.Wire.{
  Command, Event, command_code, event_code, Readable, kind_cmd, kind_evt, request_packet, sent,
}

-- On every buffer, capacity, command and payload pointer (NULL or readable), the host's `encode_cmd`
-- and the firmware's `usb_protocol_build_cmd` refuse the same calls, and otherwise return the same
-- length and leave the same bytes in the buffer.
pub build_cmd-eq-encode_cmd :
    (buf : Option (List ℕ)) (cap : ℕ) (cmd : Command) (channel param : ℕ)
    (payload : Option (List ℕ)) (plen seq : ℕ)
    → Readable payload plen
    → build_cmd buf cap cmd channel param payload plen seq
      ≡ encode_cmd buf cap (command_code cmd) channel param payload plen seq
unfolding encode_cmd
build_cmd-eq-encode_cmd none cap cmd channel param payload plen seq r =
    unfold build_cmd encode_8_plus_payload in refl
build_cmd-eq-encode_cmd (some buf) cap cmd channel param payload plen seq r =
    build_cmd_lem buf cap cmd channel param payload plen seq r
    ∙ sym (
        encode_8_plus_payload_lem buf cap kind_cmd (command_code cmd) channel param payload plen
          seq)

-- For event packets of at most 64 payload bytes and a payload pointer that is NULL or readable,
-- the host's `encode_evt` and the firmware's `usb_protocol_build_evt` refuse the same calls, and
-- otherwise return the same length and leave the same bytes in the buffer.
pub build_evt-eq-encode_evt :
    (buf : Option (List ℕ)) (cap : ℕ) (evt : Event) (channel param : ℕ) (payload : Option (List ℕ))
    (plen seq : ℕ)
    → plen ≤ 64
    → Readable payload plen
    → build_evt buf cap evt channel param payload plen seq
      ≡ encode_evt buf cap (event_code evt) channel param payload plen seq
build_evt-eq-encode_evt none cap evt channel param payload plen seq h r =
    unfold build_evt encode_evt encode_8_plus_payload in refl
build_evt-eq-encode_evt (some buf) cap evt channel param payload plen seq h r =
    build_evt_lem buf cap evt channel param payload plen seq r
    ∙ request_result_widen
    ∙ sym (
        unfold encode_evt in
        encode_8_plus_payload_lem buf cap kind_evt (event_code evt) channel param payload plen seq)
  where
    request_result_widen :
        request_result 64 buf cap kind_evt (event_code evt) channel param payload plen seq
        ≡ request_result 256 buf cap kind_evt (event_code evt) channel param payload plen seq
    request_result_widen = ground arith

-- Beyond 64 payload bytes the two ends part: up to 256 bytes, with enough room and a payload
-- pointer that is NULL or readable, the host encodes an event packet that the firmware's builder
-- refuses.
pub build_evt-ne-encode_evt :
    (buf : List ℕ) (cap : ℕ) (evt : Event) (channel param : ℕ) (payload : Option (List ℕ))
    (plen seq : ℕ)
    → 64 < plen
    → plen ≤ 256
    → 20 + plen ≤ cap
    → Readable payload plen
    → (build_evt (some buf) cap evt channel param payload plen seq ≡ none)
      × (encode_evt (some buf) cap (event_code evt) channel param payload plen seq
          ≡ some (
            20 + plen,
            blit buf 0 (
                request_packet kind_evt plen
                  (event_code evt)
                  channel
                  param
                  (sent payload plen)
                  seq),
          ))
unfolding encode_evt
build_evt-ne-encode_evt buf cap evt channel param payload plen seq lo hi room r = (
  ground (arith, build_evt_lem buf cap evt channel param payload plen seq r),
  ground (
    arith,
    encode_8_plus_payload_lem buf cap kind_evt (event_code evt) channel param payload plen seq,
  ),
)

-- Under one frame layout, the firmware's `usb_protocol_build_data` and the host's `encode_data`,
-- given a whole array of well-formed frames, refuse the same calls, and otherwise return the same
-- length and leave the same bytes in the buffer.
pub build_data-eq-encode_data :
    (layout : FrameLayout) (buf : Option (List ℕ)) (cap : ℕ) (frames : List BusFrame) (seq : ℕ)
    → All IsFrame frames
    → build_data layout buf cap (some frames) (length frames) seq
      ≡ encode_data layout buf cap (some frames) (length frames) seq
build_data-eq-encode_data layout none cap frames seq h = unfold build_data encode_data in refl
build_data-eq-encode_data layout (some buf) cap frames seq h =
    build_data_lem layout buf cap frames seq h ∙ sym (encode_data_lem layout buf cap frames seq h)
