-- ===== src/Tests/Link.antt =====
-- The two ends of the USB link on concrete packets.
use bus_test_platform.Prelude.{
  ℕ, ◌≡◌, true, none, some, List, [], ◌∷◌, ◌++◌, take, replicate, arith,
}
use bus_test_platform.Prelude.Blit.{blit}
use bus_test_platform.Wire.{
  send_frame, dfu_status, command_code, event_code, request_packet, data_packet, kind_cmd, kind_evt,
  header_bytes, request_bytes,
}
use bus_test_platform.Pipeline.{blank_frame}
use bus_test_platform.Firmware.{build_cmd, build_evt, build_data, frames_bytes, handle_cmd}
use bus_test_platform.Firmware.Build.{build_cmd_lem, build_data_lem}
use bus_test_platform.Codec.{
  encode_cmd, encode_evt, encode_data, decode_cmd, decode_evt, decode_data,
}
use bus_test_platform.Codec.Agree.{
  build_cmd-eq-encode_cmd, build_evt-ne-encode_evt, build_data-eq-encode_data,
}
use bus_test_platform.Codec.Front.{decode-front}
use bus_test_platform.Codec.Decode.{handle_cmd-request_bytes}
use bus_test_platform.Codec.RoundTrip.{decode_cmd-build_cmd, decode_data-build_data}
use bus_test_platform.Tests.Data.{room, frame, frame-IsFrame}
use bus_test_platform.Tests.Layout.{lp64}

abbrev pub body : List ℕ
body = 1 ∷ 2 ∷ 3 ∷ []

abbrev pub cmd_buffer : List ℕ
cmd_buffer = blit room 0 (request_packet kind_cmd 3 (command_code send_frame) 1 7 body 9)

abbrev evt_buffer : List ℕ
evt_buffer = blit room 0 (request_packet kind_evt 3 (event_code dfu_status) 1 7 body 9)

abbrev data_buffer : List ℕ
data_buffer = blit room 0 (data_packet (frames_bytes lp64 (frame ∷ [])) 9)

cmd_built : build_cmd (some room) 64 send_frame 1 7 (some body) 3 9 ≡ some (23, cmd_buffer)
cmd_built = build_cmd_lem room 64 send_frame 1 7 (some body) 3 9 (omega arith)

data_built : build_data lp64 (some room) 128 (some (frame ∷ [])) 1 9 ≡ some (108, data_buffer)
data_built = build_data_lem lp64 room 128 (frame ∷ []) 9 (frame-IsFrame, tt)

build_cmd-eq-encode_cmd_example :
    build_cmd (some room) 64 send_frame 1 7 (some body) 3 9
    ≡ encode_cmd (some room) 64 (command_code send_frame) 1 7 (some body) 3 9
build_cmd-eq-encode_cmd_example =
    build_cmd-eq-encode_cmd (some room) 64 send_frame 1 7 (some body) 3 9 (omega arith)

build_evt-ne-encode_evt_example :
    (build_evt (some room) 128 dfu_status 1 7 none 65 9 ≡ none)
    × (encode_evt (some room) 128 (event_code dfu_status) 1 7 none 65 9
        ≡ some (85, blit room 0 (request_packet kind_evt 65 (event_code dfu_status) 1 7 [] 9)))
build_evt-ne-encode_evt_example =
    build_evt-ne-encode_evt room 128 dfu_status 1 7 none 65 9 (omega arith) (omega arith)
      (omega arith) tt

build_data-eq-encode_data_example :
    build_data lp64 (some room) 128 (some (frame ∷ [])) 1 9
    ≡ encode_data lp64 (some room) 128 (some (frame ∷ [])) 1 9
build_data-eq-encode_data_example =
    build_data-eq-encode_data lp64 (some room) 128 (frame ∷ []) 9 (frame-IsFrame, tt)

decode_cmd-build_cmd_example :
    (decode_cmd (some cmd_buffer) 23
      ≡ some (record { code = command_code send_frame; channel = 1; param = 7 }))
    × (handle_cmd (some cmd_buffer) 23 ≡ true)
decode_cmd-build_cmd_example =
    decode_cmd-build_cmd room 64 send_frame 1 7 (some body) 3 9 23 cmd_buffer (omega arith)
      (omega arith) (omega arith) (omega arith) (omega arith) cmd_built

decode_data-build_data_example :
    decode_data lp64 (some data_buffer) 108 (some (replicate 4 blank_frame)) 4
    ≡ some (1, frame ∷ replicate 3 blank_frame, 9)
decode_data-build_data_example =
    decode_data-build_data lp64 room 128 (frame ∷ []) 9 (replicate 4 blank_frame) 4 108 data_buffer
      (omega arith) (frame-IsFrame, tt) (omega arith) (omega arith) data_built

-- Of a buffer of 128 bytes the packet's 23 are read, whatever stands behind them.
decode-front_example :
    (handle_cmd (some (take 23 cmd_buffer ++ 7 ∷ [])) 23 ≡ handle_cmd (some cmd_buffer) 23)
    × (decode_cmd (some (take 23 cmd_buffer ++ 7 ∷ [])) 23 ≡ decode_cmd (some cmd_buffer) 23)
    × (decode_evt (some (take 23 cmd_buffer ++ 7 ∷ [])) 23 ≡ decode_evt (some cmd_buffer) 23)
decode-front_example = decode-front cmd_buffer (7 ∷ []) 23 (omega arith)

-- No command has the code 0x7777.
handle_cmd-request_bytes_example :
    handle_cmd (some (header_bytes kind_cmd 8 9 ++ request_bytes 0x7777 1 7 [])) 20 ≡ true
handle_cmd-request_bytes_example =
    handle_cmd-request_bytes 8 9 20 0x7777 1 7 [] (omega arith) (omega arith) (omega arith)
      (omega arith) (omega arith) (omega arith) (omega arith)
