-- ===== src/Tests/Decoding.antt =====
-- Frames and signals on concrete bytes.
use bus_test_platform.Prelude.{◌≡◌, ◌≤◌, refl, true, false, some, arith}
use bus_test_platform.Prelude.Int.{negsuc, signed64}
use bus_test_platform.Frame.{IsFrame, canfd, rx, make_frame}
use bus_test_platform.Frame.Laws.{make_frame-IsFrame}
use bus_test_platform.Can.{intel_loop, motorola_loop, extract_raw, sign_extend}
use bus_test_platform.Can.Decode.{extract_raw-field_bits}
use bus_test_platform.Can.Signed.{sign_extend-signed_value}
use bus_test_platform.Tests.Data.{bytes, frame-IsFrame, signal}

-- Bytes 0x12 0x34: bits 4 to 15 of 0x3412, and the twelve bits behind the first four.
intel : extract_raw (signal true) (some bytes) 8 ≡ 0x341
unfolding extract_raw intel_loop
intel = refl

motorola : extract_raw (signal false) (some bytes) 8 ≡ 0x234
unfolding extract_raw motorola_loop
motorola = refl

extract_raw-field_bits_example : extract_raw (signal true) (some bytes) 8 ≡ 0x341
extract_raw-field_bits_example =
    extract_raw-field_bits (signal true) bytes 8 frame-IsFrame.payload_bytes (omega arith)

sign_extend-signed_value_example : signed64 (sign_extend 0xff0 12) ≡ negsuc 15
sign_extend-signed_value_example =
    sign_extend-signed_value 0xff0 12 (omega arith) (omega arith) (omega arith)

make_frame-IsFrame_example :
    IsFrame (make_frame canfd 2 rx 0x123 false true 200 (some bytes) 1000)
    × ((make_frame canfd 2 rx 0x123 false true 200 (some bytes) 1000).dlc ≤ 64)
make_frame-IsFrame_example =
    make_frame-IsFrame canfd 2 rx 0x123 false true 200 (some bytes) 1000 (omega arith) (omega arith)
      (omega arith) frame-IsFrame.payload_bytes
