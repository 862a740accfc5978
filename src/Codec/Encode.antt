-- ===== src/Codec/Encode.antt =====
-- The encoders of software/src/protocol/usb/usb_frame_codec.cpp, on every branch.
use bus_test_platform.Prelude.{
  ℕ, zero, suc, ◌+◌, ◌*◌, ◌%◌, ◌^◌, ◌≤◌, ◌≡◌, refl, ap, ◌∙◌, Option, none, some, List, ◌++◌, length,
  take, append-nil, take_all, All, arith,
}
use bus_test_platform.Prelude.Blit.{blit, blit-blit}
use bus_test_platform.Frame.{BusFrame, IsFrame}
use bus_test_platform.Frame.Layout.{FrameLayout}
use bus_test_platform.Firmware
use bus_test_platform.Firmware.{put_u16, put_u32, frames_bytes}
use bus_test_platform.Firmware.Fill.{put_u16-blit, put_u32-blit, header_fill-eq-blit}
use bus_test_platform.Firmware.Build.{
  request_result, data_result, length-frames_bytes, frame_bytes-lt,
}
use bus_test_platform.Codec.{
  header_fill, copy_request, fill_request, encode_8_plus_payload, encode_data,
}
use bus_test_platform.Wire.{u16_bytes, u32_bytes, header_bytes, request_bytes, sent, kind_data}

-- With room for a header, `header_fill` of the host writes what that of the firmware writes.
header_fill-some :
    (buf : List ℕ) (cap kind len seq : ℕ)
    → 12 ≤ cap
    → header_fill buf cap kind len seq ≡ some (blit buf 0 (header_bytes kind len seq))
header_fill-some buf cap kind len seq h = same ∙ ap some (header_fill-eq-blit buf kind len seq)
  where
    same : header_fill buf cap kind len seq ≡ some (Firmware.header_fill buf kind len seq)
    same = unfold header_fill Firmware.header_fill put_u16 put_u32 in ground arith

copy_request-blit :
    (buf xs : List ℕ) (payload : Option (List ℕ)) (plen : ℕ)
    → length xs ≡ 20
    → copy_request (blit buf 0 xs) payload plen ≡ blit buf 0 (xs ++ sent payload plen)
unfolding copy_request
copy_request-blit buf xs none plen e = rw append-nil
copy_request-blit buf xs (some payload) zero e = rw append-nil
copy_request-blit buf xs (some payload) (suc n) e =
    ground (arith, blit-blit buf 0 20 xs (take (suc n) payload) (omega arith))

fill_request-blit :
    (buf : List ℕ) (kind len seq code channel param : ℕ) (payload : Option (List ℕ)) (plen : ℕ)
    → fill_request (blit buf 0 (header_bytes kind len seq)) code channel param payload plen
      ≡ blit buf 0
          (header_bytes kind len seq ++ request_bytes code channel param (sent payload plen))
fill_request-blit buf kind len seq code channel param payload plen =
    same
    ∙ rw
        (
          put_u16-blit buf 0 12 front code refl,
          put_u16-blit buf 0 14 (front ++ u16_bytes code) channel refl,
          put_u32-blit buf 0 16 (front ++ (u16_bytes code ++ u16_bytes channel)) param refl,
        )
        (copy_request-blit buf (front ++ (u16_bytes code ++ (u16_bytes channel ++ u32_bytes param)))
          payload plen refl)
  where
    front : List ℕ
    front = header_bytes kind len seq

    same :
        fill_request (blit buf 0 front) code channel param payload plen
        ≡ copy_request
            (put_u32 (put_u16 (put_u16 (blit buf 0 front) 12 code) 14 channel) 16 param)
            payload
            plen
    same = unfold fill_request put_u16 put_u32 in refl

-- On a buffer, the host packs a command or an event exactly when at most 256 payload bytes are
-- asked for and the packet fits the capacity; it then returns the length of the packet and leaves
-- the packet of the wire format at the front of the buffer.
pub encode_8_plus_payload_lem :
    (buf : List ℕ) (cap kind code channel param : ℕ) (payload : Option (List ℕ)) (plen seq : ℕ)
    → encode_8_plus_payload (some buf) cap kind code channel param payload plen seq
      ≡ request_result 256 buf cap kind code channel param payload plen seq
unfolding encode_8_plus_payload
encode_8_plus_payload_lem buf cap kind code channel param payload plen seq = ground (
  arith,
  header_fill-some buf cap kind ((8 + plen) % 2 ^ 16) seq,
  fill_request-blit buf kind (8 + plen) seq code channel param payload plen,
)

module _ (layout : FrameLayout) where
  -- The host packs frames as the firmware does.
  pub encode_data_lem :
      (buf : List ℕ) (cap : ℕ) (frames : List BusFrame) (seq : ℕ)
      → All IsFrame frames
      → encode_data layout (some buf) cap (some frames) (length frames) seq
        ≡ data_result layout buf cap frames seq
  unfolding encode_data
  encode_data_lem buf cap frames seq h = ground (
    arith,
    length-frames_bytes layout frames h,
    frame_bytes-lt layout (length frames),
    header_fill-some buf cap kind_data (length frames * layout.size % 2 ^ 16) seq,
    blit-blit buf 0 12 (header_bytes kind_data (length frames * layout.size) seq)
        (frames_bytes layout frames),
    take_all (frames_bytes layout frames) (length frames * layout.size),
  )
