-- ===== src/Firmware/Build.antt =====
-- The packet builders of firmware/src/protocol/usb_protocol_handler.c, on every branch.
use bus_test_platform.Prelude.{
  ℕ, zero, suc, ◌+◌, ◌*◌, ◌%◌, ◌^◌, ◌≤◌, ◌<◌, ◌≡◌, refl, ◌&&◌, Option, none, some, List, [], ◌∷◌,
  ◌++◌, leb, if◌then◌else◌, length, length-append, take, append-nil, take_all, All, arith,
}
use bus_test_platform.Prelude.Blit.{blit, blit-blit}
use bus_test_platform.Frame.{BusFrame, IsFrame}
use bus_test_platform.Frame.Layout.{FrameLayout}
use bus_test_platform.Firmware.{
  header_fill, copy_loop, frames_bytes, build_data, copy_request, write_request, build_cmd,
  build_evt,
}
use bus_test_platform.Firmware.Fill.{
  put_u16-blit, put_u32-blit, header_fill-eq-blit, copy_loop-eq-blit,
}
use bus_test_platform.Wire.{
  Command, Event, command_code, event_code, u16_bytes, u32_bytes, header_bytes, request_packet,
  data_packet, sent, Readable, kind_data, kind_cmd, kind_evt,
}

pub u16_bytes_mod : (v : ℕ) → u16_bytes (v % 2 ^ 16) ≡ u16_bytes v
u16_bytes_mod v = ground arith

-- The optional payload goes right behind the twenty bytes that stand before it.
copy_request-blit :
    (buf xs : List ℕ) (payload : Option (List ℕ)) (plen : ℕ)
    → length xs ≡ 20
    → Readable payload plen
    → copy_request (blit buf 0 xs) payload plen ≡ blit buf 0 (xs ++ sent payload plen)
unfolding copy_request
copy_request-blit buf xs none plen e r = rw append-nil
copy_request-blit buf xs (some payload) zero e r = rw append-nil
copy_request-blit buf xs (some payload) (suc n) e r = ground (
  arith,
  copy_loop-eq-blit (suc n) 0 (blit buf 0 xs) 20 payload (omega arith),
  blit-blit buf 0 20 xs (take (suc n) payload) (omega arith),
)

-- Behind the guards, a builder writes the packet of the wire format over the front of the buffer.
pub write_request_lem :
    (buf : List ℕ) (kind code channel param : ℕ) (payload : Option (List ℕ)) (plen seq : ℕ)
    → plen ≤ 256
    → Readable payload plen
    → write_request buf kind code channel param payload plen seq
      ≡ blit buf 0 (request_packet kind plen code channel param (sent payload plen) seq)
unfolding write_request
write_request_lem buf kind code channel param payload plen seq h r =
    rw
      (
        mod_fits,
        header_fill-eq-blit buf kind (8 + plen) seq,
        put_u16-blit buf 0 12 front (code % 2 ^ 16) refl,
        u16_bytes_mod code,
        put_u16-blit buf 0 14 (front ++ u16_bytes code) channel refl,
        put_u32-blit buf 0 16 (front ++ (u16_bytes code ++ u16_bytes channel)) param refl,
      )
      (copy_request-blit buf (front ++ (u16_bytes code ++ (u16_bytes channel ++ u32_bytes param)))
        payload plen refl r)
  where
    front : List ℕ
    front = header_bytes kind (8 + plen) seq

    mod_fits : (8 + plen) % 2 ^ 16 ≡ 8 + plen
    mod_fits = omega arith

-- The answer of a builder that admits at most `most` payload bytes.
abbrev pub request_result :
    ℕ → List ℕ → ℕ → ℕ → ℕ → ℕ → ℕ → Option (List ℕ) → ℕ → ℕ → Option (ℕ × List ℕ)
request_result most buf cap kind code channel param payload plen seq =
    if leb plen most && leb (20 + plen) cap
    then some (
      20 + plen,
      blit buf 0 (request_packet kind plen code channel param (sent payload plen) seq),
    )
    else none

-- With a payload pointer that is NULL or readable, `usb_protocol_build_cmd` succeeds on a buffer
-- exactly when at most 256 payload bytes are asked for and the packet fits the capacity. It then
-- returns the length of the packet, and the buffer holds the packet of the wire format at its
-- front and is unchanged behind it.
pub build_cmd_lem :
    (buf : List ℕ) (cap : ℕ) (cmd : Command) (channel param : ℕ) (payload : Option (List ℕ))
    (plen seq : ℕ)
    → Readable payload plen
    → build_cmd (some buf) cap cmd channel param payload plen seq
      ≡ request_result 256 buf cap kind_cmd (command_code cmd) channel param payload plen seq
unfolding build_cmd
build_cmd_lem buf cap cmd channel param payload plen seq r =
    ground (arith, write_request_lem buf kind_cmd (command_code cmd) channel param payload plen seq)

-- With a payload pointer that is NULL or readable, `usb_protocol_build_evt` succeeds on a buffer
-- exactly when at most 64 payload bytes are asked for and the packet fits the capacity. It then
-- returns the length of the packet, and the buffer holds the packet of the wire format at its
-- front and is unchanged behind it.
pub build_evt_lem :
    (buf : List ℕ) (cap : ℕ) (evt : Event) (channel param : ℕ) (payload : Option (List ℕ))
    (plen seq : ℕ)
    → Readable payload plen
    → build_evt (some buf) cap evt channel param payload plen seq
      ≡ request_result 64 buf cap kind_evt (event_code evt) channel param payload plen seq
unfolding build_evt
build_evt_lem buf cap evt channel param payload plen seq r =
    ground (arith, write_request_lem buf kind_evt (event_code evt) channel param payload plen seq)

mul_mono : (a b c : ℕ) → a ≤ b → a * c ≤ b * c
mul_mono a b c h = grind arith

-- The loop of `usb_protocol_build_data` copies the payload right behind the header.
copy_loop-header :
    (buf body : List ℕ) (n seq : ℕ)
    → n ≡ length body
    → n < 2 ^ 16
    → copy_loop n 0 (header_fill buf kind_data (n % 2 ^ 16) seq) 12 body
      ≡ blit buf 0 (data_packet body seq)
copy_loop-header buf body n seq e h =
    rw
      (
        fits,
        copy_loop-eq-blit n 0 (header_fill buf kind_data (length body) seq) 12 body (omega arith),
      )
      (rw (header_fill-eq-blit buf kind_data (length body) seq, take_all body n (omega arith))
        (blit-blit buf 0 12 (header_bytes kind_data (length body) seq) body refl))
  where
    fits : n % 2 ^ 16 ≡ length body
    fits = omega arith

module _ (layout : FrameLayout) where
  pub length-frames_bytes :
      (frames : List BusFrame)
      → All IsFrame frames
      → length (frames_bytes layout frames) ≡ length frames * layout.size
  length-frames_bytes [] h = omega arith
  length-frames_bytes (f ∷ fs) h = omega (
    arith,
    length-append (layout.to_bytes f) (frames_bytes layout fs),
    layout.length-to_bytes f h.0,
    length-frames_bytes fs h.1,
  )

  -- The payload of at most 16 frames fits the `length` field of the header.
  pub frame_bytes-lt : (n : ℕ) → n ≤ 16 → n * layout.size < 2 ^ 16
  frame_bytes-lt n h = omega (arith, mul_mono n 16 layout.size h, layout.packet_fits)

  -- The answer of a builder of data packets.
  abbrev pub data_result : List ℕ → ℕ → List BusFrame → ℕ → Option (ℕ × List ℕ)
  data_result buf cap frames seq =
      let body = frames_bytes layout frames in
      if leb 1 (length frames) && leb (length frames) 16 && leb (12 + length body) cap
      then some (12 + length body, blit buf 0 (data_packet body seq))
      else none

  -- `usb_protocol_build_data`, given a buffer and the whole array of well-formed frames, succeeds
  -- exactly when there are 1 to 16 of them and the packet fits the capacity. It then returns the
  -- length of the packet, and the buffer holds at its front the header and the bytes of all frames
  -- in order.
  pub build_data_lem :
      (buf : List ℕ) (cap : ℕ) (frames : List BusFrame) (seq : ℕ)
      → All IsFrame frames
      → build_data layout (some buf) cap (some frames) (length frames) seq
        ≡ data_result buf cap frames seq
  unfolding build_data
  build_data_lem buf cap frames seq h = ground (
    arith,
    length-frames_bytes frames h,
    frame_bytes-lt (length frames),
    copy_loop-header buf (frames_bytes layout frames) (length frames * layout.size) seq,
  )
