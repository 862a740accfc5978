-- ===== src/Codec/RoundTrip.antt =====
-- Packets that one end of the USB link builds, taken apart by the other end.
use bus_test_platform.Prelude.{
  ℕ, ◌+◌, ◌*◌, ◌^◌, ◌≤◌, ◌<◌, ◌≡◌, refl, sym, ap, ◌∙◌, true, Option, none, some, List, [], ◌∷◌,
  ◌++◌, length, drop, All, arith, is_some, append_assoc, take-append, drop-append, length-take,
}
use native.Mathlib.Nat.{mul-div_left, mul-mod_left}
use bus_test_platform.Prelude.Blit.{blit, blit_front}
use bus_test_platform.Frame.{BusFrame, IsFrame}
use bus_test_platform.Frame.Layout.{FrameLayout}
use bus_test_platform.Firmware.{build_cmd, build_evt, build_data, frames_bytes, handle_cmd}
use bus_test_platform.Firmware.Build.{
  build_cmd_lem, build_evt_lem, build_data_lem, request_result, length-frames_bytes, frame_bytes-lt,
}
use bus_test_platform.Wire.{
  Command, Event, command_code, event_code, header_bytes, request_bytes, request_packet,
  data_packet, sent, Readable, kind_cmd, kind_evt, kind_data,
}
use bus_test_platform.Codec.{decode_request, decode_cmd, decode_evt, decode_data, read_frames}
use bus_test_platform.Codec.Decode.{
  decode_request-bytes, handle_cmd-eq-decode_cmd, parse_header-header_bytes,
}

length-sent :
    (payload : Option (List ℕ)) (plen : ℕ)
    → Readable payload plen
    → length (sent payload plen) ≤ plen
length-sent none plen r = omega arith
length-sent (some payload) plen r = omega (arith, length-take plen payload)

-- What stands in a buffer after a packet that fits has been written over its front.
packet_front :
    (buf : List ℕ) (kind code channel param : ℕ) (payload : Option (List ℕ)) (plen seq : ℕ)
    → 20 + plen ≤ length buf
    → Readable payload plen
    → (rest : List ℕ) × (blit buf 0
          (request_packet kind plen code channel param (sent payload plen) seq)
        ≡ header_bytes kind (8 + plen) seq
          ++ request_bytes code channel param (sent payload plen ++ rest))
packet_front buf kind code channel param payload plen seq h r =
    let packet = request_packet kind plen code channel param (sent payload plen) seq in
    (drop (length packet) buf, blit_front buf packet (omega (arith, length-sent payload plen r)))

-- A packet written over the front of a buffer that has room for it is decoded from there.
decode_request-blit :
    (most : ℕ) (buf : List ℕ) (cap kind code channel param : ℕ) (payload : Option (List ℕ))
    (plen seq total : ℕ) (buf' : List ℕ)
    → most ≤ 256
    → cap ≤ length buf
    → Readable payload plen
    → code < 2 ^ 16
    → channel < 2 ^ 16
    → param < 2 ^ 32
    → seq < 2 ^ 16
    → request_result most buf cap kind code channel param payload plen seq ≡ some (total, buf')
    → decode_request kind (some buf') total
      ≡ some (record { code = code; channel = channel; param = param })
decode_request-blit most buf cap kind code channel param payload plen seq total buf' hm hb r hc hh
      hp hs e =
    let (rest, front) =
      packet_front buf kind code channel param payload plen seq (ground arith) r in
    ground (
      arith,
      front,
      decode_request-bytes kind (8 + plen) seq (20 + plen) code channel param
          (sent payload plen ++ rest),
    )

pub command_code-lt : (cmd : Command) → command_code cmd < 2 ^ 16
unfolding command_code
command_code-lt cmd = ground arith

pub event_code-lt : (evt : Event) → event_code evt < 2 ^ 16
unfolding event_code
event_code-lt evt = ground arith

-- A command with a channel, parameter and sequence number of their C types and a payload pointer
-- that is NULL or readable, which the firmware's builder (and so the host's encoder) packs into a
-- buffer of at least the stated capacity, is decoded by the host to the same code, channel and
-- parameter, and is taken by the firmware's dispatcher.
pub decode_cmd-build_cmd :
    (buf : List ℕ) (cap : ℕ) (cmd : Command) (channel param : ℕ) (payload : Option (List ℕ))
    (plen seq total : ℕ) (buf' : List ℕ)
    → cap ≤ length buf
    → Readable payload plen
    → channel < 2 ^ 16
    → param < 2 ^ 32
    → seq < 2 ^ 16
    → build_cmd (some buf) cap cmd channel param payload plen seq ≡ some (total, buf')
    → (decode_cmd (some buf') total
        ≡ some (record { code = command_code cmd; channel = channel; param = param }))
      × (handle_cmd (some buf') total ≡ true)
decode_cmd-build_cmd buf cap cmd channel param payload plen seq total buf' hb r hh hp hs e =
    (decoded, handle_cmd-eq-decode_cmd (some buf') total ∙ ap is_some decoded)
  where
    decoded :
        decode_cmd (some buf') total
        ≡ some (record { code = command_code cmd; channel = channel; param = param })
    decoded =
        unfold decode_cmd in
        decode_request-blit 256 buf cap kind_cmd (command_code cmd) channel param payload plen seq
          total buf' (omega arith) hb r (command_code-lt cmd) hh hp hs
          (sym (build_cmd_lem buf cap cmd channel param payload plen seq r) ∙ e)

-- An event with a channel, parameter and sequence number of their C types and a payload pointer
-- that is NULL or readable, which the firmware's builder packs into a buffer of at least the
-- stated capacity, is decoded by the host to the same code, channel and parameter.
pub decode_evt-build_evt :
    (buf : List ℕ) (cap : ℕ) (evt : Event) (channel param : ℕ) (payload : Option (List ℕ))
    (plen seq total : ℕ) (buf' : List ℕ)
    → cap ≤ length buf
    → Readable payload plen
    → channel < 2 ^ 16
    → param < 2 ^ 32
    → seq < 2 ^ 16
    → build_evt (some buf) cap evt channel param payload plen seq ≡ some (total, buf')
    → decode_evt (some buf') total
      ≡ some (record { code = event_code evt; channel = channel; param = param })
decode_evt-build_evt buf cap evt channel param payload plen seq total buf' hb r hh hp hs e =
    unfold decode_evt in
    decode_request-blit 64 buf cap kind_evt (event_code evt) channel param payload plen seq total
      buf' (omega arith) hb r (event_code-lt evt) hh hp hs
      (sym (build_evt_lem buf cap evt channel param payload plen seq r) ∙ e)

module _ (layout : FrameLayout) where
  -- Reading frames back out of their bytes, whatever follows.
  read_frames-frames_bytes :
      (frames : List BusFrame) (rest : List ℕ)
      → All IsFrame frames
      → read_frames layout (length frames) (frames_bytes layout frames ++ rest) ≡ frames
  read_frames-frames_bytes [] rest h = refl
  read_frames-frames_bytes (f ∷ fs) rest h =
      rw
        (
          append_assoc (layout.to_bytes f) (frames_bytes layout fs) rest,
          take-append layout.size (layout.to_bytes f) (frames_bytes layout fs ++ rest) size_is,
          drop-append layout.size (layout.to_bytes f) (frames_bytes layout fs ++ rest) size_is,
          layout.of_bytes-to_bytes f h.0,
        )
        (ap (◌∷◌ f) (read_frames-frames_bytes fs rest h.1))
    where
      size_is : layout.size ≡ length (layout.to_bytes f)
      size_is = sym (layout.length-to_bytes f h.0)

  decode_data-bytes :
      (frames : List BusFrame) (rest : List ℕ) (seq n : ℕ) (out : List BusFrame) (max_frames : ℕ)
      → All IsFrame frames
      → 1 ≤ length frames
      → length frames ≤ 16
      → length frames ≤ max_frames
      → seq < 2 ^ 16
      → n ≡ 12 + length (frames_bytes layout frames)
      → decode_data layout
          (some (data_packet (frames_bytes layout frames) seq ++ rest))
          n
          (some out)
          max_frames
        ≡ some (length frames, blit out 0 frames, seq)
  unfolding decode_data
  decode_data-bytes frames rest seq n out max_frames h lo hi hm hs e = ground (
    arith,
    len,
    frame_bytes-lt layout (length frames) hi,
    parse_header-header_bytes kind_data (length frames * layout.size) seq n
        (frames_bytes layout frames ++ rest),
    mul-div_left (length frames) layout.size_pos,
    mul-mod_left (length frames) layout.size,
    read_frames-frames_bytes frames rest h,
  )
    where
      len : length (frames_bytes layout frames) ≡ length frames * layout.size
      len = length-frames_bytes layout frames h

  -- Well-formed frames that the firmware packs, with a 16-bit sequence number, into a buffer of at
  -- least the stated capacity come out of the host's `decode_data` again, in number, order and
  -- content, with the sequence number, when the caller's array admits as many. This is under one
  -- layout for both ends.
  pub decode_data-build_data :
      (buf : List ℕ) (cap : ℕ) (frames : List BusFrame) (seq : ℕ) (out : List BusFrame)
      (max_frames total : ℕ) (buf' : List ℕ)
      → cap ≤ length buf
      → All IsFrame frames
      → length frames ≤ max_frames
      → seq < 2 ^ 16
      → build_data layout (some buf) cap (some frames) (length frames) seq ≡ some (total, buf')
      → decode_data layout (some buf') total (some out) max_frames
        ≡ some (length frames, blit out 0 frames, seq)
  decode_data-build_data buf cap frames seq out max_frames total buf' hb h hm hs e = ground (
    arith,
    build_data_lem layout buf cap frames seq h,
    blit_front buf (data_packet (frames_bytes layout frames) seq),
    decode_data-bytes frames (drop (12 + length (frames_bytes layout frames)) buf) seq total out
        max_frames h,
  )
