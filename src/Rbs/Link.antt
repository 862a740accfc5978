-- ===== src/Rbs/Link.antt =====
-- From the restbus scheduler (software/src/engine/rbs/rbs_scheduler.cpp) over the data packets of the
-- USB link (software/src/protocol/usb/usb_frame_codec.cpp).
use bus_test_platform.Prelude.{
  ℕ, zero, suc, ◌+◌, ◌*◌, ◌%◌, ◌^◌, ◌≤◌, ◌<◌, ◌≡◌, refl, ◌∙◌, some, List, [], ◌∷◌, ◌++◌, leb, true,
  length, replicate, All, arith,
}
use native.Mathlib.Nat.{mod-lt}
use bus_test_platform.Prelude.Blit.{blit}
use bus_test_platform.Frame.{BusFrame, IsFrame, IsByte, tx}
use bus_test_platform.Frame.Laws.{make_frame-IsFrame}
use bus_test_platform.Frame.Layout.{FrameLayout}
use bus_test_platform.Wire.{data_packet}
use bus_test_platform.Firmware.{frames_bytes}
use bus_test_platform.Firmware.Build.{length-frames_bytes}
use bus_test_platform.Codec.{encode_data, decode_data}
use bus_test_platform.Codec.Encode.{encode_data_lem}
use bus_test_platform.Codec.Agree.{build_data-eq-encode_data}
use bus_test_platform.Codec.RoundTrip.{decode_data-build_data}
use bus_test_platform.Rbs.{Task, has_fd, task_frame, tick}
use bus_test_platform.Rbs.Due.{due_count}
use bus_test_platform.Rbs.Tick.{NoWrap, afters, bursts, tick_lem}

-- The fields of a task have their C types.
pub record IsTask (t : Task) : Type 0 where
  pub channel_fits : t.channel < 256
  pub id_fits : t.msg_id < 2 ^ 32
  pub payload_bytes : All IsByte t.payload

task_frame-IsFrame : (t : Task) (now : ℕ) → IsTask t → IsFrame (task_frame t now)
unfolding task_frame
task_frame-IsFrame t now h =
    (make_frame-IsFrame t.bus_type t.channel tx t.msg_id _ (has_fd t.bus_type) t.dlc
      (some t.payload) (now * 10 % 2 ^ 64) h.channel_fits h.id_fits
      (mod-lt (now * 10) (omega arith)) h.payload_bytes).0

All-burst :
    (n : ℕ) (f : BusFrame) (rest : List BusFrame)
    → IsFrame f
    → All IsFrame rest
    → All IsFrame (replicate n f ++ rest)
All-burst zero f rest hf h = h
All-burst (suc n) f rest hf h = (hf, All-burst n f rest hf h)

bursts-IsFrame : (tasks : List Task) (now : ℕ) → All IsTask tasks → All IsFrame (bursts tasks now)
unfolding bursts
bursts-IsFrame [] now h = tt
bursts-IsFrame (t ∷ tasks) now (ht, h) =
    All-burst (due_count t now) (task_frame t now) (bursts tasks now) (task_frame-IsFrame t now ht)
      (bursts-IsFrame tasks now h)

sixteen_at_most : (n size : ℕ) → n ≤ 16 → n * size ≤ 16 * size
sixteen_at_most n size h = grind arith

-- What a tick of the scheduler emits, packed by the host and unpacked again, under one frame layout:
-- for tasks whose fields have their C types, while the clock does not wrap within a period of a
-- task, and if the tick emits 1 to 16 frames and the buffer has room for a full packet, the tick
-- returns, `encode_data` packs its frames, and `decode_data`, with room for them, hands out the same
-- frames in the same order, with their number and the sequence number.
pub tick-decode_data :
    (layout : FrameLayout) (tasks : List Task) (now : ℕ) (buf : List ℕ) (cap seq : ℕ)
    (out : List BusFrame) (max_frames : ℕ)
    → All IsTask tasks
    → All (NoWrap now) tasks
    → 1 ≤ length (bursts tasks now)
    → length (bursts tasks now) ≤ 16
    → length (bursts tasks now) ≤ max_frames
    → 12 + 16 * layout.size ≤ cap
    → cap ≤ length buf
    → seq < 2 ^ 16
    → (frames : List BusFrame) × (size : ℕ) × (packet : List ℕ) × (tick tasks now (some [])
        ≡ some (afters tasks now, some frames, length frames))
      × (encode_data layout (some buf) cap (some frames) (length frames) seq ≡ some (size, packet))
      × (decode_data layout (some packet) size (some out) max_frames
          ≡ some (length frames, blit out 0 frames, seq))
tick-decode_data layout tasks now buf cap seq out max_frames ht hw h1 h16 hm hc hb hs =
    let frames = bursts tasks now in
    let fine = bursts-IsFrame tasks now ht in
    let body = frames_bytes layout frames in
    let size = length-frames_bytes layout frames fine in
    let fits : leb (12 + length body) cap ≡ true =
      ground (arith, size, sixteen_at_most (length frames) layout.size h16) in
    let first : leb 1 (length frames) ≡ true = ground arith in
    let last : leb (length frames) 16 ≡ true = ground arith in
    let made : encode_data layout (some buf) cap (some frames) (length frames) seq
        ≡ some (12 + length body, blit buf 0 (data_packet body seq)) =
      encode_data_lem layout buf cap frames seq fine ∙ rw (fits, first, last) refl in
    let back =
      decode_data-build_data layout buf cap frames seq out max_frames (12 + length body)
        (blit buf 0 (data_packet body seq)) hb fine hm hs
        (build_data-eq-encode_data layout (some buf) cap frames seq fine ∙ made) in
    (
      frames,
      12 + length body,
      blit buf 0 (data_packet body seq),
      tick_lem tasks now [] hw,
      made,
      back,
    )
