-- ===== src/Hal/Sim/Frames.antt =====
-- The frames that the generator of software/src/hal/usb/usb_device_sim.cpp writes.
use native.Mathlib.Nat.{mod-lt}
use bus_test_platform.Prelude.{
  ℕ, zero, suc, ◌+◌, ◌/◌, ◌%◌, ◌^◌, ◌<◌, ◌≤◌, ◌≡◌, refl, ◌∙◌, Bool-cases, inl, inr, List, [], ◌∷◌,
  ◌!=◌, length, length-set, set, get_or, All, arith,
}
use bus_test_platform.Frame.{BusFrame, IsFrame, IsByte, zero_payload}
use bus_test_platform.Hal.Sim.{
  SimConfig, SimDevice, enabled_channels, xorshift, fill_payload, sim_frame, sim_frames,
}

-- A channel number whose bit of the mask is set.
abbrev pub IsEnabled : ℕ → ℕ → Type 0
IsEnabled mask c = (c < 8) × (mask / 2 ^ c % 2 ≡ 1)

enabled_channels-IsEnabled :
    (n i mask : ℕ) → i + n ≤ 8 → All (IsEnabled mask) (enabled_channels n i mask)
unfolding enabled_channels
enabled_channels-IsEnabled zero i mask h = tt
enabled_channels-IsEnabled (suc n) i mask h = elim (Bool-cases (mask / 2 ^ i % 2 != 0)) [
  | inl set_bit ↦
      rw (set_bit)
        ((omega arith, ground arith), enabled_channels-IsEnabled n (i + 1) mask (omega arith))
  | inr clear ↦ rw (clear) (enabled_channels-IsEnabled n (i + 1) mask (omega arith))
]

All-get_or : (P : ℕ → Type 0) (xs : List ℕ) (i z : ℕ) → All P xs → i < length xs → P (get_or xs i z)
All-get_or P [] i z h hi = absurd (omega arith)
All-get_or P (x ∷ xs) zero z (hx, h) hi = hx
All-get_or P (x ∷ xs) (suc i) z (hx, h) hi = All-get_or P xs i z h (omega arith)

All-set : (P : ℕ → Type 0) (xs : List ℕ) (i v : ℕ) → All P xs → P v → All P (set xs i v)
All-set P [] i v h hv = h
All-set P (x ∷ xs) zero v (hx, h) hv = (hv, h)
All-set P (x ∷ xs) (suc i) v (hx, h) hv = (hx, All-set P xs i v h hv)

fill_payload-bytes :
    (n b state : ℕ) (payload : List ℕ)
    → All IsByte payload
    → let filled = (fill_payload n b state payload).1 in
      (length filled ≡ length payload) × All IsByte filled
unfolding fill_payload
fill_payload-bytes zero b state payload h = (refl, h)
fill_payload-bytes (suc n) b state payload h =
    let byte = xorshift state / 2 ^ 56 % 2 ^ 8 in
    let (len, bytes) =
      fill_payload-bytes n (b + 1) (xorshift state) (set payload b byte)
        (All-set IsByte payload b byte h (mod-lt (xorshift state / 2 ^ 56) (omega arith))) in
    (len ∙ length-set payload b byte, bytes)

-- Frames of the generator `d`: well formed, on a channel that its mask enables, with its `dlc`.
abbrev pub IsSimFrame : SimConfig → BusFrame → Type 0
IsSimFrame c f = IsFrame f × IsEnabled c.channel_mask f.channel × (f.dlc ≡ c.dlc)

sim_frame-IsSimFrame :
    (d : SimDevice) (channels : List ℕ) (index stamp : ℕ)
    → d.cfg.dlc ≤ 64
    → stamp < 2 ^ 64
    → 0 < length channels
    → All (IsEnabled d.cfg.channel_mask) channels
    → IsSimFrame d.cfg (sim_frame d channels index stamp).1
unfolding sim_frame
sim_frame-IsSimFrame d channels index stamp hd hs hn hc =
    let filled = fill_payload-bytes d.cfg.dlc 0 d.prng_state zero_payload (omega arith) in
    let on =
      All-get_or (IsEnabled d.cfg.channel_mask) channels (index % 2 ^ 64 % length channels) 0 hc
        (mod-lt (index % 2 ^ 64) hn) in
    (
      record {
        timestamp_fits = omega arith;
        channel_fits = omega (arith, on.0);
        id_fits = omega arith;
        extended_fits = ground arith;
        fd_fits = ground arith;
        dlc_fits = omega arith;
        payload_length = filled.0;
        payload_bytes = filled.1;
      },
      on,
      refl,
    )

-- With a `dlc` of at most 64, a 64-bit clock and at least one channel enabled, every frame of a
-- batch is well formed, carries the configured `dlc`, and is on one of the channels that the mask
-- enables.
pub sim_frames-IsSimFrame :
    (n : ℕ) (d : SimDevice) (index stamp : ℕ)
    → d.cfg.dlc ≤ 64
    → stamp < 2 ^ 64
    → 0 < length (enabled_channels 8 0 d.cfg.channel_mask)
    → All
        (IsSimFrame d.cfg)
        (sim_frames n d (enabled_channels 8 0 d.cfg.channel_mask) index stamp).1
unfolding sim_frames sim_frame
sim_frames-IsSimFrame zero d index stamp hd hs hn = tt
sim_frames-IsSimFrame (suc n) d index stamp hd hs hn =
    let channels = enabled_channels 8 0 d.cfg.channel_mask in
    let on = enabled_channels-IsEnabled 8 0 d.cfg.channel_mask (omega arith) in
    (
      sim_frame-IsSimFrame d channels index stamp hd hs hn on,
      sim_frames-IsSimFrame n (sim_frame d channels index stamp).0 (index + 1) stamp hd hs hn,
    )
