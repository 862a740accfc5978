-- ===== src/Hal/Sim/Due.antt =====
-- How many frames the generator of software/src/hal/usb/usb_device_sim.cpp owes, and how many one
-- call of `read_frames` hands out.
use native.Mathlib.Nat.{add-mul-div_left, mul-le-mul, add-mul, mul_assoc}
use bus_test_platform.Prelude.{
  ℕ, zero, suc, ◌+◌, ◌-◌, ◌*◌, ◌/◌, ◌%◌, ◌^◌, ◌<◌, ◌≤◌, ◌≡◌, min, refl, sym, ap, ◌∙◌, true, ◌||◌,
  none, some, List, [], leb, ltb, ◌==◌, if◌then◌else◌, length, arith, Bool-cases, inl, inr,
}
use bus_test_platform.Frame.{BusFrame}
use bus_test_platform.Hal.Sim.{
  SimDevice, frames_due, enabled_channels, sim_frame, sim_frames, generate, read_sim,
}

-- The elapsed time is split into seconds and the rest without losing a frame to rounding: for a
-- 32-bit rate, the frames due are the exact `elapsed * rate / 10^9`, while that fits 64 bits.
pub frames_due-exact :
    (elapsed rate : ℕ)
    → rate < 2 ^ 32
    → elapsed * rate / 1000000000 < 2 ^ 64
    → frames_due elapsed rate ≡ elapsed * rate / 1000000000
unfolding frames_due
frames_due-exact elapsed rate hr h = omega (arith, exact, small)
  where
    seconds : ℕ
    seconds = elapsed / 1000000000

    rest : ℕ
    rest = elapsed % 1000000000

    exact : elapsed * rate / 1000000000 ≡ rest * rate / 1000000000 + seconds * rate
    exact =
        ap (λ (n : ℕ). n / 1000000000) {x = elapsed * rate}
          {y = rest * rate + 1000000000 * (seconds * rate)}
          (ap (λ (n : ℕ). n * rate) {x = elapsed} {y = 1000000000 * seconds + rest} (omega arith)
            ∙ add-mul (1000000000 * seconds) rest rate
            ∙ ap (λ (n : ℕ). n + rest * rate) (mul_assoc 1000000000 seconds rate)
            ∙ omega arith)
        ∙ add-mul-div_left (rest * rate) (seconds * rate) {y = 1000000000} (omega arith)

    small : rest * rate ≤ 1000000000 * 2 ^ 32
    small =
        mul-le-mul {n₁ = rest} {m₁ = rate} {n₂ = 1000000000} {m₂ = 2 ^ 32} (omega arith)
          (omega arith)

length-sim_frames :
    (n : ℕ) (d : SimDevice) (channels : List ℕ) (index stamp : ℕ)
    → length (sim_frames n d channels index stamp).1 ≡ n
unfolding sim_frames
length-sim_frames zero d channels index stamp = refl
length-sim_frames (suc n) d channels index stamp =
    ap suc (length-sim_frames n (sim_frame d channels index stamp).0 channels (index + 1) stamp)

-- The frames due when the clock reads `now`.
abbrev pub due_at : SimDevice → ℕ → ℕ
due_at d now = frames_due ((now + 2 ^ 64 - d.opened_at_ns) % 2 ^ 64) d.cfg.rate_frames_per_sec

due_at-lt : (d : SimDevice) (now : ℕ) → due_at d now < 2 ^ 64
unfolding frames_due
due_at-lt d now = omega arith

-- An open generator with at least one channel enabled hands out what is due and not handed out yet,
-- at most `max_frames` frames, and adds them to its counter, which so never runs ahead of what is
-- due.
pub read_sim_lem :
    (d : SimDevice) (max_frames timeout_ms now stamp : ℕ)
    → d.is_open_flag ≡ true
    → 0 < length (enabled_channels 8 0 d.cfg.channel_mask)
    → (d' : SimDevice) × (frames : List BusFrame) × (read_sim d true max_frames timeout_ms now stamp
        ≡ some (d', frames))
      × (length frames ≡ min (due_at d now - d.generated) max_frames)
      × (d'.generated ≡ d.generated + length frames)
unfolding read_sim generate
read_sim_lem d max_frames timeout_ms now stamp ho hc =
    elim (Bool-cases (max_frames == 0 || leb (due_at d now) d.generated)) [
      | inl idle ↦ (d, [], ground arith, ground arith, ground arith)
      | inr busy ↦
          let owed = due_at d now - d.generated in
          let count = if ltb max_frames owed then max_frames else owed in
          let channels = enabled_channels 8 0 d.cfg.channel_mask in
          let (d', frames) = sim_frames count d channels d.generated stamp in
          let handed = length-sim_frames count d channels d.generated stamp in
          let fits = due_at-lt d now in
          (
            record d' { generated = (d.generated + count) % 2 ^ 64 },
            frames,
            ground arith,
            handed ∙ ground arith,
            (ground arith) ∙ ap (λ (n : ℕ). d.generated + n) (sym handed),
          )
    ]

no_channels : (mask : ℕ) → mask % 2 ^ 8 ≡ 0 → enabled_channels 8 0 mask ≡ []
unfolding enabled_channels
no_channels mask h = ground arith

-- A channel mask without any of the eight channels, which the constructor accepts unless it is 0,
-- leads an open generator to a division by 0 when a frame is due and asked for.
pub read_sim-division_by_zero :
    (d : SimDevice) (max_frames timeout_ms now stamp : ℕ)
    → d.is_open_flag ≡ true
    → 0 < max_frames
    → d.cfg.channel_mask % 2 ^ 8 ≡ 0
    → d.generated < due_at d now
    → read_sim d true max_frames timeout_ms now stamp ≡ none
unfolding read_sim generate
read_sim-division_by_zero d max_frames timeout_ms now stamp ho hm hc hd =
    let stuck = ap (λ (cs : List ℕ). length cs) (no_channels d.cfg.channel_mask hc) in ground arith
