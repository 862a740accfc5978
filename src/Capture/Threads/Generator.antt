-- ===== src/Capture/Threads/Generator.antt =====
-- The generator of software/src/hal/usb/usb_device_sim.cpp behind the capture service.
use bus_test_platform.Prelude.{
  ℕ, zero, suc, ◌+◌, ◌-◌, ◌%◌, ◌^◌, ◌<◌, ◌≤◌, ◌≡◌, refl, sym, subst, ◌∙◌, Bool, true, false, not,
  ◌||◌, Option, none, some, List, [], ◌++◌, length, leb, ltb, ◌==◌, if◌then◌else◌, All, arith,
}
use bus_test_platform.Frame.{BusFrame}
use bus_test_platform.Hal.Sim.{
  SimConfig, SimDevice, sim_device, make_sim, checked_config, open_sim, enabled_channels, sim_frame,
  sim_frames, frames_due, generate, read_sim,
}
use bus_test_platform.Hal.Sim.Frames.{IsSimFrame, sim_frames-IsSimFrame}
use bus_test_platform.Pipeline.Refine.{view}
use bus_test_platform.Capture.{batch_frames}
use bus_test_platform.Capture.Threads.{Service, Reach}
use bus_test_platform.Capture.Threads.Contract.{Contract, delivered_kind}

-- A frame of the generator, but for its time.
abbrev pub IsSimBody : SimConfig → BusFrame → Type 0
IsSimBody c f = IsSimFrame c (record f { timestamp_ns100 = 0 })

-- The frames of a batch differ in their times only, whenever it is read.
All-undated :
    (c : SimConfig) (n : ℕ) (d : SimDevice) (channels : List ℕ) (index stamp : ℕ)
    → All (IsSimFrame c) (sim_frames n d channels index 0).1
    → All (IsSimBody c) (sim_frames n d channels index stamp).1
unfolding sim_frames sim_frame
All-undated c zero d channels index stamp h = tt
All-undated c (suc n) d channels index stamp (hf, h) =
    (hf, All-undated c n (sim_frame d channels index stamp).0 channels (index + 1) stamp h)

sim_frames-cfg :
    (n : ℕ) (d : SimDevice) (channels : List ℕ) (index stamp : ℕ)
    → (sim_frames n d channels index stamp).0.cfg ≡ d.cfg
unfolding sim_frames sim_frame
sim_frames-cfg zero d channels index stamp = refl
sim_frames-cfg (suc n) d channels index stamp =
    sim_frames-cfg n (sim_frame d channels index stamp).0 channels (index + 1) stamp

-- What a batch is, if there is one.
abbrev IsBatch : SimConfig → Option (SimDevice × List BusFrame) → Type 0
IsBatch c none = Unit
IsBatch c (some (d, batch)) = (d.cfg ≡ c) × All (IsSimBody c) batch

generate-IsBatch :
    (d : SimDevice) (count stamp : ℕ)
    → d.cfg.dlc ≤ 64
    → 0 < length (enabled_channels 8 0 d.cfg.channel_mask)
    → IsBatch d.cfg (generate d count stamp)
unfolding generate
generate-IsBatch d count stamp hd hc =
    let channels = enabled_channels 8 0 d.cfg.channel_mask in
    let some_on : (length channels == 0) ≡ false = ground arith in
    rw (some_on) (
      sim_frames-cfg count d channels d.generated stamp,
      All-undated d.cfg count d channels d.generated stamp
          (sim_frames-IsSimFrame count d d.generated 0 hd (omega arith) hc),
    )

either-IsBatch :
    (c : SimConfig) (b : Bool) (x y : Option (SimDevice × List BusFrame))
    → IsBatch c x
    → IsBatch c y
    → IsBatch c (if b then x else y)
either-IsBatch c true x y hx hy = hx
either-IsBatch c false x y hx hy = hy

read_sim-IsBatch :
    (d : SimDevice) (max_frames timeout_ms now stamp : ℕ)
    → d.cfg.dlc ≤ 64
    → 0 < length (enabled_channels 8 0 d.cfg.channel_mask)
    → IsBatch d.cfg (read_sim d true max_frames timeout_ms now stamp)
unfolding read_sim
read_sim-IsBatch d max_frames timeout_ms now stamp hd hc =
    let idle : IsBatch d.cfg (some (d, [])) = (refl, tt) in
    let due = frames_due ((now + 2 ^ 64 - d.opened_at_ns) % 2 ^ 64) d.cfg.rate_frames_per_sec in
    let count = due - d.generated in
    let size = if ltb max_frames count then max_frames else count in
    let batch = generate-IsBatch d size stamp hd hc in
    either-IsBatch d.cfg (not d.is_open_flag || not true || max_frames == 0) (some (d, []))
      (if leb due d.generated then some (d, []) else generate d size stamp) idle
      (either-IsBatch d.cfg (leb due d.generated) (some (d, [])) (generate d size stamp) idle batch)

from_batch :
    (c : SimConfig) (d d' : SimDevice) (timeout_ms now stamp : ℕ) (batch : List BusFrame)
    → c.dlc ≤ 64
    → 0 < length (enabled_channels 8 0 c.channel_mask)
    → d.cfg ≡ c
    → read_sim d true batch_frames timeout_ms now stamp ≡ some (d', batch)
    → (d'.cfg ≡ c) × All (IsSimBody c) batch
from_batch c d d' timeout_ms now stamp batch hd hc fine got =
    let dlc : d.cfg.dlc ≤ 64 = subst (λ (k : SimConfig). k.dlc ≤ 64) (sym fine) hd in
    let on =
      subst (λ (k : SimConfig). 0 < length (enabled_channels 8 0 k.channel_mask)) (sym fine) hc in
    subst (λ k. IsBatch k (some (d', batch))) fine
      (subst (IsBatch d.cfg) got (read_sim-IsBatch d batch_frames timeout_ms now stamp dlc on))

open_sim-cfg : (d : SimDevice) (now : ℕ) → (open_sim d now).0.cfg ≡ d.cfg
unfolding open_sim
open_sim-cfg d now = refl

checked_dlc : (c : SimConfig) → (checked_config c).dlc ≤ 64
unfolding checked_config
checked_dlc c = ground arith

abbrev sim_contract :
    (c : SimConfig)
    → c.dlc ≤ 64
    → 0 < length (enabled_channels 8 0 c.channel_mask)
    → Contract sim_device (IsSimBody c)
sim_contract c hd hc = record {
  Fine = λ d. d.cfg ≡ c;
  opens = λ d now fine. open_sim-cfg d now ∙ fine;
  reads = λ d d' timeout_ms now stamp batch fine got.
      from_batch c d d' timeout_ms now stamp batch hd hc fine got;
}

-- A capture service in front of the generator, whose mask enables one of the eight channels at
-- least: in every interleaving, from a new generator and a new pipeline of a size below 2 ^ 64, while
-- fewer than 2 ^ 64 frames have been handed out, every frame that the consumer has got or the
-- pipeline holds is well formed but for its time, carries the `dlc` that the constructor has
-- checked, and is on an enabled channel.
pub delivered_sim :
    (c : SimConfig) {capacity timeout_ms : ℕ} {s : Service sim_device}
    → 0 < length (enabled_channels 8 0 (checked_config c).channel_mask)
    → capacity < 2 ^ 64
    → length s.read < 2 ^ 64
    → Reach (make_sim c) capacity timeout_ms s
    → All (IsSimBody (checked_config c)) (s.delivered ++ (view s.pipe).frames)
unfolding make_sim
delivered_sim c hc size few r =
    delivered_kind (sim_contract (checked_config c) (checked_dlc c) hc) refl size few r
