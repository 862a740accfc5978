-- ===== src/Frame/Laws.antt =====
-- What `make_frame` of software/src/core/bus_frame.cpp builds.
use bus_test_platform.Prelude.{
  ℕ, zero, suc, ◌-◌, ◌^◌, ◌≤◌, ◌<◌, ◌≡◌, refl, ◌∙◌, Bool, Option, none, some, List, [], ◌∷◌, ◌++◌,
  length, take, drop, replicate, length-take, All, arith,
}
use bus_test_platform.Prelude.Blit.{blit, length-blit, blit_front}
use bus_test_platform.Frame.{
  IsFrame, IsByte, BusType, Direction, make_frame, clamp_dlc, copy_payload, zero_payload,
}

pub All-take {κ} : (P : ℕ → Type κ) (n : ℕ) (xs : List ℕ) → All P xs → All P (take n xs)
All-take P zero xs h = tt
All-take P (suc n) [] h = tt
All-take P (suc n) (x ∷ xs) h = (h.0, All-take P n xs h.1)

pub All-blit {κ} :
    (P : ℕ → Type κ) (buf : List ℕ) (i : ℕ) (xs : List ℕ)
    → All P buf
    → All P xs
    → All P (blit buf i xs)
All-blit P [] i xs hb hx = tt
All-blit P (b ∷ buf) zero [] hb hx = hb
All-blit P (b ∷ buf) zero (x ∷ xs) hb hx = (hx.0, All-blit P buf zero xs hb.1 hx.1)
All-blit P (b ∷ buf) (suc i) xs hb hx = (hb.0, All-blit P buf i xs hb.1 hx)

abbrev SourceIsBytes : Option (List ℕ) → Type 0
SourceIsBytes none = Unit
SourceIsBytes (some bytes) = All IsByte bytes

length-copy_payload : (bytes : Option (List ℕ)) (dlc : ℕ) → length (copy_payload bytes dlc) ≡ 64
unfolding copy_payload
length-copy_payload none dlc = refl
length-copy_payload (some bytes) dlc = ground (arith, length-blit zero_payload 0 (take dlc bytes))

All-copy_payload :
    (bytes : Option (List ℕ)) (dlc : ℕ) → SourceIsBytes bytes → All IsByte (copy_payload bytes dlc)
unfolding copy_payload
All-copy_payload none dlc h = omega arith
All-copy_payload (some bytes) dlc h = ground (
  arith,
  All-blit IsByte zero_payload 0 (take dlc bytes) (omega arith) (All-take IsByte dlc bytes h),
)

-- Every frame that `make_frame` builds from arguments of their C types is a `bt_bus_frame_t`, and
-- its `dlc` does not exceed the payload array, whatever `dlc` was asked for.
pub make_frame-IsFrame :
    (bus : BusType) (channel : ℕ) (dir : Direction) (id : ℕ) (extended fd : Bool) (dlc : ℕ)
    (bytes : Option (List ℕ)) (timestamp : ℕ)
    → channel < 256
    → id < 2 ^ 32
    → timestamp < 2 ^ 64
    → SourceIsBytes bytes
    → let f = make_frame bus channel dir id extended fd dlc bytes timestamp in
      IsFrame f × (f.dlc ≤ 64)
unfolding make_frame
make_frame-IsFrame bus channel dir id extended fd dlc bytes timestamp hc hi ht hb = (
  record {
    timestamp_fits = ht;
    channel_fits = hc;
    id_fits = hi;
    extended_fits = ground arith;
    fd_fits = ground arith;
    dlc_fits = ground arith;
    payload_length = length-copy_payload bytes (clamp_dlc dlc);
    payload_bytes = All-copy_payload bytes (clamp_dlc dlc) hb;
  },
  ground arith,
)

drop_zeros : (n m : ℕ) → drop n (replicate {A = ℕ} m 0) ≡ replicate (m - n) 0
drop_zeros zero m = ground arith
drop_zeros (suc n) zero = ground arith
drop_zeros (suc n) (suc m) = ground (arith, drop_zeros n m)

blit-zero_payload :
    (bytes : List ℕ) (d : ℕ)
    → d ≤ 64
    → d ≤ length bytes
    → blit zero_payload 0 (take d bytes) ≡ take d bytes ++ replicate (64 - d) 0
blit-zero_payload bytes d hd hb =
    blit_front zero_payload (take d bytes) (omega (arith, length-take d bytes))
    ∙ ground (arith, length-take d bytes, drop_zeros d 64)

-- With a source of at least the clamped `dlc` bytes, the payload is that many bytes of the source
-- and zeros behind them.
pub make_frame_payload :
    (bus : BusType) (channel : ℕ) (dir : Direction) (id : ℕ) (extended fd : Bool) (dlc : ℕ)
    (bytes : List ℕ) (timestamp : ℕ)
    → clamp_dlc dlc ≤ length bytes
    → (make_frame bus channel dir id extended fd dlc (some bytes) timestamp).payload
      ≡ take (clamp_dlc dlc) bytes ++ replicate (64 - clamp_dlc dlc) 0
unfolding make_frame
make_frame_payload bus channel dir id extended fd dlc bytes timestamp h =
    copy_payload-eq (clamp_dlc dlc) (ground arith) h
  where
    copy_payload-eq :
        (d : ℕ)
        → d ≤ 64
        → d ≤ length bytes
        → copy_payload (some bytes) d ≡ take d bytes ++ replicate (64 - d) 0
    copy_payload-eq zero hd hb = refl
    copy_payload-eq (suc d) hd hb = ground (arith, blit-zero_payload bytes (suc d) hd hb)
