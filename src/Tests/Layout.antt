-- ===== src/Tests/Layout.antt =====
-- The object representation of `bt_bus_frame_t` (shared/include/bus/bus_types.h) on a little-endian
-- 64-bit target with four-byte enumerations: 96 bytes.
use bus_test_platform.Prelude.{
  ℕ, zero, suc, ◌/◌, ◌%◌, ◌^◌, ◌<◌, ◌≡◌, refl, sym, ◌==◌, if◌then◌else◌, List, [], ◌∷◌, ◌++◌,
  length, length-append, take, drop, take-append, drop-append, arith,
}
use bus_test_platform.Frame.{
  BusType, Direction, FrameStatus, BusFrame, IsFrame, unknown, can, canfd, canxl, lin, rx, tx,
  frame_ok, frame_error, frame_overrun,
}
use bus_test_platform.Frame.Layout.{FrameLayout}
use bus_test_platform.Can.Numbers.{little}

abbrev digits : ℕ → ℕ → List ℕ
digits zero v = []
digits (suc n) v = v % 256 ∷ digits n (v / 256)

little-digits : (n v : ℕ) → v < 256 ^ n → little (digits n v) ≡ v
little-digits zero v h = omega arith
little-digits (suc n) v h = omega (arith, little-digits n (v / 256) (omega arith))

abbrev bus_code : BusType → ℕ
bus_code unknown = 0
bus_code can = 1
bus_code canfd = 2
bus_code canxl = 3
bus_code lin = 4

abbrev bus_of : ℕ → BusType
bus_of n =
    if n == 1
    then can
    else if n == 2
    then canfd
    else if n == 3
    then canxl
    else if n == 4
    then lin
    else unknown

abbrev dir_code : Direction → ℕ
dir_code rx = 0
dir_code tx = 1

abbrev dir_of : ℕ → Direction
dir_of n = if n == 0 then rx else tx

abbrev status_code : FrameStatus → ℕ
status_code frame_ok = 0
status_code frame_error = 1
status_code frame_overrun = 2

abbrev status_of : ℕ → FrameStatus
status_of n = if n == 1 then frame_error else if n == 2 then frame_overrun else frame_ok

abbrev front_bytes : BusFrame → List ℕ
front_bytes f =
    digits 8 f.timestamp_ns100
    ++ digits 4 (bus_code f.bus)
    ++ digits 4 f.channel
    ++ digits 4 (dir_code f.dir)
    ++ digits 4 f.id
    ++ digits 1 f.extended
    ++ digits 1 f.fd
    ++ digits 1 f.dlc

abbrev frame_bytes : BusFrame → List ℕ
frame_bytes f = front_bytes f ++ f.payload ++ 0 ∷ digits 4 (status_code f.status)

abbrev word : ℕ → ℕ → List ℕ → ℕ
word off n bytes = little (take n (drop off bytes))

abbrev frame_of : List ℕ → BusFrame
frame_of bytes = record {
  timestamp_ns100 = word 0 8 bytes;
  bus = bus_of (word 8 4 bytes);
  channel = word 12 4 bytes;
  dir = dir_of (word 16 4 bytes);
  id = word 20 4 bytes;
  extended = word 24 1 bytes;
  fd = word 25 1 bytes;
  dlc = word 26 1 bytes;
  payload = take 64 (drop 27 bytes);
  status = status_of (little (take 4 (drop 1 (drop 64 (drop 27 bytes)))));
}

bus_of-bus_code : (b : BusType) → bus_of (little (digits 4 (bus_code b))) ≡ b
bus_of-bus_code unknown = refl
bus_of-bus_code can = refl
bus_of-bus_code canfd = refl
bus_of-bus_code canxl = refl
bus_of-bus_code lin = refl

dir_of-dir_code : (b : Direction) → dir_of (little (digits 4 (dir_code b))) ≡ b
dir_of-dir_code rx = refl
dir_of-dir_code tx = refl

status_of-status_code : (b : FrameStatus) → status_of (little (digits 4 (status_code b))) ≡ b
status_of-status_code frame_ok = refl
status_of-status_code frame_error = refl
status_of-status_code frame_overrun = refl

pub length-frame_bytes : (f : BusFrame) → IsFrame f → length (frame_bytes f) ≡ 96
length-frame_bytes f h =
    omega (arith, length-append f.payload (0 ∷ digits 4 (status_code f.status)), h.payload_length)

pub frame_of-frame_bytes : (f : BusFrame) → IsFrame f → frame_of (frame_bytes f) ≡ f
frame_of-frame_bytes f h =
    rw
      (
        little-digits 8 f.timestamp_ns100 h.timestamp_fits,
        little-digits 4 f.channel (omega (arith, h.channel_fits)),
        little-digits 4 f.id h.id_fits,
        little-digits 1 f.extended h.extended_fits,
        little-digits 1 f.fd h.fd_fits,
        little-digits 1 f.dlc h.dlc_fits,
      )
      (rw
        (
          bus_of-bus_code f.bus,
          dir_of-dir_code f.dir,
          take-append 64 f.payload (0 ∷ digits 4 (status_code f.status)) (sym h.payload_length),
          drop-append 64 f.payload (0 ∷ digits 4 (status_code f.status)) (sym h.payload_length),
          status_of-status_code f.status,
        )
        refl)

-- The layout of this target.
abbrev pub lp64 : FrameLayout
lp64 = record {
  size = 96;
  to_bytes = frame_bytes;
  of_bytes = frame_of;
  size_pos = omega arith;
  packet_fits = omega arith;
  length-to_bytes = length-frame_bytes;
  of_bytes-to_bytes = frame_of-frame_bytes;
}
