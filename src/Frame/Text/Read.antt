-- ===== src/Frame/Text/Read.antt =====
-- What can be read off the text of `frame_to_string` (software/src/core/bus_frame.cpp): a reader of
-- its own, which takes the labels and numbers off the text one by one.
use bus_test_platform.Prelude.{
  ◌>>=◌, ℕ, zero, suc, ◌+◌, ◌*◌, ◌%◌, ◌^◌, Option, none, some, List, [], ◌∷◌, ◌==◌, if◌then◌else◌,
  same_name, take,
}
use bus_test_platform.Prelude.Print.{codes, read_number}
use bus_test_platform.Frame.{BusFrame, BusType, unknown, can, canfd, canxl, lin, Direction, rx, tx}
use bus_test_platform.Frame.Text.{status_code}

-- What the text shows of a frame. Its time is in nanoseconds, 100 to a tick, modulo 2 ^ 64, so two
-- times that differ by 2 ^ 62 ticks look alike.
pub record Shown : Type 0 where
  pub time_ns : ℕ
  pub bus : BusType
  pub channel : ℕ
  pub dir : Direction
  pub id : ℕ
  pub extended : ℕ
  pub fd : ℕ
  pub dlc : ℕ
  pub status : ℕ
  pub bytes : List ℕ

abbrev pub shown : BusFrame → Shown
shown f = record {
  time_ns = f.timestamp_ns100 * 100 % 2 ^ 64;
  bus = f.bus;
  channel = f.channel;
  dir = f.dir;
  id = f.id;
  extended = f.extended;
  fd = f.fd;
  dlc = f.dlc;
  status = status_code f.status;
  bytes = take f.dlc f.payload;
}

-- The text behind a label.
unfoldable pub expect : List ℕ → List ℕ → Option (List ℕ)
expect [] s = some s
expect (c ∷ label) [] = none
expect (c ∷ label) (x ∷ s) = let rest = expect label s in if c == x then rest else none

-- The text up to a blank, and the rest from the blank on.
unfoldable pub word : List ℕ → List ℕ × List ℕ
word [] = ([], [])
word (c ∷ s) = let (w, rest) = word s in if c == 32 then ([], c ∷ s) else (c ∷ w, rest)

abbrev pub bus_of : List ℕ → BusType
bus_of w =
    if same_name w (codes "CAN")
    then can
    else if same_name w (codes "CANFD")
    then canfd
    else if same_name w (codes "CANXL")
    then canxl
    else if same_name w (codes "LIN")
    then lin
    else unknown

abbrev pub dir_of : List ℕ → Direction
dir_of w = if same_name w (codes "RX") then rx else tx

-- A label, and the number behind it.
abbrev pub labelled : List ℕ → ℕ → List ℕ → Option (ℕ × List ℕ)
labelled label base s = do behind ← expect label s; some (read_number base 0 behind)

-- `n` bytes in hexadecimal, each with a blank behind it.
unfoldable pub read_bytes : ℕ → List ℕ → Option (List ℕ)
read_bytes zero s = some []
read_bytes (suc n) s = do
  let (b, behind) = read_number 16 0 s
  next_byte ← expect (codes " ") behind
  rest ← read_bytes n next_byte
  some (b ∷ rest)

unfoldable pub read_text : List ℕ → Option Shown
read_text s = do
  (us, s1) ← labelled (codes "[") 10 s
  (ns, s2) ← labelled (codes ".") 10 s1
  s3 ← expect (codes " us] ") s2
  let (bus, s4) = word s3
  (channel, s5) ← labelled (codes " ch") 10 s4
  s6 ← expect (codes " ") s5
  let (dir, s7) = word s6
  (id, s8) ← labelled (codes " id=0x") 16 s7
  (extended, s9) ← labelled (codes " ext=") 10 s8
  (fd, s10) ← labelled (codes " fd=") 10 s9
  (dlc, s11) ← labelled (codes " dlc=") 10 s10
  (status, s12) ← labelled (codes " st=") 10 s11
  s13 ← expect (codes " ") s12
  bytes ← read_bytes dlc s13
  some (record {
    time_ns = us * 1000 + ns;
    bus = bus_of bus;
    channel = channel;
    dir = dir_of dir;
    id = id;
    extended = extended;
    fd = fd;
    dlc = dlc;
    status = status;
    bytes = bytes;
  })
