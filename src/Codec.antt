-- ===== src/Codec.antt =====
-- The host side of the USB link: software/src/protocol/usb/usb_frame_codec.h and .cpp. A pointer
-- that may be null is an `Option`; `none` as a result is the return value 0 or false, and every such
-- return stands before the first write. `memcpy(dst + off, src, n)` is `blit dst off (take n src)`.
pub mod Encode
pub mod Agree
pub mod Decode
pub mod Front
pub mod RoundTrip
use bus_test_platform.Prelude.{
  ◌>>=◌, ℕ, zero, suc, ◌+◌, ◌*◌, ◌/◌, ◌%◌, ◌^◌, Bool, ◌||◌, Option, none, some, List, [], ◌∷◌, ltb,
  ◌==◌, ◌!=◌, if◌then◌else◌, get_or, set, take, drop, bit_and, bit_or,
}
use bus_test_platform.Prelude.Blit.{blit}
use bus_test_platform.Frame.{BusFrame}
use bus_test_platform.Frame.Layout.{FrameLayout}
use bus_test_platform.Firmware.{frames_bytes}
use bus_test_platform.Wire.{
  magic, version, header_size, frames_per_packet, cmd_payload_max, kind_data, kind_cmd, kind_evt,
}

-- The null test of `buf` is made by every caller first.
unfoldable pub header_fill : List ℕ → ℕ → ℕ → ℕ → ℕ → Option (List ℕ)
header_fill buf cap kind len seq =
    if ltb cap header_size
    then none
    else some (
        let buf' = set buf 0 (bit_and magic 0xff) in
        let buf' = set buf' 1 (bit_and (magic / 2 ^ 8) 0xff) in
        let buf' = set buf' 2 version in
        let buf' = set buf' 3 kind in
        let buf' = set buf' 4 (bit_and len 0xff) in
        let buf' = set buf' 5 (bit_and (len / 2 ^ 8) 0xff) in
        let buf' = set buf' 6 (bit_and seq 0xff) in
        let buf' = set buf' 7 (bit_and (seq / 2 ^ 8) 0xff) in
        let buf' = set buf' 8 0 in
        let buf' = set buf' 9 0 in let buf' = set buf' 10 0 in set buf' 11 0)

-- `if (plen > 0U && payload != nullptr) memcpy(p + 8, payload, plen)`
unfoldable pub copy_request : List ℕ → Option (List ℕ) → ℕ → List ℕ
copy_request buf none plen = buf
copy_request buf (some payload) plen =
    if ltb 0 plen then blit buf (header_size + 8) (take plen payload) else buf

-- The eight bytes behind the header, and the payload.
unfoldable pub fill_request : List ℕ → ℕ → ℕ → ℕ → Option (List ℕ) → ℕ → List ℕ
fill_request buf code channel param payload plen =
    let buf = set buf 12 (bit_and code 0xff) in
    let buf = set buf 13 (bit_and (code / 2 ^ 8) 0xff) in
    let buf = set buf 14 (bit_and channel 0xff) in
    let buf = set buf 15 (bit_and (channel / 2 ^ 8) 0xff) in
    let buf = set buf 16 (bit_and param 0xff) in
    let buf = set buf 17 (bit_and (param / 2 ^ 8) 0xff) in
    let buf = set buf 18 (bit_and (param / 2 ^ 16) 0xff) in
    let buf = set buf 19 (bit_and (param / 2 ^ 24) 0xff) in copy_request buf payload plen

unfoldable pub encode_8_plus_payload :
    Option (List ℕ) → ℕ → ℕ → ℕ → ℕ → ℕ → Option (List ℕ) → ℕ → ℕ → Option (ℕ × List ℕ)
encode_8_plus_payload none cap kind code channel param payload plen seq = none
encode_8_plus_payload (some buf) cap kind code channel param payload plen seq =
    let total = header_size + 8 + plen in
    if ltb cmd_payload_max plen then none else if ltb cap total then none else do
      buf' ← header_fill buf cap kind ((8 + plen) % 2 ^ 16) seq
      some (total, fill_request buf' code channel param payload plen)

unfoldable pub encode_cmd :
    Option (List ℕ) → ℕ → ℕ → ℕ → ℕ → Option (List ℕ) → ℕ → ℕ → Option (ℕ × List ℕ)
encode_cmd buf cap cmd channel param payload plen seq =
    encode_8_plus_payload buf cap kind_cmd cmd channel param payload plen seq

unfoldable pub encode_evt :
    Option (List ℕ) → ℕ → ℕ → ℕ → ℕ → Option (List ℕ) → ℕ → ℕ → Option (ℕ × List ℕ)
encode_evt buf cap evt channel param payload plen seq =
    encode_8_plus_payload buf cap kind_evt evt channel param payload plen seq

-- `*kind`, `*length` and `*seq`
pub record Fields : Type 0 where
  pub kind : ℕ
  pub len : ℕ
  pub seq : ℕ

unfoldable pub parse_header : Option (List ℕ) → ℕ → Option Fields
parse_header none len = none
parse_header (some buf) len =
    let magic' = bit_or (get_or buf 0 0) (get_or buf 1 0 * 2 ^ 8) % 2 ^ 16 in
    let version' = get_or buf 2 0 in
    let l = bit_or (get_or buf 4 0) (get_or buf 5 0 * 2 ^ 8) % 2 ^ 16 in
    let s = bit_or (get_or buf 6 0) (get_or buf 7 0 * 2 ^ 8) % 2 ^ 16 in
    if ltb len header_size
    then none
    else if magic' != magic || version' != version
    then none
    else if ltb len (l + header_size)
    then none
    else some (record { kind = get_or buf 3 0; len = l; seq = s })

-- The eight bytes behind the header, as `decode_cmd` and `decode_evt` hand them out.
pub record Request : Type 0 where
  pub code : ℕ
  pub channel : ℕ
  pub param : ℕ

unfoldable pub read_request : List ℕ → Request
read_request p = record {
  code = bit_or (get_or p 0 0) (get_or p 1 0 * 2 ^ 8) % 2 ^ 16;
  channel = bit_or (get_or p 2 0) (get_or p 3 0 * 2 ^ 8) % 2 ^ 16;
  param =
      bit_or (bit_or (bit_or (get_or p 4 0) (get_or p 5 0 * 2 ^ 8)) (get_or p 6 0 * 2 ^ 16))
        (get_or p 7 0 * 2 ^ 24);
}

-- `decode_cmd` and `decode_evt` differ in the kind that they ask for, and in nothing else.
unfoldable pub decode_request : ℕ → Option (List ℕ) → ℕ → Option Request
decode_request kind none len = none
decode_request kind (some buf) len = if ltb len (header_size + 8) then none else do
  h ← parse_header (some buf) len
  if h.kind != kind
      then none
      else if ltb h.len 8 || ltb len (h.len + header_size)
      then none
      else some (read_request (drop 12 buf))

unfoldable pub decode_cmd : Option (List ℕ) → ℕ → Option Request
decode_cmd = decode_request kind_cmd

unfoldable pub decode_evt : Option (List ℕ) → ℕ → Option Request
decode_evt = decode_request kind_evt

-- The frames that `n * sizeof(BusFrame)` copied bytes hold.
abbrev pub read_frames : FrameLayout → ℕ → List ℕ → List BusFrame
read_frames layout zero bytes = []
read_frames layout (suc n) bytes =
    layout.of_bytes (take layout.size bytes) ∷ read_frames layout n (drop layout.size bytes)

module _ (layout : FrameLayout) where
  unfoldable pub encode_data :
      Option (List ℕ) → ℕ → Option (List BusFrame) → ℕ → ℕ → Option (ℕ × List ℕ)
  encode_data none cap frames frame_count seq = none
  encode_data (some buf) cap none frame_count seq = none
  encode_data (some buf) cap (some frames) frame_count seq =
      let frame_bytes = frame_count * layout.size in
      let total = header_size + frame_bytes in
      if frame_count == 0 || ltb frames_per_packet frame_count
      then none
      else if ltb cap total
      then none
      else do
        buf' ← header_fill buf cap kind_data (frame_bytes % 2 ^ 16) seq
        some (total, blit buf' header_size (take frame_bytes (frames_bytes layout frames)))

  -- The count, the caller's array `out` with the frames copied over its front, and `*seq`.
  unfoldable pub decode_data :
      Option (List ℕ) → ℕ → Option (List BusFrame) → ℕ → Option (ℕ × List BusFrame × ℕ)
  decode_data none len out max_frames = none
  decode_data (some buf) len none max_frames = none
  decode_data (some buf) len (some out) max_frames = if max_frames == 0 then none else do
    h ← parse_header (some buf) len
    let count = h.len / layout.size
    if h.kind != kind_data
        then none
        else if h.len % layout.size != 0
        then none
        else if count == 0 || ltb max_frames count
        then none
        else some (count, blit out 0 (read_frames layout count (drop 12 buf)), h.seq)
