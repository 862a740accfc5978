-- ===== src/Firmware.antt =====
-- The device side of the USB link: firmware/src/protocol/usb_protocol_handler.c. A pointer that may
-- be NULL is an `Option`; `none` as a result is the return value -1. A buffer is the list of the
-- bytes behind the pointer, and a builder that returns -1 has not written to it. The pointers through
-- which `usb_protocol_parse` hands out its results are taken as valid; what it has stored in `*hdr`
-- when it returns -1 is left out. `frame_count` and `plen` are unbounded here; above the range
-- of their C types there is no such call.
pub mod Fill
pub mod Build
pub mod Parse
pub mod Loop
use bus_test_platform.Prelude.{
  ℕ, zero, suc, ◌+◌, ◌*◌, ◌/◌, ◌%◌, ◌^◌, Bool, true, false, ◌&&◌, ◌||◌, Option, none, some, List,
  [], ◌++◌, ltb, ◌==◌, ◌!=◌, if◌then◌else◌, get_or, set, drop, bit_and, bit_or,
}
use bus_test_platform.Frame.{BusFrame}
use bus_test_platform.Frame.Layout.{FrameLayout}
use bus_test_platform.Wire.{
  Header, Command, Event, command_code, event_code, magic, version, header_size, frames_per_packet,
  cmd_payload_max, evt_payload_max, kind_data, kind_cmd, kind_evt,
}

-- `put_u16(buf + p, v)`
unfoldable pub put_u16 : List ℕ → ℕ → ℕ → List ℕ
put_u16 buf p v = set (set buf p (bit_and v 0xff)) (p + 1) (bit_and (v / 2 ^ 8) 0xff)

unfoldable pub put_u32 : List ℕ → ℕ → ℕ → List ℕ
put_u32 buf p v =
    let buf = set buf p (bit_and v 0xff) in
    let buf = set buf (p + 1) (bit_and (v / 2 ^ 8) 0xff) in
    let buf = set buf (p + 2) (bit_and (v / 2 ^ 16) 0xff) in
    set buf (p + 3) (bit_and (v / 2 ^ 24) 0xff)

unfoldable pub get_u16 : List ℕ → ℕ → ℕ
get_u16 buf p = bit_or (get_or buf p 0) (get_or buf (p + 1) 0 * 2 ^ 8) % 2 ^ 16

unfoldable pub get_u32 : List ℕ → ℕ → ℕ
get_u32 buf p =
    bit_or
      (bit_or (bit_or (get_or buf p 0) (get_or buf (p + 1) 0 * 2 ^ 8))
        (get_or buf (p + 2) 0 * 2 ^ 16))
      (get_or buf (p + 3) 0 * 2 ^ 24)

unfoldable pub header_fill : List ℕ → ℕ → ℕ → ℕ → List ℕ
header_fill buf kind len seq =
    let buf = put_u16 buf 0 magic in
    let buf = set buf 2 version in
    let buf = set buf 3 kind in
    let buf = put_u16 buf 4 len in let buf = put_u16 buf 6 seq in put_u32 buf 8 0

-- `for (i = ...; i < n; ++i) dst[off + i] = src[i]`, with the rounds that are left.
unfoldable pub copy_loop : ℕ → ℕ → List ℕ → ℕ → List ℕ → List ℕ
copy_loop zero i dst off src = dst
copy_loop (suc left) i dst off src =
    copy_loop left (i + 1) (set dst (off + i) (get_or src i 0)) off src

-- `(const uint8_t *)frames`
abbrev pub frames_bytes : FrameLayout → List BusFrame → List ℕ
frames_bytes layout [] = []
frames_bytes layout (List.◌∷◌ f fs) = layout.to_bytes f ++ frames_bytes layout fs

module _ (layout : FrameLayout) where
  unfoldable pub build_data :
      Option (List ℕ) → ℕ → Option (List BusFrame) → ℕ → ℕ → Option (ℕ × List ℕ)
  build_data none cap frames frame_count seq = none
  build_data (some buf) cap none frame_count seq = none
  build_data (some buf) cap (some frames) frame_count seq =
      let frame_bytes = frame_count * layout.size in
      let total = header_size + frame_bytes in
      if frame_count == 0 || ltb frames_per_packet frame_count
      then none
      else if ltb cap total
      then none
      else some (
        total,
        copy_loop frame_bytes 0 (header_fill buf kind_data (frame_bytes % 2 ^ 16) seq) header_size
            (frames_bytes layout frames),
      )

-- `if (plen > 0U && payload != NULL)` and the loop below it
unfoldable pub copy_request : List ℕ → Option (List ℕ) → ℕ → List ℕ
copy_request buf none plen = buf
copy_request buf (some payload) plen =
    if ltb 0 plen then copy_loop plen 0 buf (header_size + 8) payload else buf

-- What `usb_protocol_build_cmd` and `usb_protocol_build_evt` write, once their guards have passed.
unfoldable pub write_request : List ℕ → ℕ → ℕ → ℕ → ℕ → Option (List ℕ) → ℕ → ℕ → List ℕ
write_request buf kind code channel param payload plen seq =
    let buf = header_fill buf kind ((8 + plen) % 2 ^ 16) seq in
    let buf = put_u16 buf header_size (code % 2 ^ 16) in
    let buf = put_u16 buf (header_size + 2) channel in
    let buf = put_u32 buf (header_size + 4) param in copy_request buf payload plen

unfoldable pub build_cmd :
    Option (List ℕ) → ℕ → Command → ℕ → ℕ → Option (List ℕ) → ℕ → ℕ → Option (ℕ × List ℕ)
build_cmd none cap cmd channel param payload plen seq = none
build_cmd (some buf) cap cmd channel param payload plen seq =
    let total = header_size + 8 + plen in
    if ltb cmd_payload_max plen
    then none
    else if ltb cap total
    then none
    else some (total, write_request buf kind_cmd (command_code cmd) channel param payload plen seq)

unfoldable pub build_evt :
    Option (List ℕ) → ℕ → Event → ℕ → ℕ → Option (List ℕ) → ℕ → ℕ → Option (ℕ × List ℕ)
build_evt none cap evt channel param payload plen seq = none
build_evt (some buf) cap evt channel param payload plen seq =
    let total = header_size + 8 + plen in
    if ltb evt_payload_max plen
    then none
    else if ltb cap total
    then none
    else some (total, write_request buf kind_evt (event_code evt) channel param payload plen seq)

-- `*hdr` as it is filled in
unfoldable pub read_header : List ℕ → Header
read_header buf = record {
  magic_field = get_u16 buf 0;
  version_field = get_or buf 2 0;
  kind = get_or buf 3 0;
  length_field = get_u16 buf 4;
  seq = get_u16 buf 6;
  reserved = get_u32 buf 8;
}

-- What `usb_protocol_parse` hands out; `payload` is the memory from `buf + BT_USB_HEADER_SIZE` on.
pub record Parsed : Type 0 where
  pub header : Header
  pub payload : List ℕ
  pub payload_len : ℕ

unfoldable pub accept_header : List ℕ → ℕ → Header → Option Parsed
accept_header buf len hdr =
    if hdr.magic_field != magic || hdr.version_field != version
    then none
    else if ltb len (hdr.length_field + header_size)
    then none
    else some (record { header = hdr; payload = drop 12 buf; payload_len = hdr.length_field })

unfoldable pub parse : Option (List ℕ) → ℕ → Option Parsed
parse none len = none
parse (some buf) len = if ltb len header_size then none else accept_header buf len (read_header buf)

-- The dispatcher: `true` is the return value 0.
accept_cmd : Option Parsed → Bool
accept_cmd none = false
accept_cmd (some p) =
    if p.header.kind != kind_cmd then false else if ltb p.payload_len 8 then false else true

unfoldable pub handle_cmd : Option (List ℕ) → ℕ → Bool
unfolding accept_cmd
handle_cmd pkt len = accept_cmd (parse pkt len)
