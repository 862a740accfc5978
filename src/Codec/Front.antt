-- ===== src/Codec/Front.antt =====
-- What the receivers of command packets read: `usb_protocol_handle_cmd` of
-- firmware/src/protocol/usb_protocol_handler.c and `decode_cmd` of
-- software/src/protocol/usb/usb_frame_codec.cpp.
use bus_test_platform.Prelude.{
  ℕ, zero, suc, ◌+◌, ◌≤◌, ◌<◌, ◌≡◌, refl, sym, ap, ◌∙◌, some, List, [], ◌∷◌, ◌++◌, ltb, get_or,
  take, drop, length, is_some, arith, Bool-cases, inl, inr,
}
use bus_test_platform.Firmware.{handle_cmd}
use bus_test_platform.Codec.{parse_header, read_request, decode_request, decode_cmd, decode_evt}
use bus_test_platform.Wire.{kind_cmd, kind_evt}
use bus_test_platform.Codec.Decode.{handle_cmd-eq-decode_cmd}

get_or-front :
    (buf rest : List ℕ) (n i : ℕ)
    → n ≤ length buf
    → i < n
    → get_or (take n buf ++ rest) i 0 ≡ get_or buf i 0
get_or-front buf rest zero i h hi = absurd (omega arith)
get_or-front [] rest (suc n) i h hi = absurd (omega arith)
get_or-front (b ∷ buf) rest (suc n) zero h hi = refl
get_or-front (b ∷ buf) rest (suc n) (suc i) h hi =
    get_or-front buf rest n i (omega arith) (omega arith)

get_or-drop_front : (xs : List ℕ) (k i : ℕ) → get_or (drop k xs) i 0 ≡ get_or xs (k + i) 0
get_or-drop_front xs zero i = ap (λ (j : ℕ). get_or xs j 0) {y = 0 + i} (omega arith)
get_or-drop_front [] (suc k) i = refl
get_or-drop_front (x ∷ xs) (suc k) i =
    get_or-drop_front xs k i
    ∙ ap (λ (j : ℕ). get_or (x ∷ xs) j 0) {x = suc (k + i)} {y = suc k + i} (omega arith)

parse_header-front :
    (buf rest : List ℕ) (n : ℕ)
    → n ≤ length buf
    → parse_header (some (take n buf ++ rest)) n ≡ parse_header (some buf) n
unfolding parse_header
parse_header-front buf rest n h = elim (Bool-cases (ltb n 12)) [
  | inl short ↦ rw (short) refl
  | inr long ↦
      let read : (i : ℕ) → i < 12 → get_or (take n buf ++ rest) i 0 ≡ get_or buf i 0 =
        λ i hi. get_or-front buf rest n i h (ground arith) in
      rw
        (
          read 0 (omega arith),
          read 1 (omega arith),
          read 2 (omega arith),
          read 3 (omega arith),
          read 4 (omega arith),
          read 5 (omega arith),
          read 6 (omega arith),
          read 7 (omega arith),
        )
        refl
]

read_request-front :
    (buf rest : List ℕ) (n : ℕ)
    → n ≤ length buf
    → 20 ≤ n
    → read_request (drop 12 (take n buf ++ rest)) ≡ read_request (drop 12 buf)
unfolding read_request
read_request-front buf rest n h long =
    let read : (i : ℕ)
        → i < 8
        → get_or (drop 12 (take n buf ++ rest)) i 0 ≡ get_or (drop 12 buf) i 0 =
      λ i hi.
        get_or-drop_front (take n buf ++ rest) 12 i
        ∙ get_or-front buf rest n (12 + i) h (omega arith)
        ∙ sym (get_or-drop_front buf 12 i) in
    rw
      (
        read 0 (omega arith),
        read 1 (omega arith),
        read 2 (omega arith),
        read 3 (omega arith),
        read 4 (omega arith),
        read 5 (omega arith),
        read 6 (omega arith),
        read 7 (omega arith),
      )
      refl

decode_request-front :
    (kind : ℕ) (buf rest : List ℕ) (n : ℕ)
    → n ≤ length buf
    → decode_request kind (some (take n buf ++ rest)) n ≡ decode_request kind (some buf) n
unfolding decode_request
decode_request-front kind buf rest n h = elim (Bool-cases (ltb n 20)) [
  | inl short ↦ rw (short) refl
  | inr long ↦
      rw (long, parse_header-front buf rest n h, read_request-front buf rest n h (ground arith))
        refl
]

-- On a buffer of at least the given length, the firmware's dispatcher and the host's decoders of
-- command and event packets answer by the bytes up to that length alone: with other bytes behind
-- them, or none, the answers are the same.
pub decode-front :
    (buf rest : List ℕ) (n : ℕ)
    → n ≤ length buf
    → (handle_cmd (some (take n buf ++ rest)) n ≡ handle_cmd (some buf) n)
      × (decode_cmd (some (take n buf ++ rest)) n ≡ decode_cmd (some buf) n)
      × (decode_evt (some (take n buf ++ rest)) n ≡ decode_evt (some buf) n)
unfolding decode_cmd decode_evt
decode-front buf rest n h =
    let decoded = decode_request-front kind_cmd buf rest n h in
    (
      handle_cmd-eq-decode_cmd (some (take n buf ++ rest)) n
          ∙ ap is_some decoded
          ∙ sym (handle_cmd-eq-decode_cmd (some buf) n),
      decoded,
      decode_request-front kind_evt buf rest n h,
    )
