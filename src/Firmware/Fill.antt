-- ===== src/Firmware/Fill.antt =====
-- What the byte writers of firmware/src/protocol/usb_protocol_handler.c leave in the buffer: each
-- is one write of the bytes that the wire format asks for.
use bus_test_platform.Prelude.{
  ℕ, zero, suc, ◌+◌, ◌/◌, ◌%◌, ◌^◌, ◌≤◌, ◌<◌, ◌≡◌, refl, sym, ap, ◌∙◌, List, [], ◌∷◌, ◌++◌, length,
  get_or, set, take, drop, arith,
}
use bus_test_platform.Prelude.Blit.{blit, set-eq-blit, blit-blit, blit-nil}
use bus_test_platform.Prelude.Bits.{low_byte}
use bus_test_platform.Firmware.{put_u16, put_u32, header_fill, copy_loop}
use bus_test_platform.Wire.{u16_bytes, u32_bytes, header_bytes, magic, version}

-- A byte written just behind a run extends the run.
pub set-blit :
    (buf : List ℕ) (p q : ℕ) (xs : List ℕ) (v : ℕ)
    → q ≡ p + length xs
    → set (blit buf p xs) q v ≡ blit buf p (xs ++ v ∷ [])
set-blit buf p q xs v e = set-eq-blit (blit buf p xs) q v ∙ blit-blit buf p q xs (v ∷ []) e

pub put_u16-eq-blit : (buf : List ℕ) (p v : ℕ) → put_u16 buf p v ≡ blit buf p (u16_bytes v)
unfolding put_u16
put_u16-eq-blit buf p v =
    rw (low_byte v, low_byte (v / 2 ^ 8), set-eq-blit buf p (v % 256))
      (set-blit buf p (p + 1) (v % 256 ∷ []) (v / 256 % 256) refl)

pub put_u32-eq-blit : (buf : List ℕ) (p v : ℕ) → put_u32 buf p v ≡ blit buf p (u32_bytes v)
unfolding put_u32
put_u32-eq-blit buf p v =
    rw
      (
        low_byte v,
        low_byte (v / 2 ^ 8),
        low_byte (v / 2 ^ 16),
        low_byte (v / 2 ^ 24),
        set-eq-blit buf p (v % 256),
        set-blit buf p (p + 1) (v % 256 ∷ []) (v / 2 ^ 8 % 256) refl,
        set-blit buf p (p + 2) (v % 256 ∷ v / 2 ^ 8 % 256 ∷ []) (v / 2 ^ 16 % 256) refl,
      )
      (set-blit buf p (p + 3) (v % 256 ∷ v / 2 ^ 8 % 256 ∷ v / 2 ^ 16 % 256 ∷ []) _ refl)

pub put_u16-blit :
    (buf : List ℕ) (p q : ℕ) (xs : List ℕ) (v : ℕ)
    → q ≡ p + length xs
    → put_u16 (blit buf p xs) q v ≡ blit buf p (xs ++ u16_bytes v)
put_u16-blit buf p q xs v e =
    put_u16-eq-blit (blit buf p xs) q v ∙ blit-blit buf p q xs (u16_bytes v) e

pub put_u32-blit :
    (buf : List ℕ) (p q : ℕ) (xs : List ℕ) (v : ℕ)
    → q ≡ p + length xs
    → put_u32 (blit buf p xs) q v ≡ blit buf p (xs ++ u32_bytes v)
put_u32-blit buf p q xs v e =
    put_u32-eq-blit (blit buf p xs) q v ∙ blit-blit buf p q xs (u32_bytes v) e

pub header_fill-eq-blit :
    (buf : List ℕ) (kind len seq : ℕ)
    → header_fill buf kind len seq ≡ blit buf 0 (header_bytes kind len seq)
unfolding header_fill
header_fill-eq-blit buf kind len seq =
    rw
      (
        put_u16-eq-blit buf 0 magic,
        set-blit buf 0 2 (0x42 ∷ 0x54 ∷ []) version refl,
        set-blit buf 0 3 (0x42 ∷ 0x54 ∷ 1 ∷ []) kind refl,
        put_u16-blit buf 0 4 (0x42 ∷ 0x54 ∷ 1 ∷ kind ∷ []) len refl,
        put_u16-blit buf 0 6 (0x42 ∷ 0x54 ∷ 1 ∷ kind ∷ u16_bytes len) seq refl,
      )
      (put_u32-blit buf 0 8 (0x42 ∷ 0x54 ∷ 1 ∷ kind ∷ u16_bytes len ++ u16_bytes seq) 0 refl)

take-drop_step :
    (left i : ℕ) (src : List ℕ)
    → i < length src
    → take (suc left) (drop i src) ≡ get_or src i 0 ∷ take left (drop (i + 1) src)
take-drop_step left i [] h = absurd (omega arith)
take-drop_step left zero (x ∷ src) h = refl
take-drop_step left (suc i) (x ∷ src) h =
    take-drop_step left i src (omega arith)
    ∙ ap (λ k. get_or src i 0 ∷ take left (drop k (x ∷ src))) {x = suc (i + 1)} (omega arith)

-- The loop copies the bytes `i .. i + left - 1` of the source to `off + i` on.
pub copy_loop-eq-blit :
    (left i : ℕ) (dst : List ℕ) (off : ℕ) (src : List ℕ)
    → i + left ≤ length src
    → copy_loop left i dst off src ≡ blit dst (off + i) (take left (drop i src))
unfolding copy_loop
copy_loop-eq-blit zero i dst off src h = sym (blit-nil dst (off + i))
copy_loop-eq-blit (suc left) i dst off src h =
    copy_loop-eq-blit left (i + 1) (set dst (off + i) (get_or src i 0)) off src (omega arith)
    ∙ rw (take-drop_step left i src (omega arith), set-eq-blit dst (off + i) (get_or src i 0))
        (blit-blit dst (off + i) (off + (i + 1)) (get_or src i 0 ∷ [])
          (take left (drop (i + 1) src)) (omega arith))
