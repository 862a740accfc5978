-- ===== src/Can/Extract.antt =====
-- `CanDecoder::extract_raw` of software/src/protocol/can/can_decoder.cpp against the payload read as
-- one number.
use native.Mathlib.Nat.{mod-eq_of_lt, div-eq_of_lt}
use bus_test_platform.Prelude.{
  ℕ, zero, suc, ◌+◌, ◌-◌, ◌*◌, ◌/◌, ◌%◌, ◌^◌, ◌≤◌, ◌<◌, ◌≡◌, inl, inr, sym, ap, ◌∙◌, min, false,
  List, leb, ◌!=◌, if◌then◌else◌, length, get_or, take, All, length-take, get_or-take, arith,
  Bool-cases, bit_and, bit_or,
}
use bus_test_platform.Prelude.Bits.{bit_and_mask, bit_or_high, bit_or_digit}
use bus_test_platform.Prelude.Powers.{
  pow_double, pow_pos, pow_mono, pow_lt, div-pow-suc, div-pow-add, mod-pow-suc, mod-pow-top,
  mul_le_one,
}
use bus_test_platform.Frame.{IsByte}
use bus_test_platform.Frame.Laws.{All-take}
use bus_test_platform.Can.{intel_loop, motorola_loop}
use bus_test_platform.Can.Numbers.{little, big, little_bit, little-lt, big_bit}

bit_and-one : (x : ℕ) → bit_and x 1 ≡ x % 2
bit_and-one x = bit_and_mask 1 x

-- Bits `start .. start + len - 1` of the little-endian number of the first `dlc` bytes.
abbrev pub intel_bits : List ℕ → ℕ → ℕ → ℕ → ℕ
intel_bits bytes dlc start len = little (take dlc bytes) / 2 ^ start % 2 ^ len

-- A bit inside the frame, as the Intel loop reads it.
frame_bit :
    (bytes : List ℕ) (dlc k : ℕ)
    → All IsByte bytes
    → k / 8 < dlc
    → bit_and (get_or bytes (k / 8) 0 / 2 ^ (k % 8)) 1 ≡ little (take dlc bytes) / 2 ^ k % 2
frame_bit bytes dlc k h hk =
    bit_and-one (get_or bytes (k / 8) 0 / 2 ^ (k % 8))
    ∙ ap (λ (t : ℕ). t / 2 ^ (k % 8) % 2) (sym (get_or-take dlc bytes (k / 8) 0 hk))
    ∙ sym (little_bit (take dlc bytes) (k / 8) (k % 8) (omega arith) (All-take IsByte dlc bytes h))
    ∙ ap (λ (t : ℕ). little (take dlc bytes) / 2 ^ t % 2) {x = 8 * (k / 8) + k % 8} {y = k}
        (omega arith)

-- Nothing of the number stands behind the frame.
beyond :
    (bytes : List ℕ) (dlc k : ℕ)
    → All IsByte bytes
    → dlc ≤ k / 8
    → little (take dlc bytes) / 2 ^ k ≡ 0
beyond bytes dlc k h hk = div-eq_of_lt (
    omega (
      arith,
      little-lt (take dlc bytes) (All-take IsByte dlc bytes h),
      pow_mono (8 * length (take dlc bytes)) k (omega (arith, length-take dlc bytes)),
    ))

-- `v |= uint64_t{1} << i` for a set bit
set_bit :
    (b v i : ℕ)
    → b < 2
    → v < 2 ^ i
    → i < 64
    → (if b != 0 then bit_or v (2 ^ i % 2 ^ 64) else v) ≡ v + b * 2 ^ i
set_bit zero v i hb hv hi = omega arith
set_bit (suc zero) v i hb hv hi =
    ap (bit_or v) (mod-eq_of_lt (pow_lt i 64 hi) ∙ omega arith) ∙ bit_or_high i v 1 hv
set_bit (suc (suc b)) v i hb hv hi = absurd (omega arith)

-- One more bit at the lower end of a field.
intel_bits-suc :
    (bytes : List ℕ) (dlc start i left : ℕ)
    → intel_bits bytes dlc (start + i) (suc left)
      ≡ little (take dlc bytes) / 2 ^ (start + i) % 2
        + 2 * intel_bits bytes dlc (start + (i + 1)) left
intel_bits-suc bytes dlc start i left =
    mod-pow-suc (little (take dlc bytes) / 2 ^ (start + i)) left
    ∙ ap (λ (t : ℕ). little (take dlc bytes) / 2 ^ (start + i) % 2 + 2 * (t % 2 ^ left))
        (sym (div-pow-suc (little (take dlc bytes)) (start + i))
          ∙ ap (λ (t : ℕ). little (take dlc bytes) / 2 ^ t) {x = suc (start + i)}
              {y = start + (i + 1)} (omega arith))

scale_bits : (v b y i : ℕ) → v + b * 2 ^ i + y * 2 ^ (i + 1) ≡ v + (b + 2 * y) * 2 ^ i
scale_bits v b y i = omega (
  arith,
  ap (λ (t : ℕ). y * 2 ^ t) {x = i + 1} {y = suc i} (omega arith),
  ap (λ (t : ℕ). y * t) (pow_double i),
)

room : (v b i : ℕ) → b < 2 → v < 2 ^ i → v + b * 2 ^ i < 2 ^ (i + 1)
room v b i hb hv = omega (
  arith,
  mul_le_one (2 ^ i) b (omega arith),
  pow_double i,
  ap (λ (t : ℕ). 2 ^ t) {x = i + 1} {y = suc i} (omega arith),
)

-- A round of the loop that does not break, given what the later rounds return.
intel_round :
    (left : ℕ) (bytes : List ℕ) (dlc start i v : ℕ)
    → All IsByte bytes
    → v < 2 ^ i
    → i < 64
    → (start + i) / 8 < dlc
    → let b = little (take dlc bytes) / 2 ^ (start + i) % 2 in
      intel_loop left bytes dlc start (i + 1) (v + b * 2 ^ i)
        ≡ v + b * 2 ^ i + intel_bits bytes dlc (start + (i + 1)) left * 2 ^ (i + 1)
      → intel_loop left bytes dlc start (i + 1) (
          if bit_and (get_or bytes ((start + i) / 8) 0 / 2 ^ ((start + i) % 8)) 1 != 0
          then bit_or v (2 ^ i % 2 ^ 64)
          else v)
        ≡ v + intel_bits bytes dlc (start + i) (suc left) * 2 ^ i
intel_round left bytes dlc start i v h hv hi hk later =
    let b = little (take dlc bytes) / 2 ^ (start + i) % 2 in
    rw (frame_bit bytes dlc (start + i) h hk) (
      ap (intel_loop left bytes dlc start (i + 1)) (set_bit b v i (omega arith) hv hi)
      ∙ later
      ∙ scale_bits v b (intel_bits bytes dlc (start + (i + 1)) left) i
      ∙ ap (λ (t : ℕ). v + t * 2 ^ i) (sym (intel_bits-suc bytes dlc start i left)))

-- The loop adds the bits that are left, at their place.
pub intel_loop-bits :
    (left : ℕ) (bytes : List ℕ) (dlc start i v : ℕ)
    → All IsByte bytes
    → v < 2 ^ i
    → i + left ≤ 64
    → intel_loop left bytes dlc start i v ≡ v + intel_bits bytes dlc (start + i) left * 2 ^ i
unfolding intel_loop
intel_loop-bits zero bytes dlc start i v h hv hi = omega (
  arith,
  ap (λ (t : ℕ). t * 2 ^ i) {x = intel_bits bytes dlc (start + i) 0} {y = 0} (omega arith),
)
intel_loop-bits (suc left) bytes dlc start i v h hv hi =
    let b = little (take dlc bytes) / 2 ^ (start + i) % 2 in
    elim (Bool-cases (leb dlc ((start + i) / 8))) [
      | inl out ↦
          rw (out, beyond bytes dlc (start + i) h (ground arith), mod-eq_of_lt (pow_pos (suc left)))
            (omega arith)
      | inr inside ↦ rw inside (
          intel_round left bytes dlc start i v h hv (omega arith) (ground arith) (
            intel_loop-bits left bytes dlc start (i + 1) (v + b * 2 ^ i) h
              (room v b i (omega arith) hv) (omega arith)))
    ]

-- `len` bits from position `p` on, counted from the highest bit of the first byte, and those of
-- them only that lie inside the first `dlc` bytes.
abbrev pub motorola_bits : List ℕ → ℕ → ℕ → ℕ → ℕ
motorola_bits bytes dlc p len =
    let n = min len (8 * dlc - p) in big (take dlc bytes) / 2 ^ (8 * dlc - p - n) % 2 ^ n

-- A bit inside the frame, as the Motorola loop reads it.
frame_bit_big :
    (bytes : List ℕ) (dlc p : ℕ)
    → All IsByte bytes
    → dlc ≤ length bytes
    → p / 8 < dlc
    → bit_and (get_or bytes (p / 8) 0 / 2 ^ (7 - p % 8)) 1
      ≡ big (take dlc bytes) / 2 ^ (8 * dlc - p - 1) % 2
frame_bit_big bytes dlc p h hd hp =
    bit_and-one (get_or bytes (p / 8) 0 / 2 ^ (7 - p % 8))
    ∙ ap (λ (t : ℕ). t / 2 ^ (7 - p % 8) % 2) (sym (get_or-take dlc bytes (p / 8) 0 hp))
    ∙ sym (
        big_bit (take dlc bytes) (p / 8) (7 - p % 8) (8 * dlc - p - 1) (omega arith)
          (omega (arith, length-take dlc bytes)) (All-take IsByte dlc bytes h)
          (omega (arith, length-take dlc bytes)))

-- `v = (v << 1) | bit`
shift_in : (b v k : ℕ) → b < 2 → v < 2 ^ k → k < 64 → bit_or (v * 2 % 2 ^ 64) b ≡ v * 2 + b
shift_in b v k hb hv hk =
    ap (λ (t : ℕ). bit_or t b)
      (mod-eq_of_lt (omega (arith, pow_double k, pow_mono (suc k) 64 (omega arith))))
    ∙ omega (arith, bit_or_digit (v * 2) b, joined)
  where
    joined : bit_or (v * 2 / 2) (b / 2) ≡ v
    joined = rw (halved, none_left) (bit_or_high k v 0 hv ∙ omega arith)
      where
        halved : v * 2 / 2 ≡ v
        halved = omega arith

        none_left : b / 2 ≡ 0 * 2 ^ k
        none_left = omega arith

-- The bits shifted in one by one are the field's bits, highest first.
append_bit :
    (x v n low top low' : ℕ)
    → top ≡ low + n
    → low' ≡ low
    → (v * 2 + x / 2 ^ top % 2) * 2 ^ n + x / 2 ^ low' % 2 ^ n
      ≡ v * 2 ^ suc n + x / 2 ^ low % 2 ^ suc n
append_bit x v n low top low' et el =
    rw (et, el)
      (omega (
        arith,
        mod-pow-top (x / 2 ^ low) n,
        ap (λ (t : ℕ). t % 2 * 2 ^ n) (div-pow-add x low n),
        ap (λ (t : ℕ). v * t) (pow_double n),
      ))

-- The loop shifts in the bits that are left and inside the frame.
pub motorola_loop-bits :
    (left n : ℕ) (bytes : List ℕ) (dlc p v k : ℕ)
    → All IsByte bytes
    → dlc ≤ length bytes
    → v < 2 ^ k
    → k + left ≤ 64
    → n ≡ min left (8 * dlc - p)
    → motorola_loop left bytes dlc p v
      ≡ v * 2 ^ n + big (take dlc bytes) / 2 ^ (8 * dlc - p - n) % 2 ^ n
unfolding motorola_loop
motorola_loop-bits zero zero bytes dlc p v k h hd hv hk e = omega arith
motorola_loop-bits zero (suc n) bytes dlc p v k h hd hv hk e = absurd (omega arith)
motorola_loop-bits (suc left) zero bytes dlc p v k h hd hv hk e = ground arith
motorola_loop-bits (suc left) (suc n) bytes dlc p v k h hd hv hk e =
    let b = big (take dlc bytes) / 2 ^ (8 * dlc - p - 1) % 2 in
    rw
      (
        inside,
        frame_bit_big bytes dlc p h hd (omega arith),
        shift_in b v k (omega arith) hv (omega arith),
      )
      (motorola_loop-bits left n bytes dlc (p + 1) (v * 2 + b) (suc k) h hd
          (omega (arith, pow_double k)) (omega arith) (omega arith)
        ∙ append_bit (big (take dlc bytes)) v n (8 * dlc - p - suc n) (8 * dlc - p - 1)
            (8 * dlc - (p + 1) - n) (omega arith) (omega arith))
  where
    inside : leb dlc (p / 8) ≡ false
    inside = ground arith
