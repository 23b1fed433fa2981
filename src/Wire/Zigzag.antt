-- ===== src/Wire/Zigzag.antt =====
-- `_zigzag_encode` of ostream.c and `_zigzag_decode` of istream.c, at 64 bits. A
-- `sofab_signed_t` is its two's complement bit pattern, a number below 2 ^ 64.
use corelib_c_cpp.Base.{
  ℕ, ◌+◌, ◌-◌, ◌*◌, ◌/◌, ◌%◌, ◌^◌, ◌<◌, ◌≡◌, bit_and, bit_xor, arith, ltb, if◌then◌else◌,
}
use corelib_c_cpp.Base.Bits.{bit_xor-zero, bit_xor-ones, bit_and-mask}

-- `v >> k` on `int64_t`: the sign bit is shifted in.
abbrev pub asr : ℕ → ℕ → ℕ
asr v k = if ltb v (2 ^ 63) then v / 2 ^ k else v / 2 ^ k + (2 ^ 64 - 2 ^ (64 - k))

-- `-v` on `int64_t`.
abbrev pub neg : ℕ → ℕ
neg v = (2 ^ 64 - v) % 2 ^ 64

-- `(((sofab_unsigned_t)v) << 1) ^ (sofab_unsigned_t)(v >> (bits - 1))`
unfoldable pub zigzag_encode : ℕ → ℕ
zigzag_encode v = bit_xor (v * 2 % 2 ^ 64) (asr v 63)

-- `(sofab_signed_t)((u >> 1) ^ (-(sofab_signed_t)(u & 1)))`
unfoldable pub zigzag_decode : ℕ → ℕ
zigzag_decode u = bit_xor (u / 2) (neg (bit_and u 1))

-- The integer that a pattern stands for. `negsuc n` is -(n + 1).
pub data ℤ : Type 0 where
  pos : ℕ → ℤ
  negsuc : ℕ → ℤ

abbrev pub to_ℤ : ℕ → ℤ
to_ℤ v = if ltb v (2 ^ 63) then pos v else negsuc (2 ^ 64 - 1 - v)

-- ZigZag on the integers: 0, -1, 1, -2, 2, … are numbered from 0 on.
abbrev pub zigzag : ℤ → ℕ
zigzag (pos n) = 2 * n
zigzag (negsuc n) = 2 * n + 1

xor_none : (x : ℕ) → bit_xor x 0 ≡ x
xor_none x = bit_xor-zero x

xor_all : (x : ℕ) → x < 2 ^ 64 → bit_xor x (2 ^ 64 - 1) ≡ 2 ^ 64 - 1 - x
xor_all x h = bit_xor-ones 64 x h

low_bit : (u : ℕ) → bit_and u 1 ≡ u % 2
low_bit u = bit_and-mask 1 u

-- On every 64-bit pattern `_zigzag_encode` is the ZigZag numbering of the integer that the
-- pattern stands for, and a 64-bit number.
pub zigzag_encode-zigzag :
    (v : ℕ) → v < 2 ^ 64 → (zigzag_encode v ≡ zigzag (to_ℤ v)) × (zigzag_encode v < 2 ^ 64)
unfolding zigzag_encode
zigzag_encode-zigzag v h = ground (arith, xor_none (v * 2 % 2 ^ 64), xor_all (v * 2 % 2 ^ 64))

decode_even : (u : ℕ) → u % 2 ≡ 0 → zigzag_decode u ≡ u / 2
unfolding zigzag_decode
decode_even u e = ground (arith, low_bit u, xor_none (u / 2))

decode_odd : (u : ℕ) → u < 2 ^ 64 → u % 2 ≡ 1 → zigzag_decode u ≡ 2 ^ 64 - 1 - u / 2
unfolding zigzag_decode
decode_odd u h e = ground (arith, low_bit u, xor_all (u / 2))

-- `_zigzag_decode` undoes `_zigzag_encode` on every `int64_t`.
pub zigzag_decode-zigzag_encode : (v : ℕ) → v < 2 ^ 64 → zigzag_decode (zigzag_encode v) ≡ v
zigzag_decode-zigzag_encode v h =
    ground
      (arith, zigzag_encode-zigzag v h, decode_even (zigzag_encode v), decode_odd (zigzag_encode v))

zigzag_decode-lt : (u : ℕ) → u < 2 ^ 64 → zigzag_decode u < 2 ^ 64
zigzag_decode-lt u h = ground (arith, decode_even u, decode_odd u h)

-- `_zigzag_encode` undoes `_zigzag_decode` on every 64-bit value.
pub zigzag_encode-zigzag_decode : (u : ℕ) → u < 2 ^ 64 → zigzag_encode (zigzag_decode u) ≡ u
zigzag_encode-zigzag_decode u h = ground (
  arith,
  zigzag_encode-zigzag (zigzag_decode u) (zigzag_decode-lt u h),
  decode_even u,
  decode_odd u h,
)
