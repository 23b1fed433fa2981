-- ===== src/Wire/Runs.antt =====
-- ZigZag at concrete values.
use corelib_c_cpp.Base.{◌-◌, ◌^◌, ◌<◌, ◌≡◌, arith}
use corelib_c_cpp.Wire.Zigzag.{
  zigzag_encode, zigzag_decode, zigzag, to_ℤ, zigzag_encode-zigzag, zigzag_decode-zigzag_encode,
  zigzag_encode-zigzag_decode,
}

zigzag_encode-zigzag_example :
    (zigzag_encode (2 ^ 64 - 3) ≡ zigzag (to_ℤ (2 ^ 64 - 3)))
    × (zigzag_encode (2 ^ 64 - 3) < 2 ^ 64)
zigzag_encode-zigzag_example = zigzag_encode-zigzag (2 ^ 64 - 3) (omega arith)

zigzag_decode-zigzag_encode_example : zigzag_decode (zigzag_encode (2 ^ 64 - 3)) ≡ 2 ^ 64 - 3
zigzag_decode-zigzag_encode_example = zigzag_decode-zigzag_encode (2 ^ 64 - 3) (omega arith)

zigzag_encode-zigzag_decode_example : zigzag_encode (zigzag_decode 5) ≡ 5
zigzag_encode-zigzag_decode_example = zigzag_encode-zigzag_decode 5 (omega arith)
