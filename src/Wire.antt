-- ===== src/Wire.antt =====
-- The wire vocabulary of include/sofab/sofab.h for the default build (64-bit values, fixlen,
-- array and sequence support): result codes, wire types and format ceilings.
pub mod Zigzag
pub mod Varint
mod Runs
use corelib_c_cpp.Base.{ℕ, ◌+◌, ◌*◌, ◌^◌, ◌%◌, bit_and, bit_or}

-- `sofab_ret_t`.
pub data Ret : Type 0 where
  ret_ok ret_incomplete e_argument e_buffer_full e_invalid_msg e_limit_exceeded : Ret

-- `sofab_type_t`: the three low bits of a field header.
abbrev pub type_varint_unsigned : ℕ
type_varint_unsigned = 0x00

abbrev pub type_varint_signed : ℕ
type_varint_signed = 0x01

abbrev pub type_fixlen : ℕ
type_fixlen = 0x02

abbrev pub type_varintarray_unsigned : ℕ
type_varintarray_unsigned = 0x03

abbrev pub type_varintarray_signed : ℕ
type_varintarray_signed = 0x04

abbrev pub type_fixlenarray : ℕ
type_fixlenarray = 0x05

abbrev pub type_sequence_start : ℕ
type_sequence_start = 0x06

abbrev pub type_sequence_end : ℕ
type_sequence_end = 0x07

-- `sofab_fixlentype_t`: the subtype of a fixed-length field.
abbrev pub fixlentype_fp32 : ℕ
fixlentype_fp32 = 0x00

abbrev pub fixlentype_fp64 : ℕ
fixlentype_fp64 = 0x01

abbrev pub fixlentype_string : ℕ
fixlentype_string = 0x02

abbrev pub fixlentype_blob : ℕ
fixlentype_blob = 0x03

-- The ceilings: `INT32_MAX` for ids, lengths and counts, `UINT8_MAX` for the nesting.
abbrev pub id_max : ℕ
id_max = 2147483647

abbrev pub fixlen_max : ℕ
fixlen_max = 2147483647

abbrev pub array_max : ℕ
array_max = 2147483647

abbrev pub max_depth : ℕ
max_depth = 255

-- `SOFAB_LAZY_SEQ_DEPTH`, the size of the hold-back window.
abbrev pub lazy_seq_depth : ℕ
lazy_seq_depth = 8

-- `sofab_unsigned_t` is `uint64_t`.
abbrev pub u64 : ℕ → ℕ
u64 n = n % 2 ^ 64

-- `_type_encode`: `(var << 3) | (type & 0x07)`.
unfoldable pub type_encode : ℕ → ℕ → ℕ
type_encode var type = bit_or (u64 (var * 2 ^ 3)) (bit_and type 0x07)
