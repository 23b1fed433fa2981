-- ===== src/Istream/Reads.antt =====
-- The typed read functions of include/sofab/istream.h: the calls that a callback makes.
use corelib_c_cpp.Base.{ℕ, ◌*◌, ◌^◌, bit_or, bit_and, Option}
use corelib_c_cpp.Wire.{
  type_varint_unsigned, type_varint_signed, type_fixlen, type_varintarray_unsigned,
  type_varintarray_signed, type_fixlenarray, fixlentype_fp32, fixlentype_fp64, fixlentype_string,
  fixlentype_blob,
}
use corelib_c_cpp.Istream.{opt_stringterm, opt_boolean}
use corelib_c_cpp.Istream.Callback.{Call, read_field, read_array}

-- `SOFAB_ISTREAM_OPT_FIELDTYPE` and `SOFAB_ISTREAM_OPT_FIXLENTYPE`.
abbrev pub opt_fieldtype : ℕ → ℕ
opt_fieldtype type = bit_and type 0x07

abbrev pub opt_fixlentype : ℕ → ℕ
opt_fixlentype type = bit_and type 0x07 * 2 ^ 3

module _ {H : Type 0} where
  unfoldable pub read_i8 : ℕ → Call H
  read_i8 var = read_field var 1 (opt_fieldtype type_varint_signed)

  unfoldable pub read_u8 : ℕ → Call H
  read_u8 var = read_field var 1 (opt_fieldtype type_varint_unsigned)

  unfoldable pub read_i16 : ℕ → Call H
  read_i16 var = read_field var 2 (opt_fieldtype type_varint_signed)

  unfoldable pub read_u16 : ℕ → Call H
  read_u16 var = read_field var 2 (opt_fieldtype type_varint_unsigned)

  unfoldable pub read_i32 : ℕ → Call H
  read_i32 var = read_field var 4 (opt_fieldtype type_varint_signed)

  unfoldable pub read_u32 : ℕ → Call H
  read_u32 var = read_field var 4 (opt_fieldtype type_varint_unsigned)

  unfoldable pub read_i64 : ℕ → Call H
  read_i64 var = read_field var 8 (opt_fieldtype type_varint_signed)

  unfoldable pub read_u64 : ℕ → Call H
  read_u64 var = read_field var 8 (opt_fieldtype type_varint_unsigned)

  unfoldable pub read_bool : ℕ → Call H
  read_bool var = read_field var 1 (bit_or (opt_fieldtype type_varint_unsigned) opt_boolean)

  unfoldable pub read_fp32 : ℕ → Call H
  read_fp32 var =
      read_field var 4 (bit_or (opt_fieldtype type_fixlen) (opt_fixlentype fixlentype_fp32))

  unfoldable pub read_fp64 : ℕ → Call H
  read_fp64 var =
      read_field var 8 (bit_or (opt_fieldtype type_fixlen) (opt_fixlentype fixlentype_fp64))

  unfoldable pub read_string : ℕ → ℕ → Call H
  read_string var varlen = read_field var varlen (
      bit_or (bit_or (opt_fieldtype type_fixlen) (opt_fixlentype fixlentype_string)) opt_stringterm)

  unfoldable pub read_string_noterm : ℕ → ℕ → Call H
  read_string_noterm var varlen =
      read_field var varlen (bit_or (opt_fieldtype type_fixlen) (opt_fixlentype fixlentype_string))

  unfoldable pub read_blob : ℕ → ℕ → Call H
  read_blob var varlen =
      read_field var varlen (bit_or (opt_fieldtype type_fixlen) (opt_fixlentype fixlentype_blob))

  unfoldable pub read_array_of_i8 : Option ℕ → ℕ → Call H
  read_array_of_i8 var count = read_array var count 1 (opt_fieldtype type_varintarray_signed)

  unfoldable pub read_array_of_u8 : Option ℕ → ℕ → Call H
  read_array_of_u8 var count = read_array var count 1 (opt_fieldtype type_varintarray_unsigned)

  unfoldable pub read_array_of_i16 : Option ℕ → ℕ → Call H
  read_array_of_i16 var count = read_array var count 2 (opt_fieldtype type_varintarray_signed)

  unfoldable pub read_array_of_u16 : Option ℕ → ℕ → Call H
  read_array_of_u16 var count = read_array var count 2 (opt_fieldtype type_varintarray_unsigned)

  unfoldable pub read_array_of_i32 : Option ℕ → ℕ → Call H
  read_array_of_i32 var count = read_array var count 4 (opt_fieldtype type_varintarray_signed)

  unfoldable pub read_array_of_u32 : Option ℕ → ℕ → Call H
  read_array_of_u32 var count = read_array var count 4 (opt_fieldtype type_varintarray_unsigned)

  unfoldable pub read_array_of_i64 : Option ℕ → ℕ → Call H
  read_array_of_i64 var count = read_array var count 8 (opt_fieldtype type_varintarray_signed)

  unfoldable pub read_array_of_u64 : Option ℕ → ℕ → Call H
  read_array_of_u64 var count = read_array var count 8 (opt_fieldtype type_varintarray_unsigned)

  unfoldable pub read_array_of_bool : Option ℕ → ℕ → Call H
  read_array_of_bool var count =
      read_array var count 1 (bit_or (opt_fieldtype type_varintarray_unsigned) opt_boolean)

  unfoldable pub read_array_of_fp32 : Option ℕ → ℕ → Call H
  read_array_of_fp32 var count =
      read_array var count 4
        (bit_or (opt_fieldtype type_fixlenarray) (opt_fixlentype fixlentype_fp32))

  unfoldable pub read_array_of_fp64 : Option ℕ → ℕ → Call H
  read_array_of_fp64 var count =
      read_array var count 8
        (bit_or (opt_fieldtype type_fixlenarray) (opt_fixlentype fixlentype_fp64))
