-- ===== src/Ostream/Fields.antt =====
-- The scalar and fixed-length writers of ostream.c, with the inline ones of
-- include/sofab/ostream.h. The host is little-endian, so payload bytes are in source order.
use corelib_c_cpp.Base.{ℕ, Bool, not, ◌&&◌, List, [], ◌∷◌, ◌==◌, if◌then◌else◌, length}
use corelib_c_cpp.Wire.{
  e_argument, type_varint_unsigned, type_varint_signed, type_fixlen, fixlentype_fp32,
  fixlentype_fp64, fixlentype_string, fixlentype_blob, type_encode,
}
use corelib_c_cpp.Wire.Zigzag.{zigzag_encode}
use corelib_c_cpp.Utf8.{valid}
use corelib_c_cpp.Ostream.{Writer, ◌>>◌, write_id_varint, write_bytes}

module _ {U : Type 0} where
  unfoldable pub write_unsigned : ℕ → ℕ → Writer U
  write_unsigned id value = write_id_varint id type_varint_unsigned value

  -- The value is the bit pattern of an `int64_t`.
  unfoldable pub write_signed : ℕ → ℕ → Writer U
  write_signed id value = write_id_varint id type_varint_signed (zigzag_encode value)

  unfoldable pub write_boolean : ℕ → Bool → Writer U
  write_boolean id value = write_unsigned id (if value then 1 else 0)

  -- `sofab_ostream_write_fixlen`. `strict` is `SOFAB_STRICT_UTF8`; `data` has `datalen` bytes.
  unfoldable pub write_fixlen : Bool → ℕ → List ℕ → ℕ → Writer U
  write_fixlen strict id bytes type o =
      if strict && type == fixlentype_string && not (valid bytes)
      then (o, e_argument)
      else (write_id_varint id type_fixlen (type_encode (length bytes) type) >> write_bytes bytes) o

  -- The four bytes of a `float`, the eight of a `double`.
  unfoldable pub write_fp32 : Bool → ℕ → List ℕ → Writer U
  write_fp32 strict id bytes = write_fixlen strict id bytes fixlentype_fp32

  unfoldable pub write_fp64 : Bool → ℕ → List ℕ → Writer U
  write_fp64 strict id bytes = write_fixlen strict id bytes fixlentype_fp64

  unfoldable pub write_blob : Bool → ℕ → List ℕ → Writer U
  write_blob strict id bytes = write_fixlen strict id bytes fixlentype_blob

-- The bytes before the terminator, as `strlen` counts them.
unfoldable pub c_string : List ℕ → List ℕ
c_string [] = []
c_string (c ∷ text) = let more = c_string text in if c == 0 then [] else c ∷ more

unfoldable pub write_string : {U : Type 0} → Bool → ℕ → List ℕ → Writer U
write_string strict id text = write_fixlen strict id (c_string text) fixlentype_string
