-- ===== src/Ostream/Arrays.antt =====
-- The array writers of ostream.c. The elements lie one after the other in `bytes`, the memory
-- from `data` on, each in little-endian byte order as on the hosts that the default build serves.
use corelib_c_cpp.Base.{
  ℕ, zero, suc, ◌+◌, ◌-◌, ◌*◌, ◌^◌, Bool, true, false, ◌||◌, Option, none, some, List, [], ◌∷◌, ltb,
  ◌==◌, if◌then◌else◌, take, drop,
}
use corelib_c_cpp.Wire.{
  ret_ok, e_argument, type_varintarray_unsigned, type_varintarray_signed, type_fixlenarray,
  fixlentype_fp32, fixlentype_fp64, type_encode,
}
use corelib_c_cpp.Wire.Zigzag.{zigzag_encode}
use corelib_c_cpp.Ostream.{Writer, ◌>>◌, write_id_varint, varint_encode, write_bytes}

-- The number that bytes spell, lowest first.
unfoldable pub from_bytes : List ℕ → ℕ
from_bytes [] = 0
from_bytes (b ∷ bytes) = b + 256 * from_bytes bytes

-- `*(const uintN_t *)ptr` for the widths that there are; `none` is an unsupported one.
unfoldable pub load_element : ℕ → List ℕ → Option ℕ
load_element size bytes =
    if size == 1 || size == 2 || size == 4 || size == 8
    then some (from_bytes (take size bytes))
    else none

-- `(int8_t)enc`, `(int16_t)enc`, `(int32_t)enc` as a pattern of 64 bits.
unfoldable pub resign : ℕ → ℕ → ℕ
resign size enc = if ltb enc (2 ^ (8 * size - 1)) then enc else enc + 2 ^ 64 - 2 ^ (8 * size)

-- What is written for one element.
unfoldable pub element_payload : Bool → ℕ → ℕ → ℕ
element_payload is_signed size enc = if is_signed then zigzag_encode (resign size enc) else enc

module _ {U : Type 0} where
  -- The element loop of `_write_varint_array`: `count` elements are left, and `ptr` points to
  -- the first of `bytes`.
  unfoldable pub array_loop : Bool → ℕ → ℕ → List ℕ → Writer U
  array_loop is_signed size zero bytes o = (o, ret_ok)
  array_loop is_signed size (suc count) bytes o = elim (load_element size bytes) [
    | none ↦ (o, e_argument)
    | some enc ↦
        let rest = array_loop is_signed size count (drop size bytes) in
        (varint_encode (element_payload is_signed size enc) >> rest) o
  ]

  unfoldable pub write_varint_array : ℕ → List ℕ → ℕ → ℕ → Bool → Writer U
  write_varint_array id bytes count size is_signed =
      write_id_varint id (if is_signed then type_varintarray_signed else type_varintarray_unsigned)
        count
      >> array_loop is_signed size count bytes

  unfoldable pub write_array_of_unsigned : ℕ → List ℕ → ℕ → ℕ → Writer U
  write_array_of_unsigned id bytes count size = write_varint_array id bytes count size false

  unfoldable pub write_array_of_signed : ℕ → List ℕ → ℕ → ℕ → Writer U
  write_array_of_signed id bytes count size = write_varint_array id bytes count size true

  -- The element word is written also when the count is 0.
  unfoldable pub write_array_of_fixlen : ℕ → List ℕ → ℕ → ℕ → ℕ → Writer U
  write_array_of_fixlen id bytes count size type =
      write_id_varint id type_fixlenarray count
      >> varint_encode (type_encode size type)
      >> write_bytes (take (count * size) bytes)

  unfoldable pub write_array_of_fp32 : ℕ → List ℕ → ℕ → Writer U
  write_array_of_fp32 id bytes count = write_array_of_fixlen id bytes count 4 fixlentype_fp32

  unfoldable pub write_array_of_fp64 : ℕ → List ℕ → ℕ → Writer U
  write_array_of_fp64 id bytes count = write_array_of_fixlen id bytes count 8 fixlentype_fp64

  -- The typed writers of include/sofab/ostream.h.
  unfoldable pub write_array_of_i8 : ℕ → List ℕ → ℕ → Writer U
  write_array_of_i8 id bytes count = write_array_of_signed id bytes count 1

  unfoldable pub write_array_of_u8 : ℕ → List ℕ → ℕ → Writer U
  write_array_of_u8 id bytes count = write_array_of_unsigned id bytes count 1

  unfoldable pub write_array_of_i16 : ℕ → List ℕ → ℕ → Writer U
  write_array_of_i16 id bytes count = write_array_of_signed id bytes count 2

  unfoldable pub write_array_of_u16 : ℕ → List ℕ → ℕ → Writer U
  write_array_of_u16 id bytes count = write_array_of_unsigned id bytes count 2

  unfoldable pub write_array_of_i32 : ℕ → List ℕ → ℕ → Writer U
  write_array_of_i32 id bytes count = write_array_of_signed id bytes count 4

  unfoldable pub write_array_of_u32 : ℕ → List ℕ → ℕ → Writer U
  write_array_of_u32 id bytes count = write_array_of_unsigned id bytes count 4

  unfoldable pub write_array_of_i64 : ℕ → List ℕ → ℕ → Writer U
  write_array_of_i64 id bytes count = write_array_of_signed id bytes count 8

  unfoldable pub write_array_of_u64 : ℕ → List ℕ → ℕ → Writer U
  write_array_of_u64 id bytes count = write_array_of_unsigned id bytes count 8
