-- ===== src/Object.antt =====
-- The object layer of object.c with include/sofab/object.h: descriptors of C structs, and what
-- the three operations read off them. The objects lie in the memory of the streams. The
-- descriptor profile is the default one, and the host is little-endian.
pub mod Init
pub mod Default
pub mod Encode
pub mod Decode
pub mod Extent
pub mod Branches
pub mod Safe
pub mod Feed
pub mod Descent
pub mod Expected
pub mod Compared
pub mod Defaults
pub mod View
pub mod Counted
pub mod EncodedLeaf
pub mod EncodedField
pub mod Encoded
pub mod Canonical
pub mod Quiet
pub mod Filled
pub mod Fresh
pub mod Layout
pub mod Initial
mod Samples
mod Runs
mod EncodeRuns
mod InitRuns
use corelib_c_cpp.Base.{
  ℕ, zero, suc, ◌+◌, ◌-◌, ◌*◌, ◌/◌, ◌^◌, Bool, true, false, not, ◌&&◌, ◌||◌, Option, none, some,
  List, [], ◌∷◌, leb, ltb, ◌==◌, if◌then◌else◌, bit_and, bit_or, take,
}
use corelib_c_cpp.Wire.{
  type_varint_unsigned, type_varint_signed, type_fixlen, type_varintarray_unsigned,
  type_varintarray_signed, type_fixlenarray, type_sequence_start, fixlentype_fp32, fixlentype_fp64,
  fixlentype_string, fixlentype_blob,
}
use corelib_c_cpp.Istream.{Memory, opt_boolean}
use corelib_c_cpp.Istream.Reads.{opt_fieldtype, opt_fixlentype}
use corelib_c_cpp.Istream.Scalar.{store_bytes}
use corelib_c_cpp.Istream.Stores.{load}

-- SOFAB_OBJECT_FIELDTYPE_*, and the values of the four bits that none of them has.
pub data FieldType : Type 0 where
  field_unsigned field_signed field_fp32 field_fp64 field_string field_blob : FieldType
  field_array_unsigned field_array_signed field_array_fp32 field_array_fp64 : FieldType
  field_array_boolean field_sequence field_boolean field_unassigned : FieldType

-- The comparisons of a field's type with one of them.
abbrev pub is_string : FieldType → Bool
is_string field_string = true
is_string type = false

abbrev pub is_blob : FieldType → Bool
is_blob field_blob = true
is_blob type = false

abbrev pub is_sequence : FieldType → Bool
is_sequence field_sequence = true
is_sequence type = false

-- `sizeof(sofab_object_descr_id_t)`.
abbrev pub id_size : ℕ
id_size = 2

-- `sofab_object_descr_field_t`.
pub record FieldDescr : Type 0 where
  pub id : ℕ
  pub offset : ℕ
  pub size : ℕ
  pub nested_idx : ℕ
  pub type : FieldType
  pub element_size : ℕ

-- `sofab_object_descr_t` without its `nested_list`. The default image is memory from 0 on.
pub record Info : Type 0 where
  pub field_list : List FieldDescr
  pub default_values : Option Memory
  pub count_extent : ℕ
  pub fixed_seq : ℕ

-- The whole of it. A descriptor holds the descriptors of the objects that lie inside its own, so
-- that they form a finite tree.
mutual
  pub data Descr : Type 0 where
    descr : Info → Descrs → Descr

  pub data Descrs : Type 0 where
    no_more : Descrs
    also : Descr → Descrs → Descrs

-- `nested_list[i]`; a descriptor never names one that is not there.
unfoldable pub nested_at : Descrs → ℕ → Option Descr
nested_at no_more i = none
nested_at (also d ds) zero = some d
nested_at (also d ds) (suc i) = nested_at ds i

-- `(_SOFAB_WIDTH_SET >> width) & 1`
abbrev pub in_width_set : ℕ → Bool
in_width_set width = not (bit_and (0x116 / 2 ^ width) 1 == 0)

-- `_load_uint` and `_store_uint`.
unfoldable pub load_uint : Memory → ℕ → ℕ → ℕ
load_uint mem p width =
    if width == 1 || width == 2 || width == 4 || width == 8 then load mem p width else 0

unfoldable pub store_uint : Memory → ℕ → ℕ → ℕ → Memory
store_uint mem p width val =
    if width == 1 || width == 2 || width == 4 || width == 8
    then store_bytes mem p width val
    else mem

-- `_sized_width`
abbrev pub has_length : FieldType → Bool
has_length field_blob = true
has_length field_array_unsigned = true
has_length field_array_signed = true
has_length field_array_fp32 = true
has_length field_array_fp64 = true
has_length field_array_boolean = true
has_length type = false

unfoldable pub sized_width : FieldDescr → ℕ
sized_width field = if has_length field.type then field.nested_idx else 0

-- `_IS_UNION`, `_IS_HOLDER`, `_TAG_R` and `_NOT_HELD`.
abbrev pub is_union : Info → Bool
is_union info = not (bit_and info.fixed_seq 0x80 == 0)

abbrev pub is_holder : Info → Bool
is_holder info = not (bit_and info.fixed_seq 0x01 == 0)

abbrev pub tag : Memory → ℕ → ℕ
tag mem obj = load mem obj id_size

unfoldable pub not_held : Info → Memory → ℕ → FieldDescr → Bool
not_held info mem obj field = is_union info && not (tag mem obj == field.id)

-- `_default_tag`
unfoldable pub default_tag : Info → ℕ
default_tag info = elim info.default_values [ none ↦ 0 | some image ↦ load image 0 id_size ]

-- `_field_count`, and the fields that the loops walk.
unfoldable pub field_count : Info → ℕ
field_count info = if is_holder info then info.count_extent else bit_and info.count_extent 255

abbrev pub fields : Info → List FieldDescr
fields info = take (field_count info) info.field_list

-- `_default_extent`
unfoldable pub default_extent : Info → ℕ
default_extent info = info.count_extent / 2 ^ 8

-- `_field_default`
unfoldable pub field_default : Info → FieldDescr → Option Memory
field_default info field =
    if not (default_extent info == 0) && ltb (default_extent info) (field.offset + field.size)
    then none
    else info.default_values

-- `_seq_len_width`, and with the union bit masked off.
unfoldable pub seq_len_width : Info → ℕ
seq_len_width info = info.fixed_seq / 2 ^ 1

abbrev pub seq_len_width_masked : Info → ℕ
seq_len_width_masked info = bit_and (seq_len_width info) 0x0f

-- `_seq_len`: the element count stands at the start of the holder.
unfoldable pub seq_len : Info → Memory → ℕ → ℕ
seq_len info mem obj =
    let used = load_uint mem obj (seq_len_width info) in
    if not (seq_len_width info == 0) && ltb used (field_count info) then used else field_count info

-- `_seq_len_observe`: a union records the option that it now holds.
unfoldable pub observe_length : Info → Memory → ℕ → ℕ → Memory
observe_length info mem dst id =
    let len = if ltb (field_count info) (id + 1) then field_count info else id + 1 in
    if ltb (load_uint mem dst (seq_len_width info)) len
    then store_uint mem dst (seq_len_width info) len
    else mem

unfoldable pub seq_len_observe : Info → Memory → ℕ → ℕ → Memory
seq_len_observe info mem dst id =
    let raised = observe_length info mem dst id in
    if seq_len_width info == 0
    then mem
    else if not (bit_and (seq_len_width info) 0x40 == 0)
    then store_bytes raised dst id_size id
    else raised

-- `_expected_opt`: `none` is -1.
unfoldable pub expected_opt : FieldType → Option ℕ
expected_opt field_unsigned = some (opt_fieldtype type_varint_unsigned)
expected_opt field_signed = some (opt_fieldtype type_varint_signed)
expected_opt field_boolean = some (bit_or (opt_fieldtype type_varint_unsigned) opt_boolean)
expected_opt field_fp32 = some (bit_or (opt_fieldtype type_fixlen) (opt_fixlentype fixlentype_fp32))
expected_opt field_fp64 = some (bit_or (opt_fieldtype type_fixlen) (opt_fixlentype fixlentype_fp64))
expected_opt field_string =
    some (bit_or (opt_fieldtype type_fixlen) (opt_fixlentype fixlentype_string))
expected_opt field_blob = some (bit_or (opt_fieldtype type_fixlen) (opt_fixlentype fixlentype_blob))
expected_opt field_array_unsigned = some (opt_fieldtype type_varintarray_unsigned)
expected_opt field_array_signed = some (opt_fieldtype type_varintarray_signed)
expected_opt field_array_boolean =
    some (bit_or (opt_fieldtype type_varintarray_unsigned) opt_boolean)
expected_opt field_array_fp32 =
    some (bit_or (opt_fieldtype type_fixlenarray) (opt_fixlentype fixlentype_fp32))
expected_opt field_array_fp64 =
    some (bit_or (opt_fieldtype type_fixlenarray) (opt_fixlentype fixlentype_fp64))
expected_opt field_sequence = some (opt_fieldtype type_sequence_start)
expected_opt field_unassigned = none

-- `_array_count`: the length member stands right before the elements.
unfoldable pub array_length : FieldDescr → Memory → ℕ → ℕ
array_length field mem src =
    let cap = field.size / field.element_size in
    let used = load_uint mem (src + field.offset - sized_width field) (sized_width field) in
    if not (sized_width field == 0) && ltb used cap then used else cap

-- `_store_array_len`
unfoldable pub store_array_len : FieldDescr → Memory → ℕ → ℕ → Memory
store_array_len field mem dst count =
    let cap = field.size / field.element_size in
    if sized_width field == 0
    then mem
    else store_uint mem (dst + field.offset - sized_width field) (sized_width field)
        (if ltb count cap then count else cap)
