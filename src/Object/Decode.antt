-- ===== src/Object/Decode.antt =====
-- `sofab_object_field_cb` of object.c, the field callback of an object.
use corelib_c_cpp.Base.{
  ℕ, ◌+◌, ◌-◌, ◌/◌, not, ◌&&◌, ◌||◌, Option, none, some, List, [], ◌∷◌, leb, ltb, ◌==◌,
  if◌then◌else◌, bit_and, bit_or, bit_xor,
}
use corelib_c_cpp.Wire.{type_varintarray_unsigned, type_sequence_start}
use corelib_c_cpp.Istream.{Memory, opt_stringterm}
use corelib_c_cpp.Istream.Callback.{
  Call, read_field, read_array, read_sequence, reject_message, Callbacks,
}
use corelib_c_cpp.Istream.Reads.{opt_fieldtype}
use corelib_c_cpp.Object.{
  FieldDescr, Info, Descr, descr, Descrs, nested_at, fields, field_count, is_holder, is_sequence,
  is_string, is_blob, not_held, sized_width, store_uint, store_array_len, expected_opt,
  seq_len_observe,
}
use corelib_c_cpp.Object.Init.{object_init}

-- `sofab_object_decoder_t`: `depth` is the number of handles behind this one, for nested objects.
pub record ObjectDecoder : Type 0 where
  pub info : Descr
  pub dst : ℕ
  pub depth : ℕ

abbrev pub info_of : Descr → Info
info_of (descr info nested) = info

abbrev pub nested_of : Descr → Descrs
nested_of (descr info nested) = nested

-- What the branch of a field does: its calls, memory, and the type it binds, if it binds.
pub record Branch : Type 0 where
  pub calls : List (Call ObjectDecoder)
  pub mem : Memory
  pub opt : Option ℕ

abbrev pub declines : Memory → Branch
declines mem = record { calls = []; mem = mem; opt = none }

-- A string or a blob is bound over its whole buffer.
unfoldable pub bind_width : FieldDescr → ℕ
bind_width field =
    if is_string field.type || is_blob field.type then field.size else field.element_size

-- The length member of a sized blob.
unfoldable pub store_blob_len : FieldDescr → Memory → ℕ → ℕ → Memory
store_blob_len field mem dst size =
    if sized_width field == 0
    then mem
    else store_uint mem (dst + field.offset - sized_width field) (sized_width field)
        (if ltb size field.size then size else field.size)

unfoldable pub bind_value : ObjectDecoder → FieldDescr → ℕ → ℕ → Memory → ℕ → Branch
bind_value decoder field size count mem opt =
    let var = decoder.dst + field.offset in
    let width = bind_width field in
    let opt' = if is_string field.type then bit_or opt opt_stringterm else opt in
    if leb type_varintarray_unsigned (opt_fieldtype opt)
    then record {
      calls = read_array (some var) (if width == 0 then 0 else field.size / width) width opt ∷ [];
      mem = store_array_len field mem decoder.dst count;
      opt = some opt;
    }
    else record {
      calls = read_field var width opt' ∷ [];
      mem = store_blob_len field mem decoder.dst size;
      opt = some opt';
    }

-- The default case: a sized field settles its type first.
unfoldable pub bind_leaf : ObjectDecoder → FieldDescr → ℕ → ℕ → ℕ → Memory → Branch
bind_leaf decoder field size count wire_opt mem = elim (expected_opt field.type) [
  | none ↦ declines mem
  | some opt ↦
      if not (sized_width field == 0) && not (bit_and wire_opt 0x3f == bit_and opt 0x3f)
      then declines mem
      else bind_value decoder field size count mem opt
]

-- The handle of a nested object, and the object's memory as its frame opens.
abbrev pub nested_decoder : ObjectDecoder → FieldDescr → Descr → ObjectDecoder
nested_decoder decoder field d = record {
  info = d;
  dst = decoder.dst + field.offset;
  depth = decoder.depth - 1;
}

unfoldable pub enter_nested : ObjectDecoder → FieldDescr → Memory → Descr → Branch
enter_nested decoder field mem d = record {
  calls = read_sequence (nested_decoder decoder field d) ∷ [];
  mem =
      if is_holder (info_of d) || not_held (info_of decoder.info) mem decoder.dst field
      then object_init d (decoder.dst + field.offset) mem
      else mem;
  opt = some type_sequence_start;
}

unfoldable pub bind_sequence : ObjectDecoder → FieldDescr → ℕ → Memory → Branch
bind_sequence decoder field wire_opt mem =
    if decoder.depth == 0
    then declines mem
    else if not (bit_and wire_opt 0x07 == opt_fieldtype type_sequence_start)
    then declines mem
    else elim (nested_at (nested_of decoder.info) field.nested_idx) [
      | none ↦ declines mem
      | some d ↦ enter_nested decoder field mem d
    ]

unfoldable pub bind_object_field : ObjectDecoder → FieldDescr → ℕ → ℕ → ℕ → Memory → Branch
bind_object_field decoder field size count wire_opt mem =
    if is_sequence field.type
    then bind_sequence decoder field wire_opt mem
    else bind_leaf decoder field size count wire_opt mem

-- An element that is bound, and whose type agrees with the wire, is counted.
unfoldable pub observed : ObjectDecoder → ℕ → ℕ → Branch → Memory
observed decoder id wire_opt branch = elim branch.opt [
  | none ↦ branch.mem
  | some opt ↦
      if bit_and (bit_xor opt wire_opt) 0x3f == 0
      then seq_len_observe (info_of decoder.info) branch.mem decoder.dst id
      else branch.mem
]

-- An id that no field has: over the index of a holder, and of the type of its elements.
unfoldable pub over_index : Info → ℕ → List FieldDescr → List (Call ObjectDecoder)
over_index info wire_opt [] = []
over_index info wire_opt (f ∷ fs) = elim (expected_opt f.type) [
  | none ↦ reject_message ∷ []
  | some expected ↦
      if bit_and (bit_xor wire_opt expected) 0x3f == 0 then reject_message ∷ [] else []
]

unfoldable pub unmatched : Info → ℕ → List (Call ObjectDecoder)
unmatched info wire_opt =
    if is_holder info && not (field_count info == 0)
    then over_index info wire_opt info.field_list
    else []

unfoldable pub find_field : ℕ → List FieldDescr → Option FieldDescr
find_field id [] = none
find_field id (f ∷ fs) = let rest = find_field id fs in if f.id == id then some f else rest

unfoldable pub object_field_cb : {U : Type 0} → Callbacks ObjectDecoder U
object_field_cb decoder id size count wire_opt mem usr =
    elim (find_field id (fields (info_of decoder.info))) [
      | none ↦ record { calls = unmatched (info_of decoder.info) wire_opt; mem = mem; usr = usr }
      | some f ↦
          let branch = bind_object_field decoder f size count wire_opt mem in
          record { calls = branch.calls; mem = observed decoder id wire_opt branch; usr = usr }
    ]
