-- ===== src/Object/Encode.antt =====
-- `sofab_object_encode` of object.c. `strict` is `SOFAB_STRICT_UTF8`.
use corelib_c_cpp.Base.{
  ℕ, zero, suc, ◌+◌, ◌-◌, ◌*◌, ◌^◌, Bool, not, ◌&&◌, List, [], ◌∷◌, get_or, ltb, ◌==◌,
  if◌then◌else◌, bit_or, take, length,
}
use corelib_c_cpp.Wire.{
  Ret, ret_ok, ret_incomplete, e_argument, e_buffer_full, e_invalid_msg, e_limit_exceeded,
  fixlentype_fp32, fixlentype_fp64, fixlentype_string,
}
use corelib_c_cpp.Ostream.{Ostream, Writer}
use corelib_c_cpp.Ostream.Fields.{
  write_unsigned, write_signed, write_fixlen, write_fp32, write_fp64, write_blob, c_string,
}
use corelib_c_cpp.Ostream.Arrays.{
  resign, write_array_of_unsigned, write_array_of_signed, write_array_of_fixlen,
}
use corelib_c_cpp.Ostream.Sequences.{write_sequence_begin, write_sequence_end}
use corelib_c_cpp.Istream.{Memory, size_pred}
use corelib_c_cpp.Istream.Payload.{span}
use corelib_c_cpp.Object.{
  FieldType, field_unsigned, field_signed, field_fp32, field_fp64, field_string, field_blob,
  field_array_unsigned, field_array_signed, field_array_fp32, field_array_fp64, field_array_boolean,
  field_sequence, field_boolean, field_unassigned, FieldDescr, Info, Descr, Descrs, descr, no_more,
  also, in_width_set, load_uint, is_holder, field_count, seq_len, array_length,
}
use corelib_c_cpp.Object.Default.{field_is_default, nested_defaults}

-- `sofab_ret_t` as the number that `|=` works on.
abbrev pub ret_code : Ret → ℕ
ret_code ret_ok = 0
ret_code ret_incomplete = 1
ret_code e_argument = 2
ret_code e_buffer_full = 3
ret_code e_invalid_msg = 4
ret_code e_limit_exceeded = 5

-- A function that encodes: it changes the stream and returns the number of a result code.
abbrev pub Coder : Type 0 → Type 0
Coder U = Ostream U → Ostream U × ℕ

-- `used < field->size ? used : field->size`
unfoldable pub blob_length : FieldDescr → Memory → ℕ → ℕ
blob_length field mem src =
    let used = load_uint mem (src + field.offset - field.nested_idx) field.nested_idx in
    if not (field.nested_idx == 0) && ltb used field.size then used else field.size

-- The element loop's `fp32` and `fp64` arrays.
abbrev pub elements : FieldDescr → ℕ → Memory → ℕ → List ℕ
elements field size mem src = span mem (src + field.offset) (array_length field mem src * size)

-- The number of fields to walk, and the index of the one that is never left out.
unfoldable pub encode_count : Info → Memory → ℕ → ℕ
encode_count info mem src = if is_holder info then seq_len info mem src else field_count info

unfoldable pub last_index : Info → Memory → ℕ → ℕ
last_index info mem src = if is_holder info then size_pred (seq_len info mem src) else 2 ^ 64 - 1

module _ {U : Type 0} where
  -- `ret = ...`
  abbrev pub coded : Writer U → Coder U
  coded w o = let (o', ret) = w o in (o', ret_code ret)

  abbrev pub refused : Coder U
  refused o = (o, ret_code e_argument)

  -- The loop goes on while `ret == SOFAB_RET_OK`.
  abbrev pub if_ok : Ostream U × ℕ → Coder U → Ostream U × ℕ
  if_ok (o, zero) k = k o
  if_ok (o, suc ret) k = (o, suc ret)

  -- `ret |= ...`
  abbrev pub or_code : ℕ → Ostream U × ℕ → Ostream U × ℕ
  or_code ret (o, more) = (o, bit_or ret more)

  abbrev pub also_do : Ostream U × ℕ → Coder U → Ostream U × ℕ
  also_do (o, ret) k = or_code ret (k o)

  module _ (strict : Bool) where
    -- A string fills its buffer when it has no terminator in it.
    unfoldable pub encode_string : FieldDescr → Memory → ℕ → Coder U
    encode_string field mem src =
        let text = c_string (span mem (src + field.offset) field.size) in
        if length text == field.size
        then refused
        else coded (write_fixlen strict field.id text fixlentype_string)

    -- The switch on the type. `nested` are the encoders of the nested descriptors.
    unfoldable pub encode_as :
        FieldType → List (Memory → ℕ → Coder U) → FieldDescr → Memory → ℕ → Coder U
    encode_as field_unsigned nested field mem src =
        if in_width_set field.element_size
        then coded (write_unsigned field.id (load_uint mem (src + field.offset) field.element_size))
        else refused
    encode_as field_signed nested field mem src =
        if in_width_set field.element_size
        then coded (
            write_signed field.id
              (resign field.element_size (load_uint mem (src + field.offset) field.element_size)))
        else refused
    encode_as field_boolean nested field mem src =
        if in_width_set field.element_size
        then coded (write_unsigned field.id (load_uint mem (src + field.offset) field.element_size))
        else refused
    encode_as field_fp32 nested field mem src =
        coded (write_fp32 strict field.id (span mem (src + field.offset) 4))
    encode_as field_fp64 nested field mem src =
        coded (write_fp64 strict field.id (span mem (src + field.offset) 8))
    encode_as field_string nested field mem src = encode_string field mem src
    encode_as field_blob nested field mem src =
        coded
          (write_blob strict field.id (span mem (src + field.offset) (blob_length field mem src)))
    encode_as field_array_unsigned nested field mem src = coded (
        write_array_of_unsigned field.id (elements field field.element_size mem src)
          (array_length field mem src) field.element_size)
    encode_as field_array_boolean nested field mem src = coded (
        write_array_of_unsigned field.id (elements field field.element_size mem src)
          (array_length field mem src) field.element_size)
    encode_as field_array_signed nested field mem src = coded (
        write_array_of_signed field.id (elements field field.element_size mem src)
          (array_length field mem src) field.element_size)
    encode_as field_array_fp32 nested field mem src = coded (
        write_array_of_fixlen field.id (elements field 4 mem src) (array_length field mem src) 4
          fixlentype_fp32)
    encode_as field_array_fp64 nested field mem src = coded (
        write_array_of_fixlen field.id (elements field 8 mem src) (array_length field mem src) 8
          fixlentype_fp64)
    encode_as field_sequence nested field mem src = λ o.
        let inner = get_or nested field.nested_idx (λ m p. refused) mem (src + field.offset) in
        also_do (also_do (coded (write_sequence_begin field.id) o) inner) (coded write_sequence_end)
    encode_as field_unassigned nested field mem src = refused

    -- The loop, from index `i` on.
    unfoldable pub encode_fields :
        Info
        → List (Memory → ℕ → Bool)
        → List (Memory → ℕ → Coder U)
        → ℕ
        → ℕ
        → List FieldDescr
        → Memory
        → ℕ
        → Coder U
    encode_fields info defaults nested last i [] mem src o = (o, 0)
    encode_fields info defaults nested last i (f ∷ fs) mem src o =
        let rest = encode_fields info defaults nested last (i + 1) fs mem src in
        if not (i == last) && field_is_default info defaults f mem src
        then rest o
        else if_ok (encode_as f.type nested f mem src o) rest

unfoldable mutual
  pub object_encode : {U : Type 0} → Bool → Descr → Memory → ℕ → Coder U
  object_encode strict (descr info nested) mem src =
      encode_fields strict info (nested_defaults nested) (nested_encoders strict nested)
        (last_index info mem src) 0 (take (encode_count info mem src) info.field_list) mem src

  pub nested_encoders : {U : Type 0} → Bool → Descrs → List (Memory → ℕ → Coder U)
  nested_encoders strict no_more = []
  nested_encoders strict (also d ds) = object_encode strict d ∷ nested_encoders strict ds
