-- ===== src/Object/View.antt =====
-- The message that an object stands for, which `sofab_object_encode` is compared with.
use corelib_c_cpp.Base.{
  ℕ, ◌+◌, ◌-◌, ◌*◌, ◌/◌, ◌^◌, Bool, true, false, not, ◌&&◌, ◌||◌, Option, none, some, List, [], ◌∷◌,
  get_or, ◌==◌, leb, ltb, if◌then◌else◌, take, length,
}
use corelib_c_cpp.Wire.{fixlentype_fp32, fixlentype_fp64, fixlentype_string, fixlentype_blob}
use corelib_c_cpp.Ostream.Content.{Leaf, unsigned, signed, fixlen, integers, floats}
use corelib_c_cpp.Ostream.Message.{Field, Fields, leaf, framed, nil, cons}
use corelib_c_cpp.Istream.{Memory}
use corelib_c_cpp.Istream.Payload.{span}
use corelib_c_cpp.Object.{
  FieldType, field_unsigned, field_signed, field_fp32, field_fp64, field_string, field_blob,
  field_array_unsigned, field_array_signed, field_array_fp32, field_array_fp64, field_array_boolean,
  field_sequence, field_boolean, field_unassigned, FieldDescr, Info, Descr, Descrs, descr, no_more,
  also, is_sequence, is_holder,
}
use corelib_c_cpp.Object.Expected.{
  number, text_in, in_use, left_out, slots, elements_in_use, are_left_out,
}

-- A number of `width` bytes that stands for a negative one, in 64 bits.
unfoldable pub extended : ℕ → ℕ → ℕ
extended width v = if ltb v (2 ^ (8 * width - 1)) then v else v + 2 ^ 64 - 2 ^ (8 * width)

-- The value of a leaf, if it can be encoded.
unfoldable pub scalar_of : (ℕ → Leaf) → FieldDescr → Memory → ℕ → Option Leaf
scalar_of make field mem src =
    let width = field.element_size in
    if width == 1 || width == 2 || width == 4 || width == 8
    then some (make (number mem (src + field.offset) width))
    else none

-- The elements in use of an array, of `unit` bytes each on the wire, and their number.
unfoldable pub count_of : FieldDescr → Memory → ℕ → ℕ
count_of field mem src =
    in_use field.nested_idx (field.size / field.element_size) mem (src + field.offset)

unfoldable pub array_of : (List ℕ → ℕ → Leaf) → ℕ → FieldDescr → Memory → ℕ → Option Leaf
array_of make unit field mem src =
    let count = count_of field mem src in
    some (make (span mem (src + field.offset) (count * unit)) count)

unfoldable pub text_of : FieldDescr → Memory → ℕ → Option Leaf
text_of field mem src =
    let text = text_in (span mem (src + field.offset) field.size) in
    if length text == field.size then none else some (fixlen text fixlentype_string)

unfoldable pub value_of : FieldType → FieldDescr → Memory → ℕ → Option Leaf
value_of field_unsigned field mem src = scalar_of unsigned field mem src
value_of field_signed field mem src =
    scalar_of (λ v. signed (extended field.element_size v)) field mem src
value_of field_boolean field mem src = scalar_of unsigned field mem src
value_of field_fp32 field mem src = some (fixlen (span mem (src + field.offset) 4) fixlentype_fp32)
value_of field_fp64 field mem src = some (fixlen (span mem (src + field.offset) 8) fixlentype_fp64)
value_of field_string field mem src = text_of field mem src
value_of field_blob field mem src =
    let length = in_use field.nested_idx field.size mem (src + field.offset) in
    some (fixlen (span mem (src + field.offset) length) fixlentype_blob)
value_of field_array_unsigned field mem src =
    array_of (λ bytes count. integers false bytes count field.element_size) field.element_size field
      mem src
value_of field_array_boolean field mem src =
    array_of (λ bytes count. integers false bytes count field.element_size) field.element_size field
      mem src
value_of field_array_signed field mem src =
    array_of (λ bytes count. integers true bytes count field.element_size) field.element_size field
      mem src
value_of field_array_fp32 field mem src =
    array_of (λ bytes count. floats bytes count 4 fixlentype_fp32) 4 field mem src
value_of field_array_fp64 field mem src =
    array_of (λ bytes count. floats bytes count 8 fixlentype_fp64) 8 field mem src
value_of field_sequence field mem src = none
value_of field_unassigned field mem src = none

-- A field of the message: a leaf, or a framed sequence for a nested object.
abbrev pub framed_of : ℕ → Option Fields → Option Field
framed_of id none = none
framed_of id (some fs) = some (framed id fs)

abbrev pub leaf_of : ℕ → Option Leaf → Option Field
leaf_of id none = none
leaf_of id (some l) = some (leaf id l)

unfoldable pub field_of :
    FieldType → List (Memory → ℕ → Option Fields) → FieldDescr → Memory → ℕ → Option Field
field_of type nested field mem src =
    if is_sequence type
    then framed_of field.id (get_or nested field.nested_idx (λ m p. none) mem (src + field.offset))
    else leaf_of field.id (value_of type field mem src)

abbrev pub cons_of : Option Field → Option Fields → Option Fields
cons_of none fs = none
cons_of (some f) none = none
cons_of (some f) (some fs) = some (cons f fs)

-- The fields that are not left out, and of a holder the last element in use in any case: it says
-- how many there are.
unfoldable pub fields_of :
    Info
    → List (Memory → ℕ → Bool)
    → List (Memory → ℕ → Option Fields)
    → List FieldDescr
    → Memory
    → ℕ
    → Option Fields
fields_of info defaults nested [] mem src = some nil
fields_of info defaults nested (f ∷ fs) mem src =
    let rest = fields_of info defaults nested fs mem src in
    if not (is_holder info && length fs == 0) && left_out info defaults f mem src
    then rest
    else cons_of (field_of f.type nested f mem src) rest

-- The descriptor lists as many fields as it says, which a 16-bit number tells.
abbrev pub is_complete : Info → Bool
is_complete info = leb (slots info) (length info.field_list) && ltb info.count_extent (2 ^ 16)

-- The message, if every field of it can be encoded: of a holder, the elements in use.
unfoldable mutual
  pub message : Descr → Memory → ℕ → Option Fields
  message (descr info nested) mem src =
      let count = if is_holder info then elements_in_use info mem src else slots info in
      if is_complete info
      then fields_of info (are_left_out nested) (messages nested) (take count info.field_list) mem
          src
      else none

  pub messages : Descrs → List (Memory → ℕ → Option Fields)
  messages no_more = []
  messages (also d ds) = message d ∷ messages ds
