-- ===== src/Object/Expected.antt =====
-- What a field's default is, stated on the bytes of the object and of the image: the description
-- that `_field_is_default` of object.c is compared with.
use corelib_c_cpp.Base.{
  ℕ, zero, suc, ◌+◌, ◌-◌, ◌*◌, ◌/◌, ◌%◌, ◌^◌, Bool, true, false, not, ◌&&◌, ◌||◌, Option, none,
  some, List, [], ◌∷◌, get_or, leb, ◌==◌, if◌then◌else◌, take,
}
use Prim.Native.Nat.{min}
use corelib_c_cpp.Istream.{Memory}
use corelib_c_cpp.Istream.Payload.{span}
use corelib_c_cpp.Istream.Stores.{load}
use corelib_c_cpp.Object.{
  FieldType, field_string, field_blob, field_array_unsigned, field_array_signed, field_array_fp32,
  field_array_fp64, field_array_boolean, FieldDescr, Info, Descr, Descrs, descr, no_more, also,
  is_union, is_holder, is_sequence,
}

-- A number of a width that numbers have; it is 0 at any other width.
unfoldable pub number : Memory → ℕ → ℕ → ℕ
number mem p width =
    if width == 1 || width == 2 || width == 4 || width == 8 then load mem p width else 0

unfoldable pub same_list : List ℕ → List ℕ → Bool
same_list [] [] = true
same_list [] (y ∷ ys) = false
same_list (x ∷ xs) [] = false
same_list (x ∷ xs) (y ∷ ys) = x == y && same_list xs ys

-- The text that a buffer holds: what stands before the first zero, or all of it.
unfoldable pub text_in : List ℕ → List ℕ
text_in [] = []
text_in (zero ∷ bytes) = []
text_in (suc c ∷ bytes) = suc c ∷ text_in bytes

-- The number of elements in use: the length member, if there is one, but never above `cap`.
unfoldable pub in_use : ℕ → ℕ → Memory → ℕ → ℕ
in_use width cap mem p = if width == 0 then cap else min (number mem (p - width) width) cap

-- An object without an image has zeros for its default.
abbrev pub blank : Memory
blank q = 0

unfoldable pub image_of : Option Memory → Memory
image_of none = blank
image_of (some image) = image

-- The image covers a field, unless it ends before the field does.
unfoldable pub covers : Info → FieldDescr → Bool
covers info field =
    let extent = info.count_extent / 2 ^ 8 in extent == 0 || leb (field.offset + field.size) extent

unfoldable pub expected : Info → FieldDescr → Memory
expected info field = if covers info field then image_of info.default_values else blank

-- The bytes of a value without a length; the elements in use, and their number, of one with it.
unfoldable pub same_plain : FieldDescr → Memory → Memory → ℕ → Bool
same_plain field image mem src =
    same_list (span mem (src + field.offset) field.size) (span image field.offset field.size)

unfoldable pub same_sized : ℕ → ℕ → FieldDescr → Memory → Memory → ℕ → Bool
same_sized cap unit field image mem src =
    let width = field.nested_idx in
    let count = in_use width cap mem (src + field.offset) in
    if width == 0
    then same_plain field image mem src
    else number image (field.offset - width) width == count
      && same_list (span mem (src + field.offset) (count * unit))
          (span image field.offset (count * unit))

unfoldable pub same_value : FieldType → FieldDescr → Memory → Memory → ℕ → Bool
same_value field_string field image mem src =
    same_list (text_in (span mem (src + field.offset) field.size))
      (text_in (span image field.offset field.size))
same_value field_blob field image mem src = same_sized field.size 1 field image mem src
same_value field_array_unsigned field image mem src =
    same_sized (field.size / field.element_size) field.element_size field image mem src
same_value field_array_signed field image mem src =
    same_sized (field.size / field.element_size) field.element_size field image mem src
same_value field_array_fp32 field image mem src =
    same_sized (field.size / field.element_size) field.element_size field image mem src
same_value field_array_fp64 field image mem src =
    same_sized (field.size / field.element_size) field.element_size field image mem src
same_value field_array_boolean field image mem src =
    same_sized (field.size / field.element_size) field.element_size field image mem src
same_value type field image mem src = same_plain field image mem src

-- A nested object is compared as a whole. `nested` are the descriptions of the nested objects.
unfoldable pub same_content : Info → List (Memory → ℕ → Bool) → FieldDescr → Memory → ℕ → Bool
same_content info nested field mem src =
    if is_sequence field.type
    then get_or nested field.nested_idx (λ m p. true) mem (src + field.offset)
    else same_value field.type field (expected info field) mem src

-- A union leaves out the options it does not hold, and the option it holds by default, when that
-- one has its default value.
unfoldable pub left_out : Info → List (Memory → ℕ → Bool) → FieldDescr → Memory → ℕ → Bool
left_out info nested field mem src =
    let content = same_content info nested field mem src in
    let held = field.id == load mem src 2 in
    let by_default = field.id == load (image_of info.default_values) 0 2 in
    if is_union info then not held || (by_default && content) else content

unfoldable pub all_left_out : Info → List (Memory → ℕ → Bool) → List FieldDescr → Memory → ℕ → Bool
all_left_out info nested [] mem src = true
all_left_out info nested (f ∷ fs) mem src =
    left_out info nested f mem src && all_left_out info nested fs mem src

-- The slots of a holder, or the fields of any other object, and how many of them are in use.
unfoldable pub slots : Info → ℕ
slots info = if is_holder info then info.count_extent else info.count_extent % 2 ^ 8

unfoldable pub elements_in_use : Info → Memory → ℕ → ℕ
elements_in_use info mem src =
    let width = info.fixed_seq / 2 in
    if width == 0 then slots info else min (number mem src width) (slots info)

-- An object with a length is at its default when it is empty.
unfoldable mutual
  pub is_left_out : Descr → Memory → ℕ → Bool
  is_left_out (descr info nested) mem src =
      if info.fixed_seq / 2 % 2 ^ 4 == 0
      then all_left_out info (are_left_out nested) (take (slots info) info.field_list) mem src
      else elements_in_use info mem src == 0

  pub are_left_out : Descrs → List (Memory → ℕ → Bool)
  are_left_out no_more = []
  are_left_out (also d ds) = is_left_out d ∷ are_left_out ds
