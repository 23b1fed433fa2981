-- ===== src/Object/Default.antt =====
-- `_field_is_default` of object.c.
use corelib_c_cpp.Base.{
  ℕ, zero, suc, ◌+◌, ◌-◌, ◌*◌, ◌/◌, Bool, true, false, not, ◌&&◌, ◌||◌, Option, none, some, List,
  [], ◌∷◌, get_or, ltb, ◌==◌, if◌then◌else◌,
}
use corelib_c_cpp.Istream.{Memory}
use corelib_c_cpp.Object.{
  FieldDescr, Info, Descr, Descrs, descr, no_more, also, fields, is_sequence, is_string, is_blob,
  tag, load_uint, sized_width, is_union, default_tag, field_default, seq_len_width_masked, seq_len,
}

-- `_iszero`
unfoldable pub iszero : Memory → ℕ → ℕ → Bool
iszero mem p zero = true
iszero mem p (suc n) = let rest = iszero mem (p + 1) n in if mem p == 0 then rest else false

-- `memcmp(...) == 0` and `strncmp(...) == 0`.
unfoldable pub same_bytes : Memory → ℕ → Memory → ℕ → ℕ → Bool
same_bytes image q mem p zero = true
same_bytes image q mem p (suc n) =
    let rest = same_bytes image (q + 1) mem (p + 1) n in if image q == mem p then rest else false

unfoldable pub same_text : Memory → ℕ → Memory → ℕ → ℕ → Bool
same_text image q mem p zero = true
same_text image q mem p (suc n) =
    let rest = same_text image (q + 1) mem (p + 1) n in
    if image q == mem p then (if mem p == 0 then true else rest) else false

-- A string, compared up to its terminator.
unfoldable pub string_is_default : Option Memory → FieldDescr → Memory → ℕ → Bool
string_is_default none field mem src = field.size == 0 || mem (src + field.offset) == 0
string_is_default (some image) field mem src =
    same_text image field.offset mem (src + field.offset) field.size

-- The width of an element of a sized field; a blob has bytes.
abbrev pub unit_size : FieldDescr → ℕ
unit_size field = if is_blob field.type then 1 else field.element_size

-- A sized blob or array, compared by its length first.
unfoldable pub used_length : FieldDescr → Memory → ℕ → ℕ
used_length field mem src =
    let used = load_uint mem (src + field.offset - sized_width field) (sized_width field) in
    let cap = field.size / unit_size field in if ltb cap used then cap else used

unfoldable pub sized_is_default : Option Memory → FieldDescr → Memory → ℕ → Bool
sized_is_default none field mem src = used_length field mem src == 0
sized_is_default (some image) field mem src =
    load_uint image (field.offset - sized_width field) (sized_width field)
      == used_length field mem src
    && same_bytes image field.offset mem (src + field.offset)
        (used_length field mem src * unit_size field)

unfoldable pub plain_is_default : Option Memory → FieldDescr → Memory → ℕ → Bool
plain_is_default none field mem src = iszero mem (src + field.offset) field.size
plain_is_default (some image) field mem src =
    same_bytes image field.offset mem (src + field.offset) field.size

unfoldable pub leaf_is_default : Info → FieldDescr → Memory → ℕ → Bool
leaf_is_default info field mem src =
    let image = field_default info field in
    if is_string field.type
    then string_is_default image field mem src
    else if sized_width field == 0
    then plain_is_default image field mem src
    else sized_is_default image field mem src

-- The rest of the function, behind the rule for unions. `nested` are the tests of the nested
-- descriptors.
unfoldable pub content_is_default : Info → List (Memory → ℕ → Bool) → FieldDescr → Memory → ℕ → Bool
content_is_default info nested field mem src =
    if is_sequence field.type
    then get_or nested field.nested_idx (λ m p. true) mem (src + field.offset)
    else leaf_is_default info field mem src

unfoldable pub field_is_default : Info → List (Memory → ℕ → Bool) → FieldDescr → Memory → ℕ → Bool
field_is_default info nested field mem src =
    if is_union info && not (field.id == tag mem src)
    then true
    else if is_union info && not (field.id == default_tag info)
    then false
    else content_is_default info nested field mem src

unfoldable pub fields_are_default :
    Info → List (Memory → ℕ → Bool) → List FieldDescr → Memory → ℕ → Bool
fields_are_default info nested [] mem src = true
fields_are_default info nested (f ∷ fs) mem src =
    let rest = fields_are_default info nested fs mem src in
    if field_is_default info nested f mem src then rest else false

-- The test of a nested object: a sized holder is compared by its length alone.
unfoldable mutual
  pub object_is_default : Descr → Memory → ℕ → Bool
  object_is_default (descr info nested) mem src =
      let each = fields_are_default info (nested_defaults nested) (fields info) mem src in
      if seq_len_width_masked info == 0 then each else seq_len info mem src == 0

  pub nested_defaults : Descrs → List (Memory → ℕ → Bool)
  nested_defaults no_more = []
  nested_defaults (also d ds) = object_is_default d ∷ nested_defaults ds
