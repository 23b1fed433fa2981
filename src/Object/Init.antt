-- ===== src/Object/Init.antt =====
-- `sofab_object_init` of object.c.
use corelib_c_cpp.Base.{
  ℕ, zero, suc, ◌+◌, ◌-◌, Option, none, some, List, [], ◌∷◌, get_or, ◌==◌, if◌then◌else◌,
}
use corelib_c_cpp.Istream.{Memory, write}
use corelib_c_cpp.Istream.Scalar.{store_bytes}
use corelib_c_cpp.Istream.Callback.{clear}
use corelib_c_cpp.Object.{
  FieldDescr, Info, Descr, Descrs, descr, no_more, also, fields, is_sequence, id_size, load_uint,
  store_uint, sized_width, is_union, not_held, default_tag, field_default, seq_len_width,
}

-- `memcpy` between the image and the object, which do not overlap.
unfoldable pub copy_bytes : Memory → ℕ → Memory → ℕ → ℕ → Memory
copy_bytes image q mem p zero = mem
copy_bytes image q mem p (suc n) = copy_bytes image (q + 1) (write mem p (image q)) (p + 1) n

-- The value of a field that is not a nested object, from the image or zero.
unfoldable pub init_value : Option Memory → FieldDescr → ℕ → Memory → Memory
init_value none field obj mem = clear mem (obj + field.offset) field.size
init_value (some image) field obj mem =
    copy_bytes image field.offset mem (obj + field.offset) field.size

-- The length member of a sized blob or array.
unfoldable pub default_length : Option Memory → FieldDescr → ℕ
default_length none field = 0
default_length (some image) field =
    load_uint image (field.offset - sized_width field) (sized_width field)

unfoldable pub init_length : Option Memory → FieldDescr → ℕ → Memory → Memory
init_length image field obj mem =
    if sized_width field == 0
    then mem
    else store_uint mem (obj + field.offset - sized_width field) (sized_width field)
        (default_length image field)

unfoldable pub init_leaf : Info → FieldDescr → ℕ → Memory → Memory
init_leaf info field obj mem =
    let image = field_default info field in
    init_length image field obj (init_value image field obj mem)

-- The body of the loop. `inits` are the initialisers of the nested descriptors.
unfoldable pub init_field : Info → List (ℕ → Memory → Memory) → ℕ → FieldDescr → Memory → Memory
init_field info inits obj field mem =
    if not_held info mem obj field
    then mem
    else if is_sequence field.type
    then get_or inits field.nested_idx (λ p m. m) (obj + field.offset) mem
    else init_leaf info field obj mem

unfoldable pub init_fields :
    Info → List (ℕ → Memory → Memory) → ℕ → List FieldDescr → Memory → Memory
init_fields info inits obj [] mem = mem
init_fields info inits obj (f ∷ fs) mem =
    init_fields info inits obj fs (init_field info inits obj f mem)

-- Before the loop: a sized holder becomes empty, a union gets its tag.
unfoldable pub init_head : Info → ℕ → Memory → Memory
init_head info obj mem =
    let emptied =
      if seq_len_width info == 0 then mem else store_uint mem obj (seq_len_width info) 0 in
    if is_union info then store_bytes emptied obj id_size (default_tag info) else emptied

unfoldable mutual
  pub object_init : Descr → ℕ → Memory → Memory
  object_init (descr info nested) obj mem =
      init_fields info (nested_inits nested) obj (fields info) (init_head info obj mem)

  pub nested_inits : Descrs → List (ℕ → Memory → Memory)
  nested_inits no_more = []
  nested_inits (also d ds) = object_init d ∷ nested_inits ds
