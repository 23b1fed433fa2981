-- ===== src/Object/Extent.antt =====
-- The bytes of an object of object.c, and the writes of `sofab_object_init`.
use corelib_c_cpp.Base.{
  ℕ, zero, suc, ◌+◌, ◌-◌, ◌≤◌, ◌≡◌, Bool, true, All, leb, not, ◌||◌, Option, none, some, List, [],
  ◌∷◌, get_or, ◌==◌, if◌then◌else◌, bit_and, arith, Bool-cases, inl, inr,
}
use Prim.Native.Nat.{max}
use corelib_c_cpp.Istream.{Memory, write}
use corelib_c_cpp.Istream.Scalar.{store_bytes}
use corelib_c_cpp.Istream.Stores.{store_bytes-beyond}
use corelib_c_cpp.Istream.Safe.{
  Within, Within-nothing, Within-then, Within-if, Within-wider, clear-Within,
}
use corelib_c_cpp.Object.{
  FieldDescr, Info, Descr, Descrs, descr, no_more, also, is_sequence, sized_width, seq_len_width,
  is_union, not_held, id_size, fields, field_default, store_uint, default_tag,
}
use corelib_c_cpp.Object.Init.{
  copy_bytes, init_value, init_length, init_leaf, init_field, init_fields, init_head, object_init,
  nested_inits,
}

-- The bytes that `_store_uint` writes for a width.
abbrev pub store_width : ℕ → ℕ
store_width width = if width == 1 || width == 2 || width == 4 || width == 8 then width else 0

-- The length member or the tag at the start of an object.
unfoldable pub head_width : Info → ℕ
head_width info =
    max (store_width (seq_len_width info))
      (if is_union info || not (bit_and (seq_len_width info) 0x40 == 0) then id_size else 0)

-- Where a field ends, with the sizes of the nested objects.
unfoldable pub value_size : List ℕ → FieldDescr → ℕ
value_size nested field =
    if is_sequence field.type
    then get_or nested field.nested_idx 0
    else max field.size field.element_size

unfoldable pub field_end : List ℕ → FieldDescr → ℕ
field_end nested field = max (sized_width field) (field.offset + value_size nested field)

unfoldable pub fields_end : List ℕ → List FieldDescr → ℕ
fields_end nested [] = 0
fields_end nested (f ∷ fs) = max (field_end nested f) (fields_end nested fs)

-- The bytes of an object: its head, its fields with their length members, and the objects in it.
unfoldable mutual
  pub extent : Descr → ℕ
  extent (descr info nested) = max (head_width info) (fields_end (extents nested) (fields info))

  pub extents : Descrs → List ℕ
  extents no_more = []
  extents (also d ds) = extent d ∷ extents ds

-- A leaf whose length member lies inside the object, right before the value.
abbrev pub in_front : FieldDescr → Bool
in_front field = is_sequence field.type || leb (sized_width field) field.offset

unfoldable mutual
  pub AllInFront : Descr → Type 0
  AllInFront (descr info nested) =
      All (λ f. in_front f ≡ true) (fields info) × AllInFrontDescrs nested

  pub AllInFrontDescrs : Descrs → Type 0
  AllInFrontDescrs no_more = Unit
  AllInFrontDescrs (also d ds) = AllInFront d × AllInFrontDescrs ds

pub copy_bytes-Within :
    (image : Memory) (i : ℕ) (mem : Memory) (p n : ℕ)
    → Within p (p + n) mem (copy_bytes image i mem p n)
unfolding copy_bytes
copy_bytes-Within image i mem p zero = Within-nothing mem
copy_bytes-Within image i mem p (suc n) =
    Within-then (record { kept = λ q o. ground arith })
      (Within-wider p (p + suc n) (omega arith) (omega arith)
        (copy_bytes-Within image (i + 1) (write mem p (image i)) (p + 1) n))

pub store_bytes-Within :
    (mem : Memory) (p n value : ℕ) → Within p (p + n) mem (store_bytes mem p n value)
store_bytes-Within mem p n value = record { kept = λ q o. store_bytes-beyond mem n p value q o }

pub store_uint-Within :
    (mem : Memory) (p width value : ℕ)
    → Within p (p + store_width width) mem (store_uint mem p width value)
unfolding store_uint
store_uint-Within mem p width value =
    elim (Bool-cases (width == 1 || width == 2 || width == 4 || width == 8)) [
      | inl e ↦ rw e (store_bytes-Within mem p width value)
      | inr e ↦ rw e (Within-nothing mem)
    ]

pub init_value_within :
    (image : Option Memory) (field : FieldDescr) (obj : ℕ) (mem : Memory)
    → Within
        (obj + field.offset)
        (obj + field.offset + field.size)
        mem
        (init_value image field obj mem)
unfolding init_value
init_value_within none field obj mem = clear-Within mem (obj + field.offset) field.size
init_value_within (some image) field obj mem =
    copy_bytes-Within image field.offset mem (obj + field.offset) field.size

module _ (base : ℕ) where
  pub sized_store-Within :
      (mem : Memory) (offset width value end : ℕ)
      → width ≤ offset
      → offset ≤ end
      → Within base (base + end) mem (store_uint mem (base + offset - width) width value)
  sized_store-Within mem offset width value end k h =
      Within-wider base (base + end) (omega arith) (ground arith)
        (store_uint-Within mem (base + offset - width) width value)

  init_leaf-Within :
      (info : Info) (field : FieldDescr) (mem : Memory) (end : ℕ)
      → sized_width field ≤ field.offset
      → field.offset + field.size ≤ end
      → Within base (base + end) mem (init_leaf info field base mem)
  unfolding init_leaf init_length
  init_leaf-Within info field mem end k h =
      let value =
        Within-wider base (base + end) (omega arith) (omega arith)
          (init_value_within (field_default info field) field base mem) in
      Within-then value (
        Within-if (sized_width field == 0) (Within-nothing _)
          (sized_store-Within _ field.offset (sized_width field) _ end k (omega arith)))

  init_head-Within :
      (info : Info) (mem : Memory)
      → Within base (base + head_width info) mem (init_head info base mem)
  unfolding init_head head_width
  init_head-Within info mem =
      let emptied =
        Within-if (seq_len_width info == 0) (Within-nothing mem)
          (store_uint-Within mem base (seq_len_width info) 0) in
      elim (Bool-cases (is_union info)) [
        | inl e ↦ rw e (
            Within-then (Within-wider base _ (omega arith) (omega arith) emptied) (
              Within-wider base _ (omega arith) (omega arith)
                (store_bytes-Within _ base id_size (default_tag info))))
        | inr e ↦ rw e (Within-wider base _ (omega arith) (omega arith) emptied)
      ]

  -- Initialisers of nested objects that stay in the sizes given for them.
  abbrev Nested : List (ℕ → Memory → Memory) → List ℕ → Type 0
  Nested inits sizes =
      (i p : ℕ) (mem : Memory)
      → Within p (p + get_or sizes i 0) mem (get_or inits i (λ q m. m) p mem)

  init_field-Within :
      (info : Info) (inits : List (ℕ → Memory → Memory)) (sizes : List ℕ) (field : FieldDescr)
      (mem : Memory) (end : ℕ)
      → Nested inits sizes
      → in_front field ≡ true
      → field_end sizes field ≤ end
      → Within base (base + end) mem (init_field info inits base field mem)
  unfolding init_field field_end value_size
  init_field-Within info inits sizes field mem end n k h =
      Within-if (not_held info mem base field) (Within-nothing mem)
        (elim (Bool-cases (is_sequence field.type)) [
          | inl e ↦ rw e (
              Within-wider base (base + end) (omega arith) (ground arith)
                (n field.nested_idx (base + field.offset) mem))
          | inr e ↦ rw e (init_leaf-Within info field mem end (ground arith) (ground arith))
        ])

  init_fields-Within :
      (info : Info) (inits : List (ℕ → Memory → Memory)) (sizes : List ℕ) (fs : List FieldDescr)
      (mem : Memory) (end : ℕ)
      → Nested inits sizes
      → All (λ f. in_front f ≡ true) fs
      → fields_end sizes fs ≤ end
      → Within base (base + end) mem (init_fields info inits base fs mem)
  unfolding init_fields fields_end
  init_fields-Within info inits sizes [] mem end n k h = Within-nothing mem
  init_fields-Within info inits sizes (f ∷ fs) mem end n k h =
      Within-then (init_field-Within info inits sizes f mem end n k.0 (omega arith))
        (init_fields-Within info inits sizes fs _ end n k.1 (omega arith))

mutual
  unfolding object_init nested_inits extent extents AllInFront AllInFrontDescrs

  tree-Within :
      (d : Descr) (obj : ℕ) (mem : Memory)
      → AllInFront d
      → Within obj (obj + extent d) mem (object_init d obj mem)
  tree-Within (descr info nested) obj mem k =
      Within-then (Within-wider obj _ (omega arith) (omega arith) (init_head-Within obj info mem)) (
        init_fields-Within obj info (nested_inits nested) (extents nested) (fields info) _ _
          (nested_inits-Within nested k.1) k.0 (omega arith))

  pub nested_inits-Within :
      (ds : Descrs)
      → AllInFrontDescrs ds
      → (i p : ℕ) (mem : Memory)
      → Within p (p + get_or (extents ds) i 0) mem (get_or (nested_inits ds) i (λ q m. m) p mem)
  nested_inits-Within no_more k i p mem = Within-nothing mem
  nested_inits-Within (also d ds) k zero p mem = tree-Within d p mem k.0
  nested_inits-Within (also d ds) k (suc i) p mem = nested_inits-Within ds k.1 i p mem

-- `sofab_object_init` writes nothing outside the object. The length members of its sized leaves
-- lie inside it.
pub object_init-Within :
    (d : Descr) (obj : ℕ) (mem : Memory)
    → AllInFront d
    → Within obj (obj + extent d) mem (object_init d obj mem)
object_init-Within d obj mem k = tree-Within d obj mem k
