-- ===== src/Object/Defaults.antt =====
-- `_field_is_default` of object.c against the description of defaults.
use corelib_c_cpp.Base.{
  ℕ, ◌/◌, ◌≡◌, refl, ap, ◌∙◌, fun_ext, Bool, true, false, not, ◌&&◌, ◌||◌, List, [], ◌∷◌, ◌==◌,
  if◌then◌else◌, take, Bool-cases, Option-cases, inl, inr, arith,
}
use corelib_c_cpp.Base.Bits.{bit_and-mask}
use corelib_c_cpp.Istream.{Memory}
use corelib_c_cpp.Istream.Stores.{load}
use corelib_c_cpp.Object.{
  FieldType, field_unsigned, field_signed, field_fp32, field_fp64, field_string, field_blob,
  field_array_unsigned, field_array_signed, field_array_fp32, field_array_fp64, field_array_boolean,
  field_sequence, field_boolean, field_unassigned, FieldDescr, Info, Descr, Descrs, descr, no_more,
  also, is_union, field_count, field_default, default_tag, load_uint, sized_width, has_length,
  is_blob, seq_len, seq_len_width, is_sequence, is_string,
}
use corelib_c_cpp.Object.Default.{
  leaf_is_default, content_is_default, field_is_default, fields_are_default, object_is_default,
  nested_defaults, unit_size,
}
use corelib_c_cpp.Object.Expected.{
  number, image_of, expected, same_plain, same_sized, same_value, same_content, left_out,
  all_left_out, slots, elements_in_use, is_left_out, are_left_out,
}
use corelib_c_cpp.Object.Compared.{both, expected-default, string_ok, plain_ok, sized_ok, smaller}

default_tag-image : (info : Info) → default_tag info ≡ load (image_of info.default_values) 0 2
unfolding default_tag image_of
default_tag-image info = elim (Option-cases info.default_values) [
  | inl e ↦ rw e refl
  | inr (image, e) ↦ rw e refl
]

union_rule :
    (union held by_default content : Bool)
    → (if union && not held then true else if union && not by_default then false else content)
      ≡ (if union then not held || (by_default && content) else content)
union_rule false held by_default content = refl
union_rule true false by_default content = refl
union_rule true true false content = refl
union_rule true true true content = refl

module _ (info : Info) (f : FieldDescr) (mem : Memory) (src : ℕ) where
  plain_leaf :
      is_string f.type ≡ false
      → sized_width f ≡ 0
      → leaf_is_default info f mem src ≡ same_plain f (expected info f) mem src
  unfolding leaf_is_default
  plain_leaf s w = rw (expected-default info f, s, w) (plain_ok f mem src (field_default info f))

  sized_leaf :
      (cap unit : ℕ)
      → is_string f.type ≡ false
      → sized_width f ≡ f.nested_idx
      → unit_size f ≡ unit
      → f.size / unit ≡ cap
      → leaf_is_default info f mem src ≡ same_sized cap unit f (expected info f) mem src
  unfolding leaf_is_default
  sized_leaf cap unit s width one size =
      rw (expected-default info f, s)
        (sized_ok f mem src cap unit width one size (field_default info f))

  text_leaf :
      is_string f.type ≡ true
      → leaf_is_default info f mem src ≡ same_value field_string f (expected info f) mem src
  unfolding leaf_is_default same_value
  text_leaf s = rw (expected-default info f, s) (string_ok f mem src (field_default info f))

  plain_of :
      (type : FieldType)
      → has_length type ≡ false
      → is_string type ≡ false
      → f.type ≡ type
      → leaf_is_default info f mem src ≡ same_plain f (expected info f) mem src
  unfolding sized_width
  plain_of type l s t =
      plain_leaf (ap is_string t ∙ s)
        (ap (λ y. if has_length y then f.nested_idx else 0) t ∙ rw l refl)

  array_of :
      (type : FieldType)
      → has_length type ≡ true
      → is_string type ≡ false
      → is_blob type ≡ false
      → f.type ≡ type
      → leaf_is_default info f mem src
        ≡ same_sized (f.size / f.element_size) f.element_size f (expected info f) mem src
  unfolding sized_width
  array_of type l s b t =
      sized_leaf _ _ (ap is_string t ∙ s)
        (ap (λ y. if has_length y then f.nested_idx else 0) t ∙ rw l refl)
        (ap (λ y. if is_blob y then 1 else f.element_size) t ∙ rw b refl) refl

  blob_of :
      f.type ≡ field_blob
      → leaf_is_default info f mem src ≡ same_sized f.size 1 f (expected info f) mem src
  unfolding sized_width
  blob_of t =
      sized_leaf f.size 1 (ap is_string t) (ap (λ y. if has_length y then f.nested_idx else 0) t)
        (ap (λ y. if is_blob y then 1 else f.element_size) t) (omega arith)

  leaf_default :
      (type : FieldType)
      → f.type ≡ type
      → is_sequence type ≡ false
      → leaf_is_default info f mem src ≡ same_value type f (expected info f) mem src
  unfolding same_value
  leaf_default field_unsigned t n = plain_of field_unsigned refl refl t
  leaf_default field_signed t n = plain_of field_signed refl refl t
  leaf_default field_fp32 t n = plain_of field_fp32 refl refl t
  leaf_default field_fp64 t n = plain_of field_fp64 refl refl t
  leaf_default field_boolean t n = plain_of field_boolean refl refl t
  leaf_default field_unassigned t n = plain_of field_unassigned refl refl t
  leaf_default field_string t n = text_leaf (ap is_string t)
  leaf_default field_blob t n = blob_of t
  leaf_default field_array_unsigned t n = array_of field_array_unsigned refl refl refl t
  leaf_default field_array_signed t n = array_of field_array_signed refl refl refl t
  leaf_default field_array_fp32 t n = array_of field_array_fp32 refl refl refl t
  leaf_default field_array_fp64 t n = array_of field_array_fp64 refl refl refl t
  leaf_default field_array_boolean t n = array_of field_array_boolean refl refl refl t
  leaf_default field_sequence t n = cc

  -- The whole rule for a field, for any tests of the nested objects.
  module _ (nested : List (Memory → ℕ → Bool)) where
    content_ok : content_is_default info nested f mem src ≡ same_content info nested f mem src
    unfolding content_is_default same_content
    content_ok = elim (Bool-cases (is_sequence f.type)) [
      | inl e ↦ rw e refl
      | inr e ↦ rw e (leaf_default f.type refl e)
    ]

    pub default_ok : field_is_default info nested f mem src ≡ left_out info nested f mem src
    unfolding field_is_default left_out
    default_ok = rw (content_ok, default_tag-image info) (union_rule (is_union info) _ _ _)

fields_default :
    (info : Info) (nested : List (Memory → ℕ → Bool)) (l : List FieldDescr) (mem : Memory) (src : ℕ)
    → fields_are_default info nested l mem src ≡ all_left_out info nested l mem src
unfolding fields_are_default all_left_out
fields_default info nested [] mem src = refl
fields_default info nested (f ∷ l) mem src =
    rw (default_ok info f mem src nested) (both _ _ _ (fields_default info nested l mem src))

pub field_count-slots : (info : Info) → field_count info ≡ slots info
unfolding field_count slots
field_count-slots info = rw (bit_and-mask 8 info.count_extent) refl

pub seq_len-elements :
    (info : Info) (mem : Memory) (src : ℕ) → seq_len info mem src ≡ elements_in_use info mem src
unfolding seq_len elements_in_use seq_len_width load_uint number
seq_len-elements info mem src =
    rw (field_count-slots info) (elim (Bool-cases (info.fixed_seq / 2 == 0)) [
      | inl e ↦ rw e refl
      | inr e ↦ rw e (smaller _ (slots info))
    ])

mutual
  unfolding object_is_default is_left_out seq_len_width nested_defaults are_left_out

  pub object_default : (d : Descr) → object_is_default d ≡ is_left_out d
  object_default (descr info nested) = fun_ext λ mem. fun_ext λ src.
      rw
        (
          nested_default nested,
          field_count-slots info,
          bit_and-mask 4 (info.fixed_seq / 2),
          seq_len-elements info mem src,
          fields_default info (are_left_out nested) (take (slots info) info.field_list) mem src,
        )
        refl

  pub nested_default : (ds : Descrs) → nested_defaults ds ≡ are_left_out ds
  nested_default no_more = refl
  nested_default (also d ds) = rw (object_default d, nested_default ds) refl
