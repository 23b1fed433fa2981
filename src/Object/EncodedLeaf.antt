-- ===== src/Object/EncodedLeaf.antt =====
-- One field of an object as a leaf of its message: the writer that `sofab_object_encode` calls.
use corelib_c_cpp.Base.{
  ℕ, ◌+◌, ◌/◌, ◌≡◌, ◌||◌, ◌∙◌, arith, Bool-cases, inl, inr, refl, sym, ap, Bool, true, false, none,
  some, List, ◌==◌, if◌then◌else◌, length,
}
use mathlib.Core.Path.{subst}
use mathlib.Core.Option.{some-injective}
use corelib_c_cpp.Wire.{
  Ret, ret_ok, ret_incomplete, e_argument, e_buffer_full, e_invalid_msg, e_limit_exceeded,
}
use corelib_c_cpp.Ostream.{Ostream, Writer, and_then}
use corelib_c_cpp.Ostream.Fields.{write_fp32, write_fp64, write_blob}
use corelib_c_cpp.Ostream.Arrays.{resign, write_array_of_unsigned, write_array_of_signed}
use corelib_c_cpp.Ostream.Content.{Leaf, write_leaf}
use corelib_c_cpp.Istream.{Memory}
use corelib_c_cpp.Istream.Payload.{span}
use corelib_c_cpp.Object.{
  FieldType, field_unsigned, field_signed, field_fp32, field_fp64, field_string, field_blob,
  field_array_unsigned, field_array_signed, field_array_fp32, field_array_fp64, field_array_boolean,
  field_sequence, field_boolean, field_unassigned, FieldDescr, in_width_set, has_length,
  array_length, load_uint, sized_width,
}
use corelib_c_cpp.Object.Expected.{text_in, number, in_use}
use corelib_c_cpp.Object.Compared.{used-clamped, c_string-text_in}
use corelib_c_cpp.Object.Encode.{
  ret_code, Coder, coded, refused, encode_string, encode_as, blob_length, elements,
}
use corelib_c_cpp.Object.View.{extended, scalar_of, text_of, value_of, array_of, count_of}

at_width : (w v : ℕ) → (w == v) ≡ true → in_width_set v ≡ true → in_width_set w ≡ true
at_width w v e h = let same : v ≡ w = ground arith in subst (λ x. in_width_set x ≡ true) same h

-- The four widths are in the set.
wide : (w : ℕ) → (w == 1 || w == 2 || w == 4 || w == 8) ≡ true → in_width_set w ≡ true
wide w e = elim (Bool-cases (w == 1)) [
  | inl h ↦ at_width w 1 h refl
  | inr a ↦ elim (Bool-cases (w == 2)) [
    | inl h ↦ at_width w 2 h refl
    | inr b ↦ elim (Bool-cases (w == 4)) [
      | inl h ↦ at_width w 4 h refl
      | inr c ↦ at_width w 8 (rw (a, b, c) at e) refl
    ]
  ]
]

blob_length-in_use :
    (f : FieldDescr) (mem : Memory) (src : ℕ)
    → blob_length f mem src ≡ in_use f.nested_idx f.size mem (src + f.offset)
unfolding blob_length load_uint number
blob_length-in_use f mem src = used-clamped f.size f.nested_idx mem (src + f.offset)

array_length-count :
    (type : FieldType) (f : FieldDescr) (mem : Memory) (src : ℕ)
    → has_length type ≡ true
    → f.type ≡ type
    → array_length f mem src ≡ count_of f mem src
unfolding array_length count_of load_uint number sized_width
array_length-count type f mem src h t =
    let long : has_length f.type ≡ true = ap has_length t ∙ h in
    rw long (used-clamped (f.size / f.element_size) f.nested_idx mem (src + f.offset))

module _ {U : Type 0} where
  -- Two writers in turn succeed only if each does.
  pub and_then_ok :
      (r : Ostream U × Ret) (k : Writer U) (o' : Ostream U)
      → and_then r k ≡ (o', ret_ok)
      → (o : Ostream U) × (r ≡ (o, ret_ok)) × (k o ≡ (o', ret_ok))
  and_then_ok (o, ret_ok) k o' e = (o, refl, e)
  and_then_ok (o, ret_incomplete) k o' e = let wrong = ap (λ r. r.1) e in cc
  and_then_ok (o, e_argument) k o' e = let wrong = ap (λ r. r.1) e in cc
  and_then_ok (o, e_buffer_full) k o' e = let wrong = ap (λ r. r.1) e in cc
  and_then_ok (o, e_invalid_msg) k o' e = let wrong = ap (λ r. r.1) e in cc
  and_then_ok (o, e_limit_exceeded) k o' e = let wrong = ap (λ r. r.1) e in cc

  pub coded_ok : (w : Writer U) (o o' : Ostream U) → w o ≡ (o', ret_ok) → coded w o ≡ (o', 0)
  coded_ok w o o' e = ap (λ r. (r.0, ret_code r.1)) e

  module _ (strict : Bool) where
    coded_leaf :
        (id : ℕ) (x l : Leaf) (o o' : Ostream U)
        → some x ≡ some l
        → write_leaf strict id l o ≡ (o', ret_ok)
        → coded (write_leaf strict id x) o ≡ (o', 0)
    coded_leaf id x l o o' e w =
        coded_ok (write_leaf strict id x) o o'
          (subst (λ y. write_leaf strict id y o ≡ (o', ret_ok)) (sym (some-injective x l e)) w)

    tested_leaf :
        (wanted test : Bool) (id : ℕ) (x l : Leaf) (o o' : Ostream U)
        → (wanted ≡ true → test ≡ true)
        → (if wanted then some x else none) ≡ some l
        → write_leaf strict id l o ≡ (o', ret_ok)
        → (if test then coded (write_leaf strict id x) else refused) o ≡ (o', 0)
    tested_leaf true test id x l o o' h e w = rw (h refl) (coded_leaf id x l o o' e w)
    tested_leaf false test id x l o o' h e w = cc

    array_leaf :
        (make : List ℕ → ℕ → Leaf) (unit : ℕ) (f : FieldDescr) (mem : Memory) (src : ℕ) (l : Leaf)
        (o o' : Ostream U)
        → array_length f mem src ≡ count_of f mem src
        → array_of make unit f mem src ≡ some l
        → write_leaf strict f.id l o ≡ (o', ret_ok)
        → coded (write_leaf strict f.id (make (elements f unit mem src) (array_length f mem src))) o
          ≡ (o', 0)
    unfolding array_of
    array_leaf make unit f mem src l o o' n e w = rw n (coded_leaf f.id _ l o o' e w)

    text_leaf :
        (full : Bool) (id : ℕ) (x l : Leaf) (o o' : Ostream U)
        → (if full then none else some x) ≡ some l
        → write_leaf strict id l o ≡ (o', ret_ok)
        → (if full then refused else coded (write_leaf strict id x)) o ≡ (o', 0)
    text_leaf true id x l o o' e w = cc
    text_leaf false id x l o o' e w = coded_leaf id x l o o' e w

    pub leaf_ok :
        (type : FieldType) (nested : List (Memory → ℕ → Coder U)) (f : FieldDescr) (mem : Memory)
        (src : ℕ) (l : Leaf) (o o' : Ostream U)
        → f.type ≡ type
        → value_of type f mem src ≡ some l
        → write_leaf strict f.id l o ≡ (o', ret_ok)
        → encode_as strict type nested f mem src o ≡ (o', 0)
    unfolding value_of scalar_of text_of encode_as encode_string write_leaf write_fp32 write_fp64
        write_blob write_array_of_unsigned write_array_of_signed load_uint number resign extended
    leaf_ok field_unsigned nested f mem src l o o' t e h =
        tested_leaf _ (in_width_set f.element_size) f.id _ l o o' (wide f.element_size) e h
    leaf_ok field_signed nested f mem src l o o' t e h =
        tested_leaf _ (in_width_set f.element_size) f.id _ l o o' (wide f.element_size) e h
    leaf_ok field_boolean nested f mem src l o o' t e h =
        tested_leaf _ (in_width_set f.element_size) f.id _ l o o' (wide f.element_size) e h
    leaf_ok field_fp32 nested f mem src l o o' t e h = coded_leaf f.id _ l o o' e h
    leaf_ok field_fp64 nested f mem src l o o' t e h = coded_leaf f.id _ l o o' e h
    leaf_ok field_string nested f mem src l o o' t e h =
        rw (c_string-text_in (span mem (src + f.offset) f.size)) (
          text_leaf (length (text_in (span mem (src + f.offset) f.size)) == f.size) f.id _ l o o' e
            h)
    leaf_ok field_blob nested f mem src l o o' t e h =
        rw (blob_length-in_use f mem src) (coded_leaf f.id _ l o o' e h)
    leaf_ok field_array_unsigned nested f mem src l o o' t e h =
        array_leaf _ f.element_size f mem src l o o'
          (array_length-count field_array_unsigned f mem src refl t) e h
    leaf_ok field_array_signed nested f mem src l o o' t e h =
        array_leaf _ f.element_size f mem src l o o'
          (array_length-count field_array_signed f mem src refl t) e h
    leaf_ok field_array_boolean nested f mem src l o o' t e h =
        array_leaf _ f.element_size f mem src l o o'
          (array_length-count field_array_boolean f mem src refl t) e h
    leaf_ok field_array_fp32 nested f mem src l o o' t e h =
        array_leaf _ 4 f mem src l o o' (array_length-count field_array_fp32 f mem src refl t) e h
    leaf_ok field_array_fp64 nested f mem src l o o' t e h =
        array_leaf _ 8 f mem src l o o' (array_length-count field_array_fp64 f mem src refl t) e h
    leaf_ok field_sequence nested f mem src l o o' t e h = cc
    leaf_ok field_unassigned nested f mem src l o o' t e h = cc
