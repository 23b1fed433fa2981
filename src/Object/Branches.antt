-- ===== src/Object/Branches.antt =====
-- The branches of `sofab_object_field_cb` and the memory of the object.
use corelib_c_cpp.Base.{
  ℕ, zero, suc, ◌+◌, ◌-◌, ◌*◌, ◌/◌, ◌≤◌, ◌≡◌, refl, sym, ap, ◌∙◌, Bool, true, false, not, ◌&&◌,
  ◌||◌, Option, none, some, List, [], ◌∷◌, get_or, All, ltb, leb, ◌==◌, if◌then◌else◌, bit_or,
  arith, Bool-cases, inl, inr,
}
use mathlib.Core.Path.{subst}
use native.Mathlib.Nat.{div-mul-le_self}
use mathlib.Core.Option.{some-injective}
use corelib_c_cpp.Wire.{type_varintarray_unsigned}
use corelib_c_cpp.Istream.{Memory, fieldtype, opt_stringterm}
use corelib_c_cpp.Istream.Reads.{opt_fieldtype}
use corelib_c_cpp.Istream.Safe.{
  Within, Within-nothing, Within-if, Within-wider, terminated, AreCalls, no_call, one_call,
}
use corelib_c_cpp.Object.{
  FieldType, field_unsigned, field_signed, field_fp32, field_fp64, field_string, field_blob,
  field_array_unsigned, field_array_signed, field_array_fp32, field_array_fp64, field_array_boolean,
  field_sequence, field_boolean, field_unassigned, FieldDescr, Descr, Descrs, descr, no_more, also,
  fields, nested_at, is_sequence, is_string, sized_width, expected_opt, store_array_len, store_uint,
}
use corelib_c_cpp.Object.Extent.{
  in_front, AllInFront, AllInFrontDescrs, value_size, field_end, fields_end, extent, extents,
  sized_store-Within, object_init-Within,
}
use corelib_c_cpp.Object.Decode.{
  ObjectDecoder, Branch, declines, bind_width, store_blob_len, bind_value, bind_leaf, enter_nested,
  find_field,
}

-- Descriptors whose leaves have a size, as the asserts of the read functions ask for, and their
-- length members inside the object.
abbrev pub has_size : FieldDescr → Bool
has_size field = is_sequence field.type || (ltb 0 (bind_width field) && in_front field)

unfoldable mutual
  pub AllSized : Descr → Type 0
  AllSized (descr info nested) = All (λ f. has_size f ≡ true) (fields info) × AllSizedDescrs nested

  pub AllSizedDescrs : Descrs → Type 0
  AllSizedDescrs no_more = Unit
  AllSizedDescrs (also d ds) = AllSized d × AllSizedDescrs ds

fields-in_front :
    (fs : List FieldDescr) → All (λ f. has_size f ≡ true) fs → All (λ f. in_front f ≡ true) fs
fields-in_front [] h = tt
fields-in_front (f ∷ fs) h = (ground (arith, h.0), fields-in_front fs h.1)

mutual
  unfolding AllSized AllSizedDescrs AllInFront AllInFrontDescrs

  AllSized-AllInFront : (d : Descr) → AllSized d → AllInFront d
  AllSized-AllInFront (descr info nested) h =
      (fields-in_front (fields info) h.0, descrs_in_front nested h.1)

  descrs_in_front : (ds : Descrs) → AllSizedDescrs ds → AllInFrontDescrs ds
  descrs_in_front no_more h = tt
  descrs_in_front (also d ds) h = (AllSized-AllInFront d h.0, descrs_in_front ds h.1)

-- A handle whose object lies from `a` up to `b`.
pub record IsObject (a b : ℕ) (decoder : ObjectDecoder) : Type 0 where
  pub from : a ≤ decoder.dst
  pub upto : decoder.dst + extent decoder.info ≤ b
  pub sized : AllSized decoder.info

-- The field that is found is one of the object's.
pub find_field-end :
    (sizes : List ℕ) (id : ℕ) (fs : List FieldDescr) (f : FieldDescr)
    → All (λ g. has_size g ≡ true) fs
    → find_field id fs ≡ some f
    → (field_end sizes f ≤ fields_end sizes fs) × (has_size f ≡ true)
unfolding find_field fields_end
find_field-end sizes id [] f a e = cc
find_field-end sizes id (g ∷ fs) f a e = elim (Bool-cases (g.id == id)) [
  | inl h ↦
      subst (λ k. (field_end sizes k ≤ fields_end sizes (g ∷ fs)) × (has_size k ≡ true))
        (some-injective g f (sym (ap (λ b. if b then some g else find_field id fs) h) ∙ e))
        (omega arith, a.0)
  | inr h ↦
      let rest =
        find_field-end sizes id fs f a.1
          (sym (ap (λ b. if b then some g else find_field id fs) h) ∙ e) in
      (omega (arith, rest.0), rest.1)
]

pub nested_at-extents :
    (ds : Descrs) (i : ℕ) (d : Descr)
    → AllSizedDescrs ds
    → nested_at ds i ≡ some d
    → (get_or (extents ds) i 0 ≡ extent d) × AllSized d
unfolding nested_at extents AllSizedDescrs
nested_at-extents no_more i d a e = cc
nested_at-extents (also g ds) zero d a e =
    subst (λ k. (extent g ≡ extent k) × AllSized k) (some-injective g d e) (refl, a.0)
nested_at-extents (also g ds) (suc i) d a e = nested_at-extents ds i d a.1 e

-- The option words of the leaves.
fits_type : FieldType → Option ℕ → Bool
fits_type type none = true
fits_type type (some opt) =
    is_sequence type
    || (ltb (fieldtype opt) 6
        && not (terminated opt)
        && fieldtype (if is_string type then bit_or opt opt_stringterm else opt) == fieldtype opt)

expected_opt-fits : (type : FieldType) → fits_type type (expected_opt type) ≡ true
unfolding fits_type expected_opt
expected_opt-fits field_unsigned = refl
expected_opt-fits field_signed = refl
expected_opt-fits field_fp32 = refl
expected_opt-fits field_fp64 = refl
expected_opt-fits field_string = refl
expected_opt-fits field_blob = refl
expected_opt-fits field_array_unsigned = refl
expected_opt-fits field_array_signed = refl
expected_opt-fits field_array_fp32 = refl
expected_opt-fits field_array_fp64 = refl
expected_opt-fits field_array_boolean = refl
expected_opt-fits field_sequence = refl
expected_opt-fits field_boolean = refl
expected_opt-fits field_unassigned = refl

leaf_opt :
    (type : FieldType) (opt : ℕ)
    → is_sequence type ≡ false
    → expected_opt type ≡ some opt
    → (ltb (fieldtype opt) 6
        && not (terminated opt)
        && fieldtype (if is_string type then bit_or opt opt_stringterm else opt) == fieldtype opt)
      ≡ true
unfolding fits_type
leaf_opt type opt n e =
    let fits : fits_type type (some opt) ≡ true =
      ap (fits_type type) (sym e) ∙ expected_opt-fits type in
    ground (arith, n, fits)

bind_width-value :
    (sizes : List ℕ) (f : FieldDescr)
    → is_sequence f.type ≡ false
    → bind_width f ≤ value_size sizes f
unfolding bind_width value_size
bind_width-value sizes f e = ground arith

array_fits : (size w : ℕ) → (if w == 0 then 0 else size / w) * w ≤ size
array_fits size w = elim (Bool-cases (w == 0)) [
  | inl e ↦ rw e (omega arith)
  | inr e ↦ rw e (div-mul-le_self size w)
]

size-value :
    (sizes : List ℕ) (f : FieldDescr) → is_sequence f.type ≡ false → f.size ≤ value_size sizes f
unfolding value_size
size-value sizes f e = ground arith

-- What a branch calls and writes.
pub record IsBranch (a b : ℕ) (mem : Memory) (branch : Branch) : Type 0 where
  pub safe_calls : AreCalls (IsObject a b) a b branch.calls
  pub written : Within a b mem branch.mem

pub declines-IsBranch : (a b : ℕ) (mem : Memory) → IsBranch a b mem (declines mem)
declines-IsBranch a b mem = record { safe_calls = no_call; written = Within-nothing mem }

module _ (a b : ℕ) (mem : Memory) where
  pub branch_if :
      (test : Bool) (x : Branch)
      → IsBranch a b mem x
      → IsBranch a b mem (if test then declines mem else x)
  branch_if true x p = declines-IsBranch a b mem
  branch_if false x p = p

  pub branch_option :
      {A : Type 0} (o : Option A) (g : A → Branch)
      → ((x : A) → o ≡ some x → IsBranch a b mem (g x))
      → IsBranch a b mem (elim o [ none ↦ declines mem | some x ↦ g x ])
  branch_option none g p = declines-IsBranch a b mem
  branch_option (some x) g p = p x refl

module _ (a b : ℕ) (decoder : ObjectDecoder) (ok : IsObject a b decoder) where
  -- A length member, which lies right before the value.
  length-Within :
      (mem : Memory) (f : FieldDescr) (sizes : List ℕ) (value : ℕ)
      → sized_width f ≤ f.offset
      → field_end sizes f ≤ extent decoder.info
      → Within a b mem
          (store_uint mem (decoder.dst + f.offset - sized_width f) (sized_width f) value)
  unfolding field_end
  length-Within mem f sizes value k h =
      let upto = ok.upto in
      Within-wider a b ok.from upto (
        sized_store-Within decoder.dst mem f.offset (sized_width f) value (extent decoder.info) k
          (omega arith))

  store_array_len-Within :
      (mem : Memory) (f : FieldDescr) (sizes : List ℕ) (count : ℕ)
      → sized_width f ≤ f.offset
      → field_end sizes f ≤ extent decoder.info
      → Within a b mem (store_array_len f mem decoder.dst count)
  unfolding store_array_len
  store_array_len-Within mem f sizes count k h =
      Within-if (sized_width f == 0) (Within-nothing mem) (length-Within mem f sizes _ k h)

  store_blob_len-Within :
      (mem : Memory) (f : FieldDescr) (sizes : List ℕ) (size : ℕ)
      → sized_width f ≤ f.offset
      → field_end sizes f ≤ extent decoder.info
      → Within a b mem (store_blob_len f mem decoder.dst size)
  unfolding store_blob_len
  store_blob_len-Within mem f sizes size k h =
      Within-if (sized_width f == 0) (Within-nothing mem) (length-Within mem f sizes _ k h)

  bind_value-IsBranch :
      (f : FieldDescr) (sizes : List ℕ) (size count opt : ℕ) (mem : Memory)
      → is_sequence f.type ≡ false
      → has_size f ≡ true
      → expected_opt f.type ≡ some opt
      → field_end sizes f ≤ extent decoder.info
      → IsBranch a b mem (bind_value decoder f size count mem opt)
  unfolding bind_value field_end
  bind_value-IsBranch f sizes size count opt mem n s e h =
      let from = ok.from in
      let upto = ok.upto in
      let fits = leaf_opt f.type opt n e in
      let width = bind_width-value sizes f n in
      let front : sized_width f ≤ f.offset = ground (arith, n, s) in
      let elements = array_fits f.size (bind_width f) in
      let whole = size-value sizes f n in
      elim (Bool-cases (leb type_varintarray_unsigned (opt_fieldtype opt))) [
        | inl array ↦ rw array (record {
          safe_calls = one_call (omega arith, omega arith, ground arith, ground arith);
          written = store_array_len-Within mem f sizes count front h;
        })
        | inr plain ↦ rw plain (record {
          safe_calls = one_call (omega arith, omega arith, ground arith, ground arith);
          written = store_blob_len-Within mem f sizes size front h;
        })
      ]

  pub bind_leaf-IsBranch :
      (f : FieldDescr) (sizes : List ℕ) (size count wire : ℕ) (mem : Memory)
      → is_sequence f.type ≡ false
      → has_size f ≡ true
      → field_end sizes f ≤ extent decoder.info
      → IsBranch a b mem (bind_leaf decoder f size count wire mem)
  unfolding bind_leaf
  bind_leaf-IsBranch f sizes size count wire mem n s h =
      branch_option a b mem (expected_opt f.type) _
        (λ opt e. branch_if a b mem _ _ (bind_value-IsBranch f sizes size count opt mem n s e h))

  pub enter_nested-IsBranch :
      (f : FieldDescr) (mem : Memory) (d : Descr)
      → AllSized d
      → f.offset + extent d ≤ extent decoder.info
      → IsBranch a b mem (enter_nested decoder f mem d)
  unfolding enter_nested
  enter_nested-IsBranch f mem d s h =
      let from = ok.from in
      let upto = ok.upto in
      record {
        safe_calls = one_call (record { from = omega arith; upto = omega arith; sized = s });
        written =
            Within-if _
              (Within-wider a b (omega arith) (omega arith)
                (object_init-Within d (decoder.dst + f.offset) mem (AllSized-AllInFront d s)))
              (Within-nothing mem);
      }
