-- ===== src/Object/EncodedField.antt =====
-- One field of an object, a nested one included, as a field of its message.
use corelib_c_cpp.Base.{
  ℕ, ◌+◌, ◌≡◌, refl, sym, ap, ◌∙◌, Bool, false, Option, none, some, List, get_or, inl, inr, ◌⊎◌,
}
use mathlib.Core.Path.{subst}
use mathlib.Core.Option.{some-injective}
use corelib_c_cpp.Wire.{ret_ok}
use corelib_c_cpp.Ostream.{Ostream, Writer, ◌>>◌}
use corelib_c_cpp.Ostream.Sequences.{write_sequence_begin, write_sequence_end}
use corelib_c_cpp.Ostream.Content.{Leaf, write_leaf}
use corelib_c_cpp.Ostream.Message.{Field, Fields, write_field, write_fields}
use corelib_c_cpp.Istream.{Memory}
use corelib_c_cpp.Object.{
  FieldType, field_unsigned, field_signed, field_fp32, field_fp64, field_string, field_blob,
  field_array_unsigned, field_array_signed, field_array_fp32, field_array_fp64, field_array_boolean,
  field_sequence, field_boolean, field_unassigned, FieldDescr, is_sequence,
}
use corelib_c_cpp.Object.Encode.{Coder, coded, refused, or_code, also_do, encode_as}
use corelib_c_cpp.Object.View.{value_of, framed_of, leaf_of, field_of}
use corelib_c_cpp.Object.EncodedLeaf.{and_then_ok, coded_ok, leaf_ok}

sequence_or_leaf : (type : FieldType) → (type ≡ field_sequence) ⊎ (is_sequence type ≡ false)
sequence_or_leaf field_sequence = inl refl
sequence_or_leaf field_unsigned = inr refl
sequence_or_leaf field_signed = inr refl
sequence_or_leaf field_fp32 = inr refl
sequence_or_leaf field_fp64 = inr refl
sequence_or_leaf field_string = inr refl
sequence_or_leaf field_blob = inr refl
sequence_or_leaf field_array_unsigned = inr refl
sequence_or_leaf field_array_signed = inr refl
sequence_or_leaf field_array_fp32 = inr refl
sequence_or_leaf field_array_fp64 = inr refl
sequence_or_leaf field_array_boolean = inr refl
sequence_or_leaf field_boolean = inr refl
sequence_or_leaf field_unassigned = inr refl

module _ {U : Type 0} where
  module _ (strict : Bool) where
    -- A code that is 0 and a call that succeeds.
    also_do_ok :
        (r : Ostream U × ℕ) (k : Coder U) (p q : Ostream U)
        → r ≡ (p, 0)
        → k p ≡ (q, 0)
        → also_do r k ≡ (q, 0)
    also_do_ok r k p q e h = ap (λ t. also_do t k) e ∙ ap (or_code 0) h

    begin_body_end :
        (id : ℕ) (body : Writer U) (inner : Coder U) (o o' : Ostream U)
        → ((p q : Ostream U) → body p ≡ (q, ret_ok) → inner p ≡ (q, 0))
        → (write_sequence_begin id >> body >> write_sequence_end) o ≡ (o', ret_ok)
        → also_do (also_do (coded (write_sequence_begin id) o) inner) (coded write_sequence_end)
          ≡ (o', 0)
    begin_body_end id body inner o o' h e =
        let begin = write_sequence_begin {U = U} id in
        let (q, eq, ends) = and_then_ok ((begin >> body) o) write_sequence_end o' e in
        let (p, ep, runs) = and_then_ok (begin o) body q eq in
        also_do_ok _ (coded write_sequence_end) q o'
          (also_do_ok (coded begin o) inner p q (coded_ok begin o p ep) (h p q runs))
          (coded_ok write_sequence_end q o' ends)

    -- What the encoders of the nested descriptors do for their messages.
    abbrev pub Agree : List (Memory → ℕ → Option Fields) → List (Memory → ℕ → Coder U) → Type 0
    Agree views encoders =
        (i : ℕ) (mem : Memory) (src : ℕ) (fs : Fields) (o o' : Ostream U)
        → get_or views i (λ m p. none) mem src ≡ some fs
        → write_fields strict fs o ≡ (o', ret_ok)
        → get_or encoders i (λ m p. refused) mem src o ≡ (o', 0)

    framed_ok :
        (seen : Option Fields) (id : ℕ) (inner : Coder U) (x : Field) (o o' : Ostream U)
        → ((fs : Fields) (p q : Ostream U)
            → seen ≡ some fs
            → write_fields strict fs p ≡ (q, ret_ok)
            → inner p ≡ (q, 0))
        → framed_of id seen ≡ some x
        → write_field strict x o ≡ (o', ret_ok)
        → also_do (also_do (coded (write_sequence_begin id) o) inner) (coded write_sequence_end)
          ≡ (o', 0)
    unfolding write_field
    framed_ok none id inner x o o' agree e w = cc
    framed_ok (some fs) id inner x o o' agree e w =
        begin_body_end id (write_fields strict fs) inner o o' (λ p q. agree fs p q refl)
          (subst (λ y. write_field strict y o ≡ (o', ret_ok)) (sym (some-injective _ x e)) w)

    leaf_field_ok :
        (value : Option Leaf) (id : ℕ) (k : Coder U) (x : Field) (o o' : Ostream U)
        → ((l : Leaf) → value ≡ some l → write_leaf strict id l o ≡ (o', ret_ok) → k o ≡ (o', 0))
        → leaf_of id value ≡ some x
        → write_field strict x o ≡ (o', ret_ok)
        → k o ≡ (o', 0)
    unfolding write_field
    leaf_field_ok none id k x o o' h e w = cc
    leaf_field_ok (some l) id k x o o' h e w =
        h l refl (subst (λ y. write_field strict y o ≡ (o', ret_ok)) (sym (some-injective _ x e)) w)

    module _ (views : List (Memory → ℕ → Option Fields)) (encoders : List (Memory → ℕ → Coder U))
        (agree : Agree views encoders) where
      sequence_ok :
          (f : FieldDescr) (mem : Memory) (src : ℕ) (x : Field) (o o' : Ostream U)
          → framed_of f.id (get_or views f.nested_idx (λ m p. none) mem (src + f.offset)) ≡ some x
          → write_field strict x o ≡ (o', ret_ok)
          → encode_as strict field_sequence encoders f mem src o ≡ (o', 0)
      unfolding encode_as
      sequence_ok f mem src x o o' e w =
          framed_ok (get_or views f.nested_idx (λ m p. none) mem (src + f.offset)) f.id
            (get_or encoders f.nested_idx (λ m p. refused) mem (src + f.offset)) x o o'
            (λ fs p q n h. agree f.nested_idx mem (src + f.offset) fs p q n h) e w

      leaf_field :
          (type : FieldType) (f : FieldDescr) (mem : Memory) (src : ℕ) (x : Field)
          → is_sequence type ≡ false
          → field_of type views f mem src ≡ some x
          → leaf_of f.id (value_of type f mem src) ≡ some x
      unfolding field_of
      leaf_field type f mem src x is e = rw is at e

      pub field_ok :
          (type : FieldType) (f : FieldDescr) (mem : Memory) (src : ℕ) (x : Field)
          (o o' : Ostream U)
          → f.type ≡ type
          → field_of type views f mem src ≡ some x
          → write_field strict x o ≡ (o', ret_ok)
          → encode_as strict type encoders f mem src o ≡ (o', 0)
      unfolding field_of
      field_ok type f mem src x o o' t e w = elim (sequence_or_leaf type) [
        | inl is ↦
            subst (λ t. encode_as strict t encoders f mem src o ≡ (o', 0)) (sym is)
              (sequence_ok f mem src x o o' (ap (λ t. field_of t views f mem src) (sym is) ∙ e) w)
        | inr is ↦
            leaf_field_ok (value_of type f mem src) f.id (encode_as strict type encoders f mem src)
              x o o' (λ l v h. leaf_ok strict type encoders f mem src l o o' t v h)
              (leaf_field type f mem src x is e) w
      ]
