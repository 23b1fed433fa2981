-- ===== src/Object/Encoded.antt =====
-- `sofab_object_encode` against the message that the object stands for.
use corelib_c_cpp.Base.{
  ℕ, zero, suc, ◌+◌, ◌≡◌, refl, sym, ap, ◌∙◌, ◌^◌, ◌-◌, Bool-cases, arith, length, length-take,
  Bool, true, false, not, ◌&&◌, Option, none, some, List, [], ◌∷◌, get_or, ◌==◌, if◌then◌else◌,
  take, inl, inr,
}
use mathlib.Core.Path.{subst}
use mathlib.Core.Option.{some-injective}
use corelib_c_cpp.Wire.{ret_ok}
use corelib_c_cpp.Ostream.{Ostream}
use corelib_c_cpp.Ostream.Message.{Field, Fields, write_field, write_fields}
use corelib_c_cpp.Istream.{Memory, size_pred}
use corelib_c_cpp.Object.{FieldDescr, Info, Descr, Descrs, descr, no_more, also, is_holder}
use corelib_c_cpp.Object.Encode.{
  Coder, refused, if_ok, encode_fields, encode_count, last_index, object_encode, nested_encoders,
}
use corelib_c_cpp.Object.View.{is_complete, field_of, cons_of, fields_of, message, messages}
use corelib_c_cpp.Object.Expected.{left_out, slots, elements_in_use, are_left_out}
use corelib_c_cpp.Object.Defaults.{default_ok, field_count-slots, seq_len-elements, nested_default}
use corelib_c_cpp.Object.Counted.{
  LastAt, LastAt-next, LastAt-test, LastAt-holder, complete_facts, slots-bound, elements-bound,
}
use corelib_c_cpp.Object.EncodedLeaf.{and_then_ok}
use corelib_c_cpp.Object.EncodedField.{Agree, field_ok}

module _ {U : Type 0} where
  module _ (strict : Bool) where
    module _ (views : List (Memory → ℕ → Option Fields)) (encoders : List (Memory → ℕ → Coder U))
        (agree : Agree strict views encoders) where
      -- The first field and then the others.
      cons_ok :
          (first : Option Field) (others : Option Fields) (fs : Fields) (k rest : Coder U)
          (o o' : Ostream U)
          → ((x : Field) (p q : Ostream U)
              → first ≡ some x
              → write_field strict x p ≡ (q, ret_ok)
              → k p ≡ (q, 0))
          → ((xs : Fields) (p q : Ostream U)
              → others ≡ some xs
              → write_fields strict xs p ≡ (q, ret_ok)
              → rest p ≡ (q, 0))
          → cons_of first others ≡ some fs
          → write_fields strict fs o ≡ (o', ret_ok)
          → if_ok (k o) rest ≡ (o', 0)
      unfolding write_fields
      cons_ok none others fs k rest o o' hx hxs e w = cc
      cons_ok (some x) none fs k rest o o' hx hxs e w = cc
      cons_ok (some x) (some xs) fs k rest o o' hx hxs e w =
          let (p, first, more) =
            and_then_ok (write_field strict x o) (write_fields strict xs) o' (
              subst (λ y. write_fields strict y o ≡ (o', ret_ok)) (sym (some-injective _ fs e))
                w) in
          ap (λ t. if_ok t rest) (hx x o p refl first) ∙ hxs xs p o' refl more

      skipping :
          (skip : Bool) (others : Option Fields) (first : Option Field) (fs : Fields)
          (k rest : Coder U) (o o' : Ostream U)
          → ((x : Field) (p q : Ostream U)
              → first ≡ some x
              → write_field strict x p ≡ (q, ret_ok)
              → k p ≡ (q, 0))
          → ((xs : Fields) (p q : Ostream U)
              → others ≡ some xs
              → write_fields strict xs p ≡ (q, ret_ok)
              → rest p ≡ (q, 0))
          → (if skip then others else cons_of first others) ≡ some fs
          → write_fields strict fs o ≡ (o', ret_ok)
          → (if skip then rest o else if_ok (k o) rest) ≡ (o', 0)
      skipping true others first fs k rest o o' hx hxs e w = hxs fs o o' e w
      skipping false others first fs k rest o o' hx hxs e w =
          cons_ok first others fs k rest o o' hx hxs e w

      fields_ok :
          (info : Info) (defaults : List (Memory → ℕ → Bool)) (last i : ℕ) (l : List FieldDescr)
          (mem : Memory) (src : ℕ)
          → LastAt (is_holder info) last i (length l)
          → (fs : Fields) (o o' : Ostream U) → fields_of info defaults views l mem src ≡ some fs
          → write_fields strict fs o ≡ (o', ret_ok)
          → encode_fields strict info defaults encoders last i l mem src o ≡ (o', 0)
      unfolding fields_of encode_fields write_fields
      fields_ok info defaults last i [] mem src at_end fs o o' e w =
          ap (λ r. (r.0, 0))
            (subst (λ y. write_fields strict y o ≡ (o', ret_ok)) (sym (some-injective _ fs e)) w)
      fields_ok info defaults last i (f ∷ l) mem src at_end fs o o' e w =
          let others =
            fields_ok info defaults last (i + 1) l mem src
              (LastAt-next (is_holder info) last i (length l) at_end) in
          rw
            (
              default_ok info f mem src defaults,
              LastAt-test (is_holder info) last i (length l) at_end,
            )
            (skipping (not (is_holder info && length l == 0) && left_out info defaults f mem src)
              (fields_of info defaults views l mem src) (field_of f.type views f mem src) fs _ _ o
              o' (λ x p q. field_ok strict views encoders agree f.type f mem src x p q refl) others
              e w)

      object_ok :
          (info : Info) (defaults : List (Memory → ℕ → Bool)) (mem : Memory) (src : ℕ) (fs : Fields)
          (o o' : Ostream U)
          → (if is_complete info
              then fields_of info defaults views
                  (take
                    (if is_holder info then elements_in_use info mem src else slots info)
                    info.field_list)
                  mem
                  src
              else none)
            ≡ some fs
          → write_fields strict fs o ≡ (o', ret_ok)
          → encode_fields strict info defaults encoders
              (last_index info mem src)
              0
              (take (encode_count info mem src) info.field_list)
              mem
              src
              o
            ≡ (o', 0)
      unfolding last_index encode_count
      object_ok info defaults mem src fs o o' e w = elim (Bool-cases (is_complete info)) [
        | inr c ↦ let no = rw c at e in cc
        | inl c ↦
            let facts = complete_facts info c in
            elim (Bool-cases (is_holder info)) [
              | inl h ↦
                  rw (h, seq_len-elements info mem src)
                    (fields_ok info defaults _ 0 _ mem src
                      (subst
                        (λ b.
                          LastAt b (size_pred (elements_in_use info mem src)) 0
                            (length (take (elements_in_use info mem src) info.field_list)))
                        (sym h)
                        (LastAt-holder (elements_in_use info mem src) info.field_list
                          (omega (arith, facts.0, elements-bound info mem src))
                          (omega (arith, facts.1, elements-bound info mem src, slots-bound info))))
                      fs o o' (rw (c, h) at e) w)
              | inr h ↦
                  rw (h, field_count-slots info)
                    (fields_ok info defaults (2 ^ 64 - 1) 0 _ mem src
                      (subst
                        (λ b. LastAt b (2 ^ 64 - 1) 0 (length (take (slots info) info.field_list)))
                        (sym h)
                        (omega (
                          arith,
                          length-take (slots info) info.field_list,
                          facts.1,
                          slots-bound info,
                        )))
                      fs o o' (rw (c, h) at e) w)
            ]
      ]

  -- Objects and, in turn, the objects inside them.
  mutual
    unfolding object_encode nested_encoders message messages

    pub views_ok :
        (strict : Bool) (d : Descr) (mem : Memory) (src : ℕ) (fs : Fields) (o o' : Ostream U)
        → message d mem src ≡ some fs
        → write_fields strict fs o ≡ (o', ret_ok)
        → object_encode strict d mem src o ≡ (o', 0)
    views_ok strict (descr info nested) mem src fs o o' e w = rw (nested_default nested) (
        object_ok strict (messages nested) (nested_encoders strict nested)
          (nested_views_ok strict nested) info (are_left_out nested) mem src fs o o' e w)

    nested_views_ok :
        (strict : Bool) (ds : Descrs) (i : ℕ) (mem : Memory) (src : ℕ) (fs : Fields)
        (o o' : Ostream U)
        → get_or (messages ds) i (λ m p. none) mem src ≡ some fs
        → write_fields strict fs o ≡ (o', ret_ok)
        → get_or (nested_encoders {U = U} strict ds) i (λ m p. refused) mem src o ≡ (o', 0)
    nested_views_ok strict no_more i mem src fs o o' e w = cc
    nested_views_ok strict (also d ds) zero mem src fs o o' e w =
        views_ok strict d mem src fs o o' e w
    nested_views_ok strict (also d ds) (suc i) mem src fs o o' e w =
        nested_views_ok strict ds i mem src fs o o' e w
