-- ===== src/Object/Quiet.antt =====
-- What `sofab_object_encode` writes for an object that has its default values.
use corelib_c_cpp.Base.{
  ℕ, zero, suc, ◌+◌, ◌-◌, ◌^◌, ◌≤◌, ◌<◌, ◌≡◌, refl, Bool, true, false, not, List, [], ◌∷◌, ◌==◌,
  take, length, length-take, Bool-cases, inl, inr, arith,
}
use corelib_c_cpp.Ostream.{Ostream}
use corelib_c_cpp.Istream.{Memory}
use corelib_c_cpp.Object.{
  FieldDescr, Info, Descrs, descr, fields, is_holder, seq_len, field_count, seq_len_width_masked,
}
use corelib_c_cpp.Object.Default.{
  field_is_default, fields_are_default, object_is_default, nested_defaults,
}
use corelib_c_cpp.Object.Encode.{
  Coder, encode_fields, encode_count, last_index, object_encode, nested_encoders,
}

module _ {U : Type 0} (strict : Bool) where
  -- Fields with their default values, none of them the one that is never left out.
  encode_fields-default :
      (info : Info) (defaults : List (Memory → ℕ → Bool)) (nested : List (Memory → ℕ → Coder U))
      (last i : ℕ) (l : List FieldDescr) (mem : Memory) (src : ℕ) (o : Ostream U)
      → i + length l ≤ last
      → fields_are_default info defaults l mem src ≡ true
      → encode_fields strict info defaults nested last i l mem src o ≡ (o, 0)
  unfolding encode_fields fields_are_default
  encode_fields-default info defaults nested last i [] mem src o h d = refl
  encode_fields-default info defaults nested last i (f ∷ l) mem src o h d =
      let later =
        encode_fields-default info defaults nested last (i + 1) l mem src o (omega arith) in
      let here : (i == last) ≡ false = ground arith in
      elim (Bool-cases (field_is_default info defaults f mem src)) [
        | inl e ↦ rw (here, e) (later (rw e at d))
        | inr e ↦ let no = rw e at d in cc
      ]

  encode_none :
      (info : Info) (defaults : List (Memory → ℕ → Bool)) (nested : List (Memory → ℕ → Coder U))
      (last count : ℕ) (mem : Memory) (src : ℕ) (o : Ostream U)
      → (count == 0) ≡ true
      → encode_fields strict info defaults nested last 0 (take count info.field_list) mem src o
        ≡ (o, 0)
  unfolding encode_fields
  encode_none info defaults nested last zero mem src o e = refl
  encode_none info defaults nested last (suc count) mem src o e = ground arith

  whole :
      (info : Info) (nested : Descrs) (mem : Memory) (src : ℕ) (o : Ostream U)
      → (is_holder info) ≡ false
      → length info.field_list < 2 ^ 64
      → fields_are_default info (nested_defaults nested) (fields info) mem src ≡ true
      → object_encode strict (descr info nested) mem src o ≡ (o, 0)
  unfolding object_encode encode_count last_index
  whole info nested mem src o e small d = rw e (
      encode_fields-default info (nested_defaults nested) (nested_encoders strict nested)
        (2 ^ 64 - 1) 0 (fields info) mem src o
        (omega (arith, length-take (field_count info) info.field_list)) d)

  sized :
      (info : Info) (nested : Descrs) (mem : Memory) (src : ℕ) (o : Ostream U)
      → (is_holder info) ≡ true
      → (seq_len info mem src == 0) ≡ true
      → object_encode strict (descr info nested) mem src o ≡ (o, 0)
  unfolding object_encode encode_count last_index
  sized info nested mem src o e d = rw e (
      encode_none info (nested_defaults nested) (nested_encoders strict nested) _
        (seq_len info mem src) mem src o d)

  -- When the length member of an object belongs to a holder of elements, and of no other object,
  -- and the descriptor lists fewer than 2 ^ 64 fields, an object that the default test accepts is
  -- encoded as nothing: `sofab_object_encode` returns SOFAB_RET_OK and leaves the stream as it is.
  pub object_encode-default :
      (info : Info) (nested : Descrs) (mem : Memory) (src : ℕ) (o : Ostream U)
      → is_holder info ≡ not (seq_len_width_masked info == 0)
      → length info.field_list < 2 ^ 64
      → object_is_default (descr info nested) mem src ≡ true
      → object_encode strict (descr info nested) mem src o ≡ (o, 0)
  unfolding object_is_default
  object_encode-default info nested mem src o h small d =
      elim (Bool-cases (seq_len_width_masked info == 0)) [
        | inl e ↦ whole info nested mem src o (rw e at h) small (rw e at d)
        | inr e ↦ sized info nested mem src o (rw e at h) (rw e at d)
      ]
