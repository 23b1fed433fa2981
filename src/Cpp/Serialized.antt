-- ===== src/Cpp/Serialized.antt =====
-- What `serialize` functions write through `OStreamImpl`, against the calls of the C stream.
use corelib_c_cpp.Base.{
  ℕ, ◌≤◌, ◌≡◌, refl, ap, ◌∙◌, Bool, true, false, [], ◌+◌, length, ltb, if◌then◌else◌, arith,
}
use corelib_c_cpp.Wire.{
  Ret, ret_ok, ret_incomplete, e_argument, e_buffer_full, e_invalid_msg, e_limit_exceeded,
  fixlen_max, lazy_seq_depth,
}
use corelib_c_cpp.Ostream.{Ostream, Writer, and_then, ◌>>◌}
use corelib_c_cpp.Ostream.Content.{write_leaf, IsLeaf}
use corelib_c_cpp.Ostream.Fields.{write_boolean, write_fp32, write_fp64, write_blob}
use corelib_c_cpp.Ostream.Arrays.{
  write_array_of_unsigned, write_array_of_signed, write_array_of_fp32, write_array_of_fp64,
}
use corelib_c_cpp.Ostream.Sequences.{
  write_sequence_begin_lazy, write_sequence_end, write_sequence_end_keep,
}
use corelib_c_cpp.Ostream.Message.{
  write_field, write_fields, IsField, IsFields, depth_fields, fields_bytes,
}
use corelib_c_cpp.Ostream.Room.{Appended}
use corelib_c_cpp.Ostream.Canonical.{write_fields_room}
use corelib_c_cpp.Cpp.Refusal.{is_ok}
use corelib_c_cpp.Cpp.Output.{
  OstreamImpl, Step, Value, unsigned_value, signed_value, bool_value, fp32_value, fp64_value,
  text_value, blob_value, unsigned_array, signed_array, bool_array, fp32_array, fp64_array, result,
  call, write_value, impl_sequence_begin_lazy, impl_sequence_end, impl_sequence_end_keep,
  in_sequence, write_message, write_lazy, chain,
}
use corelib_c_cpp.Cpp.Parts.{
  Part, value, message, lazy_message, Parts, none_left, then_part, as_leaf, as_field, as_fields,
  write_part, serialize,
}

keep_failed : (r : Ret) → (if is_ok r then ret_ok else r) ≡ r
keep_failed ret_ok = refl
keep_failed ret_incomplete = refl
keep_failed e_argument = refl
keep_failed e_buffer_full = refl
keep_failed e_invalid_msg = refl
keep_failed e_limit_exceeded = refl

not_true : false ≡ true → ⊥
not_true e = ground arith

module _ {U : Type 0} where
  -- The stream after calls that have succeeded.
  abbrev pub with_ctx : OstreamImpl U → Ostream U → OstreamImpl U
  with_ctx os o = record os { ctx = o }

  result-ok : (os : OstreamImpl U) → result ret_ok os ≡ (os, ret_ok)
  unfolding result
  result-ok os = ap (λ r. (record os { failed = r }, ret_ok)) (keep_failed os.failed)

  call-ok :
      (w : Writer U) (os : OstreamImpl U) (o : Ostream U)
      → w os.ctx ≡ (o, ret_ok)
      → call w os ≡ (with_ctx os o, ret_ok)
  call-ok w os o e = ap (λ r. result r.1 (record os { ctx = r.0 })) e ∙ result-ok (with_ctx os o)

  -- Two calls that succeed in a row.
  record Split (m k : Writer U) (o o' : Ostream U) : Type 0 where
    between : Ostream U
    first : m o ≡ (between, ret_ok)
    second : k between ≡ (o', ret_ok)

  and_then-Split :
      (k : Writer U) (r : Ostream U × Ret) (o' : Ostream U)
      → and_then r k ≡ (o', ret_ok)
      → (between : Ostream U) × (r ≡ (between, ret_ok)) × (k between ≡ (o', ret_ok))
  and_then-Split k (o, ret_ok) o' e = (o, refl, e)
  and_then-Split k (o, ret_incomplete) o' e = absurd (not_true (ap (λ r. is_ok r.1) e))
  and_then-Split k (o, e_argument) o' e = absurd (not_true (ap (λ r. is_ok r.1) e))
  and_then-Split k (o, e_buffer_full) o' e = absurd (not_true (ap (λ r. is_ok r.1) e))
  and_then-Split k (o, e_invalid_msg) o' e = absurd (not_true (ap (λ r. is_ok r.1) e))
  and_then-Split k (o, e_limit_exceeded) o' e = absurd (not_true (ap (λ r. is_ok r.1) e))

  split : (m k : Writer U) (o o' : Ostream U) → (m >> k) o ≡ (o', ret_ok) → Split m k o o'
  split m k o o' e =
      let (between, first, second) = and_then-Split k (m o) o' e in
      record { between = between; first = first; second = second }

  in_sequence-ok :
      (begin serialize close : Step U) (os : OstreamImpl U) (o o' o'' : Ostream U)
      → begin os ≡ (with_ctx os o, ret_ok)
      → serialize (with_ctx os o) ≡ (with_ctx os o', ret_ok)
      → close (with_ctx os o') ≡ (with_ctx os o'', ret_ok)
      → in_sequence begin serialize close os ≡ (with_ctx os o'', ret_ok)
  unfolding in_sequence
  in_sequence-ok begin serialize close os o o' o'' e e' e'' =
      rw (e, e', e'') (result-ok (with_ctx os o''))

  write_value-leaf :
      (strict : Bool) (id : ℕ) (v : Value) (os : OstreamImpl U)
      → IsLeaf strict (as_leaf v)
      → write_value strict id v os ≡ call (write_leaf strict id (as_leaf v)) os
  unfolding write_value write_leaf write_boolean write_fp32 write_fp64 write_blob
      write_array_of_unsigned write_array_of_signed write_array_of_fp32 write_array_of_fp64
  write_value-leaf strict id (unsigned_value v) os h = refl
  write_value-leaf strict id (signed_value v) os h = refl
  write_value-leaf strict id (bool_value b) os h = refl
  write_value-leaf strict id (fp32_value bytes) os h = refl
  write_value-leaf strict id (fp64_value bytes) os h = refl
  write_value-leaf strict id (text_value sv) os h =
      let short : ltb fixlen_max (length sv) ≡ false = ground (arith, h.0) in rw short refl
  write_value-leaf strict id (blob_value bytes) os h = refl
  write_value-leaf strict id (unsigned_array bytes count size) os h = refl
  write_value-leaf strict id (signed_array bytes count size) os h = refl
  write_value-leaf strict id (bool_array bytes count) os h = refl
  write_value-leaf strict id (fp32_array bytes count) os h = refl
  write_value-leaf strict id (fp64_array bytes count) os h = refl

  mutual
    unfolding write_field write_fields write_message write_lazy impl_sequence_begin_lazy
        impl_sequence_end impl_sequence_end_keep chain

    write_part-field :
        (strict : Bool) (p : Part) (os : OstreamImpl U) (o : Ostream U)
        → IsField strict (as_field p)
        → write_field strict (as_field p) os.ctx ≡ (o, ret_ok)
        → write_part strict p os ≡ (with_ctx os o, ret_ok)
    write_part-field strict (value id v) os o h e =
        write_value-leaf strict id v os h.1 ∙ call-ok (write_leaf strict id (as_leaf v)) os o e
    write_part-field strict (message id ps) os o h e =
        let outer =
          split (write_sequence_begin_lazy id >> write_fields strict (as_fields ps))
            write_sequence_end_keep os.ctx o e in
        let inner =
          split (write_sequence_begin_lazy id) (write_fields strict (as_fields ps)) os.ctx
            outer.between outer.first in
        in_sequence-ok _ (serialize strict ps) _ os inner.between outer.between o
          (call-ok (write_sequence_begin_lazy id) os inner.between inner.first)
          (serialize-fields strict ps (with_ctx os inner.between) outer.between h.1 inner.second)
          (call-ok write_sequence_end_keep (with_ctx os outer.between) o outer.second)
    write_part-field strict (lazy_message id ps) os o h e =
        let outer =
          split (write_sequence_begin_lazy id >> write_fields strict (as_fields ps))
            write_sequence_end os.ctx o e in
        let inner =
          split (write_sequence_begin_lazy id) (write_fields strict (as_fields ps)) os.ctx
            outer.between outer.first in
        in_sequence-ok _ (serialize strict ps) _ os inner.between outer.between o
          (call-ok (write_sequence_begin_lazy id) os inner.between inner.first)
          (serialize-fields strict ps (with_ctx os inner.between) outer.between h.1 inner.second)
          (call-ok write_sequence_end (with_ctx os outer.between) o outer.second)

    serialize-fields :
        (strict : Bool) (ps : Parts) (os : OstreamImpl U) (o : Ostream U)
        → IsFields strict (as_fields ps)
        → write_fields strict (as_fields ps) os.ctx ≡ (o, ret_ok)
        → serialize strict ps os ≡ (with_ctx os o, ret_ok)
    serialize-fields strict none_left os o h e = ap (λ r. (with_ctx os r.0, ret_ok)) e
    serialize-fields strict (then_part p ps) os o h e =
        let s =
          split (write_field strict (as_field p)) (write_fields strict (as_fields ps)) os.ctx o e in
        ap (λ r. chain r (serialize strict ps)) (write_part-field strict p os s.between h.0 s.first)
        ∙ serialize-fields strict ps (with_ctx os s.between) o h.1 s.second

  -- Serialised to a stream with nothing held back and room in the buffer, a message answers
  -- SOFAB_RET_OK and records no failure, and leaves exactly the canonical encoding of its fields
  -- behind what was there. Ids and values lie within the limits, and its messages nest at most
  -- eight deep.
  pub serialize_room :
      (strict : Bool) (ps : Parts) (os : OstreamImpl U)
      → IsFields strict (as_fields ps)
      → depth_fields (as_fields ps) ≤ lazy_seq_depth
      → Ostream.pending os.ctx ≡ []
      → Ostream.offset os.ctx + length (fields_bytes (as_fields ps))
        ≤ length (Ostream.buffer os.ctx)
      → (o : Ostream U) × (serialize strict ps os ≡ (with_ctx os o, ret_ok))
        × Appended (fields_bytes (as_fields ps)) os.ctx o
  serialize_room strict ps os h d p room =
      let (o, e, a) = write_fields_room strict (as_fields ps) os.ctx h d p room in
      (o, serialize-fields strict ps os o h e, a)
