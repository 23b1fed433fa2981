-- ===== src/Ostream/Canonical.antt =====
-- What a whole message puts on the wire, into one buffer and through a sink.
use corelib_c_cpp.Base.{ℕ, ◌+◌, ◌*◌, ◌≤◌, ◌≡◌, sym, ◌∙◌, ap, Bool, List, [], ◌++◌, arith, length}
use corelib_c_cpp.Wire.{ret_ok, lazy_seq_depth}
use corelib_c_cpp.Wire.Varint.{varint}
use corelib_c_cpp.Ostream.{Ostream, Writer, Flush, write_bytes, flush}
use corelib_c_cpp.Ostream.Commit.{holding, header}
use corelib_c_cpp.Ostream.Content.{
  Leaf, leaf_bytes, write_leaf-IsContent, unsigned, signed, fixlen, integers, floats,
}
use corelib_c_cpp.Ostream.Message.{
  Field, Fields, leaf, lazy, kept, framed, nil, cons, write_field, write_fields, field_bytes,
  fields_bytes, depth, depth_fields, IsField, IsFields,
}
use corelib_c_cpp.Ostream.Settled.{
  Settles, settled, left_over, settled_none, content-Settles, append-Settles, nil-Settles,
  header_pos,
}
use corelib_c_cpp.Ostream.Lazy.{lazy-Settles, kept-Settles, framed-Settles}
use corelib_c_cpp.Ostream.Room.{Appended, write_bytes_room}
use corelib_c_cpp.Ostream.Sink.{Collects, Ready, stream, write_bytes-Streamed, flush-log}
use corelib_c_cpp.Base.{length-append}

append_pos : (xs ys : List ℕ) → 1 ≤ length xs → 1 ≤ length (xs ++ ys)
append_pos xs ys h = omega (arith, length-append xs ys)

leaf_bytes_pos : (id : ℕ) (l : Leaf) → 1 ≤ length (leaf_bytes id l)
unfolding leaf_bytes
leaf_bytes_pos id (unsigned v) = append_pos (header id 0) _ (header_pos id 0)
leaf_bytes_pos id (signed v) = append_pos (header id 1) _ (header_pos id 1)
leaf_bytes_pos id (fixlen bytes type) =
    append_pos (header id 2 ++ varint (length bytes * 8 + type)) _
      (append_pos (header id 2) _ (header_pos id 2))
leaf_bytes_pos id (integers is_signed bytes count size) =
    append_pos (header id _ ++ varint count) _ (append_pos (header id _) _ (header_pos id _))
leaf_bytes_pos id (floats bytes count size type) =
    append_pos (header id 5 ++ varint count ++ varint (size * 8 + type)) _
      (append_pos (header id 5 ++ varint count) _ (append_pos (header id 5) _ (header_pos id 5)))

module _ {U : Type 0} where
  Settles-mono :
      (n : ℕ) (w : Writer U) (bytes : List ℕ) {m : ℕ}
      → m ≤ n
      → Settles w bytes m
      → Settles w bytes n
  Settles-mono n w bytes h p o o' room = p o o' (omega arith)

  mutual
    unfolding write_field write_fields field_bytes fields_bytes depth depth_fields

    field-Settles :
        (strict : Bool) (f : Field) (n : ℕ)
        → IsField strict f
        → depth f ≤ n
        → Settles {U = U} (write_field strict f) (field_bytes f) n
    field-Settles strict (leaf id l) n h d =
        content-Settles _ (leaf_bytes id l) n (leaf_bytes_pos id l)
          (write_leaf-IsContent strict id l h.0 h.1)
    field-Settles strict (lazy id fs) n h d = Settles-mono n _ _ d (
        lazy-Settles (write_fields strict fs) id (fields_bytes fs) (depth_fields fs) h.0
          (fields-Settles strict fs (depth_fields fs) h.1 (omega arith)))
    field-Settles strict (kept id fs) n h d = Settles-mono n _ _ d (
        kept-Settles (write_fields strict fs) id (fields_bytes fs) (depth_fields fs) h.0
          (fields-Settles strict fs (depth_fields fs) h.1 (omega arith)))
    field-Settles strict (framed id fs) n h d = Settles-mono n _ _ d (
        framed-Settles (write_fields strict fs) id (fields_bytes fs) (depth_fields fs) h.0
          (fields-Settles strict fs (depth_fields fs) h.1 (omega arith)))

    fields-Settles :
        (strict : Bool) (fs : Fields) (n : ℕ)
        → IsFields strict fs
        → depth_fields fs ≤ n
        → Settles {U = U} (write_fields strict fs) (fields_bytes fs) n
    fields-Settles strict nil n h d = nil-Settles n
    fields-Settles strict (cons f fs) n h d =
        append-Settles (write_field strict f) (write_fields strict fs) (field_bytes f)
          (fields_bytes fs) n (field-Settles strict f n h.0 (omega arith))
          (fields-Settles strict fs n h.1 (omega arith))

  canonical :
      (strict : Bool) (fs : Fields) (o o' : Ostream U)
      → IsFields strict fs
      → depth_fields fs ≤ lazy_seq_depth
      → o.pending ≡ []
      → o'.pending ≡ []
      → write_bytes (fields_bytes fs) o ≡ (o', ret_ok)
      → write_fields strict fs o ≡ (o', ret_ok)
  canonical strict fs o o' h d p p' e =
      let bytes = fields_bytes fs in
      let (whole, none) = settled_none bytes in
      let free : length o.pending ≡ 0 = ap length p in
      fields-Settles strict fs lazy_seq_depth h d o o' (omega arith) (rw p tt)
        (ap (λ t. write_bytes t o) (ap (λ l. settled l bytes) p ∙ whole) ∙ e)
      ∙ ap (λ l. (holding l o', ret_ok)) (ap (λ l. left_over l bytes) p ∙ none ∙ sym p')

  -- With nothing held back and room in the buffer, the calls for a tree of fields return
  -- SOFAB_RET_OK and leave exactly the tree's canonical encoding behind what was there. Ids and
  -- values lie within the limits, and the sequences nest at most eight deep.
  pub write_fields_room :
      (strict : Bool) (fs : Fields) (o : Ostream U)
      → IsFields strict fs
      → depth_fields fs ≤ lazy_seq_depth
      → o.pending ≡ []
      → o.offset + length (fields_bytes fs) ≤ length o.buffer
      → (o' : Ostream U) × (write_fields strict fs o ≡ (o', ret_ok))
        × Appended (fields_bytes fs) o o'
  write_fields_room strict fs o h d p room =
      let (o', e, a) = write_bytes_room (fields_bytes fs) o room in
      (o', canonical strict fs o o' h d p (a.same_pending ∙ p) e, a)

  -- Through a collecting sink, with buffers of any sizes that the sink leaves room in, the same
  -- calls under the same limits return SOFAB_RET_OK, and after `sofab_ostream_flush` the sink has
  -- kept exactly the canonical encoding behind all that the stream was given before.
  pub write_fields_sink :
      {f : Flush U} (c : Collects f) (strict : Bool) (fs : Fields) (o : Ostream U)
      → IsFields strict fs
      → depth_fields fs ≤ lazy_seq_depth
      → o.pending ≡ []
      → Ready c o
      → (o' : Ostream U) × (write_fields strict fs o ≡ (o', ret_ok))
        × (c.log (flush o').0.usr ≡ stream c o ++ fields_bytes fs)
  write_fields_sink c strict fs o h d p r =
      let (o', e, s) = write_bytes-Streamed c (fields_bytes fs) o r in
      (
        o',
        canonical strict fs o o' h d p (s.same_pending ∙ p) e,
        flush-log c o' s.ready ∙ s.received,
      )
