-- ===== src/Ostream/Lazy.antt =====
-- The sequence writers of ostream.c while headers are held back.
use corelib_c_cpp.Base.{
  ℕ, suc, ◌-◌, ◌<◌, ◌≤◌, ◌≡◌, refl, ◌∙◌, ap, List, [], ◌∷◌, ◌++◌, arith, append_assoc, length,
  length-append, lt→ltb, take-append-length, inl, inr,
}
use corelib_c_cpp.Wire.{ret_ok, id_max, lazy_seq_depth, type_sequence_start, type_sequence_end}
use corelib_c_cpp.Ostream.{Ostream, Writer, ◌>>◌, write_bytes}
use corelib_c_cpp.Ostream.Commit.{header, headers, holding, write_bytes_split}
use corelib_c_cpp.Ostream.Content.{IsContent, write_id_type-marker}
use corelib_c_cpp.Ostream.Sequences.{
  write_sequence_begin, write_sequence_begin_lazy, write_sequence_end, write_sequence_end_keep,
}
use corelib_c_cpp.Ostream.Message.{frame, frame_if_any}
use corelib_c_cpp.Ostream.Settled.{
  settled, settled_pos, AreIds-snoc, header_pos, frame_pos, frame_split, Settles, nil-eq,
  holding-eq, content-Settles, append-Settles,
}

module _ {U : Type 0} where
  begin_lazy-ok :
      (id : ℕ) (o : Ostream U)
      → id ≤ id_max
      → length o.pending < lazy_seq_depth
      → write_sequence_begin_lazy id o ≡ (holding (o.pending ++ id ∷ []) o, ret_ok)
  unfolding write_sequence_begin_lazy
  begin_lazy-ok id o h k = ground arith

  end_marker :
      (o : Ostream U)
      → o.pending ≡ []
      → write_sequence_end o ≡ write_bytes (header 0 type_sequence_end) o
  unfolding write_sequence_end
  end_marker o e = rw e (
      ap (λ (w : Writer U). w (holding [] o))
        (write_id_type-marker 0 type_sequence_end (omega arith) (inr refl)))

  end_dropped :
      (ids : List ℕ) (id : ℕ) (o : Ostream U)
      → write_sequence_end (holding (ids ++ id ∷ []) o) ≡ (holding ids o, ret_ok)
  unfolding write_sequence_end
  end_dropped ids id o =
      let size : length (ids ++ id ∷ []) ≡ suc (length ids) =
        length-append ids (id ∷ []) ∙ omega arith in
      let one_less : length (ids ++ id ∷ []) - 1 ≡ length ids = omega (arith, size) in
      rw (lt→ltb 0 (length (ids ++ id ∷ [])) (omega (arith, size)), one_less)
        (rw take-append-length refl)

  -- After the content of a sequence nothing is held back, so that its end marker is written.
  then_end :
      (w : Writer U) (o m : Ostream U) {o' : Ostream U}
      → w o ≡ (holding [] m, ret_ok)
      → write_bytes (header 0 type_sequence_end) m ≡ (o', ret_ok)
      → (w >> write_sequence_end) o ≡ (holding [] o', ret_ok)
  then_end w o m e1 e2 =
      rw e1 (end_marker (holding [] m) refl ∙ holding-eq (header 0 type_sequence_end) [] m e2)

  end_keep-IsContent : IsContent (write_sequence_end_keep {U = U}) (header 0 type_sequence_end)
  unfolding write_sequence_end_keep
  end_keep-IsContent =
      rw (write_id_type-marker {U = U} 0 type_sequence_end (omega arith) (inr refl)) refl

  begin-IsContent :
      (id : ℕ)
      → id ≤ id_max
      → IsContent (write_sequence_begin {U = U} id) (header id type_sequence_start)
  unfolding write_sequence_begin
  begin-IsContent id h = rw (write_id_type-marker {U = U} id type_sequence_start h (inl refl)) refl

  framed_bytes :
      (o : Ostream U) (id : ℕ) (bytes : List ℕ) {o' : Ostream U}
      → write_bytes (settled o.pending (frame id bytes)) o ≡ (o', ret_ok)
      → write_bytes (headers o.pending ++ frame id bytes) o ≡ (o', ret_ok)
  framed_bytes o id bytes e =
      rw (settled_pos o.pending (frame id bytes) (frame_pos id bytes)).0 at e

  framed_at :
      (o : Ostream U) (id : ℕ) (bytes : List ℕ) {o' : Ostream U}
      → write_bytes (settled o.pending (frame id bytes)) o ≡ (o', ret_ok)
      → write_bytes ((headers (o.pending ++ id ∷ []) ++ bytes) ++ header 0 type_sequence_end) o
        ≡ (o', ret_ok)
  framed_at o id bytes e = rw (frame_split o.pending id bytes) at (framed_bytes o id bytes e)

  -- Inside a lazily opened sequence: the writer of its fields, and what closes it.
  pub lazy-Settles :
      (w : Writer U) (id : ℕ) (bytes : List ℕ) (n : ℕ)
      → id ≤ id_max
      → Settles w bytes n
      → Settles
          (write_sequence_begin_lazy id >> w >> write_sequence_end)
          (frame_if_any id bytes)
          (suc n)
  lazy-Settles w id [] n h p o o' room ids e =
      rw
        (
          begin_lazy-ok id o h (omega arith),
          p (holding (o.pending ++ id ∷ []) o) (holding (o.pending ++ id ∷ []) o)
              (omega (arith, length-append o.pending (id ∷ []))) (AreIds-snoc o.pending id ids h)
              (unfold write_bytes in refl),
          end_dropped o.pending id o,
        )
        (ap (λ (x : Ostream U). (holding o.pending x, ret_ok)) (nil-eq e))
  lazy-Settles w id (b ∷ bytes) n h p o o' room ids e =
      let held = o.pending ++ id ∷ [] in
      let (m, e1, e2) =
        write_bytes_split (headers held ++ b ∷ bytes) (header 0 type_sequence_end) o {o' = o'}
          (framed_at o id (b ∷ bytes) e) in
      rw
        (
          begin_lazy-ok id o h (omega arith),
          (settled_pos o.pending (frame id (b ∷ bytes)) (frame_pos id (b ∷ bytes))).1,
        )
        (then_end w (holding held o) m
          (p (holding held o) (holding held m) (omega (arith, length-append o.pending (id ∷ [])))
            (AreIds-snoc o.pending id ids h) (holding-eq (headers held ++ b ∷ bytes) held o e1))
          e2)

  pub kept-Settles :
      (w : Writer U) (id : ℕ) (bytes : List ℕ) (n : ℕ)
      → id ≤ id_max
      → Settles w bytes n
      → Settles
          (write_sequence_begin_lazy id >> w >> write_sequence_end_keep)
          (frame id bytes)
          (suc n)
  kept-Settles w id bytes n h p o o' room ids e =
      let held = o.pending ++ id ∷ [] in
      let end = header 0 type_sequence_end in
      let closed : Settles (w >> write_sequence_end_keep) (bytes ++ end) n =
        append-Settles w write_sequence_end_keep bytes end n p (
          content-Settles write_sequence_end_keep end n (header_pos 0 type_sequence_end)
            end_keep-IsContent) in
      let (all, none) =
        settled_pos held (bytes ++ end)
          (omega (arith, length-append bytes end, header_pos 0 type_sequence_end)) in
      let whole : write_bytes (settled held (bytes ++ end)) o ≡ (o', ret_ok) =
        rw (all, ← append_assoc (headers held) bytes end) (framed_at o id bytes e) in
      rw
        (
          begin_lazy-ok id o h (omega arith),
          (settled_pos o.pending (frame id bytes) (frame_pos id bytes)).1,
        )
        (closed (holding held o) (holding held o')
            (omega (arith, length-append o.pending (id ∷ []))) (AreIds-snoc o.pending id ids h)
            (holding-eq (settled held (bytes ++ end)) held o whole)
          ∙ ap (λ l. (holding l o', ret_ok)) none)

  pub framed-Settles :
      (w : Writer U) (id : ℕ) (bytes : List ℕ) (n : ℕ)
      → id ≤ id_max
      → Settles w bytes n
      → Settles (write_sequence_begin id >> w >> write_sequence_end) (frame id bytes) (suc n)
  framed-Settles w id bytes n h p o o' room ids e =
      let start = header id type_sequence_start in
      let opened : Settles (write_sequence_begin id >> w) (start ++ bytes) n =
        append-Settles (write_sequence_begin id) w start bytes n
          (content-Settles (write_sequence_begin id) start n (header_pos id type_sequence_start)
            (begin-IsContent id h))
          p in
      let (all, none) =
        settled_pos o.pending (start ++ bytes)
          (omega (arith, length-append start bytes, header_pos id type_sequence_start)) in
      let (m, e1, e2) =
        write_bytes_split (headers o.pending ++ (start ++ bytes)) (header 0 type_sequence_end) o
          {o' = o'}
          (rw (append_assoc (headers o.pending) (start ++ bytes) (header 0 type_sequence_end))
            (framed_bytes o id bytes e)) in
      rw (settled_pos o.pending (frame id bytes) (frame_pos id bytes)).1 (
        then_end (write_sequence_begin id >> w) o m
          (opened o m (omega arith) ids (rw all e1) ∙ ap (λ l. (holding l m, ret_ok)) none) e2)
