-- ===== src/Cpp/Select.antt =====
-- The reads of sofab.hpp that select their destination only when the field is wanted. `select`
-- answers with the destination, and may change memory; `before` is the destination as it was.
use corelib_c_cpp.Base.{ℕ, Option, some, if◌then◌else◌}
use corelib_c_cpp.Wire.{type_fixlen, type_sequence_start, fixlentype_blob}
use corelib_c_cpp.Istream.Callback.{read_sequence, apply_call}
use corelib_c_cpp.Cpp.Refusal.{
  IstreamImpl, refuse_schema, refuse_unbounded, or_else, delivered, delivered_fix, note_skip,
}
use corelib_c_cpp.Cpp.Reader.{Text, Row, Elem, bind_blob, bind_array, array_tag_ok}

module _ {H U : Type 0} where
  unfoldable pub read_blob_select :
      ℕ
      → (IstreamImpl H U → Text × IstreamImpl H U)
      → Text
      → ℕ
      → Option ℕ
      → IstreamImpl H U
      → Text × IstreamImpl H U
  read_blob_select cap select before size maxlen is =
      if delivered_fix type_fixlen fixlentype_blob is
      then (let (refused, is') =
            or_else (refuse_unbounded maxlen (some cap) is) (refuse_schema size maxlen) in
          let (value, chosen) = select is' in
          if refused then (before, is') else bind_blob value size chosen)
      else (before, note_skip is)

  -- For a container with a capacity of its own.
  unfoldable pub read_array_select :
      Elem
      → ℕ
      → (IstreamImpl H U → Row × IstreamImpl H U)
      → Row
      → ℕ
      → Option ℕ
      → IstreamImpl H U
      → Row × IstreamImpl H U
  read_array_select elem room select before wire_count cap is =
      if array_tag_ok elem is
      then (let (refused, is') =
            or_else (refuse_unbounded cap (some room) is) (refuse_schema wire_count cap) in
          let (row, chosen) = select is' in
          if refused then (before, is') else bind_array row wire_count (some room) chosen)
      else (before, note_skip is)

  unfoldable pub read_sequence_select :
      {A : Type 0}
      → H
      → (A → A)
      → (IstreamImpl H U → A × IstreamImpl H U)
      → A
      → IstreamImpl H U
      → A × IstreamImpl H U
  read_sequence_select handler clear_out select before is =
      if delivered type_sequence_start is
      then (let (out, chosen) = select is in
          (clear_out out, apply_call (read_sequence handler) chosen))
      else (before, note_skip is)
