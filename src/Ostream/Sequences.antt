-- ===== src/Ostream/Sequences.antt =====
-- The sequence writers of ostream.c: eager and lazy opening, and the two ways to close.
use corelib_c_cpp.Base.{ℕ, ◌-◌, true, [], ◌∷◌, ◌++◌, ltb, if◌then◌else◌, length, take}
use corelib_c_cpp.Wire.{
  ret_ok, e_argument, id_max, lazy_seq_depth, type_sequence_start, type_sequence_end,
}
use corelib_c_cpp.Ostream.{Writer, ◌>>◌, has_pending, commit_if, commit_pending, write_id_type}

module _ {U : Type 0} where
  -- A framed sequence is content for everything enclosing it, so the held-back run goes first.
  unfoldable pub write_sequence_begin : ℕ → Writer U
  write_sequence_begin id = commit_if true >> write_id_type id type_sequence_start

  -- `ctx->pending[ctx->npending++] = id` while there is room in the window.
  unfoldable pub write_sequence_begin_lazy : ℕ → Writer U
  write_sequence_begin_lazy id o =
      if ltb id_max id
      then (o, e_argument)
      else if ltb (length o.pending) lazy_seq_depth
      then (record o { pending = o.pending ++ id ∷ [] }, ret_ok)
      else (commit_pending >> write_id_type id type_sequence_start) o

  unfoldable pub write_sequence_end_keep : Writer U
  write_sequence_end_keep = commit_if true >> write_id_type 0 type_sequence_end

  -- The innermost open sequence is the last held-back one, if any: then `ctx->npending--`.
  unfoldable pub write_sequence_end : Writer U
  write_sequence_end o =
      if has_pending o
      then (record o { pending = take (length o.pending - 1) o.pending }, ret_ok)
      else write_id_type 0 type_sequence_end o
