-- ===== src/Ostream/Message.antt =====
-- Whole messages: nested fields written through the sequence writers, against the canonical
-- encoding, which leaves out every lazily opened sequence without content.
use corelib_c_cpp.Base.{ℕ, suc, ◌≤◌, Bool, List, [], ◌∷◌, ◌++◌}
use Prim.Native.Nat.{max}
use corelib_c_cpp.Wire.{ret_ok, id_max, type_sequence_start, type_sequence_end}
use corelib_c_cpp.Ostream.{Writer, ◌>>◌}
use corelib_c_cpp.Ostream.Commit.{header}
use corelib_c_cpp.Ostream.Content.{Leaf, write_leaf, leaf_bytes, IsLeaf}
use corelib_c_cpp.Ostream.Sequences.{
  write_sequence_begin, write_sequence_begin_lazy, write_sequence_end, write_sequence_end_keep,
}

-- A field as the callers of the API write it: a value, a sequence opened lazily and closed by
-- `end` or by `end_keep`, or a sequence opened eagerly.
mutual
  pub data Field : Type 0 where
    leaf : ℕ → Leaf → Field
    lazy : ℕ → Fields → Field
    kept : ℕ → Fields → Field
    framed : ℕ → Fields → Field

  pub data Fields : Type 0 where
    nil : Fields
    cons : Field → Fields → Fields

-- The calls.
unfoldable mutual
  pub write_field : {U : Type 0} → Bool → Field → Writer U
  write_field strict (leaf id l) = write_leaf strict id l
  write_field strict (lazy id fs) =
      write_sequence_begin_lazy id >> write_fields strict fs >> write_sequence_end
  write_field strict (kept id fs) =
      write_sequence_begin_lazy id >> write_fields strict fs >> write_sequence_end_keep
  write_field strict (framed id fs) =
      write_sequence_begin id >> write_fields strict fs >> write_sequence_end

  pub write_fields : {U : Type 0} → Bool → Fields → Writer U
  write_fields strict nil = λ o. (o, ret_ok)
  write_fields strict (cons f fs) = write_field strict f >> write_fields strict fs

-- The frame of a sequence round its content.
abbrev pub frame : ℕ → List ℕ → List ℕ
frame id bytes = header id type_sequence_start ++ bytes ++ header 0 type_sequence_end

abbrev pub frame_if_any : ℕ → List ℕ → List ℕ
frame_if_any id [] = []
frame_if_any id (b ∷ bytes) = frame id (b ∷ bytes)

-- The canonical encoding.
unfoldable mutual
  pub field_bytes : Field → List ℕ
  field_bytes (leaf id l) = leaf_bytes id l
  field_bytes (lazy id fs) = frame_if_any id (fields_bytes fs)
  field_bytes (kept id fs) = frame id (fields_bytes fs)
  field_bytes (framed id fs) = frame id (fields_bytes fs)

  pub fields_bytes : Fields → List ℕ
  fields_bytes nil = []
  fields_bytes (cons f fs) = field_bytes f ++ fields_bytes fs

-- How many sequences may be held back at once.
unfoldable mutual
  pub depth : Field → ℕ
  depth (leaf id l) = 0
  depth (lazy id fs) = suc (depth_fields fs)
  depth (kept id fs) = suc (depth_fields fs)
  depth (framed id fs) = suc (depth_fields fs)

  pub depth_fields : Fields → ℕ
  depth_fields nil = 0
  depth_fields (cons f fs) = max (depth f) (depth_fields fs)

-- Ids and values within the limits of the API.
abbrev mutual
  pub IsField : Bool → Field → Type 0
  IsField strict (leaf id l) = (id ≤ id_max) × IsLeaf strict l
  IsField strict (lazy id fs) = (id ≤ id_max) × IsFields strict fs
  IsField strict (kept id fs) = (id ≤ id_max) × IsFields strict fs
  IsField strict (framed id fs) = (id ≤ id_max) × IsFields strict fs

  pub IsFields : Bool → Fields → Type 0
  IsFields strict nil = Unit
  IsFields strict (cons f fs) = IsField strict f × IsFields strict fs
