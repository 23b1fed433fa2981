-- ===== src/Cpp/Parts.antt =====
-- Messages as `serialize` functions write them through `OStreamImpl`, and as fields of the C stream.
use corelib_c_cpp.Base.{ℕ, Bool, true, false, if◌then◌else◌}
use corelib_c_cpp.Wire.{
  ret_ok, fixlentype_string, fixlentype_fp32, fixlentype_fp64, fixlentype_blob,
}
use corelib_c_cpp.Ostream.Content.{Leaf, unsigned, signed, fixlen, integers, floats}
use corelib_c_cpp.Ostream.Message.{Field, leaf, lazy, kept, Fields, nil, cons}
use corelib_c_cpp.Cpp.Output.{
  Step, Value, unsigned_value, signed_value, bool_value, fp32_value, fp64_value, text_value,
  blob_value, unsigned_array, signed_array, bool_array, fp32_array, fp64_array, write_value,
  write_message, write_lazy, chain,
}

-- A message as a `serialize` function writes it: values, and messages in it.
mutual
  pub data Part : Type 0 where
    value : ℕ → Value → Part
    message : ℕ → Parts → Part
    lazy_message : ℕ → Parts → Part

  pub data Parts : Type 0 where
    none_left : Parts
    then_part : Part → Parts → Parts

abbrev pub as_leaf : Value → Leaf
as_leaf (unsigned_value v) = unsigned v
as_leaf (signed_value v) = signed v
as_leaf (bool_value b) = unsigned (if b then 1 else 0)
as_leaf (fp32_value bytes) = fixlen bytes fixlentype_fp32
as_leaf (fp64_value bytes) = fixlen bytes fixlentype_fp64
as_leaf (text_value sv) = fixlen sv fixlentype_string
as_leaf (blob_value bytes) = fixlen bytes fixlentype_blob
as_leaf (unsigned_array bytes count size) = integers false bytes count size
as_leaf (signed_array bytes count size) = integers true bytes count size
as_leaf (bool_array bytes count) = integers false bytes count 1
as_leaf (fp32_array bytes count) = floats bytes count 4 fixlentype_fp32
as_leaf (fp64_array bytes count) = floats bytes count 8 fixlentype_fp64

-- The same message as fields of the C stream.
abbrev mutual
  pub as_field : Part → Field
  as_field (value id v) = leaf id (as_leaf v)
  as_field (message id ps) = kept id (as_fields ps)
  as_field (lazy_message id ps) = lazy id (as_fields ps)

  pub as_fields : Parts → Fields
  as_fields none_left = nil
  as_fields (then_part p ps) = cons (as_field p) (as_fields ps)

-- The writes, chained.
abbrev mutual
  pub write_part : {U : Type 0} → Bool → Part → Step U
  write_part strict (value id v) = write_value strict id v
  write_part strict (message id ps) = write_message id (serialize strict ps)
  write_part strict (lazy_message id ps) = write_lazy id (serialize strict ps)

  pub serialize : {U : Type 0} → Bool → Parts → Step U
  serialize strict none_left os = (os, ret_ok)
  serialize strict (then_part p ps) os = chain (write_part strict p os) (serialize strict ps)
