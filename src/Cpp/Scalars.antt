-- ===== src/Cpp/Scalars.antt =====
-- The reads of a scalar in sofab.hpp: `read` and `readMatch`.
use corelib_c_cpp.Base.{ℕ, ◌≡◌, refl, Bool, bit_or}
use corelib_c_cpp.Wire.{
  type_varint_unsigned, type_varint_signed, type_fixlen, fixlentype_fp32, fixlentype_fp64,
}
use corelib_c_cpp.Istream.{opt_boolean}
use corelib_c_cpp.Istream.Callback.{read_field, apply_call}
use corelib_c_cpp.Istream.Reads.{opt_fieldtype, opt_fixlentype, read_bool, read_fp32, read_fp64}
use corelib_c_cpp.Cpp.Refusal.{IstreamImpl, bind_match}

-- The arithmetic types, an integer with its width.
pub data Scalar : Type 0 where
  unsigned_scalar signed_scalar : ℕ → Scalar
  bool_scalar fp32_scalar fp64_scalar : Scalar

module _ {H U : Type 0} where
  unfoldable pub read_match : Scalar → ℕ → IstreamImpl H U → Bool × IstreamImpl H U
  read_match (unsigned_scalar size) var = bind_match var size (opt_fieldtype type_varint_unsigned)
  read_match (signed_scalar size) var = bind_match var size (opt_fieldtype type_varint_signed)
  read_match bool_scalar var =
      bind_match var 1 (bit_or (opt_fieldtype type_varint_unsigned) opt_boolean)
  read_match fp32_scalar var =
      bind_match var 4 (bit_or (opt_fieldtype type_fixlen) (opt_fixlentype fixlentype_fp32))
  read_match fp64_scalar var =
      bind_match var 8 (bit_or (opt_fieldtype type_fixlen) (opt_fixlentype fixlentype_fp64))

  unfoldable pub read_scalar : Scalar → ℕ → IstreamImpl H U → IstreamImpl H U
  read_scalar (unsigned_scalar size) var =
      apply_call (read_field var size (opt_fieldtype type_varint_unsigned))
  read_scalar (signed_scalar size) var =
      apply_call (read_field var size (opt_fieldtype type_varint_signed))
  read_scalar bool_scalar var = apply_call (read_bool var)
  read_scalar fp32_scalar var = apply_call (read_fp32 var)
  read_scalar fp64_scalar var = apply_call (read_fp64 var)

  -- `readMatch` binds what `read` binds.
  read_match-read_scalar :
      (scalar : Scalar) (var : ℕ) (is : IstreamImpl H U)
      → (read_match scalar var is).1 ≡ read_scalar scalar var is
  unfolding read_match read_scalar bind_match apply_call read_bool read_fp32 read_fp64
  read_match-read_scalar (unsigned_scalar size) var is = refl
  read_match-read_scalar (signed_scalar size) var is = refl
  read_match-read_scalar bool_scalar var is = refl
  read_match-read_scalar fp32_scalar var is = refl
  read_match-read_scalar fp64_scalar var is = refl
