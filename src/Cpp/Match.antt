-- ===== src/Cpp/Match.antt =====
-- `bindMatch_` of sofab.hpp against the stream's own test of what a callback bound.
use corelib_c_cpp.Base.{ℕ, ◌*◌, ◌^◌, ◌%◌, ◌==◌, if◌then◌else◌, ◌≡◌, refl, bit_and, bit_xor, arith}
use corelib_c_cpp.Base.Bits.{bit_and-mask, bit_xor_comm}
use corelib_c_cpp.Istream.Callback.{verify_bound, unbind}
use corelib_c_cpp.Cpp.Refusal.{IstreamImpl, bind_match}

-- The six low bits, by the shift in 32 bits and by the mask.
low_six : (d : ℕ) → ((d * 2 ^ 26) % 2 ^ 32 == 0) ≡ (bit_and d 0x3f == 0)
low_six d = rw (bit_and-mask 6 d) ground arith

module _ {H U : Type 0} where
  -- `readMatch` answers as the stream decides after the callback: when it says that the tags
  -- agree the stream keeps what it bound, and otherwise the stream undoes and counts it.
  pub verify_bound-bind_match :
      (var len opt field_len field_count : ℕ) (is : IstreamImpl H U)
      → verify_bound 0x3f is.target_opt field_len field_count (bind_match var len opt is).1 ≡ (
          if (bind_match var len opt is).0
          then (bind_match var len opt is).1
          else unbind is.target_opt field_len field_count (bind_match var len opt is).1)
  unfolding verify_bound bind_match
  verify_bound-bind_match var len opt field_len field_count is =
      rw (bit_xor_comm opt is.target_opt, low_six (bit_xor is.target_opt opt)) refl
