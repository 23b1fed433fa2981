-- ===== src/Cpp/Output.antt =====
-- `OStreamImpl` of sofab.hpp: the output stream with its sticky failure, and its writes, which
-- call those of the C stream. A value is written as its type has it; spans are shorter than 2 ^ 31.
use corelib_c_cpp.Base.{ℕ, Bool, List, length, ltb, if◌then◌else◌}
use corelib_c_cpp.Wire.{Ret, ret_ok, e_argument, fixlen_max, fixlentype_string}
use corelib_c_cpp.Ostream.{Ostream, Writer}
use corelib_c_cpp.Ostream.Fields.{
  write_unsigned, write_signed, write_boolean, write_fixlen, write_fp32, write_fp64, write_blob,
}
use corelib_c_cpp.Ostream.Arrays.{
  write_array_of_unsigned, write_array_of_signed, write_array_of_fp32, write_array_of_fp64,
}
use corelib_c_cpp.Ostream.Sequences.{
  write_sequence_begin_lazy, write_sequence_end, write_sequence_end_keep,
}
use corelib_c_cpp.Cpp.Refusal.{is_ok}

-- `ctx_` and `failed_`.
pub record OstreamImpl (U : Type 0) : Type 0 where
  pub ctx : Ostream U
  pub failed : Ret

-- A function that returns a `Result`: the stream and the code of the call.
abbrev pub Step : Type 0 → Type 0
Step U = OstreamImpl U → OstreamImpl U × Ret

-- The types that `write` tells apart: a float by its bytes, an array by those of its elements.
pub data Value : Type 0 where
  unsigned_value signed_value : ℕ → Value
  bool_value : Bool → Value
  fp32_value fp64_value text_value blob_value : List ℕ → Value
  unsigned_array signed_array : List ℕ → ℕ → ℕ → Value
  bool_array fp32_array fp64_array : List ℕ → ℕ → Value

module _ {U : Type 0} where
  -- `result`: the first failure stays.
  unfoldable pub result : Ret → Step U
  result ret os = (record os { failed = if is_ok os.failed then ret else os.failed }, ret)

  -- A call of the C stream, and `result` of what it returns.
  abbrev pub call : Writer U → Step U
  call writer os = let (o, ret) = writer os.ctx in result ret (record os { ctx = o })

  unfoldable pub write_value : Bool → ℕ → Value → Step U
  write_value strict id (unsigned_value v) = call (write_unsigned id v)
  write_value strict id (signed_value v) = call (write_signed id v)
  write_value strict id (bool_value b) = call (write_boolean id b)
  write_value strict id (fp32_value bytes) = call (write_fp32 strict id bytes)
  write_value strict id (fp64_value bytes) = call (write_fp64 strict id bytes)
  write_value strict id (text_value sv) = λ os.
      if ltb fixlen_max (length sv)
      then result e_argument os
      else call (write_fixlen strict id sv fixlentype_string) os
  write_value strict id (blob_value bytes) = call (write_blob strict id bytes)
  write_value strict id (unsigned_array bytes count size) =
      call (write_array_of_unsigned id bytes count size)
  write_value strict id (signed_array bytes count size) =
      call (write_array_of_signed id bytes count size)
  write_value strict id (bool_array bytes count) = call (write_array_of_unsigned id bytes count 1)
  write_value strict id (fp32_array bytes count) = call (write_array_of_fp32 id bytes count)
  write_value strict id (fp64_array bytes count) = call (write_array_of_fp64 id bytes count)

  unfoldable pub impl_sequence_begin_lazy : ℕ → Step U
  impl_sequence_begin_lazy id = call (write_sequence_begin_lazy id)

  unfoldable pub impl_sequence_end : Step U
  impl_sequence_end = call write_sequence_end

  unfoldable pub impl_sequence_end_keep : Step U
  impl_sequence_end_keep = call write_sequence_end_keep

  -- A nested message between the calls that open and close it. It is closed also when `serialize`
  -- has failed, and then the code of `serialize` is the answer.
  unfoldable pub in_sequence : Step U → Step U → Step U → Step U
  in_sequence begin serialize close os =
      let (opened, ret) = begin os in
      let (inside, sret) = serialize opened in
      let (closed, cret) = close inside in
      if is_ok ret then result (if is_ok sret then cret else sret) closed else result ret opened

  -- `write` of an `OStreamMessage`.
  unfoldable pub write_message : ℕ → Step U → Step U
  write_message id serialize =
      in_sequence (impl_sequence_begin_lazy id) serialize impl_sequence_end_keep

  unfoldable pub write_lazy : ℕ → Step U → Step U
  write_lazy id serialize = in_sequence (impl_sequence_begin_lazy id) serialize impl_sequence_end

  unfoldable pub write_if : Step U → Bool → Step U
  write_if write condition os = if condition then write os else result ret_ok os

  -- `Result::write` and its kin: after a failure nothing is called.
  unfoldable pub chain : OstreamImpl U × Ret → Step U → OstreamImpl U × Ret
  chain r step = if is_ok r.1 then step r.0 else r
