-- ===== src/Istream/Feed.antt =====
-- The byte loop of `sofab_istream_feed`.
use corelib_c_cpp.Base.{ℕ, Bool, List, [], ◌∷◌, if◌then◌else◌}
use corelib_c_cpp.Wire.{Ret, ret_ok, ret_incomplete, e_argument, e_invalid_msg}
use corelib_c_cpp.Istream.{
  State, idle, varint_unsigned, varint_signed, fixlen_len, array_count, fixlen_val, fixlen_raw,
  Istream, Outcome, next, reject, bad_argument, then_next, Decoded, complete, more, overflow,
  varint_decode, at_message_boundary, invalidate,
}
use corelib_c_cpp.Istream.Callback.{Callbacks}
use corelib_c_cpp.Istream.Scalar.{varint_unsigned_state, varint_signed_state}
use corelib_c_cpp.Istream.Payload.{
  fixlen_len_state, fixlen_val_state, fixlen_raw_state, array_count_state,
}
use corelib_c_cpp.Istream.Idle.{idle_state}

module _ {H U : Type 0} where
  -- The end of `sofab_istream_feed`, its `invalid:` label included.
  unfoldable pub finish : Outcome (Istream H U) → Ret × Istream H U
  finish (next ctx) =
      if ctx.invalid
      then (e_invalid_msg, invalidate ctx)
      else (if at_message_boundary ctx then ret_ok else ret_incomplete, ctx)
  finish (reject ctx) = (e_invalid_msg, invalidate ctx)
  finish (bad_argument ctx) = (e_argument, ctx)

module _ {H U : Type 0} (call : Callbacks H U) (strict : Bool) where
  -- The switch on the state, for the states that begin with a varint.
  unfoldable pub on_value : State → ℕ → Istream H U → Outcome (Istream H U)
  on_value idle value ctx = idle_state call value ctx
  on_value varint_unsigned value ctx = varint_unsigned_state value ctx
  on_value varint_signed value ctx = varint_signed_state value ctx
  on_value fixlen_len value ctx = fixlen_len_state call strict value ctx
  on_value array_count value ctx = array_count_state call value ctx
  on_value fixlen_val value ctx = next ctx
  on_value fixlen_raw value ctx = next ctx

  -- What a varint that has ended, or not, leads to.
  unfoldable pub on_decoded : Decoded (Istream H U) → Outcome (Istream H U)
  on_decoded (complete value ctx) = on_value ctx.decoder.state value ctx
  on_decoded (more ctx) = next ctx
  on_decoded (overflow ctx) = reject ctx

  -- One byte in each state.
  unfoldable pub on_byte : State → ℕ → Istream H U → Outcome (Istream H U)
  on_byte fixlen_val byte ctx = fixlen_val_state byte ctx
  on_byte fixlen_raw byte ctx = fixlen_raw_state strict byte ctx
  on_byte state byte ctx = on_decoded (varint_decode ctx byte)

  unfoldable pub step : ℕ → Istream H U → Outcome (Istream H U)
  step byte ctx = on_byte ctx.decoder.state byte ctx

  unfoldable pub feed_loop : List ℕ → Istream H U → Outcome (Istream H U)
  feed_loop [] ctx = next ctx
  feed_loop (byte ∷ bytes) ctx = then_next (step byte ctx) (feed_loop bytes)

  unfoldable pub feed : List ℕ → Istream H U → Ret × Istream H U
  feed bytes ctx = if ctx.invalid then (e_invalid_msg, ctx) else finish (feed_loop bytes ctx)
