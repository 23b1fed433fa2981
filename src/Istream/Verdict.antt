-- ===== src/Istream/Verdict.antt =====
-- The byte loop of `sofab_istream_feed` on a stream whose `invalid` flag is set.
use corelib_c_cpp.Base.{
  ℕ, ◌+◌, ◌-◌, ◌*◌, ◌/◌, ◌^◌, Bool, true, false, not, ◌&&◌, List, [], ◌∷◌, ltb, leb, ◌==◌,
  if◌then◌else◌, bit_and, bit_or,
}
use corelib_c_cpp.Wire.{u64}
use corelib_c_cpp.Istream.{
  State, idle, varint_unsigned, varint_signed, fixlen_len, array_count, fixlen_val, fixlen_raw,
  Istream, Decoded, complete, more, overflow, varint_decode, varint_next,
}
use corelib_c_cpp.Istream.Callback.{Callbacks}
use corelib_c_cpp.Istream.Payload.{fixlen_val_state, fixlen_raw_state}
use corelib_c_cpp.Istream.Feed.{on_value, on_decoded, on_byte, step, feed_loop}
use corelib_c_cpp.Istream.Rejected.{
  IsInvalid, StaysInvalid, goes_on, rejects, StaysInvalid, then_next-StaysInvalid,
  varint_unsigned-StaysInvalid, varint_signed-StaysInvalid,
}
use corelib_c_cpp.Istream.RejectedPayload.{
  idle-StaysInvalid, array_count-StaysInvalid, fixlen_len-StaysInvalid, read_fixlen-IsInvalid,
  value_end-StaysInvalid, raw_end-StaysInvalid,
}

module _ {H U : Type 0} where
  module _ (call : Callbacks H U) (strict : Bool) where
    on_value-StaysInvalid :
        (state : State) (v : ℕ) (ctx : Istream H U)
        → IsInvalid ctx
        → StaysInvalid (on_value call strict state v ctx)
    unfolding on_value
    on_value-StaysInvalid idle v ctx e = idle-StaysInvalid call v ctx e
    on_value-StaysInvalid varint_unsigned v ctx e = varint_unsigned-StaysInvalid v ctx e
    on_value-StaysInvalid varint_signed v ctx e = varint_signed-StaysInvalid v ctx e
    on_value-StaysInvalid fixlen_len v ctx e = fixlen_len-StaysInvalid call strict v ctx e
    on_value-StaysInvalid array_count v ctx e = array_count-StaysInvalid call v ctx e
    on_value-StaysInvalid fixlen_val v ctx e = goes_on e
    on_value-StaysInvalid fixlen_raw v ctx e = goes_on e

    if-on_decoded :
        (b : Bool) (x y : Decoded (Istream H U))
        → StaysInvalid (on_decoded call strict x)
        → StaysInvalid (on_decoded call strict y)
        → StaysInvalid (on_decoded call strict (if b then x else y))
    if-on_decoded true x y p q = p
    if-on_decoded false x y p q = q

    varint_next-StaysInvalid :
        (b v : ℕ) (ctx : Istream H U)
        → IsInvalid ctx
        → StaysInvalid (on_decoded call strict (varint_next ctx b v))
    unfolding varint_next on_decoded
    varint_next-StaysInvalid b v ctx e =
        let ctx' : Istream H U = record ctx {
          varint_value = v;
          varint_shift = ctx.varint_shift + 7;
        } in
        let done : Istream H U = record ctx { varint_value = 0; varint_shift = 0 } in
        if-on_decoded (bit_and b 0x80 == 0) (complete v done)
          (if leb 64 ctx'.varint_shift then overflow ctx' else more ctx')
          (on_value-StaysInvalid ctx.decoder.state v done (record { flag = e.flag }))
          (if-on_decoded (leb 64 ctx'.varint_shift) (overflow ctx') (more ctx') rejects
            (goes_on (record { flag = e.flag })))

    varint_decode-StaysInvalid :
        (b : ℕ) (ctx : Istream H U)
        → IsInvalid ctx
        → StaysInvalid (on_decoded call strict (varint_decode ctx b))
    unfolding varint_decode on_decoded
    varint_decode-StaysInvalid b ctx e =
        let low = bit_and b 0x7f in
        let room = 64 - ctx.varint_shift in
        let wide = ltb room 7 && not (low / 2 ^ room == 0) in
        let taken : Decoded (Istream H U) =
          varint_next ctx b (bit_or ctx.varint_value (u64 (low * 2 ^ ctx.varint_shift))) in
        if-on_decoded (leb 64 ctx.varint_shift) (overflow ctx)
          (if wide then overflow ctx else taken) rejects
          (if-on_decoded wide (overflow ctx) taken rejects (varint_next-StaysInvalid b _ ctx e))

    on_byte-StaysInvalid :
        (state : State) (b : ℕ) (ctx : Istream H U)
        → IsInvalid ctx
        → StaysInvalid (on_byte call strict state b ctx)
    unfolding on_byte fixlen_val_state fixlen_raw_state
    on_byte-StaysInvalid idle b ctx e = varint_decode-StaysInvalid b ctx e
    on_byte-StaysInvalid varint_unsigned b ctx e = varint_decode-StaysInvalid b ctx e
    on_byte-StaysInvalid varint_signed b ctx e = varint_decode-StaysInvalid b ctx e
    on_byte-StaysInvalid fixlen_len b ctx e = varint_decode-StaysInvalid b ctx e
    on_byte-StaysInvalid array_count b ctx e = varint_decode-StaysInvalid b ctx e
    on_byte-StaysInvalid fixlen_val b ctx e =
        value_end-StaysInvalid _ (read_fixlen-IsInvalid b ctx e)
    on_byte-StaysInvalid fixlen_raw b ctx e =
        raw_end-StaysInvalid strict _ (read_fixlen-IsInvalid b ctx e)

    -- On a stream whose `invalid` flag is set the byte loop ends with a rejection, or it ends with
    -- SOFAB_RET_E_ARGUMENT or goes on, with the flag still set.
    pub feed_loop-StaysInvalid :
        (bytes : List ℕ) (ctx : Istream H U)
        → IsInvalid ctx
        → StaysInvalid (feed_loop call strict bytes ctx)
    unfolding feed_loop step
    feed_loop-StaysInvalid [] ctx e = goes_on e
    feed_loop-StaysInvalid (b ∷ bytes) ctx e =
        then_next-StaysInvalid (on_byte call strict ctx.decoder.state b ctx)
          (feed_loop call strict bytes) (on_byte-StaysInvalid ctx.decoder.state b ctx e)
          (λ c p. feed_loop-StaysInvalid bytes c p)
