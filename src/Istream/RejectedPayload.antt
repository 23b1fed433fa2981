-- ===== src/Istream/RejectedPayload.antt =====
-- Streams that carry the `invalid` flag, through the states that read a payload or a header.
use corelib_c_cpp.Base.{ℕ, ◌*◌, ◌/◌, ◌^◌, Bool, ◌&&◌, ltb, ◌==◌, if◌then◌else◌, bit_and, bit_or}
use corelib_c_cpp.Wire.{
  type_varintarray_unsigned, type_varintarray_signed, fixlen_max, array_max, type_fixlenarray,
}
use corelib_c_cpp.Istream.{
  idle, varint_unsigned, varint_signed, fixlen_len, Istream, fieldtype, size_pred, Outcome, next,
  reject, then_next, set_state,
}
use corelib_c_cpp.Istream.Callback.{
  Callbacks, call_field_callback, call_field_callback_masked, bind_array_count,
}
use corelib_c_cpp.Istream.Scalar.{advance}
use corelib_c_cpp.Istream.Payload.{
  put, string_start, utf8_ok, read_fixlen, value_end, raw_end, payload_state, check_length,
  payload_begin, bind_fixlen, fixlen_accepted, fixlen_len_state, array_state, array_empty,
  array_begin, array_count_state,
}
use corelib_c_cpp.Istream.Idle.{idle_state}
use corelib_c_cpp.Istream.Rejected.{
  callback-IsInvalid, IsInvalid, StaysInvalid, goes_on, rejects, StaysInvalid, if-StaysInvalid,
  if-IsInvalid, Option-StaysInvalid, then_next-StaysInvalid,
}

module _ {H U : Type 0} where
  pub read_fixlen-IsInvalid :
      (b : ℕ) (ctx : Istream H U) → IsInvalid ctx → IsInvalid (read_fixlen ctx b)
  unfolding read_fixlen
  read_fixlen-IsInvalid b ctx e = record {
    flag =
        (if-IsInvalid (ltb 0 ctx.fixlen_remaining)
          (record ctx { mem = put ctx.mem ctx.target_ptr b; target_ptr = advance 1 ctx.target_ptr })
          ctx (record { flag = e.flag }) e).flag;
  }

  pub value_end-StaysInvalid : (ctx : Istream H U) → IsInvalid ctx → StaysInvalid (value_end ctx)
  unfolding value_end
  value_end-StaysInvalid ctx e =
      let less : Istream H U = record ctx { target_count = size_pred ctx.target_count } in
      let again : Outcome (Istream H U) =
        next (record less { fixlen_remaining = ctx.target_len }) in
      let array : Outcome (Istream H U) =
        if ltb 0 less.target_count then again else next (set_state idle less) in
      if-StaysInvalid (ltb 0 ctx.fixlen_remaining) (next ctx)
        (if fieldtype ctx.target_opt == type_fixlenarray then array else next (set_state idle ctx))
        (goes_on e)
        (if-StaysInvalid (fieldtype ctx.target_opt == type_fixlenarray) array
          (next (set_state idle ctx))
          (if-StaysInvalid (ltb 0 less.target_count) again (next (set_state idle less))
            (goes_on (record { flag = e.flag })) (goes_on (record { flag = e.flag })))
          (goes_on (record { flag = e.flag })))

  pub raw_end-StaysInvalid :
      (strict : Bool) (ctx : Istream H U) → IsInvalid ctx → StaysInvalid (raw_end strict ctx)
  unfolding raw_end
  raw_end-StaysInvalid strict ctx e =
      if-StaysInvalid (ltb 0 ctx.fixlen_remaining) (next ctx)
        (if utf8_ok strict ctx then next (set_state idle ctx) else reject ctx) (goes_on e)
        (if-StaysInvalid (utf8_ok strict ctx) (next (set_state idle ctx)) (reject ctx)
          (goes_on (record { flag = e.flag })) rejects)

  pub check_length-StaysInvalid :
      (n : ℕ) (ctx : Istream H U) → IsInvalid ctx → StaysInvalid (check_length n ctx)
  unfolding check_length
  check_length-StaysInvalid n ctx e = Option-StaysInvalid ctx.target_ptr _ _ (goes_on e) (λ p.
      if-StaysInvalid _ _ _ (if-StaysInvalid _ _ _ rejects (goes_on e))
        (if-StaysInvalid _ _ _ rejects (goes_on (record { flag = e.flag }))))

  pub bind_array_count-StaysInvalid :
      (n : ℕ) (ctx : Istream H U) → IsInvalid ctx → StaysInvalid (bind_array_count n ctx)
  unfolding bind_array_count
  bind_array_count-StaysInvalid n ctx e =
      Option-StaysInvalid ctx.target_ptr _ _ (goes_on e)
        (λ p. if-StaysInvalid _ _ _ rejects (goes_on (record { flag = e.flag })))

  pub payload_begin-IsInvalid :
      (strict : Bool) (n : ℕ) (ctx : Istream H U)
      → IsInvalid ctx
      → IsInvalid (payload_begin strict n ctx)
  unfolding payload_begin
  payload_begin-IsInvalid strict n ctx e =
      let marked : Istream H U =
        if strict then record ctx { utf8_start = string_start n ctx } else ctx in
      let m : IsInvalid marked =
        if-IsInvalid strict (record ctx { utf8_start = string_start n ctx }) ctx
          (record { flag = e.flag }) e in
      if-IsInvalid (fieldtype ctx.target_opt == type_fixlenarray && ctx.target_count == 0)
        (set_state idle ctx)
        (if ltb 0 n then record marked { fixlen_remaining = n } else set_state idle marked)
        (record { flag = e.flag })
        (if-IsInvalid (ltb 0 n) (record marked { fixlen_remaining = n }) (set_state idle marked)
          (record { flag = m.flag }) (record { flag = m.flag }))

  pub array_state-IsInvalid :
      (call : Callbacks H U) (t : ℕ) (ctx : Istream H U)
      → IsInvalid ctx
      → IsInvalid (array_state call t ctx)
  unfolding array_state
  array_state-IsInvalid call t ctx e =
      let signed : Istream H U = set_state varint_signed ctx in
      let fixlen : Istream H U = if t == type_fixlenarray then set_state fixlen_len ctx else ctx in
      if-IsInvalid (t == type_varintarray_unsigned) (set_state varint_unsigned ctx)
        (if t == type_varintarray_signed then signed else fixlen) (record { flag = e.flag })
        (if-IsInvalid (t == type_varintarray_signed) signed fixlen (record { flag = e.flag })
          (if-IsInvalid (t == type_fixlenarray) (set_state fixlen_len ctx) ctx
            (record { flag = e.flag }) e))

  module _ (call : Callbacks H U) where
    bind_then :
        (n m : ℕ) (ctx : Istream H U) (f : Istream H U → Istream H U)
        → IsInvalid ctx
        → ((c : Istream H U) → IsInvalid c → IsInvalid (f c))
        → StaysInvalid (
            then_next
              (bind_array_count n (call_field_callback_masked call m ctx))
              (λ bound. next (f bound)))
    bind_then n m ctx f e q =
        then_next-StaysInvalid (bind_array_count n (call_field_callback_masked call m ctx))
          (λ bound. next (f bound))
          (bind_array_count-StaysInvalid n _ (callback-IsInvalid call m ctx e))
          (λ c p. goes_on (q c p))

    pub array_count-StaysInvalid :
        (n : ℕ) (ctx : Istream H U) → IsInvalid ctx → StaysInvalid (array_count_state call n ctx)
    unfolding array_count_state array_empty array_begin call_field_callback
    array_count-StaysInvalid n ctx e =
        let seeded : Istream H U = record ctx { target_count = n; array_wire_count = n } in
        let type = fieldtype ctx.target_opt in
        let s : IsInvalid seeded = record { flag = e.flag } in
        if-StaysInvalid (ltb array_max n) (reject ctx)
          (if n == 0 then array_empty call type seeded else array_begin call type n seeded) rejects
          (if-StaysInvalid (n == 0) (array_empty call type seeded) (array_begin call type n seeded)
            (if-StaysInvalid (type == type_fixlenarray) (next (set_state fixlen_len seeded))
              (then_next (bind_array_count 0 (call_field_callback_masked call 0x07 seeded))
                (λ bound. next (set_state idle bound)))
              (goes_on (record { flag = e.flag }))
              (bind_then 0 0x07 seeded (set_state idle) s (λ c p. record { flag = p.flag })))
            (if-StaysInvalid (type == type_fixlenarray) (next (array_state call type seeded))
              (then_next (bind_array_count n (call_field_callback_masked call 0x3f seeded))
                (λ bound. next (array_state call type bound)))
              (goes_on (array_state-IsInvalid call type seeded s))
              (bind_then n 0x3f seeded (array_state call type) s
                (array_state-IsInvalid call type))))

    pub idle-StaysInvalid :
        (v : ℕ) (ctx : Istream H U) → IsInvalid ctx → StaysInvalid (idle_state call v ctx)
    unfolding idle_state
    idle-StaysInvalid v ctx e = rw e.flag rejects

  module _ (call : Callbacks H U) (strict : Bool) where
    fixlen_accepted-StaysInvalid :
        (t n : ℕ) (ctx : Istream H U)
        → IsInvalid ctx
        → StaysInvalid (fixlen_accepted call strict t n ctx)
    unfolding fixlen_accepted bind_fixlen call_field_callback
    fixlen_accepted-StaysInvalid t n ctx e =
        let asked : Istream H U = record ctx {
          target_opt = bit_or ctx.target_opt (t * 2 ^ 3);
          target_len = n;
        } in
        let told = callback-IsInvalid call 0x3f asked (record { flag = e.flag }) in
        let answered : Istream H U = call_field_callback_masked call 0x3f asked in
        if-StaysInvalid (ltb fixlen_max n) (reject ctx) _ rejects (
          then_next-StaysInvalid (bind_fixlen answered) _
            (if-StaysInvalid (fieldtype answered.target_opt == type_fixlenarray)
              (bind_array_count answered.array_wire_count answered) (next answered)
              (bind_array_count-StaysInvalid _ answered told) (goes_on told))
            (λ c p.
              then_next-StaysInvalid (check_length n c) _ (check_length-StaysInvalid n c p)
                (λ d q. goes_on (payload_begin-IsInvalid strict n d q))))

    pub fixlen_len-StaysInvalid :
        (v : ℕ) (ctx : Istream H U)
        → IsInvalid ctx
        → StaysInvalid (fixlen_len_state call strict v ctx)
    unfolding fixlen_len_state
    fixlen_len-StaysInvalid v ctx e =
        Option-StaysInvalid (payload_state (bit_and v 0x07) (v / 2 ^ 3) ctx.target_opt) _ _ rejects
          (λ state.
            fixlen_accepted-StaysInvalid _ _ (set_state state ctx) (record { flag = e.flag }))
