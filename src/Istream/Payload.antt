-- ===== src/Istream/Payload.antt =====
-- The states of `sofab_istream_feed` for fixed-length fields and for array counts. `strict` is
-- SOFAB_STRICT_UTF8.
use corelib_c_cpp.Base.{
  ℕ, zero, suc, ◌+◌, ◌-◌, ◌*◌, ◌/◌, ◌^◌, Bool, true, ◌&&◌, ◌||◌, Option, none, some, List, [], ◌∷◌,
  ltb, ◌==◌, if◌then◌else◌, bit_and, bit_or,
}
use corelib_c_cpp.Wire.{
  type_varintarray_unsigned, type_varintarray_signed, type_fixlenarray, fixlentype_string,
  fixlen_max, array_max,
}
use corelib_c_cpp.Utf8.{valid}
use corelib_c_cpp.Istream.{
  Memory, write, State, idle, varint_unsigned, varint_signed, fixlen_len, fixlen_val, fixlen_raw,
  Istream, set_state, fieldtype, opt_stringterm, size_pred, Outcome, next, reject, then_next,
}
use corelib_c_cpp.Istream.Callback.{
  Callbacks, call_field_callback, call_field_callback_masked, bind_array_count,
}
use corelib_c_cpp.Istream.Scalar.{advance}

-- The bytes of memory from `p` on.
unfoldable pub span : Memory → ℕ → ℕ → List ℕ
span mem p zero = []
span mem p (suc n) = mem p ∷ span mem (p + 1) n

-- `_OPT_FIXLENTYPE`
abbrev pub fixlentype : ℕ → ℕ
fixlentype opt = bit_and (opt / 8) 0x07

-- A byte at the target pointer, if there is one.
abbrev pub put : Memory → Option ℕ → ℕ → Memory
put mem none byte = mem
put mem (some p) byte = write mem p byte

-- The switch on the subtype in `case _DECODER_STATE_FIXLEN_LEN`: the state that reads the
-- payload, or `none` for a message that is rejected.
unfoldable pub payload_state : ℕ → ℕ → ℕ → Option State
payload_state fixlen_type fixlen_length opt =
    if fixlen_type == 0
    then (if fixlen_length == 4 then some fixlen_val else none)
    else if fixlen_type == 1
    then (if fixlen_length == 8 then some fixlen_val else none)
    else if fixlen_type == 2 || fixlen_type == 3
    then (if fieldtype opt == type_fixlenarray then none else some fixlen_raw)
    else none

module _ {H U : Type 0} where
  -- `_read_fixlen`: the remaining length is in the new state.
  unfoldable pub read_fixlen : Istream H U → ℕ → Istream H U
  read_fixlen ctx byte =
      let stored : Istream H U =
        if ltb 0 ctx.fixlen_remaining
        then record ctx {
          mem = put ctx.mem ctx.target_ptr byte;
          target_ptr = advance 1 ctx.target_ptr;
        }
        else ctx in
      record stored { fixlen_remaining = size_pred ctx.fixlen_remaining }

  -- `case _DECODER_STATE_FIXLEN_VAL`, after the byte is read.
  unfoldable pub value_end : Istream H U → Outcome (Istream H U)
  value_end ctx =
      let less : Istream H U = record ctx { target_count = size_pred ctx.target_count } in
      if ltb 0 ctx.fixlen_remaining
      then next ctx
      else if fieldtype ctx.target_opt == type_fixlenarray
      then (if ltb 0 less.target_count
          then next (record less { fixlen_remaining = ctx.target_len })
          else next (set_state idle less))
      else next (set_state idle ctx)

  unfoldable pub fixlen_val_state : ℕ → Istream H U → Outcome (Istream H U)
  fixlen_val_state byte ctx = value_end (read_fixlen ctx byte)

  -- The payload that `utf8_start` and `target_ptr` enclose is checked.
  unfoldable pub utf8_ok : Bool → Istream H U → Bool
  utf8_ok strict ctx =
      if strict
      then elim ctx.utf8_start [
        | none ↦ true
        | some start ↦ elim ctx.target_ptr [
          | none ↦ true
          | some p ↦ valid (span ctx.mem start (p - start))
        ]
      ]
      else true

  -- `case _DECODER_STATE_FIXLEN_RAW`, after the byte is read.
  unfoldable pub raw_end : Bool → Istream H U → Outcome (Istream H U)
  raw_end strict ctx =
      if ltb 0 ctx.fixlen_remaining
      then next ctx
      else if utf8_ok strict ctx
      then next (set_state idle ctx)
      else reject ctx

  unfoldable pub fixlen_raw_state : Bool → ℕ → Istream H U → Outcome (Istream H U)
  fixlen_raw_state strict byte ctx = raw_end strict (read_fixlen ctx byte)

  -- The length against the destination, and the terminator of a string.
  unfoldable pub check_length : ℕ → Istream H U → Outcome (Istream H U)
  check_length length ctx = elim ctx.target_ptr [
    | none ↦ next ctx
    | some p ↦
        if bit_and ctx.target_opt opt_stringterm == 0
        then (if ltb ctx.target_len length then reject ctx else next ctx)
        else if ltb (size_pred ctx.target_len) length
        then reject ctx
        else next (record ctx { mem = write ctx.mem (p + length) 0 })
  ]

  -- Where the payload of a string that is read begins.
  unfoldable pub string_start : ℕ → Istream H U → Option ℕ
  string_start length ctx =
      if fixlentype ctx.target_opt == fixlentype_string && ltb 0 length
      then ctx.target_ptr
      else none

  -- The end of `case _DECODER_STATE_FIXLEN_LEN`.
  unfoldable pub payload_begin : Bool → ℕ → Istream H U → Istream H U
  payload_begin strict length ctx =
      let marked : Istream H U =
        if strict then record ctx { utf8_start = string_start length ctx } else ctx in
      if fieldtype ctx.target_opt == type_fixlenarray && ctx.target_count == 0
      then set_state idle ctx
      else if ltb 0 length
      then record marked { fixlen_remaining = length }
      else set_state idle marked

  unfoldable pub bind_fixlen : Istream H U → Outcome (Istream H U)
  bind_fixlen ctx =
      if fieldtype ctx.target_opt == type_fixlenarray
      then bind_array_count ctx.array_wire_count ctx
      else next ctx

  module _ (call : Callbacks H U) (strict : Bool) where
    -- `case _DECODER_STATE_FIXLEN_LEN` once the subtype has been accepted.
    unfoldable pub fixlen_accepted : ℕ → ℕ → Istream H U → Outcome (Istream H U)
    fixlen_accepted fixlen_type length ctx =
        if ltb fixlen_max length
        then reject ctx
        else then_next
            (bind_fixlen (
              call_field_callback call (record ctx {
                target_opt = bit_or ctx.target_opt (fixlen_type * 2 ^ 3);
                target_len = length;
              })))
            (λ bound.
              then_next (check_length length bound)
                (λ checked. next (payload_begin strict length checked)))

    -- `case _DECODER_STATE_FIXLEN_LEN`
    unfoldable pub fixlen_len_state : ℕ → Istream H U → Outcome (Istream H U)
    fixlen_len_state decoded ctx =
        let fixlen_type = bit_and decoded 0x07 in
        let fixlen_length = decoded / 2 ^ 3 in
        elim (payload_state fixlen_type fixlen_length ctx.target_opt) [
          | none ↦ reject ctx
          | some state ↦ fixlen_accepted fixlen_type fixlen_length (set_state state ctx)
        ]

  module _ (call : Callbacks H U) where
    -- The state that reads the elements of an array.
    unfoldable pub array_state : ℕ → Istream H U → Istream H U
    array_state type ctx =
        if type == type_varintarray_unsigned
        then set_state varint_unsigned ctx
        else if type == type_varintarray_signed
        then set_state varint_signed ctx
        else if type == type_fixlenarray
        then set_state fixlen_len ctx
        else ctx

    -- `case _DECODER_STATE_ARRAY_COUNT` for an array of no elements.
    unfoldable pub array_empty : ℕ → Istream H U → Outcome (Istream H U)
    array_empty type ctx =
        if type == type_fixlenarray
        then next (set_state fixlen_len ctx)
        else then_next (bind_array_count 0 (call_field_callback_masked call 0x07 ctx))
            (λ bound. next (set_state idle bound))

    unfoldable pub array_begin : ℕ → ℕ → Istream H U → Outcome (Istream H U)
    array_begin type count ctx =
        if type == type_fixlenarray
        then next (array_state type ctx)
        else then_next (bind_array_count count (call_field_callback call ctx))
            (λ bound. next (array_state type bound))

    -- `case _DECODER_STATE_ARRAY_COUNT`
    unfoldable pub array_count_state : ℕ → Istream H U → Outcome (Istream H U)
    array_count_state count ctx =
        let seeded : Istream H U = record ctx { target_count = count; array_wire_count = count } in
        let type = fieldtype ctx.target_opt in
        if ltb array_max count
        then reject ctx
        else if count == 0
        then array_empty type seeded
        else array_begin type count seeded
