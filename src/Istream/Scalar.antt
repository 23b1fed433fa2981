-- ===== src/Istream/Scalar.antt =====
-- The states of `sofab_istream_feed` that store a varint value.
use corelib_c_cpp.Base.{
  ℕ, zero, suc, ◌+◌, ◌-◌, ◌*◌, ◌/◌, ◌%◌, ◌^◌, Bool, true, ◌||◌, Option, none, some, leb, ltb, ◌==◌,
  if◌then◌else◌, bit_and,
}
use corelib_c_cpp.Wire.{type_varintarray_unsigned, type_varintarray_signed}
use corelib_c_cpp.Wire.Zigzag.{asr, zigzag_decode}
use corelib_c_cpp.Istream.{
  Memory, write, idle, Istream, set_state, fieldtype, opt_boolean, size_pred, Outcome, next, reject,
  bad_argument,
}

-- `_fits_unsigned_n`
unfoldable pub fits_unsigned_n : ℕ → ℕ → Bool
fits_unsigned_n x n = if leb 64 n then true else x / 2 ^ n == 0

-- `_fits_signed_n`, on a two's complement pattern.
unfoldable pub fits_signed_n : ℕ → ℕ → Bool
fits_signed_n x n = if leb 64 n then true else asr x (n - 1) == asr x 63

-- The low `n` bytes of a value, lowest first.
unfoldable pub store_bytes : Memory → ℕ → ℕ → ℕ → Memory
store_bytes mem p zero value = mem
store_bytes mem p (suc n) value = store_bytes (write mem p (value % 256)) (p + 1) n (value / 256)

-- `_store_scalar`: `none` is -1.
unfoldable pub store_scalar : Memory → ℕ → ℕ → ℕ → Option Memory
store_scalar mem p len value =
    if len == 1 || len == 2 || len == 4 || len == 8
    then some (store_bytes mem p len value)
    else none

abbrev pub advance : ℕ → Option ℕ → Option ℕ
advance n none = none
advance n (some p) = some (p + n)

-- A boolean is stored as 0 or 1.
unfoldable pub normalize : ℕ → ℕ → ℕ
normalize opt value = if bit_and opt opt_boolean == 0 then value else if value == 0 then 0 else 1

module _ {H U : Type 0} where
  -- The end of both states: an array goes on with its next element.
  unfoldable pub element_end : ℕ → Istream H U → Outcome (Istream H U)
  element_end array_type ctx =
      let moved : Istream H U = record ctx {
        target_ptr = advance ctx.target_len ctx.target_ptr;
        target_count = size_pred ctx.target_count;
      } in
      if fieldtype ctx.target_opt == array_type
      then (if ltb 0 moved.target_count then next moved else next (set_state idle moved))
      else next (set_state idle ctx)

  -- A value in memory is kept if it fits the width.
  unfoldable pub store_value : Istream H U → ℕ → (ℕ → ℕ → Bool) → ℕ → ℕ → Outcome (Istream H U)
  store_value ctx p fits array_type value = elim (store_scalar ctx.mem p ctx.target_len value) [
    | none ↦ bad_argument ctx
    | some mem ↦
        if fits value (ctx.target_len * 8)
        then element_end array_type (record ctx { mem = mem })
        else reject (record ctx { mem = mem })
  ]

  -- `case _DECODER_STATE_VARINT_UNSIGNED`
  unfoldable pub varint_unsigned_state : ℕ → Istream H U → Outcome (Istream H U)
  varint_unsigned_state decoded ctx = elim ctx.target_ptr [
    | none ↦ element_end type_varintarray_unsigned ctx
    | some p ↦
        store_value ctx p fits_unsigned_n type_varintarray_unsigned
          (normalize ctx.target_opt decoded)
  ]

  -- `case _DECODER_STATE_VARINT_SIGNED`
  unfoldable pub varint_signed_state : ℕ → Istream H U → Outcome (Istream H U)
  varint_signed_state decoded ctx = elim ctx.target_ptr [
    | none ↦ element_end type_varintarray_signed ctx
    | some p ↦ store_value ctx p fits_signed_n type_varintarray_signed (zigzag_decode decoded)
  ]
