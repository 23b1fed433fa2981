-- ===== src/Istream/Idle.antt =====
-- `case _DECODER_STATE_IDLE` of `sofab_istream_feed`: a field header.
use corelib_c_cpp.Base.{ℕ, ◌/◌, ◌^◌, none, some, List, [], ◌∷◌, ltb, ◌==◌, if◌then◌else◌, bit_and}
use corelib_c_cpp.Wire.{id_max, max_depth}
use corelib_c_cpp.Istream.{
  varint_unsigned, varint_signed, fixlen_len, array_count, Decoder, Istream, set_state, u8_pred,
  u8_suc, Outcome, next, reject,
}
use corelib_c_cpp.Istream.Callback.{Callbacks, call_field_callback}

module _ {H U : Type 0} where
  -- `ctx->decoder->skip_depth = depth`
  abbrev pub set_skip_depth : ℕ → Istream H U → Istream H U
  set_skip_depth depth ctx = record ctx { decoder = record (ctx.decoder) { skip_depth = depth } }

  -- The target is reset before each field.
  unfoldable pub begin_field : ℕ → ℕ → Istream H U → Istream H U
  begin_field id type ctx = record ctx {
    id = id;
    target_opt = type;
    target_ptr = none;
    target_len = 0;
    target_count = 0;
  }

  -- A level that no destination was bound to is skipped.
  unfoldable pub opened : Istream H U → Istream H U
  opened ctx =
      let deeper : Istream H U = record ctx { depth = u8_suc ctx.depth } in
      elim ctx.target_ptr [
        | none ↦ set_skip_depth (u8_suc ctx.decoder.skip_depth) deeper
        | some p ↦ deeper
      ]

  unfoldable pub closed : Istream H U → Istream H U
  closed ctx = record ctx { depth = u8_pred ctx.depth }

  -- SOFAB_TYPE_SEQUENCE_END on a decoder that skips nothing.
  unfoldable pub sequence_pop : List (Decoder H) → Istream H U → Outcome (Istream H U)
  sequence_pop [] ctx = reject ctx
  sequence_pop (d ∷ ds) ctx = next (closed (record ctx { decoder = d; parents = ds }))

  unfoldable pub sequence_end : Istream H U → Outcome (Istream H U)
  sequence_end ctx =
      if ltb 0 ctx.decoder.skip_depth
      then next (closed (set_skip_depth (u8_pred ctx.decoder.skip_depth) ctx))
      else sequence_pop ctx.parents ctx

  module _ (call : Callbacks H U) where
    unfoldable pub sequence_start : Istream H U → Outcome (Istream H U)
    sequence_start ctx =
        if ctx.depth == max_depth then reject ctx else next (opened (call_field_callback call ctx))

    -- The switch on the type.
    unfoldable pub field_type : ℕ → Istream H U → Outcome (Istream H U)
    field_type type ctx =
        if type == 0
        then next (call_field_callback call (set_state varint_unsigned ctx))
        else if type == 1
        then next (call_field_callback call (set_state varint_signed ctx))
        else if type == 2
        then next (set_state fixlen_len ctx)
        else if ltb type 6
        then next (set_state array_count ctx)
        else if type == 6
        then sequence_start ctx
        else sequence_end ctx

    unfoldable pub idle_state : ℕ → Istream H U → Outcome (Istream H U)
    idle_state decoded ctx =
        let type = bit_and decoded 0x07 in
        let id = decoded / 2 ^ 3 in
        if ctx.invalid
        then reject ctx
        else if ltb id_max id
        then reject ctx
        else field_type type (begin_field id type ctx)
