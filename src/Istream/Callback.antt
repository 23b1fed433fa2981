-- ===== src/Istream/Callback.antt =====
-- The field callback, the read functions that it may call, and the check of what it bound.
use corelib_c_cpp.Base.{
  ℕ, zero, suc, ◌+◌, ◌-◌, ◌*◌, Option, none, some, List, [], ◌∷◌, ltb, ◌==◌, if◌then◌else◌, bit_and,
  bit_xor,
}
use corelib_c_cpp.Wire.{type_sequence_start}
use corelib_c_cpp.Istream.{
  Memory, write, idle, Decoder, Istream, fieldtype, Outcome, next, reject, invalidate,
}

-- The calls of a callback: the two read functions that bind a destination (the typed ones of
-- include/sofab/istream.h are calls of these), the one that enters a sequence, and
-- `sofab_istream_invalidate`.
pub data Call (H : Type 0) : Type 0 where
  read_field : ℕ → ℕ → ℕ → Call H
  read_array : Option ℕ → ℕ → ℕ → ℕ → Call H
  read_sequence : H → Call H
  reject_message : Call H

-- What a callback does: its calls in order, and memory and user state as it leaves them.
pub record Reply (H U : Type 0) : Type 0 where
  pub calls : List (Call H)
  pub mem : Memory
  pub usr : U

-- `sofab_istream_field_cb_t`: id, size, count, `ctx->target_opt`, memory and user state.
abbrev pub Callbacks : Type 0 → Type 0 → Type 0
Callbacks H U = H → ℕ → ℕ → ℕ → ℕ → Memory → U → Reply H U

-- Clearing `n` bytes: the `memset` of `_bind_array_count`.
unfoldable pub clear : Memory → ℕ → ℕ → Memory
clear mem p zero = mem
clear mem p (suc n) = clear (write mem p 0) (p + 1) n

module _ {H U : Type 0} where
  -- A sequence read points `target_ptr` to the new decoder, just to have a non-null value.
  unfoldable pub apply_call : Call H → Istream H U → Istream H U
  apply_call (read_field var len opt) ctx = record ctx {
    target_ptr = some var;
    target_len = len;
    target_opt = opt;
  }
  apply_call (read_array var count size opt) ctx = record ctx {
    target_ptr = var;
    target_count = count;
    target_len = size;
    target_opt = opt;
  }
  apply_call (read_sequence handler) ctx = record ctx {
    parents = ctx.decoder ∷ ctx.parents;
    decoder = record { handler = handler; state = idle; skip_depth = 0 };
    target_ptr = some 0;
    target_opt = type_sequence_start;
  }
  apply_call reject_message ctx = invalidate ctx

  unfoldable pub apply_calls : List (Call H) → Istream H U → Istream H U
  apply_calls [] ctx = ctx
  apply_calls (c ∷ calls) ctx = apply_calls calls (apply_call c ctx)

  -- `if (... && ctx->decoder->parent != NULL) ctx->decoder = ctx->decoder->parent;`
  abbrev pub pop_decoder : List (Decoder H) → Istream H U → Istream H U
  pop_decoder [] ctx = ctx
  pop_decoder (d ∷ ds) ctx = record ctx { decoder = d; parents = ds }

  -- A bound read that contradicts the wire is undone, and counted.
  unfoldable pub unbind : ℕ → ℕ → ℕ → Istream H U → Istream H U
  unbind field_opt field_len field_count ctx =
      let popped =
        if fieldtype ctx.target_opt == type_sequence_start
        then pop_decoder ctx.parents ctx
        else ctx in
      record popped {
        target_ptr = none;
        target_len = field_len;
        target_count = field_count;
        target_opt = field_opt;
        skipped = if ltb popped.skipped 255 then popped.skipped + 1 else popped.skipped;
      }

  unfoldable pub verify_bound : ℕ → ℕ → ℕ → ℕ → Istream H U → Istream H U
  verify_bound type_mask field_opt field_len field_count ctx = elim ctx.target_ptr [
    | none ↦ ctx
    | some p ↦
        if bit_and (bit_xor ctx.target_opt field_opt) type_mask == 0
        then ctx
        else unbind field_opt field_len field_count ctx
  ]

  module _ (call : Callbacks H U) where
    -- The call of the active decoder's callback.
    unfoldable pub dispatch : Istream H U → Istream H U
    dispatch ctx =
        let r =
          call ctx.decoder.handler ctx.id ctx.target_len ctx.target_count ctx.target_opt ctx.mem
            ctx.usr in
        apply_calls r.calls (record ctx { mem = r.mem; usr = r.usr })

    -- `_call_field_callback_masked`, which always returns SOFAB_RET_OK.
    unfoldable pub call_field_callback_masked : ℕ → Istream H U → Istream H U
    call_field_callback_masked type_mask ctx =
        if ltb 0 ctx.decoder.skip_depth
        then ctx
        else verify_bound type_mask ctx.target_opt ctx.target_len ctx.target_count (dispatch ctx)

    unfoldable pub call_field_callback : Istream H U → Istream H U
    call_field_callback = call_field_callback_masked 0x3f

  -- `_bind_array_count`: the wire count against the capacity of the destination.
  unfoldable pub bind_array_count : ℕ → Istream H U → Outcome (Istream H U)
  bind_array_count wire_count ctx = elim ctx.target_ptr [
    | none ↦ next ctx
    | some p ↦
        if ltb ctx.target_count wire_count
        then reject ctx
        else next (record ctx {
          mem =
              clear ctx.mem (p + wire_count * ctx.target_len)
                ((ctx.target_count - wire_count) * ctx.target_len);
          target_count = wire_count;
        })
  ]
