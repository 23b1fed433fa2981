-- ===== src/Istream/Skip.antt =====
-- `_call_field_callback_masked` of istream.c and the reads that contradict the wire.
use corelib_c_cpp.Base.{
  ℕ, ◌+◌, ◌≡◌, refl, Bool, true, false, not, [], ◌∷◌, ltb, ◌==◌, if◌then◌else◌, bit_and, bit_xor,
  none, some,
}
use corelib_c_cpp.Wire.{type_sequence_start}
use corelib_c_cpp.Istream.{Memory, Istream, fieldtype}
use corelib_c_cpp.Istream.Callback.{
  Call, read_field, read_array, read_sequence, reject_message, Callbacks, apply_call, apply_calls,
  unbind, verify_bound, dispatch, call_field_callback_masked,
}

not-true : (b : Bool) → not b ≡ true → b ≡ false
not-true true h = cc
not-true false h = refl

module _ {H : Type 0} where
  -- The type that a read expects.
  abbrev expected : Call H → ℕ
  expected (read_field var len opt) = opt
  expected (read_array var count size opt) = opt
  expected (read_sequence handler) = type_sequence_start
  expected reject_message = 0

  -- A call that binds a destination; the `opt` of a plain read is not a sequence's.
  abbrev is_read : Call H → Bool
  is_read (read_field var len opt) = not (fieldtype opt == type_sequence_start)
  is_read (read_array none count size opt) = false
  is_read (read_array (some var) count size opt) = not (fieldtype opt == type_sequence_start)
  is_read (read_sequence handler) = true
  is_read reject_message = false

module _ {H U : Type 0} where
  -- The stream as a callback that declines the field leaves it, but for the counter.
  abbrev pub declined : Memory → U → Istream H U → Istream H U
  declined mem usr ctx = record ctx {
    target_ptr = none;
    mem = mem;
    usr = usr;
    skipped = if ltb ctx.skipped 255 then ctx.skipped + 1 else ctx.skipped;
  }

  undone :
      (c : Call H) (mask : ℕ) (mem : Memory) (usr : U) (ctx : Istream H U)
      → is_read c ≡ true
      → (bit_and (bit_xor (expected c) ctx.target_opt) mask == 0) ≡ false
      → verify_bound mask ctx.target_opt ctx.target_len ctx.target_count
          (apply_call c (record ctx { mem = mem; usr = usr }))
        ≡ declined mem usr ctx
  unfolding verify_bound unbind apply_call
  undone (read_field var len opt) mask mem usr ctx b n =
      let plain : (fieldtype opt == type_sequence_start) ≡ false = not-true _ b in
      rw (n, plain) refl
  undone (read_array none count size opt) mask mem usr ctx b n = cc
  undone (read_array (some var) count size opt) mask mem usr ctx b n =
      let plain : (fieldtype opt == type_sequence_start) ≡ false = not-true _ b in
      rw (n, plain) refl
  undone (read_sequence handler) mask mem usr ctx b n = rw n refl
  undone reject_message mask mem usr ctx b n = cc

  -- A field whose callback binds a destination of another type is skipped: the decoder chain, the
  -- target and the position are as if the callback had declined the field, what the callback did
  -- to memory and to its own state stays, and the field is counted.
  pub call_field_callback_masked-contradiction :
      (call : Callbacks H U) (mask : ℕ) (ctx : Istream H U) (c : Call H) (mem : Memory) (usr : U)
      → call ctx.decoder.handler ctx.id ctx.target_len ctx.target_count ctx.target_opt ctx.mem
          ctx.usr
        ≡ record { calls = c ∷ []; mem = mem; usr = usr }
      → ltb 0 ctx.decoder.skip_depth ≡ false
      → is_read c ≡ true
      → (bit_and (bit_xor (expected c) ctx.target_opt) mask == 0) ≡ false
      → call_field_callback_masked call mask ctx ≡ declined mem usr ctx
  unfolding call_field_callback_masked dispatch apply_calls
  call_field_callback_masked-contradiction call mask ctx c mem usr r s b n =
      rw (s, r) (undone c mask mem usr ctx b n)
