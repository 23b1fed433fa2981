-- ===== src/Ostream.antt =====
-- The output stream of ostream.c: its state, the byte sink and the low-level writers.
-- A stream writes into one buffer at a time. `buffer` holds the bytes from `ctx->buffer` up to
-- `ctx->bufend`, `offset` is `ctx->offset - ctx->buffer`, and `pending` holds the first
-- `npending` entries of `ctx->pending`, outermost first. The asserts of the C code are compiled
-- out, as under NDEBUG; what they ask for is a hypothesis where a theorem needs it.
pub mod Fields
pub mod Arrays
pub mod Sequences
pub mod Bytes
pub mod Room
pub mod Commit
pub mod Canonical
pub mod Elements
pub mod Content
pub mod Settled
pub mod Lazy
pub mod Message
pub mod Sink
mod Runs
use corelib_c_cpp.Base.{
  ℕ, zero, suc, ◌+◌, ◌/◌, ◌<◌, Bool, true, false, not, ◌&&◌, Option, none, some, List, [], ◌∷◌, leb,
  ltb, ◌==◌, if◌then◌else◌, length, set, take, bit_and, bit_or, arith, lt_wf,
}
use corelib_c_cpp.Wire.{
  Ret, ret_ok, e_argument, e_buffer_full, id_max, type_sequence_start, type_sequence_end,
  type_encode,
}
use mathlib.Core.Logic.{dite}
use mathlib.Core.WellFounded.{Acc, WellFounded}
use native.Mathlib.Decide.{dec_lt}

-- A `sofab_ostream_buffer_set` call: the bytes of the buffer and the offset of the cursor.
pub record Install : Type 0 where
  pub buffer : List ℕ
  pub offset : ℕ

-- `sofab_ostream_flush_cb_t`: from the flushed bytes and the user's state to the new state and
-- the buffer that the callback installs, if it installs one.
abbrev pub Flush : Type 0 → Type 0
Flush U = List ℕ → U → U × Option Install

-- `struct sofab_ostream`. `usr` is what `usrptr` points to.
pub record Ostream (U : Type 0) : Type 0 where
  pub buffer : List ℕ
  pub offset : ℕ
  pub flush : Option (Flush U)
  pub usr : U
  pub pending : List ℕ

-- A function that writes: it changes the stream and returns a result code.
abbrev pub Writer : Type 0 → Type 0
Writer U = Ostream U → Ostream U × Ret

-- `if ((ret = first(ctx)) != SOFAB_RET_OK) return ret;` and then the second writer.
abbrev pub and_then : {U : Type 0} → Ostream U × Ret → Writer U → Ostream U × Ret
and_then (o, ret_ok) k = k o
and_then (o, ret) k = (o, ret)

infixl 5 ◌>>◌
abbrev pub ◌>>◌ : {U : Type 0} → Writer U → Writer U → Writer U
◌>>◌ m k o = and_then (m o) k

pub shift_shrinks : (v : ℕ) → 0 < v / 128 → v / 128 < v
shift_shrinks v h = omega arith

module _ {U : Type 0} where
  -- A null buffer, legal at length 0, is replaced by `_empty_buffer` at length 0.
  unfoldable pub buffer_set : Ostream U → Option (List ℕ) → ℕ → Ostream U
  buffer_set o none offset = record o { buffer = []; offset = offset }
  buffer_set o (some buffer) offset = record o { buffer = buffer; offset = offset }

  unfoldable pub init : Option (List ℕ) → ℕ → Option (Flush U) → U → Ostream U
  init buffer offset flush usr =
      buffer_set (record { buffer = []; offset = 0; flush = flush; usr = usr; pending = [] }) buffer
        offset

  -- What the callback leaves behind: its state, and the buffer it installs, if any.
  unfoldable pub returned : Ostream U → U × Option Install → Ostream U
  returned o (usr, none) = record o { usr = usr }
  returned o (usr, some i) = buffer_set (record o { usr = usr }) (some i.buffer) i.offset

  -- `_drain`: the cursor is reset before the callback runs, so that an installation stands.
  unfoldable pub drain : Flush U → Ostream U → Ostream U
  drain f o = returned (record o { offset = 0 }) (f (take o.offset o.buffer) o.usr)

  -- `*ctx->offset++ = byte`
  unfoldable pub store_byte : ℕ → Ostream U → Ostream U
  store_byte byte o = record o { buffer = set o.buffer o.offset byte; offset = o.offset + 1 }

  -- `ctx->offset >= ctx->bufend`
  abbrev pub is_full : Ostream U → Bool
  is_full o = leb (length o.buffer) o.offset

  -- `_push_byte`. Every caller turns its -1 into `SOFAB_RET_E_BUFFER_FULL`, which stands here.
  unfoldable pub push_byte : ℕ → Writer U
  push_byte byte o =
      if is_full o
      then elim o.flush [
        | none ↦ (o, e_buffer_full)
        | some f ↦
            let o' = drain f o in
            if is_full o' then (o', e_buffer_full) else (store_byte byte o', ret_ok)
      ]
      else (store_byte byte o, ret_ok)

  -- The do-while loop of `_varint_encode`: it goes on while `value >> 7` is not 0.
  unfoldable pub varint_loop : (value : ℕ) → Acc ◌<◌ value → Writer U
  varint_loop value (Acc.intro _ smaller) =
      let b = bit_and value 0x7f in
      dite (dec_lt 0 (value / 128))
        (λ more.
          push_byte (bit_or b 0x80)
          >> varint_loop (value / 128) (smaller (value / 128) (shift_shrinks value more)))
        (λ _. push_byte b)

  unfoldable pub varint_encode : ℕ → Writer U
  unfolding lt_wf dec_lt
  varint_encode value = varint_loop value (lt_wf.apply value)

  -- `_write_fixlen`: the bytes in source order.
  unfoldable pub write_bytes : List ℕ → Writer U
  write_bytes [] o = (o, ret_ok)
  write_bytes (byte ∷ bytes) o = let rest = write_bytes bytes in (push_byte byte >> rest) o

  -- One round of `_commit_pending`'s loop: after an overflow the ids from here on are unwritten.
  abbrev pub commit_next :
      Ostream U × Ret → List ℕ → (Ostream U → Ostream U × List ℕ × Ret) → Ostream U × List ℕ × Ret
  commit_next (o, ret_ok) ids next = next o
  commit_next (o, ret) ids next = (o, ids, e_buffer_full)

  -- The loop, with the ids that it leaves unwritten.
  unfoldable pub commit_loop : List ℕ → Ostream U → Ostream U × List ℕ × Ret
  commit_loop [] o = (o, [], ret_ok)
  commit_loop (id ∷ ids) o =
      let rest = commit_loop ids in
      commit_next (varint_encode (type_encode id type_sequence_start) o) (id ∷ ids) rest

  unfoldable pub commit_pending : Writer U
  commit_pending o =
      let (o', rest, ret) = commit_loop o.pending o in (record o' { pending = rest }, ret)

  -- `ctx->npending != 0`
  abbrev pub has_pending : Ostream U → Bool
  has_pending o = ltb 0 (length o.pending)

  -- `if (ctx->npending != 0 && ...) _commit_pending(ctx)`
  unfoldable pub commit_if : Bool → Writer U
  commit_if content o = if has_pending o && content then commit_pending o else (o, ret_ok)

  unfoldable pub write_id_type : ℕ → ℕ → Writer U
  write_id_type id type o =
      if ltb id_max id
      then (o, e_argument)
      else (commit_if (not (type == type_sequence_start) && not (type == type_sequence_end))
            >> varint_encode (type_encode id type))
          o

  unfoldable pub write_id_varint : ℕ → ℕ → ℕ → Writer U
  write_id_varint id type payload = write_id_type id type >> varint_encode payload

  -- `sofab_ostream_flush`: the bytes in the buffer, handed over if there is a callback.
  unfoldable pub flush : Ostream U → Ostream U × ℕ
  flush o = elim o.flush [
    | none ↦ (o, o.offset)
    | some f ↦ if ltb 0 o.offset then (drain f o, o.offset) else (o, o.offset)
  ]

  unfoldable pub bytes_used : Ostream U → ℕ
  bytes_used o = o.offset
