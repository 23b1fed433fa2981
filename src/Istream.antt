-- ===== src/Istream.antt =====
-- The input stream of istream.c: its state, what a field callback can do to it, and its helpers.
-- `H` names the field callbacks with their user pointers, and `U` is the state of the program
-- that they serve. Memory maps addresses to bytes. The decoder chain is the active decoder and
-- the list of its parents, innermost first. The model has SOFAB_SKIP_COUNTER; a `size_t` has 64
-- bits, and the host is little-endian.
pub mod Callback
pub mod Reads
pub mod Scalar
pub mod Payload
pub mod Idle
pub mod Feed
pub mod Rejected
pub mod RejectedPayload
pub mod Verdict
pub mod Chunks
pub mod Groups
pub mod Varints
pub mod Stores
pub mod Safe
pub mod Scalars
pub mod Answers
pub mod Region
pub mod RegionScalar
pub mod RegionEnd
pub mod RegionRead
pub mod RegionBind
pub mod RegionPayload
pub mod RegionLen
pub mod RegionIdle
pub mod RegionFeed
pub mod Skip
pub mod Bind
pub mod Overlong
pub mod Amid
pub mod AmidPayload
pub mod AmidFixlen
pub mod AmidArray
pub mod AmidFloat
pub mod Unread
pub mod Accept
mod Runs
use corelib_c_cpp.Base.{
  ℕ, zero, suc, ◌+◌, ◌-◌, ◌*◌, ◌/◌, ◌%◌, ◌^◌, Bool, true, false, not, ◌&&◌, ◌||◌, Option, none,
  some, List, [], ◌∷◌, leb, ltb, ◌==◌, if◌then◌else◌, bit_and, bit_or,
}
use corelib_c_cpp.Wire.{u64}

abbrev pub Memory : Type 0
Memory = ℕ → ℕ

abbrev pub write : Memory → ℕ → ℕ → Memory
write mem p byte q = if p == q then byte else mem q

-- `_decoder_state_t`.
pub data State : Type 0 where
  idle varint_unsigned varint_signed fixlen_len array_count fixlen_val fixlen_raw : State

-- `sofab_istream_decoder_t`.
pub record Decoder (H : Type 0) : Type 0 where
  pub handler : H
  pub state : State
  pub skip_depth : ℕ

-- `struct sofab_istream`, with the memory that its pointers lead to.
pub record Istream (H U : Type 0) : Type 0 where
  pub varint_value : ℕ
  pub varint_shift : ℕ
  pub target_ptr : Option ℕ
  pub utf8_start : Option ℕ
  pub decoder : Decoder H
  pub parents : List (Decoder H)
  pub fixlen_remaining : ℕ
  pub target_len : ℕ
  pub target_count : ℕ
  pub array_wire_count : ℕ
  pub id : ℕ
  pub target_opt : ℕ
  pub invalid : Bool
  pub depth : ℕ
  pub skipped : ℕ
  pub mem : Memory
  pub usr : U

abbrev pub fieldtype : ℕ → ℕ
fieldtype opt = bit_and opt 0x07

abbrev pub opt_stringterm : ℕ
opt_stringterm = 0x40

abbrev pub opt_boolean : ℕ
opt_boolean = 0x80

-- `x - 1` on `size_t` and on `uint8_t`.
abbrev pub size_pred : ℕ → ℕ
size_pred n = (n + (2 ^ 64 - 1)) % 2 ^ 64

abbrev pub u8_pred : ℕ → ℕ
u8_pred n = (n + 255) % 256

abbrev pub u8_suc : ℕ → ℕ
u8_suc n = (n + 1) % 256

-- The numbers of the states: the ones that begin with a varint come first.
abbrev pub state_code : State → ℕ
state_code idle = 0
state_code varint_unsigned = 1
state_code varint_signed = 2
state_code fixlen_len = 3
state_code array_count = 4
state_code fixlen_val = 5
state_code fixlen_raw = 6

-- `decoder->parent == NULL`
abbrev pub no_parent {ℓ} : {A : Type ℓ} → List A → Bool
no_parent [] = true
no_parent (d ∷ ds) = false

-- How a round of the byte loop of `sofab_istream_feed` ends: with the next byte, by
-- `goto invalid`, or by returning SOFAB_RET_E_ARGUMENT.
pub data Outcome (S : Type 0) : Type 0 where
  next : S → Outcome S
  reject : S → Outcome S
  bad_argument : S → Outcome S

-- What follows is done only where the loop goes on.
abbrev pub then_next : {S : Type 0} → Outcome S → (S → Outcome S) → Outcome S
then_next (next s) f = f s
then_next (reject s) f = reject s
then_next (bad_argument s) f = bad_argument s

-- The answers of `_varint_decode`: 0 with the value, -1, -2.
pub data Decoded (S : Type 0) : Type 0 where
  complete : ℕ → S → Decoded S
  more : S → Decoded S
  overflow : S → Decoded S

module _ {H U : Type 0} where
  unfoldable pub init : H → Memory → U → Istream H U
  init handler mem usr = record {
    varint_value = 0;
    varint_shift = 0;
    target_ptr = none;
    utf8_start = none;
    decoder = record { handler = handler; state = idle; skip_depth = 0 };
    parents = [];
    fixlen_remaining = 0;
    target_len = 0;
    target_count = 0;
    array_wire_count = 0;
    id = 0;
    target_opt = 0;
    invalid = false;
    depth = 0;
    skipped = 0;
    mem = mem;
    usr = usr;
  }

  -- `ctx->decoder->state = state`
  abbrev pub set_state : State → Istream H U → Istream H U
  set_state state ctx = record ctx { decoder = record (ctx.decoder) { state = state } }

  -- The last part of `_varint_decode`, with the groups so far in `value`.
  unfoldable pub varint_next : Istream H U → ℕ → ℕ → Decoded (Istream H U)
  varint_next ctx byte value =
      let shift = ctx.varint_shift + 7 in
      let ctx' : Istream H U = record ctx { varint_value = value; varint_shift = shift } in
      if bit_and byte 0x80 == 0
      then complete value (record ctx { varint_value = 0; varint_shift = 0 })
      else if leb 64 shift
      then overflow ctx'
      else more ctx'

  unfoldable pub varint_decode : Istream H U → ℕ → Decoded (Istream H U)
  varint_decode ctx byte =
      let room = 64 - ctx.varint_shift in
      if leb 64 ctx.varint_shift
      then overflow ctx
      else if ltb room 7 && not (bit_and byte 0x7f / 2 ^ room == 0)
      then overflow ctx
      else varint_next ctx byte
          (bit_or ctx.varint_value (u64 (bit_and byte 0x7f * 2 ^ ctx.varint_shift)))

  -- `_at_message_boundary`: the counters are combined by `|`.
  unfoldable pub at_message_boundary : Istream H U → Bool
  at_message_boundary ctx =
      (bit_or (bit_or ctx.varint_shift (state_code ctx.decoder.state)) ctx.decoder.skip_depth == 0)
      && no_parent ctx.parents

  unfoldable pub invalidate : Istream H U → Istream H U
  invalidate ctx = record ctx { invalid = true }

  unfoldable pub skipped_fields : Istream H U → ℕ
  skipped_fields ctx = ctx.skipped
