-- ===== src/Istream/RegionFeed.antt =====
-- `sofab_istream_feed` and the region of memory that its callbacks keep to.
use corelib_c_cpp.Base.{
  ℕ, ◌+◌, ◌-◌, ◌/◌, ◌^◌, not, ◌&&◌, leb, ◌<◌, ◌≡◌, refl, Bool, true, false, List, [], ◌∷◌, ltb,
  ◌==◌, if◌then◌else◌, bit_and,
}
use corelib_c_cpp.Wire.{Ret, e_invalid_msg}
use corelib_c_cpp.Istream.{
  Memory, State, idle, varint_unsigned, varint_signed, fixlen_len, array_count, fixlen_val,
  fixlen_raw, Istream, Outcome, next, reject, bad_argument, Decoded, complete, more, overflow,
  varint_next, varint_decode, invalidate,
}
use corelib_c_cpp.Istream.Callback.{Callbacks}
use corelib_c_cpp.Istream.Safe.{Within, Within-nothing, Within-then, Keeps}
use corelib_c_cpp.Istream.Feed.{on_decoded, on_byte, step, feed_loop, finish, feed}
use corelib_c_cpp.Istream.Chunks.{is_open}
use corelib_c_cpp.Istream.Region.{Safe, Holds, goes, fails, stops, Holds-then}
use corelib_c_cpp.Istream.RegionRead.{fixlen_val_state-Holds, fixlen_raw_state-Holds}
use corelib_c_cpp.Istream.RegionIdle.{on_value-Holds}

module _ {H : Type 0} (IsHandler : H → Type 0) (a b : ℕ) {U : Type 0} where
  -- Reading a part of a varint touches nothing that the region depends on.
  abbrev again : Istream H U → ℕ → ℕ → Istream H U
  again ctx value shift = record ctx { varint_value = value; varint_shift = shift }

  data Reads (ctx : Istream H U) : Decoded (Istream H U) → Type 0 where
    whole : (value : ℕ) → Reads ctx (complete value (again ctx 0 0))
    part : (value shift : ℕ) → Reads ctx (more (again ctx value shift))
    long : (value shift : ℕ) → Reads ctx (overflow (again ctx value shift))

  Reads-if :
      {ctx : Istream H U} (test : Bool) (x y : Decoded (Istream H U))
      → Reads ctx x
      → Reads ctx y
      → Reads ctx (if test then x else y)
  Reads-if true x y p q = p
  Reads-if false x y p q = q

  varint_next-Reads : (ctx : Istream H U) (byte value : ℕ) → Reads ctx (varint_next ctx byte value)
  unfolding varint_next
  varint_next-Reads ctx byte value =
      let shift = ctx.varint_shift + 7 in
      Reads-if (bit_and byte 0x80 == 0) _ _ (whole value)
        (Reads-if (leb 64 shift) _ _ (long value shift) (part value shift))

  varint_decode-Reads : (ctx : Istream H U) (byte : ℕ) → Reads ctx (varint_decode ctx byte)
  unfolding varint_decode
  varint_decode-Reads ctx byte =
      let room = 64 - ctx.varint_shift in
      Reads-if (leb 64 ctx.varint_shift) _ _ (long ctx.varint_value ctx.varint_shift) (
        Reads-if (ltb room 7 && not (bit_and byte 0x7f / 2 ^ room == 0)) _ _
          (long ctx.varint_value ctx.varint_shift) (varint_next-Reads ctx byte _))

  module _ (call : Callbacks H U) (keeps : Keeps IsHandler a b call) (room : b < 2 ^ 64)
      (strict : Bool) where
    on_decoded-Holds :
        (ctx : Istream H U) (d : Decoded (Istream H U))
        → Safe IsHandler a b ctx
        → Reads ctx d
        → Holds IsHandler a b ctx.mem (on_decoded call strict d)
    unfolding on_decoded
    on_decoded-Holds ctx d g (whole value) =
        on_value-Holds IsHandler a b call keeps room strict ctx.decoder.state value (again ctx 0 0)
          refl (record { handler = g.handler; parents = g.parents; room = g.room })
    on_decoded-Holds ctx d g (part value shift) =
        goes (Within-nothing ctx.mem)
          (record { handler = g.handler; parents = g.parents; room = g.room })
    on_decoded-Holds ctx d g (long value shift) = fails (Within-nothing ctx.mem)

    on_byte-Holds :
        (s : State) (byte : ℕ) (ctx : Istream H U)
        → ctx.decoder.state ≡ s
        → Safe IsHandler a b ctx
        → Holds IsHandler a b ctx.mem (on_byte call strict s byte ctx)
    unfolding on_byte
    on_byte-Holds idle byte ctx e g = on_decoded-Holds ctx _ g (varint_decode-Reads ctx byte)
    on_byte-Holds varint_unsigned byte ctx e g =
        on_decoded-Holds ctx _ g (varint_decode-Reads ctx byte)
    on_byte-Holds varint_signed byte ctx e g =
        on_decoded-Holds ctx _ g (varint_decode-Reads ctx byte)
    on_byte-Holds fixlen_len byte ctx e g = on_decoded-Holds ctx _ g (varint_decode-Reads ctx byte)
    on_byte-Holds array_count byte ctx e g = on_decoded-Holds ctx _ g (varint_decode-Reads ctx byte)
    on_byte-Holds fixlen_val byte ctx e g = fixlen_val_state-Holds IsHandler a b ctx byte room e g
    on_byte-Holds fixlen_raw byte ctx e g =
        fixlen_raw_state-Holds IsHandler a b strict ctx byte room e g

    moved_on :
        (m n : Memory) (o : Outcome (Istream H U))
        → Within a b m n
        → Holds IsHandler a b n o
        → Holds IsHandler a b m o
    moved_on m n (next ctx) w (goes v g) = goes (Within-then w v) g
    moved_on m n (reject ctx) w (fails v) = fails (Within-then w v)
    moved_on m n (bad_argument ctx) w (stops v) = stops (Within-then w v)

    feed_loop-Holds :
        (bytes : List ℕ) (ctx : Istream H U)
        → Safe IsHandler a b ctx
        → Holds IsHandler a b ctx.mem (feed_loop call strict bytes ctx)
    unfolding feed_loop step
    feed_loop-Holds [] ctx g = goes (Within-nothing ctx.mem) g
    feed_loop-Holds (byte ∷ bytes) ctx g =
        Holds-then IsHandler a b (step call strict byte ctx) (feed_loop call strict bytes)
          (on_byte-Holds ctx.decoder.state byte ctx refl g)
          (λ c w g. moved_on ctx.mem c.mem _ w (feed_loop-Holds bytes c g))

  record IsFed (mem : Memory) (r : Ret × Istream H U) : Type 0 where
    written : Within a b mem r.1.mem
    open_Safe : is_open r.0 ≡ true → Safe IsHandler a b r.1

  IsFed-if :
      {mem : Memory} (test : Bool) (x y : Ret × Istream H U)
      → IsFed mem x
      → IsFed mem y
      → IsFed mem (if test then x else y)
  IsFed-if true x y p q = p
  IsFed-if false x y p q = q

  finish-IsFed :
      (mem : Memory) (o : Outcome (Istream H U)) → Holds IsHandler a b mem o → IsFed mem (finish o)
  unfolding finish invalidate
  finish-IsFed mem (next ctx) (goes w g) =
      IsFed-if ctx.invalid (e_invalid_msg, invalidate ctx) _
        (record { written = w; open_Safe = λ q. cc }) (record { written = w; open_Safe = λ q. g })
  finish-IsFed mem (reject ctx) (fails w) = record { written = w; open_Safe = λ q. cc }
  finish-IsFed mem (bad_argument ctx) (stops w) = record { written = w; open_Safe = λ q. cc }

  module _ (call : Callbacks H U) (keeps : Keeps IsHandler a b call) (room : b < 2 ^ 64)
      (strict : Bool) (bytes : List ℕ) (ctx : Istream H U) (g : Safe IsHandler a b ctx) where
    feed-IsFed : IsFed ctx.mem (feed call strict bytes ctx)
    unfolding feed
    feed-IsFed =
        IsFed-if ctx.invalid (e_invalid_msg, ctx) _
          (record { written = Within-nothing ctx.mem; open_Safe = λ q. g })
          (finish-IsFed ctx.mem (feed_loop call strict bytes ctx)
            (feed_loop-Holds call keeps room strict bytes ctx g))

    -- If the callback keeps to a region of the address space, and so does what the stream has
    -- bound, then feeding any bytes writes nothing outside the region, whatever feed returns.
    pub feed-Within : Within a b ctx.mem (feed call strict bytes ctx).1.mem
    feed-Within = feed-IsFed.written

    -- If it then returns SOFAB_RET_OK or SOFAB_RET_INCOMPLETE, what the stream has bound still
    -- keeps to the region.
    pub feed-Safe :
        is_open (feed call strict bytes ctx).0 ≡ true
        → Safe IsHandler a b (feed call strict bytes ctx).1
    feed-Safe = feed-IsFed.open_Safe
