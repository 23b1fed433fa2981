-- ===== src/Istream/Overlong.antt =====
-- `_varint_decode` of istream.c on varints that do not end.
use corelib_c_cpp.Base.{
  ℕ, zero, suc, ◌+◌, ◌-◌, ◌*◌, ◌/◌, ◌^◌, ◌<◌, ◌≤◌, ◌≡◌, refl, ap, ◌∙◌, Bool, true, false, List, [],
  ◌∷◌, ◌++◌, arith, ltb, leb, ◌==◌, bit_and, bit_or, Bool-cases, inl, inr, length, All,
}
use corelib_c_cpp.Wire.{u64, e_invalid_msg}
use corelib_c_cpp.Istream.{
  state_code, Istream, reject, then_next, more, overflow, varint_next, varint_decode,
}
use corelib_c_cpp.Istream.Callback.{Callbacks}
use corelib_c_cpp.Istream.Feed.{on_decoded, step, feed_loop, finish, feed}
use corelib_c_cpp.Istream.Groups.{top_bit}
use corelib_c_cpp.Istream.Varints.{read, fresh, on_byte-varint}
use corelib_c_cpp.Istream.Chunks.{feed-going, feed-closed}

-- A byte that announces another.
abbrev IsFlagged : ℕ → Type 0
IsFlagged b = (128 ≤ b) × (b < 256)

flag_set : (b : ℕ) → IsFlagged b → (bit_and b 0x80 == 0) ≡ false
flag_set b h = ground (arith, top_bit b h.1)

module _ {H U : Type 0} where
  taken :
      (k acc b : ℕ) (ctx : Istream H U)
      → k ≤ 8
      → IsFlagged b
      → varint_decode (read acc (7 * k) ctx) b
        ≡ more (read (bit_or acc (u64 (bit_and b 0x7f * 2 ^ (7 * k)))) (7 * suc k) ctx)
  unfolding varint_decode varint_next
  taken k acc b ctx h f =
      let below : leb 64 (7 * k) ≡ false = ground arith in
      let room : ltb (64 - 7 * k) 7 ≡ false = ground arith in
      let shifted : 7 * k + 7 ≡ 7 * suc k = omega arith in
      let after : leb 64 (7 * suc k) ≡ false = ground arith in
      rw (below, room, flag_set b f, shifted, after) refl

  refused :
      (acc b : ℕ) (ctx : Istream H U)
      → IsFlagged b
      → (c : Istream H U) × (varint_decode (read acc 63 ctx) b ≡ overflow c)
  unfolding varint_decode varint_next
  refused acc b ctx f = elim (Bool-cases (bit_and b 0x7f / 2 == 0)) [
    | inl e ↦ (read (bit_or acc (u64 (bit_and b 0x7f * 2 ^ 63))) 70 ctx, rw (e, flag_set b f) refl)
    | inr e ↦ (read acc 63 ctx, rw e refl)
  ]

module _ {H U : Type 0} (call : Callbacks H U) (strict : Bool) where
  -- What the byte loop does with a byte, in a state that begins with a varint.
  loop_step :
      (b shift acc : ℕ) (bytes : List ℕ) (ctx : Istream H U)
      → leb (state_code ctx.decoder.state) 4 ≡ true
      → feed_loop call strict (b ∷ bytes) (read acc shift ctx)
        ≡ then_next
            (on_decoded call strict (varint_decode (read acc shift ctx) b))
            (feed_loop call strict bytes)
  unfolding feed_loop step
  loop_step b shift acc bytes ctx c =
      ap (λ o. then_next o (feed_loop call strict bytes))
        (on_byte-varint call strict ctx.decoder.state b _ c)

  loop_refuses :
      (n k acc : ℕ) (bs bytes : List ℕ) (ctx : Istream H U)
      → leb (state_code ctx.decoder.state) 4 ≡ true
      → n + k ≡ 9
      → length bs ≡ suc n
      → All IsFlagged bs
      → (c : Istream H U) × (feed_loop call strict (bs ++ bytes) (read acc (7 * k) ctx) ≡ reject c)
  unfolding on_decoded
  loop_refuses n k acc [] bytes ctx c e l f = absurd (omega arith)
  loop_refuses zero k acc (b ∷ bs) bytes ctx c e l f =
      let end = refused acc b ctx f.0 in
      let last : 7 * k ≡ 63 = omega arith in
      (
        end.0,
        ap (λ shift. feed_loop call strict (b ∷ (bs ++ bytes)) (read acc shift ctx)) last
            ∙ loop_step b 63 acc (bs ++ bytes) ctx c
            ∙ ap (λ d. then_next (on_decoded call strict d) (feed_loop call strict (bs ++ bytes)))
                end.1,
      )
  loop_refuses (suc n) k acc (b ∷ bs) bytes ctx c e l f =
      let rest =
        loop_refuses n (suc k) (bit_or acc (u64 (bit_and b 0x7f * 2 ^ (7 * k)))) bs bytes ctx c
          (omega arith) (omega arith) f.1 in
      (
        rest.0,
        loop_step b (7 * k) acc (bs ++ bytes) ctx c
            ∙ ap (λ d. then_next (on_decoded call strict d) (feed_loop call strict (bs ++ bytes)))
                (taken k acc b ctx (omega arith) f.0)
            ∙ rest.1,
      )

  -- In a state that begins with a varint, with no part of it read, ten bytes with the top bit set
  -- make `sofab_istream_feed` return SOFAB_RET_E_INVALID_MSG, whatever follows them.
  pub feed-overlong :
      (bs bytes : List ℕ) (ctx : Istream H U)
      → leb (state_code ctx.decoder.state) 4 ≡ true
      → ctx.varint_value ≡ 0
      → ctx.varint_shift ≡ 0
      → length bs ≡ 10
      → All IsFlagged bs
      → (feed call strict (bs ++ bytes) ctx).0 ≡ e_invalid_msg
  unfolding finish
  feed-overlong bs bytes ctx c p q l f = elim (Bool-cases ctx.invalid) [
    | inl e ↦ ap (λ r. r.0) (feed-closed call strict (bs ++ bytes) ctx e)
    | inr e ↦
        let end = loop_refuses 9 0 0 bs bytes ctx c refl l f in
        ap (λ r. r.0)
          (feed-going call strict (bs ++ bytes) ctx e
            ∙ ap finish (ap (feed_loop call strict (bs ++ bytes)) (fresh ctx p q) ∙ end.1))
  ]
