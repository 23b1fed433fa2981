-- ===== src/Istream/Varints.antt =====
-- `_varint_decode` of istream.c, in the byte loop, on the LEB128 groups of a value.
use corelib_c_cpp.Base.{
  ℕ, zero, suc, ◌+◌, ◌*◌, ◌/◌, ◌%◌, ◌^◌, ◌<◌, ◌≤◌, ◌≡◌, refl, sym, ap, ◌∙◌, ltb→lt, Bool, true,
  false, List, ◌∷◌, ◌++◌, arith, ltb, leb, ◌==◌, bit_and, Bool-cases, inl, inr,
}
use corelib_c_cpp.Base.Bits.{bit_and-mask, bit_or-below}
use corelib_c_cpp.Wire.{u64}
use corelib_c_cpp.Wire.Varint.{groups, varint}
use corelib_c_cpp.Istream.{
  State, idle, varint_unsigned, varint_signed, fixlen_len, array_count, fixlen_val, fixlen_raw,
  state_code, Istream, then_next, complete, more, varint_next, varint_decode,
}
use corelib_c_cpp.Istream.Callback.{Callbacks}
use mathlib.Core.Path.{ap₂}
use corelib_c_cpp.Istream.Feed.{on_value, on_decoded, on_byte, step, feed_loop}
use corelib_c_cpp.Istream.Groups.{
  top_bit, room_left, group_small, group_below, rest_small, value_groups, groups_last, groups_more,
}

-- The accumulator with `value` read so far and `shift` bits of it.
module _ {H U : Type 0} where
  abbrev pub read : ℕ → ℕ → Istream H U → Istream H U
  read value shift ctx = record ctx { varint_value = value; varint_shift = shift }

  pub fresh : (ctx : Istream H U) → ctx.varint_value ≡ 0 → ctx.varint_shift ≡ 0 → ctx ≡ read 0 0 ctx
  fresh ctx p q = ap₂ (λ value shift. read value shift ctx) p q

  varint_decode-read :
      (k g byte acc : ℕ) (ctx : Istream H U)
      → k ≤ 9
      → g < 128
      → g * 2 ^ (7 * k) < 2 ^ 64
      → acc < 2 ^ (7 * k)
      → byte % 128 ≡ g
      → varint_decode (read acc (7 * k) ctx) byte
        ≡ varint_next (read acc (7 * k) ctx) byte (acc + g * 2 ^ (7 * k))
  unfolding varint_decode
  varint_decode-read k g byte acc ctx h s l a p =
      let below : leb 64 (7 * k) ≡ false = ground arith in
      let low : bit_and byte 0x7f ≡ g = bit_and-mask 7 byte ∙ p in
      let fits : u64 (g * 2 ^ (7 * k)) ≡ g * 2 ^ (7 * k) = omega arith in
      rw (below, low, room_left k g h s l, fits, bit_or-below (7 * k) g acc a) refl

  varint_next-last :
      (g acc value shift : ℕ) (ctx : Istream H U)
      → g < 128
      → varint_next (read acc shift ctx) g value ≡ complete value (read 0 0 ctx)
  unfolding varint_next
  varint_next-last g acc value shift ctx s =
      let ends : bit_and g 0x80 ≡ 0 = top_bit g (omega arith) ∙ omega arith in rw ends refl

  varint_next-more :
      (k byte acc value : ℕ) (ctx : Istream H U)
      → k ≤ 8
      → 128 ≤ byte
      → byte < 256
      → varint_next (read acc (7 * k) ctx) byte value ≡ more (read value (7 * suc k) ctx)
  unfolding varint_next
  varint_next-more k byte acc value ctx h s l =
      let goes_on : (bit_and byte 0x80 == 0) ≡ false = ground (arith, top_bit byte l) in
      let below : leb 64 (7 * k + 7) ≡ false = ground arith in
      let shifted : 7 * k + 7 ≡ 7 * suc k = omega arith in rw (goes_on, below, shifted) refl

  varint_decode-last :
      (k g acc : ℕ) (ctx : Istream H U)
      → k ≤ 9
      → g < 128
      → g * 2 ^ (7 * k) < 2 ^ 64
      → acc < 2 ^ (7 * k)
      → varint_decode (read acc (7 * k) ctx) g ≡ complete (acc + g * 2 ^ (7 * k)) (read 0 0 ctx)
  varint_decode-last k g acc ctx h s l a =
      varint_decode-read k g g acc ctx h s l a (omega arith) ∙ varint_next-last g acc _ _ ctx s

  varint_decode-more :
      (k v acc : ℕ) (ctx : Istream H U)
      → k ≤ 8
      → v * 2 ^ (7 * k) < 2 ^ 64
      → acc < 2 ^ (7 * k)
      → varint_decode (read acc (7 * k) ctx) (v % 128 + 128)
        ≡ more (read (acc + v % 128 * 2 ^ (7 * k)) (7 * suc k) ctx)
  varint_decode-more k v acc ctx h l a =
      varint_decode-read k (v % 128) (v % 128 + 128) acc ctx (omega arith) (omega arith)
        (group_small k v l) a (omega arith)
      ∙ varint_next-more k _ acc _ ctx h (omega arith) (omega arith)

  -- The states that begin with a varint.
  pub on_byte-varint :
      (call : Callbacks H U) (strict : Bool) (state : State) (byte : ℕ) (ctx : Istream H U)
      → leb (state_code state) 4 ≡ true
      → on_byte call strict state byte ctx ≡ on_decoded call strict (varint_decode ctx byte)
  unfolding on_byte
  on_byte-varint call strict idle byte ctx h = refl
  on_byte-varint call strict varint_unsigned byte ctx h = refl
  on_byte-varint call strict varint_signed byte ctx h = refl
  on_byte-varint call strict fixlen_len byte ctx h = refl
  on_byte-varint call strict array_count byte ctx h = refl
  on_byte-varint call strict fixlen_val byte ctx h = cc
  on_byte-varint call strict fixlen_raw byte ctx h = cc

module _ {H U : Type 0} (call : Callbacks H U) (strict : Bool) where
  feed_loop-last :
      (k g acc : ℕ) (bytes : List ℕ) (ctx : Istream H U)
      → leb (state_code ctx.decoder.state) 4 ≡ true
      → k ≤ 9
      → g < 128
      → g * 2 ^ (7 * k) < 2 ^ 64
      → acc < 2 ^ (7 * k)
      → feed_loop call strict (g ∷ bytes) (read acc (7 * k) ctx)
        ≡ then_next
            (on_value call strict ctx.decoder.state (acc + g * 2 ^ (7 * k)) (read 0 0 ctx))
            (feed_loop call strict bytes)
  unfolding feed_loop step on_decoded
  feed_loop-last k g acc bytes ctx c h s l a =
      ap (λ o. then_next o (feed_loop call strict bytes))
        (on_byte-varint call strict ctx.decoder.state g _ c
          ∙ ap (on_decoded call strict) (varint_decode-last k g acc ctx h s l a))

  feed_loop-more :
      (k v acc : ℕ) (bytes : List ℕ) (ctx : Istream H U)
      → leb (state_code ctx.decoder.state) 4 ≡ true
      → k ≤ 8
      → v * 2 ^ (7 * k) < 2 ^ 64
      → acc < 2 ^ (7 * k)
      → feed_loop call strict ((v % 128 + 128) ∷ bytes) (read acc (7 * k) ctx)
        ≡ feed_loop call strict bytes (read (acc + v % 128 * 2 ^ (7 * k)) (7 * suc k) ctx)
  unfolding feed_loop step on_decoded
  feed_loop-more k v acc bytes ctx c h l a =
      ap (λ o. then_next o (feed_loop call strict bytes))
        (on_byte-varint call strict ctx.decoder.state _ _ c
          ∙ ap (on_decoded call strict) (varint_decode-more k v acc ctx h l a))

  feed_loop-groups :
      (n k v acc : ℕ) (bytes : List ℕ) (ctx : Istream H U)
      → leb (state_code ctx.decoder.state) 4 ≡ true
      → n + k ≡ 9
      → v < 128 ^ suc n
      → v * 2 ^ (7 * k) < 2 ^ 64
      → acc < 2 ^ (7 * k)
      → feed_loop call strict (groups n v ++ bytes) (read acc (7 * k) ctx)
        ≡ then_next
            (on_value call strict ctx.decoder.state (acc + v * 2 ^ (7 * k)) (read 0 0 ctx))
            (feed_loop call strict bytes)
  feed_loop-groups zero k v acc bytes ctx c e w l a =
      unfold groups in feed_loop-last k v acc bytes ctx c (omega arith) (omega arith) l a
  feed_loop-groups (suc n) k v acc bytes ctx c e w l a = elim (Bool-cases (ltb v 128)) [
    | inl small ↦
        ap (λ g. feed_loop call strict (g ++ bytes) (read acc (7 * k) ctx)) (groups_last n v small)
        ∙ feed_loop-last k v acc bytes ctx c (omega arith) (ltb→lt v 128 small) l a
    | inr large ↦
        ap (λ g. feed_loop call strict (g ++ bytes) (read acc (7 * k) ctx)) (groups_more n v large)
        ∙ feed_loop-more k v acc (groups n (v / 128) ++ bytes) ctx c (omega arith) l a
        ∙ feed_loop-groups n (suc k) (v / 128) (acc + v % 128 * 2 ^ (7 * k)) bytes ctx c
            (omega arith) (omega arith) (rest_small k v l)
            (group_below k (v % 128) acc (omega arith) a)
        ∙ ap
            (λ value.
              then_next (on_value call strict ctx.decoder.state value (read 0 0 ctx))
                (feed_loop call strict bytes))
            (value_groups k v acc)
  ]

  -- A state that begins with a varint, with no part of it read, takes the groups of a 64-bit value,
  -- whatever follows them, and then the byte loop does what the state does with that value.
  pub feed_loop-varint :
      (v : ℕ) (bytes : List ℕ) (ctx : Istream H U)
      → v < 2 ^ 64
      → leb (state_code ctx.decoder.state) 4 ≡ true
      → ctx.varint_value ≡ 0
      → ctx.varint_shift ≡ 0
      → feed_loop call strict (varint v ++ bytes) ctx
        ≡ then_next (on_value call strict ctx.decoder.state v ctx) (feed_loop call strict bytes)
  feed_loop-varint v bytes ctx h c p q =
      ap (feed_loop call strict (varint v ++ bytes)) (fresh ctx p q)
      ∙ feed_loop-groups 9 0 v 0 bytes ctx c refl (omega arith) (omega arith) (omega arith)
      ∙ ap₂
          (λ value s.
            then_next (on_value call strict ctx.decoder.state value s)
              (feed_loop call strict bytes))
          (omega arith) (sym (fresh ctx p q))
