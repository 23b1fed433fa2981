-- ===== src/Ostream/Bytes.antt =====
-- The low-level writers of ostream.c in terms of `_write_fixlen`.
use corelib_c_cpp.Base.{
  ℕ, zero, suc, ◌+◌, ◌/◌, ◌%◌, ◌^◌, ◌<◌, ◌≡◌, refl, sym, ◌∙◌, ap, fun_ext, List, [], ◌∷◌, ◌++◌,
  arith, bit_and, bit_or, lt_wf,
}
use corelib_c_cpp.Base.Bits.{bit_and-mask, bit_or-below}
use corelib_c_cpp.Wire.{Ret, ret_ok}
use corelib_c_cpp.Wire.Varint.{groups, varint}
use corelib_c_cpp.Ostream.{
  Ostream, Writer, and_then, ◌>>◌, push_byte, varint_loop, varint_encode, write_bytes,
  shift_shrinks,
}
use mathlib.Core.WellFounded.{Acc}
use mathlib.Core.Logic.{dif_pos, dif_neg}
use native.Mathlib.Bridge.{le_prop}
use native.Mathlib.Decide.{dec_lt}

low_seven : (v : ℕ) → bit_and v 0x7f ≡ v % 128
low_seven v = bit_and-mask 7 v

-- `|= 0x80` on seven bits; the operands are turned round by the digits, one at a time.
set_top : (g : ℕ) → g < 128 → bit_or g 0x80 ≡ g + 128
set_top g h = bit_or-below 7 1 g h

groups_more : (k v : ℕ) → 0 < v / 128 → groups (suc k) v ≡ (v % 128 + 128) ∷ groups k (v / 128)
unfolding groups
groups_more k v h = ground arith

groups_last : (k v : ℕ) → v < 128 → groups (suc k) v ≡ v ∷ []
unfolding groups
groups_last k v h = ground arith

seven_bits : (v : ℕ) → v < 128 → v % 128 ≡ v
seven_bits v h = omega arith

module _ {U : Type 0} where
  and_then-ok : (r : Ostream U × Ret) → and_then r (λ o. (o, ret_ok)) ≡ r
  and_then-ok (o, ret_ok) = refl
  and_then-ok (o, r) = refl

  pub and_then_assoc :
      (r : Ostream U × Ret) (k l : Writer U)
      → and_then (and_then r k) l ≡ and_then r (λ o. and_then (k o) l)
  and_then_assoc (o, ret_ok) k l = refl
  and_then_assoc (o, r) k l = refl

  pub write_bytes-append :
      (xs ys : List ℕ) (o : Ostream U)
      → write_bytes (xs ++ ys) o ≡ (write_bytes xs >> write_bytes ys) o
  unfolding write_bytes
  write_bytes-append [] ys o = refl
  write_bytes-append (x ∷ xs) ys o =
      ap (and_then (push_byte x o)) (fun_ext (write_bytes-append xs ys))
      ∙ sym (and_then_assoc (push_byte x o) (write_bytes xs) (write_bytes ys))

  push_byte-write_bytes : (b : ℕ) (o : Ostream U) → push_byte b o ≡ write_bytes (b ∷ []) o
  unfolding write_bytes
  push_byte-write_bytes b o = sym (and_then-ok (push_byte b o))

  varint_loop-groups :
      (k v : ℕ) (w : Acc ◌<◌ v)
      → v < 128 ^ suc k
      → varint_loop {U = U} v w ≡ write_bytes (groups k v)
  unfolding varint_loop
  varint_loop-groups zero v (Acc.intro _ smaller) h = fun_ext λ o.
      let stop : ¬ (0 < v / 128) = omega arith in
      rw (dif_neg _ stop, low_seven, seven_bits v (omega arith))
        (unfold groups in push_byte-write_bytes v o)
  varint_loop-groups (suc k) v (Acc.intro _ smaller) h = elim (dec_lt 0 (v / 128)) [
    | yes more ↦ fun_ext λ o.
        let w = smaller (v / 128) (shift_shrinks v more) in
        rw (dif_pos _ le_prop more, groups_more k v more)
          (rw (low_seven v, set_top (v % 128) (omega arith))
            (rw (varint_loop-groups k (v / 128) w (omega arith)) (unfold write_bytes in refl)))
    | no stop ↦ fun_ext λ o.
        rw (dif_neg _ stop, groups_last k v (omega arith))
          (rw (low_seven, seven_bits v (omega arith)) (push_byte-write_bytes v o))
  ]

  -- On a 64-bit value `_varint_encode` writes the LEB128 groups of the value.
  pub varint_encode-varint : (v : ℕ) → v < 2 ^ 64 → varint_encode {U = U} v ≡ write_bytes (varint v)
  unfolding varint_encode
  varint_encode-varint v h = varint_loop-groups 9 v (lt_wf.apply v) (omega arith)
