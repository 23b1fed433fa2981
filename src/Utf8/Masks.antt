-- ===== src/Utf8/Masks.antt =====
-- The masks of utf8.c on a byte, as arithmetic.
use corelib_c_cpp.Base.{
  holds_below, holds_at, ℕ, suc, ◌+◌, ◌-◌, ◌*◌, ◌/◌, ◌%◌, ◌^◌, ◌<◌, ◌≡◌, refl, Bool, true, ◌&&◌,
  Option, none, some, List, ◌∷◌, arith, ltb, leb, ◌==◌, if◌then◌else◌, bit_and,
}
use corelib_c_cpp.Base.Bits.{bit_and-mask, bit_or-shifted}
use corelib_c_cpp.Utf8.{Lead, lead, continuation}

-- A mask of leading ones keeps the high digits.
abbrev masks : ℕ → Bool
masks b =
    (bit_and b 0xe0 == b / 32 * 32)
    && (bit_and b 0xf0 == b / 16 * 16)
    && (bit_and b 0xf8 == b / 8 * 8)
    && (bit_and b 0xc0 == b / 64 * 64)

masks_table : holds_below masks 256 ≡ true
masks_table = refl

masks_at :
    (b : ℕ)
    → b < 256
    → (bit_and b 0xe0 ≡ b / 32 * 32)
      × (bit_and b 0xf0 ≡ b / 16 * 16)
      × (bit_and b 0xf8 ≡ b / 8 * 8)
      × (bit_and b 0xc0 ≡ b / 64 * 64)
masks_at b h = ground (arith, holds_at masks 256 b masks_table h)

-- The ranges of the lead bytes.
abbrev pub lead_of : ℕ → Option Lead
lead_of b =
    if ltb b 192
    then none
    else if ltb b 224
    then some (record { need = 1; cp = b - 192; min_cp = 0x80 })
    else if ltb b 240
    then some (record { need = 2; cp = b - 224; min_cp = 0x800 })
    else if ltb b 248
    then some (record { need = 3; cp = b - 240; min_cp = 0x10000 })
    else none

pub lead-lead_of : (b : ℕ) → b < 256 → lead b ≡ lead_of b
unfolding lead
lead-lead_of b h =
    ground (arith, masks_at b h, bit_and-mask 5 b, bit_and-mask 4 b, bit_and-mask 3 b)

abbrev pub is_continuation : ℕ → Bool
is_continuation c = leb 128 c && ltb c 192

pub continuation_step :
    (k c : ℕ) (bytes : List ℕ) (cp : ℕ)
    → c < 256
    → cp < 2 ^ 20
    → continuation (suc k) (c ∷ bytes) cp
      ≡ (if is_continuation c then continuation k bytes (cp * 64 + (c - 128)) else none)
unfolding continuation
continuation_step k c bytes cp h l =
    let wide : cp * 2 ^ 6 % 2 ^ 32 ≡ cp * 2 ^ 6 = omega arith in
    ground (arith, wide, masks_at c h, bit_and-mask 6 c, bit_or-shifted 6 cp (c % 64))
