-- ===== src/Istream/Groups.antt =====
-- The arithmetic of the decoder's varints: seven bits at a time, up to 64.
use corelib_c_cpp.Base.{
  holds_below, holds_at, ℕ, suc, ◌+◌, ◌-◌, ◌*◌, ◌/◌, ◌%◌, ◌^◌, ◌<◌, ◌≤◌, ◌≡◌, refl, sym, ap, ◌∙◌,
  Bool, true, false, not, ◌&&◌, [], ◌∷◌, arith, ltb, ◌==◌, bit_and, Bool-cases, inl, inr,
}
use corelib_c_cpp.Wire.Varint.{groups}
use mathlib.Core.Path.{subst}
use native.Mathlib.Nat.{pow-suc}

-- The top bit of a byte.
abbrev pub top : ℕ → Bool
top b = bit_and b 0x80 == b / 128 * 128

top_table : holds_below top 256 ≡ true
top_table = refl

pub top_bit : (b : ℕ) → b < 256 → bit_and b 0x80 ≡ b / 128 * 128
top_bit b h = ground (arith, holds_at top 256 b top_table h)

room_nine :
    (g : ℕ)
    → g * 2 ^ (7 * 9) < 2 ^ 64
    → (ltb (64 - 7 * 9) 7 && not (g / 2 ^ (64 - 7 * 9) == 0)) ≡ false
room_nine g h = ground arith

-- A group that fits does not meet the limit of the width.
pub room_left :
    (k g : ℕ)
    → k ≤ 9
    → g < 128
    → g * 2 ^ (7 * k) < 2 ^ 64
    → (ltb (64 - 7 * k) 7 && not (g / 2 ^ (64 - 7 * k) == 0)) ≡ false
room_left k g h s l = elim (Bool-cases (ltb k 9)) [
  | inl e ↦ ground arith
  | inr e ↦
      let last : k ≡ 9 = ground arith in
      subst
        (λ j.
          g * 2 ^ (7 * j) < 2 ^ 64
          → (ltb (64 - 7 * j) 7 && not (g / 2 ^ (64 - 7 * j) == 0)) ≡ false)
        (sym last) (room_nine g) l
]

pow_seven : (n : ℕ) → 2 ^ (suc (suc (suc (suc (suc (suc (suc n))))))) ≡ 2 ^ n * 128
pow_seven n = omega (
  arith,
  pow-suc 2 n,
  pow-suc 2 (suc n),
  pow-suc 2 (suc (suc n)),
  pow-suc 2 (suc (suc (suc n))),
  pow-suc 2 (suc (suc (suc (suc n)))),
  pow-suc 2 (suc (suc (suc (suc (suc n))))),
  pow-suc 2 (suc (suc (suc (suc (suc (suc n)))))),
)

pow_group : (k : ℕ) → 2 ^ (7 * suc k) ≡ 2 ^ (7 * k) * 128
pow_group k =
    let sum : 7 * suc k ≡ (suc (suc (suc (suc (suc (suc (suc (7 * k)))))))) = omega arith in
    ap (λ (i : ℕ). 2 ^ i) sum ∙ pow_seven (7 * k)

split_group : (v p : ℕ) → v * p ≡ v % 128 * p + v / 128 * (p * 128)
split_group v p =
    let digits : v * p ≡ (v / 128 * 128 + v % 128) * p = ap (λ t. t * p) (omega arith) in
    omega (arith, digits)

pub group_small : (k v : ℕ) → v * 2 ^ (7 * k) < 2 ^ 64 → v % 128 * 2 ^ (7 * k) < 2 ^ 64
group_small k v h = omega (arith, split_group v (2 ^ (7 * k)))

pub group_below :
    (k g acc : ℕ) → g < 128 → acc < 2 ^ (7 * k) → acc + g * 2 ^ (7 * k) < 2 ^ (7 * suc k)
group_below k g acc h a = grind (arith, pow_group k)

pub rest_small : (k v : ℕ) → v * 2 ^ (7 * k) < 2 ^ 64 → v / 128 * 2 ^ (7 * suc k) < 2 ^ 64
rest_small k v h =
    let shifted : v / 128 * 2 ^ (7 * suc k) ≡ v / 128 * (2 ^ (7 * k) * 128) =
      ap (λ p. v / 128 * p) (pow_group k) in
    omega (arith, shifted, split_group v (2 ^ (7 * k)))

pub value_groups :
    (k v acc : ℕ) → acc + v % 128 * 2 ^ (7 * k) + v / 128 * 2 ^ (7 * suc k) ≡ acc + v * 2 ^ (7 * k)
value_groups k v acc =
    let shifted : v / 128 * 2 ^ (7 * suc k) ≡ v / 128 * (2 ^ (7 * k) * 128) =
      ap (λ p. v / 128 * p) (pow_group k) in
    omega (arith, shifted, split_group v (2 ^ (7 * k)))

pub groups_last : (n v : ℕ) → ltb v 128 ≡ true → groups (suc n) v ≡ v ∷ []
unfolding groups
groups_last n v h = rw h refl

pub groups_more :
    (n v : ℕ) → ltb v 128 ≡ false → groups (suc n) v ≡ (v % 128 + 128) ∷ groups n (v / 128)
unfolding groups
groups_more n v h = rw h refl
