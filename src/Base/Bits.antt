-- ===== src/Base/Bits.antt =====
-- The native bit operations as arithmetic, at every width.
use Prim.Native.Nat.{
  ℕ, zero, suc, ◌+◌, ◌-◌, ◌*◌, ◌/◌, ◌%◌, ◌^◌, ◌≤◌, ◌<◌, min, max, bit_and, bit_or, bit_xor, digits,
  bitwise, differ, bit_and-bitwise, bit_or-bitwise, bit_xor-bitwise,
}
use mathlib.Core.Path.{◌≡◌, refl, sym, ap}
use native.Mathlib.Nat.{pow-suc, one-le-pow}
use native.Mathlib.Omega.{arith}

-- The fuel of `digits` does not matter once it covers the first operand.
module _ (z : ℕ → ℕ) (f : ℕ → ℕ → ℕ) where
  enough_fuel : (n m a b : ℕ) → a ≤ n → a ≤ m → digits z f n a b ≡ digits z f m a b
  enough_fuel zero zero a b p q = refl
  enough_fuel zero (suc m) zero b p q = refl
  enough_fuel zero (suc m) (suc a) b p q = absurd (omega arith)
  enough_fuel (suc n) zero zero b p q = refl
  enough_fuel (suc n) zero (suc a) b p q = absurd (omega arith)
  enough_fuel (suc n) (suc m) zero b p q = refl
  enough_fuel (suc n) (suc m) (suc a) b p q =
      rw (enough_fuel n m (suc a / 2) (b / 2) (omega arith) (omega arith))

  low_digit :
      (a b : ℕ)
      → bitwise z f (suc a) b ≡ bitwise z f (suc a / 2) (b / 2) * 2 + f (suc a % 2) (b % 2)
  low_digit a b =
      omega (arith, enough_fuel a (suc a / 2) (suc a / 2) (b / 2) (omega arith) (omega arith))

bit_and_halves : (a b : ℕ) → bit_and a b ≡ bit_and (a / 2) (b / 2) * 2 + min (a % 2) (b % 2)
bit_and_halves zero b = simp bit_and-bitwise (omega arith)
bit_and_halves (suc a) b = simp bit_and-bitwise (low_digit (λ y. 0) min a b)

bit_or_halves : (a b : ℕ) → bit_or a b ≡ bit_or (a / 2) (b / 2) * 2 + max (a % 2) (b % 2)
bit_or_halves zero b = simp bit_or-bitwise (omega arith)
bit_or_halves (suc a) b = simp bit_or-bitwise (low_digit (λ y. y) max a b)

bit_xor_halves : (a b : ℕ) → bit_xor a b ≡ bit_xor (a / 2) (b / 2) * 2 + differ (a % 2) (b % 2)
bit_xor_halves zero b = simp bit_xor-bitwise (omega arith)
bit_xor_halves (suc a) b = simp bit_xor-bitwise (low_digit (λ y. y) differ a b)

or_zero_fuel : (n a : ℕ) → a ≤ n → bit_or a 0 ≡ a
or_zero_fuel n zero h = refl
or_zero_fuel zero (suc a) h = absurd (omega arith)
or_zero_fuel (suc n) (suc a) h =
    omega (arith, bit_or_halves (suc a) 0, or_zero_fuel n (suc a / 2) (omega arith))

and_zero_fuel : (n a : ℕ) → a ≤ n → bit_and a 0 ≡ 0
and_zero_fuel n zero h = refl
and_zero_fuel zero (suc a) h = absurd (omega arith)
and_zero_fuel (suc n) (suc a) h =
    omega (arith, bit_and_halves (suc a) 0, and_zero_fuel n (suc a / 2) (omega arith))

double_pow : (q k : ℕ) → q * 2 ^ suc k ≡ 2 * (q * 2 ^ k)
double_pow q k = omega (arith, ap (λ (t : ℕ). q * t) (pow-suc 2 k))

-- A field of `k` bits below a multiple of `2 ^ k`: `|` is a sum, in either order.
pub bit_or-shifted : (k q r : ℕ) → r < 2 ^ k → bit_or (q * 2 ^ k) r ≡ q * 2 ^ k + r
bit_or-shifted zero q r h = ground (arith, or_zero_fuel q q (omega arith))
bit_or-shifted (suc k) q r h = ground (
  arith,
  bit_or_halves (q * 2 ^ suc k) r,
  double_pow q k,
  bit_or-shifted k q (r / 2) (omega (arith, pow-suc 2 k)),
)

pub bit_or-below : (k q r : ℕ) → r < 2 ^ k → bit_or r (q * 2 ^ k) ≡ r + q * 2 ^ k
bit_or-below zero q zero h = simp bit_or-bitwise (omega arith)
bit_or-below zero q (suc r) h = absurd (omega arith)
bit_or-below (suc k) q r h = ground (
  arith,
  bit_or_halves r (q * 2 ^ suc k),
  double_pow q k,
  bit_or-below k q (r / 2) (omega (arith, pow-suc 2 k)),
)

-- The mask of `k + 1` ones: its lowest digit and the rest.
ones_halves : (k : ℕ) → ((2 ^ suc k - 1) % 2 ≡ 1) × ((2 ^ suc k - 1) / 2 ≡ 2 ^ k - 1)
ones_halves k = omega (arith, pow-suc 2 k, one-le-pow k 2)

and_fields : (k q r : ℕ) → r < 2 ^ k → bit_and (q * 2 ^ k + r) (2 ^ k - 1) ≡ r
and_fields zero q r h = ground (arith, and_zero_fuel (q * 1 + r) (q * 1 + r) (omega arith))
and_fields (suc k) q r h = ground (
  arith,
  bit_and_halves (q * 2 ^ suc k + r) (2 ^ suc k - 1),
  double_pow q k,
  ones_halves k,
  and_fields k q (r / 2) (omega (arith, pow-suc 2 k)),
)

-- A mask of `k` ones is the remainder by `2 ^ k`.
pub bit_and-mask : (k a : ℕ) → bit_and a (2 ^ k - 1) ≡ a % 2 ^ k
bit_and-mask k a = ground (arith, one-le-pow k 2, and_fields k (a / 2 ^ k) (a % 2 ^ k))

differ_bit : (x : ℕ) → x < 2 → (differ x 0 ≡ x) × (differ x 1 ≡ 1 - x)
differ_bit zero h = (refl, refl)
differ_bit (suc zero) h = (refl, refl)
differ_bit (suc (suc x)) h = absurd (omega arith)

-- `^` with nothing, and with `k` ones.
xor_zero_fuel : (n a : ℕ) → a ≤ n → bit_xor a 0 ≡ a
xor_zero_fuel n zero h = refl
xor_zero_fuel zero (suc a) h = absurd (omega arith)
xor_zero_fuel (suc n) (suc a) h = omega (
  arith,
  bit_xor_halves (suc a) 0,
  differ_bit (suc a % 2) (omega arith),
  xor_zero_fuel n (suc a / 2) (omega arith),
)

pub bit_xor-zero : (a : ℕ) → bit_xor a 0 ≡ a
bit_xor-zero a = xor_zero_fuel a a (omega arith)

pub bit_xor-ones : (k a : ℕ) → a < 2 ^ k → bit_xor a (2 ^ k - 1) ≡ 2 ^ k - 1 - a
bit_xor-ones zero a h = ground (arith, bit_xor-zero a)
bit_xor-ones (suc k) a h = ground (
  arith,
  bit_xor_halves a (2 ^ suc k - 1),
  ones_halves k,
  differ_bit (a % 2) (omega arith),
  pow-suc 2 k,
  one-le-pow k 2,
  bit_xor-ones k (a / 2) (omega (arith, pow-suc 2 k)),
)

differ_same : (x y : ℕ) → x < 2 → y < 2 → differ x y ≡ 0 → x ≡ y
differ_same zero zero h k e = refl
differ_same zero (suc y) h k e = sym e
differ_same (suc zero) zero h k e = e
differ_same (suc zero) (suc zero) h k e = refl
differ_same (suc zero) (suc (suc y)) h k e = absurd (omega arith)
differ_same (suc (suc x)) y h k e = absurd (omega arith)

differ_digit : (x y : ℕ) → x < 2 → y < 2 → differ x y < 2
differ_digit zero y h k = k
differ_digit (suc zero) zero h k = omega arith
differ_digit (suc zero) (suc zero) h k = omega arith
differ_digit (suc zero) (suc (suc y)) h k = absurd (omega arith)
differ_digit (suc (suc x)) y h k = absurd (omega arith)

-- The lowest digit of `^`.
bit_xor_even :
    (a b : ℕ) → bit_xor a b % 2 ≡ 0 → (a % 2 ≡ b % 2) × (bit_xor a b ≡ bit_xor (a / 2) (b / 2) * 2)
bit_xor_even a b h =
    let digit = differ_digit (a % 2) (b % 2) (omega arith) (omega arith) in
    let zero_digit : differ (a % 2) (b % 2) ≡ 0 = omega (arith, bit_xor_halves a b) in
    (
      differ_same (a % 2) (b % 2) (omega arith) (omega arith) zero_digit,
      omega (arith, bit_xor_halves a b, zero_digit),
    )

-- Words whose lowest three bits agree.
pub bit_xor-low : (a b : ℕ) → bit_xor a b % 8 ≡ 0 → a % 8 ≡ b % 8
bit_xor-low a b h =
    let first = bit_xor_even a b (omega arith) in
    let second = bit_xor_even (a / 2) (b / 2) (omega (arith, first)) in
    let third = bit_xor_even (a / 2 / 2) (b / 2 / 2) (omega (arith, first, second)) in
    omega (arith, first, second, third)

-- A word without the lowest three bits leaves those of another one as they are.
pub bit_or-low : (a b : ℕ) → b % 8 ≡ 0 → bit_or a b % 8 ≡ a % 8
bit_or-low a b h = omega (
  arith,
  h,
  bit_or_halves a b,
  bit_or_halves (a / 2) (b / 2),
  bit_or_halves (a / 2 / 2) (b / 2 / 2),
)

differ_comm : (x y : ℕ) → x < 2 → y < 2 → differ x y ≡ differ y x
differ_comm zero zero h k = refl
differ_comm zero (suc zero) h k = refl
differ_comm zero (suc (suc y)) h k = absurd (omega arith)
differ_comm (suc zero) zero h k = refl
differ_comm (suc zero) (suc zero) h k = refl
differ_comm (suc zero) (suc (suc y)) h k = absurd (omega arith)
differ_comm (suc (suc x)) y h k = absurd (omega arith)

xor_comm_fuel : (n a b : ℕ) → a + b ≤ n → bit_xor a b ≡ bit_xor b a
xor_comm_fuel zero zero zero h = refl
xor_comm_fuel zero (suc a) b h = absurd (omega arith)
xor_comm_fuel zero zero (suc b) h = absurd (omega arith)
xor_comm_fuel (suc n) a b h = omega (
  arith,
  bit_xor_halves a b,
  bit_xor_halves b a,
  differ_comm (a % 2) (b % 2) (omega arith) (omega arith),
  xor_comm_fuel n (a / 2) (b / 2) (omega arith),
)

pub bit_xor_comm : (a b : ℕ) → bit_xor a b ≡ bit_xor b a
bit_xor_comm a b = xor_comm_fuel (a + b) a b (omega arith)
