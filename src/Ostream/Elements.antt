-- ===== src/Ostream/Elements.antt =====
-- The elements of an integer array: the loads of `_write_varint_array` as arithmetic.
use corelib_c_cpp.Base.{
  ℕ, zero, suc, ◌-◌, ◌*◌, ◌^◌, ◌<◌, ◌≡◌, refl, ◌∙◌, ap, Bool, true, false, ◌||◌, ◌⊎◌, inl, inr,
  some, List, [], ◌∷◌, ◌++◌, arith, ltb, ◌==◌, if◌then◌else◌, take, drop, All,
}
use mathlib.Core.Path.{subst}
use native.Mathlib.Nat.{pow-suc, one-le-pow}
use corelib_c_cpp.Wire.Varint.{varint, IsByte}
use corelib_c_cpp.Wire.Zigzag.{zigzag_encode-zigzag, zigzag, to_ℤ, ℤ, pos, negsuc}
use corelib_c_cpp.Ostream.Arrays.{from_bytes, load_element, resign, element_payload}

-- The integer that `size` bytes of two's complement spell.
abbrev pub signed_at : ℕ → ℕ → ℤ
signed_at size enc =
    if ltb enc (2 ^ (8 * size - 1)) then pos enc else negsuc (2 ^ (8 * size) - 1 - enc)

-- The number that stands on the wire for an element.
abbrev pub element_value : Bool → ℕ → ℕ → ℕ
element_value is_signed size enc = if is_signed then zigzag (signed_at size enc) else enc

-- The widths that an element can have.
abbrev pub IsWidth : ℕ → Type 0
IsWidth size = (size == 1 || size == 2 || size == 4 || size == 8) ≡ true

-- The elements of an integer array, each as a varint.
abbrev pub element_bytes : Bool → ℕ → ℕ → List ℕ → List ℕ
element_bytes is_signed size zero bytes = []
element_bytes is_signed size (suc count) bytes =
    varint (element_value is_signed size (from_bytes (take size bytes)))
    ++ element_bytes is_signed size count (drop size bytes)

width_cases : (size : ℕ) → IsWidth size → (size ≡ 1) ⊎ ((size ≡ 2) ⊎ ((size ≡ 4) ⊎ (size ≡ 8)))
width_cases size h = ground arith

pub from_bytes-lt :
    (size : ℕ) (bytes : List ℕ) → All IsByte bytes → from_bytes (take size bytes) < 256 ^ size
unfolding from_bytes
from_bytes-lt zero bytes h = omega arith
from_bytes-lt (suc size) [] h = omega (arith, one-le-pow (suc size) 256)
from_bytes-lt (suc size) (b ∷ bytes) h =
    omega (arith, pow-suc 256 size, from_bytes-lt size bytes h.1)

pub All-drop : (n : ℕ) (bytes : List ℕ) → All IsByte bytes → All IsByte (drop n bytes)
All-drop zero bytes h = h
All-drop (suc n) [] h = tt
All-drop (suc n) (b ∷ bytes) h = All-drop n bytes h.1

-- At each width the re-signed element is the 64-bit pattern of the same integer.
resign-signed_at :
    (size enc : ℕ)
    → IsWidth size
    → enc < 256 ^ size
    → (to_ℤ (resign size enc) ≡ signed_at size enc) × (resign size enc < 2 ^ 64)
unfolding resign
resign-signed_at size enc h k = elim (width_cases size h) [
  | inl e ↦ rw e (ground (arith, subst (λ n. enc < 256 ^ n) e k))
  | inr (inl e) ↦ rw e (ground (arith, subst (λ n. enc < 256 ^ n) e k))
  | inr (inr (inl e)) ↦ rw e (ground (arith, subst (λ n. enc < 256 ^ n) e k))
  | inr (inr (inr e)) ↦ rw e (ground (arith, subst (λ n. enc < 256 ^ n) e k))
]

width-lt : (size enc : ℕ) → IsWidth size → enc < 256 ^ size → enc < 2 ^ 64
width-lt size enc h k = elim (width_cases size h) [
  | inl e ↦ omega (arith, subst (λ n. enc < 256 ^ n) e k)
  | inr (inl e) ↦ omega (arith, subst (λ n. enc < 256 ^ n) e k)
  | inr (inr (inl e)) ↦ omega (arith, subst (λ n. enc < 256 ^ n) e k)
  | inr (inr (inr e)) ↦ omega (arith, subst (λ n. enc < 256 ^ n) e k)
]

pub element_payload-eq :
    (is_signed : Bool) (size enc : ℕ)
    → IsWidth size
    → enc < 256 ^ size
    → (element_payload is_signed size enc ≡ element_value is_signed size enc)
      × (element_payload is_signed size enc < 2 ^ 64)
unfolding element_payload
element_payload-eq true size enc h k =
    let (r, l) = resign-signed_at size enc h k in
    let (z, m) = zigzag_encode-zigzag (resign size enc) l in (z ∙ ap zigzag r, m)
element_payload-eq false size enc h k = (refl, width-lt size enc h k)

pub load_element-width :
    (size : ℕ) (bytes : List ℕ)
    → IsWidth size
    → load_element size bytes ≡ some (from_bytes (take size bytes))
unfolding load_element
load_element-width size bytes h = rw h
