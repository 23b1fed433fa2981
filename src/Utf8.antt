-- ===== src/Utf8.antt =====
-- `sofab_utf8_valid` of utf8.c. The data is a list of bytes, and the loop's index is the part of
-- the list that it has not reached.
pub mod Masks
pub mod Rounds
pub mod Scalars
pub mod Sound
mod Runs
use corelib_c_cpp.Base.{
  ℕ, zero, suc, ◌+◌, ◌*◌, ◌%◌, ◌^◌, Bool, true, false, not, ◌&&◌, Option, none, some, List, [], ◌∷◌,
  leb, ltb, ◌==◌, if◌then◌else◌, length, drop, bit_and, bit_or,
}

-- The lead byte's `need`, `cp` and `min_cp`.
pub record Lead : Type 0 where
  pub need : ℕ
  pub cp : ℕ
  pub min_cp : ℕ

unfoldable pub lead : ℕ → Option Lead
lead b0 =
    if bit_and b0 0xe0 == 0xc0
    then some (record { need = 1; cp = bit_and b0 0x1f; min_cp = 0x80 })
    else if bit_and b0 0xf0 == 0xe0
    then some (record { need = 2; cp = bit_and b0 0x0f; min_cp = 0x800 })
    else if bit_and b0 0xf8 == 0xf0
    then some (record { need = 3; cp = bit_and b0 0x07; min_cp = 0x10000 })
    else none

-- The `for` loop over the continuation bytes; `none` is its `return false`. The bytes are there,
-- since the length was tested before.
unfoldable pub continuation : ℕ → List ℕ → ℕ → Option ℕ
continuation zero bytes cp = some cp
continuation (suc k) [] cp = none
continuation (suc k) (bc ∷ bytes) cp =
    let more = continuation k bytes (bit_or (cp * 2 ^ 6 % 2 ^ 32) (bit_and bc 0x3f)) in
    if bit_and bc 0xc0 == 0x80 then more else none

-- The three tests behind the loop: overlong, above the Unicode range, surrogate.
unfoldable pub in_range : ℕ → ℕ → Bool
in_range min_cp cp =
    not (ltb cp min_cp) && not (ltb 0x10ffff cp) && not (leb 0xd800 cp && leb cp 0xdfff)

-- Those tests on the result of the loop, and `i += need + 1`: the bytes behind the sequence.
unfoldable pub checked : Lead → List ℕ → Option ℕ → Option (List ℕ)
checked l rest none = none
checked l rest (some cp) = if in_range l.min_cp cp then some (drop l.need rest) else none

-- `need >= len - i` is tested before any continuation byte is read.
unfoldable pub sequence_tail : Lead → List ℕ → Option (List ℕ)
sequence_tail l rest =
    if leb (length rest + 1) l.need then none else checked l rest (continuation l.need rest l.cp)

-- A sequence of several bytes, from its lead byte on; `none` is a `return false`.
unfoldable pub sequence : ℕ → List ℕ → Option (List ℕ)
sequence b0 rest = elim (lead b0) [ none ↦ none | some l ↦ sequence_tail l rest ]

-- What one round of the loop takes off the front of the data.
unfoldable pub round : ℕ → List ℕ → Option (List ℕ)
round b0 rest = if ltb b0 0x80 then some rest else sequence b0 rest

-- The `while` loop. Each round takes a byte at least, so `length data + 1` rounds are enough.
unfoldable pub valid_loop : ℕ → List ℕ → Bool
valid_loop zero bytes = false
valid_loop (suc fuel) [] = true
valid_loop (suc fuel) (b0 ∷ rest) = elim (round b0 rest) [
  | none ↦ false
  | some rest' ↦ valid_loop fuel rest'
]

unfoldable pub valid : List ℕ → Bool
valid bytes = valid_loop (length bytes + 1) bytes
