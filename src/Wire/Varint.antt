-- ===== src/Wire/Varint.antt =====
-- An arithmetic description of a LEB128 varint, independent of the encoder and the decoder.
use corelib_c_cpp.Base.{
  ℕ, zero, suc, ◌+◌, ◌/◌, ◌%◌, ◌<◌, ◌≤◌, arith, ltb, if◌then◌else◌, List, [], ◌∷◌, length,
}

-- The groups of seven bits of `v`, lowest first, each but the last with the top bit set. The
-- first argument bounds the groups that may follow the first.
unfoldable pub groups : ℕ → ℕ → List ℕ
groups zero v = v ∷ []
groups (suc k) v =
    let more = groups k (v / 128) in if ltb v 128 then v ∷ [] else (v % 128 + 128) ∷ more

-- A 64-bit value takes at most ten groups.
abbrev pub varint : ℕ → List ℕ
varint v = groups 9 v

pub length-groups : (k v : ℕ) → (1 ≤ length (groups k v)) × (length (groups k v) ≤ k + 1)
unfolding groups
length-groups zero v = omega arith
length-groups (suc k) v = ground (arith, length-groups k (v / 128))

abbrev pub IsByte : ℕ → Type 0
IsByte b = b < 256
