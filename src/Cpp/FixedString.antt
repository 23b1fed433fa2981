-- ===== src/Cpp/FixedString.antt =====
-- `FixedString` of sofab.hpp, at capacity `cap`: text cut to whole UTF-8 characters.
use corelib_c_cpp.Base.{
  ℕ, zero, suc, ◌+◌, Bool, true, false, List, [], ◌∷◌, ltb, leb, ◌==◌, if◌then◌else◌, bit_and,
  length, take, set, get_or,
}

-- `buf_`, with the byte for the terminator, and `len_`.
pub record FixedString : Type 0 where
  pub buf : List ℕ
  pub len : ℕ

-- `detail::utf8Prefix`
unfoldable pub utf8_prefix : List ℕ → ℕ → ℕ
utf8_prefix sv zero = zero
utf8_prefix sv (suc n) =
    let less = utf8_prefix sv n in
    if bit_and (get_or sv (suc n) 0) 0xc0 == 0x80 then less else suc n

-- The loop of `assign`: `n` bytes from index `i` on.
unfoldable pub copy_text : List ℕ → ℕ → ℕ → List ℕ → List ℕ
copy_text sv i zero buf = buf
copy_text sv i (suc n) buf = copy_text sv (i + 1) n (set buf i (get_or sv i 0))

unfoldable pub cut_length : ℕ → List ℕ → ℕ
cut_length cap sv = if leb (length sv) cap then length sv else utf8_prefix sv cap

unfoldable pub assign : ℕ → List ℕ → FixedString → FixedString
assign cap sv s =
    let n = cut_length cap sv in record { buf = set (copy_text sv 0 n s.buf) n 0; len = n }

unfoldable pub set_len : ℕ → ℕ → FixedString → FixedString
set_len cap n s =
    let len = if ltb cap n then cap else n in record { buf = set s.buf len 0; len = len }

unfoldable pub clear : FixedString → FixedString
clear s = record { buf = set s.buf 0 0; len = 0 }

unfoldable pub view : FixedString → List ℕ
view s = take s.len s.buf

-- `operator==` on a view.
unfoldable pub same_view : List ℕ → List ℕ → Bool
same_view [] [] = true
same_view [] (y ∷ ys) = false
same_view (x ∷ xs) [] = false
same_view (x ∷ xs) (y ∷ ys) = let rest = same_view xs ys in if x == y then rest else false

unfoldable pub equals : FixedString → List ℕ → Bool
equals s rhs = same_view (view s) rhs
