-- ===== src/Cpp/FixedBytes.antt =====
-- `FixedBytes` of sofab.hpp, at capacity `cap`.
use corelib_c_cpp.Base.{
  ℕ, zero, suc, ◌+◌, Bool, true, false, List, [], ◌∷◌, ltb, leb, ◌==◌, if◌then◌else◌, set, get_or,
}

pub record FixedBytes : Type 0 where
  pub buf : List ℕ
  pub len : ℕ

unfoldable pub push_back : ℕ → ℕ → FixedBytes → FixedBytes
push_back cap b s = if ltb s.len cap then record { buf = set s.buf s.len b; len = s.len + 1 } else s

-- The loop of `assign`, which stops at the capacity.
unfoldable pub assign_loop : ℕ → List ℕ → FixedBytes → FixedBytes
assign_loop cap [] s = s
assign_loop cap (b ∷ init) s =
    let rest = assign_loop cap init (record { buf = set s.buf s.len b; len = s.len + 1 }) in
    if leb cap s.len then s else rest

unfoldable pub assign : ℕ → List ℕ → FixedBytes → FixedBytes
assign cap init s = assign_loop cap init (record s { len = 0 })

unfoldable pub set_len : ℕ → ℕ → FixedBytes → FixedBytes
set_len cap n s = record s { len = if ltb n cap then n else cap }

unfoldable pub clear : FixedBytes → FixedBytes
clear s = record s { len = 0 }

-- `operator==`, with the loop from index `i` on.
unfoldable pub same_from : ℕ → ℕ → List ℕ → List ℕ → Bool
same_from i zero xs ys = true
same_from i (suc n) xs ys =
    let rest = same_from (i + 1) n xs ys in if get_or xs i 0 == get_or ys i 0 then rest else false

unfoldable pub equals : FixedBytes → FixedBytes → Bool
equals s o = if s.len == o.len then same_from 0 s.len s.buf o.buf else false
