-- ===== src/Utf8/Runs.antt =====
-- Concrete texts.
use corelib_c_cpp.Base.{ℕ, ◌≡◌, ◌↔◌, true, List, [], ◌∷◌, All, arith}
use corelib_c_cpp.Utf8.{valid}
use corelib_c_cpp.Utf8.Scalars.{utf8_text, IsScalar}
use corelib_c_cpp.Utf8.Sound.{valid_iff}

-- "é€"
valid_iff_example :
    (valid (195 ∷ 169 ∷ 226 ∷ 130 ∷ 172 ∷ []) ≡ true)
    ↔ ((cps : List ℕ) × All IsScalar cps × (195 ∷ 169 ∷ 226 ∷ 130 ∷ 172 ∷ [] ≡ utf8_text cps))
valid_iff_example =
    valid_iff (195 ∷ 169 ∷ 226 ∷ 130 ∷ 172 ∷ [])
      (omega arith, (omega arith, (omega arith, (omega arith, (omega arith, tt)))))
