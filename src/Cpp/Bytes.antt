-- ===== src/Cpp/Bytes.antt =====
-- `FixedBytes` of sofab.hpp is an `InlineVector` of bytes.
use corelib_c_cpp.Base.{ℕ, ◌≡◌, refl, Bool-cases, inl, inr, List, [], ◌∷◌, ltb, leb}
use corelib_c_cpp.Cpp.InlineVector as Vector
use corelib_c_cpp.Cpp.InlineVector.{InlineVector}
use corelib_c_cpp.Cpp.FixedBytes.{FixedBytes, push_back, assign_loop}

abbrev pub as_vector : FixedBytes → InlineVector ℕ
as_vector s = record { buf = s.buf; len = s.len }

as_vector-push_back :
    (cap b : ℕ) (s : FixedBytes)
    → as_vector (push_back cap b s) ≡ Vector.push_back cap b (as_vector s)
unfolding push_back Vector.push_back
as_vector-push_back cap b s = elim (Bool-cases (ltb s.len cap)) [
  | inl e ↦ rw e refl
  | inr e ↦ rw e refl
]

as_vector-assign_loop :
    (cap : ℕ) (init : List ℕ) (s : FixedBytes)
    → as_vector (assign_loop cap init s) ≡ Vector.assign_loop cap init (as_vector s)
unfolding assign_loop Vector.assign_loop
as_vector-assign_loop cap [] s = refl
as_vector-assign_loop cap (b ∷ init) s = elim (Bool-cases (leb cap s.len)) [
  | inl e ↦ rw e refl
  | inr e ↦ rw e (as_vector-assign_loop cap init _)
]
