-- ===== src/Cpp/Copied.antt =====
-- The bytes that `FixedString::assign` leaves in its buffer.
use corelib_c_cpp.Base.{
  ℕ, zero, suc, ◌+◌, ◌≤◌, ◌<◌, ◌≡◌, refl, sym, ap, ◌∙◌, List, [], ◌∷◌, ◌++◌, length, take, drop,
  set, get_or, length-take, take-append-length, arith,
}
use corelib_c_cpp.Cpp.FixedString.{FixedString, copy_text, cut_length, assign, view}
use corelib_c_cpp.Cpp.Slots.{set-append}

take-snoc :
    (sv : List ℕ) (i : ℕ) → i < length sv → take i sv ++ get_or sv i 0 ∷ [] ≡ take (suc i) sv
take-snoc [] i h = elim h [ ]
take-snoc (x ∷ sv) zero h = refl
take-snoc (x ∷ sv) (suc i) h = ap (λ t. x ∷ t) (take-snoc sv i (omega arith))

-- The loop, when the buffer already begins with the first `i` bytes.
copy_text-take :
    (sv : List ℕ) (i n : ℕ) (rest : List ℕ)
    → i + n ≤ length sv
    → n ≤ length rest
    → copy_text sv i n (take i sv ++ rest) ≡ take (i + n) sv ++ drop n rest
unfolding copy_text
copy_text-take sv i zero rest h k = ap (λ m. take m sv ++ rest) (omega arith)
copy_text-take sv i (suc n) [] h k = elim k [ ]
copy_text-take sv i (suc n) (y ∷ rest) h k =
    let here : length (take i sv) ≡ i = omega (arith, length-take i sv) in
    let next : suc i ≡ i + 1 = omega arith in
    let written : set (take i sv ++ y ∷ rest) i (get_or sv i 0) ≡ take (i + 1) sv ++ rest =
      ap (λ m. set (take i sv ++ y ∷ rest) m (get_or sv i 0)) (sym here)
      ∙ set-append (take i sv) y (get_or sv i 0) rest
      ∙ ap (λ t. t ++ rest) (take-snoc sv i (omega arith))
      ∙ ap (λ m. take m sv ++ rest) next in
    ap (copy_text sv (i + 1) n) written
    ∙ copy_text-take sv (i + 1) n rest (omega arith) (omega arith)
    ∙ ap (λ m. take m sv ++ drop n rest) (omega arith)

take-set_at : (xs : List ℕ) (i v : ℕ) → take i (set xs i v) ≡ take i xs
take-set_at [] i v = refl
take-set_at (x ∷ xs) zero v = refl
take-set_at (x ∷ xs) (suc i) v = ap (λ t. x ∷ t) (take-set_at xs i v)

-- The text that `assign` keeps, when the buffer has room for the cut and its terminator.
pub view-assign :
    (cap : ℕ) (sv : List ℕ) (s : FixedString)
    → cut_length cap sv ≤ length sv
    → cut_length cap sv ≤ length s.buf
    → view (assign cap sv s) ≡ take (cut_length cap sv) sv
unfolding view assign
view-assign cap sv s h k =
    let n = cut_length cap sv in
    let copied = copy_text-take sv 0 n s.buf (omega (arith, h)) k in
    let kept : length (take n sv) ≡ n = omega (arith, length-take n sv, h) in
    take-set_at (copy_text sv 0 n s.buf) n 0
    ∙ ap (take n) (copied ∙ ap (λ m. take m sv ++ drop n s.buf) (omega arith))
    ∙ ap (λ m. take m (take n sv ++ drop n s.buf)) (sym kept)
    ∙ take-append-length (take n sv) (drop n s.buf)
