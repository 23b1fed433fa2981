-- ===== src/Cpp/Assigned.antt =====
-- `FixedString::assign` of sofab.hpp on valid UTF-8.
use corelib_c_cpp.Base.{
  ℕ, ◌+◌, ◌≤◌, ◌≡◌, refl, sym, ap, ◌∙◌, Bool-cases, inl, inr, true, List, [], ◌∷◌, ◌++◌,
  append_assoc, append-nil, leb, length, take, length-append, take-append-length, All, arith,
}
use mathlib.Core.Path.{subst}
use corelib_c_cpp.Wire.Varint.{IsByte}
use corelib_c_cpp.Utf8.{valid}
use corelib_c_cpp.Utf8.Scalars.{utf8, utf8_text, IsScalar, valid-utf8_text}
use corelib_c_cpp.Utf8.Sound.{valid_iff}
use corelib_c_cpp.Cpp.FixedString.{FixedString, cut_length, assign, view}
use corelib_c_cpp.Cpp.Copied.{view-assign}
use corelib_c_cpp.Cpp.Cut.{IsLongest, utf8_prefix-Cut}

utf8_text-append : (xs ys : List ℕ) → utf8_text (xs ++ ys) ≡ utf8_text xs ++ utf8_text ys
unfolding utf8_text
utf8_text-append [] ys = refl
utf8_text-append (x ∷ xs) ys =
    ap (λ t. utf8 x ++ t) (utf8_text-append xs ys)
    ∙ sym (append_assoc (utf8 x) (utf8_text xs) (utf8_text ys))

All-left : (xs ys : List ℕ) → All IsScalar (xs ++ ys) → All IsScalar xs
All-left [] ys h = tt
All-left (x ∷ xs) ys h = (h.0, All-left xs ys h.1)

take-text : (xs ys : List ℕ) → take (length (utf8_text xs)) (utf8_text (xs ++ ys)) ≡ utf8_text xs
take-text xs ys =
    ap (take (length (utf8_text xs))) (utf8_text-append xs ys)
    ∙ take-append-length (utf8_text xs) (utf8_text ys)

-- Text cut to a capacity: whole characters of the original, as many as fit.
pub record IsCut (cap : ℕ) (sv text : List ℕ) : Type 0 where
  pub kept : List ℕ
  pub dropped : List ℕ
  pub original : sv ≡ utf8_text (kept ++ dropped)
  pub cut : text ≡ utf8_text kept
  pub accepted : valid text ≡ true
  pub fits : length text ≤ cap
  pub longest : IsLongest cap kept dropped

-- The length of the cut is that of some of the characters.
record Chosen (cap : ℕ) (sv : List ℕ) : Type 0 where
  kept : List ℕ
  dropped : List ℕ
  scalars : All IsScalar (kept ++ dropped)
  original : sv ≡ utf8_text (kept ++ dropped)
  size : cut_length cap sv ≡ length (utf8_text kept)
  fits : length (utf8_text kept) ≤ cap
  longest : IsLongest cap kept dropped

cut_length-Chosen : (cap : ℕ) (cps : List ℕ) → All IsScalar cps → Chosen cap (utf8_text cps)
unfolding cut_length
cut_length-Chosen cap cps h = elim (Bool-cases (leb (length (utf8_text cps)) cap)) [
  | inl e ↦ record {
    kept = cps;
    dropped = [];
    scalars = subst (All IsScalar) (sym (append-nil cps)) h;
    original = ap utf8_text (sym (append-nil cps));
    size = rw e refl;
    fits = ground arith;
    longest = tt;
  }
  | inr e ↦
      let c = utf8_prefix-Cut cps cap h (ground arith) in
      record {
        kept = c.kept;
        dropped = c.dropped;
        scalars = subst (All IsScalar) c.parts h;
        original = ap utf8_text c.parts;
        size = rw e c.prefix;
        fits = c.fits;
        longest = c.longest;
      }
]

assign-Chosen :
    (cap : ℕ) (sv : List ℕ) (s : FixedString)
    → length s.buf ≡ cap + 1
    → Chosen cap sv
    → IsCut cap sv (view (assign cap sv s))
assign-Chosen cap sv s room c =
    let whole : length sv ≡ length (utf8_text c.kept) + length (utf8_text c.dropped) =
      ap length (c.original ∙ utf8_text-append c.kept c.dropped)
      ∙ length-append (utf8_text c.kept) (utf8_text c.dropped) in
    let text : view (assign cap sv s) ≡ utf8_text c.kept =
      view-assign cap sv s (omega (arith, c.size, whole)) (omega (arith, c.size, c.fits, room))
      ∙ ap (λ n. take n sv) c.size
      ∙ ap (take (length (utf8_text c.kept))) c.original
      ∙ take-text c.kept c.dropped in
    record {
      kept = c.kept;
      dropped = c.dropped;
      original = c.original;
      cut = text;
      accepted = ap valid text ∙ valid-utf8_text c.kept (All-left c.kept c.dropped c.scalars);
      fits = omega (arith, ap length text, c.fits);
      longest = c.longest;
    }

-- A string whose buffer has a byte more than its capacity, assigned valid UTF-8, holds whole
-- characters from the beginning of the text, as many as fit in the capacity, and what it holds is
-- valid UTF-8 again.
pub assign-IsCut :
    (cap : ℕ) (sv : List ℕ) (s : FixedString)
    → All IsByte sv
    → valid sv ≡ true
    → length s.buf ≡ cap + 1
    → IsCut cap sv (view (assign cap sv s))
assign-IsCut cap sv s h e room =
    let (cps, scalars, same) = (valid_iff sv h).0 e in
    assign-Chosen cap sv s room (subst (Chosen cap) (sym same) (cut_length-Chosen cap cps scalars))
