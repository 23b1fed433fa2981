-- ===== src/Cpp/Cut.antt =====
-- `detail::utf8Prefix` of sofab.hpp against the definition of UTF-8.
use corelib_c_cpp.Base.{
  ℕ, zero, suc, ◌+◌, ◌-◌, ◌/◌, ◌%◌, ◌≤◌, ◌<◌, ◌≡◌, refl, sym, ap, ◌∙◌, Bool, Bool-cases, inl, inr,
  true, false, List, [], ◌∷◌, ◌++◌, ◌==◌, if◌then◌else◌, bit_and, holds_at, length, get_or,
  length-append, All, arith,
}
use native.Mathlib.Decide.{dec_lt}
use corelib_c_cpp.Utf8.Masks.{is_continuation}
use corelib_c_cpp.Utf8.Scalars.{utf8, utf8_text, IsScalar}
use corelib_c_cpp.Cpp.FixedString.{utf8_prefix}

-- The test of the loop.
abbrev continues : ℕ → Bool
continues b = bit_and b 0xc0 == 0x80

abbrev same_test : ℕ → Bool
same_test b = if continues b then is_continuation b else (if is_continuation b then false else true)

same_test_at : (b : ℕ) → b < 256 → same_test b ≡ true
same_test_at b h = holds_at same_test 256 b refl h

continues_lem : (b : ℕ) → b < 256 → continues b ≡ is_continuation b
continues_lem b h = ground (arith, same_test_at b h)

get_or-above :
    (xs rest : List ℕ) (k m : ℕ) → m ≡ length xs + k → get_or (xs ++ rest) m 0 ≡ get_or rest k 0
get_or-above [] rest k m e = ap (λ i. get_or rest i 0) (omega (arith, e))
get_or-above (x ∷ xs) rest k zero e = ground arith
get_or-above (x ∷ xs) rest k (suc m) e = get_or-above xs rest k m (omega (arith, e))

-- Over whole characters the search goes on in what follows them.
pub utf8_prefix-above :
    (xs rest : List ℕ) (k m : ℕ)
    → m ≡ length xs + k
    → continues (get_or rest 0 0) ≡ false
    → utf8_prefix (xs ++ rest) m ≡ length xs + utf8_prefix rest k
unfolding utf8_prefix
utf8_prefix-above xs rest zero zero e h = omega (arith, e)
utf8_prefix-above xs rest zero (suc m) e h =
    rw (get_or-above xs rest zero (suc m) e, h) (omega (arith, e))
utf8_prefix-above xs rest (suc k) zero e h = ground arith
utf8_prefix-above xs rest (suc k) (suc m) e h =
    let below = utf8_prefix-above xs rest k m (omega (arith, e)) h in
    elim (Bool-cases (continues (get_or rest (suc k) 0))) [
      | inl y ↦ rw (get_or-above xs rest (suc k) (suc m) e, y) below
      | inr n ↦ rw (get_or-above xs rest (suc k) (suc m) e, n) (omega (arith, e))
    ]

-- Inside a character it goes back to its beginning.
utf8_prefix-inside :
    (sv : List ℕ) (n m : ℕ)
    → n < m
    → ((i : ℕ) → suc i < m → continues (get_or sv (suc i) 0) ≡ true)
    → utf8_prefix sv n ≡ 0
unfolding utf8_prefix
utf8_prefix-inside sv zero m h all = refl
utf8_prefix-inside sv (suc n) m h all = rw (all n h) (utf8_prefix-inside sv n m (omega arith) all)

-- A character: a byte that begins it, and bytes that continue it.
pub record IsCharacter (bytes : List ℕ) : Type 0 where
  pub first : ℕ
  pub others : List ℕ
  pub parts : bytes ≡ first ∷ others
  pub begins : continues first ≡ false
  pub continue : All (λ b. continues b ≡ true) others

continues-low : (x : ℕ) → x < 64 → continues (128 + x) ≡ true
continues-low x h = ground (arith, continues_lem (128 + x))

utf8-IsCharacter : (cp : ℕ) → IsScalar cp → IsCharacter (utf8 cp)
unfolding utf8
utf8-IsCharacter cp h =
    let low = continues-low (cp % 64) (omega arith) in
    let middle = continues-low (cp / 64 % 64) (omega arith) in
    let high = continues-low (cp / 4096 % 64) (omega arith) in
    elim (dec_lt cp 0x80) [
      | yes a ↦ record {
        first = cp;
        others = [];
        parts = ground arith;
        begins = ground (arith, continues_lem cp);
        continue = tt;
      }
      | no a ↦ elim (dec_lt cp 0x800) [
        | yes b ↦ record {
          first = 192 + cp / 64;
          others = (128 + cp % 64) ∷ [];
          parts = ground arith;
          begins = ground (arith, continues_lem (192 + cp / 64));
          continue = (low, tt);
        }
        | no b ↦ elim (dec_lt cp 0x10000) [
          | yes c ↦ record {
            first = 224 + cp / 4096;
            others = (128 + cp / 64 % 64) ∷ (128 + cp % 64) ∷ [];
            parts = ground arith;
            begins = ground (arith, continues_lem (224 + cp / 4096));
            continue = (middle, (low, tt));
          }
          | no c ↦ record {
            first = 240 + cp / 262144;
            others = (128 + cp / 4096 % 64) ∷ (128 + cp / 64 % 64) ∷ (128 + cp % 64) ∷ [];
            parts = ground arith;
            begins = ground (arith, continues_lem (240 + cp / 262144));
            continue = (high, (middle, (low, tt)));
          }
        ]
      ]
    ]

continues-others :
    (xs rest : List ℕ) (i : ℕ)
    → All (λ b. continues b ≡ true) xs
    → i < length xs
    → continues (get_or (xs ++ rest) i 0) ≡ true
continues-others [] rest i all h = elim h [ ]
continues-others (x ∷ xs) rest zero all h = all.0
continues-others (x ∷ xs) rest (suc i) all h = continues-others xs rest i all.1 (omega arith)

-- What stands after the first byte of a character, up to its end.
continues-inside :
    (bytes rest : List ℕ) (i : ℕ)
    → IsCharacter bytes
    → suc i < length bytes
    → continues (get_or (bytes ++ rest) (suc i) 0) ≡ true
continues-inside bytes rest i c h =
    ap (λ t. continues (get_or (t ++ rest) (suc i) 0)) c.parts
    ∙ continues-others c.others rest i c.continue (ground (arith, ap length c.parts))

begins-character :
    (bytes rest : List ℕ) → IsCharacter bytes → continues (get_or (bytes ++ rest) 0 0) ≡ false
begins-character bytes rest c = ap (λ t. continues (get_or (t ++ rest) 0 0)) c.parts ∙ c.begins

begins-text :
    (cps : List ℕ)
    → All IsScalar cps
    → 0 < length (utf8_text cps)
    → continues (get_or (utf8_text cps) 0 0) ≡ false
unfolding utf8_text
begins-text [] h k = ground arith
begins-text (cp ∷ cps) h k = begins-character (utf8 cp) (utf8_text cps) (utf8-IsCharacter cp h.0)

-- No further character of what was dropped has room in `n` bytes.
abbrev pub IsLongest : ℕ → List ℕ → List ℕ → Type 0
IsLongest n kept [] = Unit
IsLongest n kept (cp ∷ dropped) = n < length (utf8_text kept) + length (utf8 cp)

-- A text cut at `n` bytes: whole characters, and as many as fit.
pub record Cut (cps : List ℕ) (n : ℕ) : Type 0 where
  pub kept : List ℕ
  pub dropped : List ℕ
  pub parts : cps ≡ kept ++ dropped
  pub prefix : utf8_prefix (utf8_text cps) n ≡ length (utf8_text kept)
  pub fits : length (utf8_text kept) ≤ n
  pub longest : IsLongest n kept dropped

IsLongest-character :
    (cp n : ℕ) (kept dropped : List ℕ)
    → length (utf8 cp) ≤ n
    → IsLongest (n - length (utf8 cp)) kept dropped
    → IsLongest n (cp ∷ kept) dropped
unfolding utf8_text
IsLongest-character cp n kept [] h l = tt
IsLongest-character cp n kept (next ∷ dropped) h l =
    omega (arith, length-append (utf8 cp) (utf8_text kept))

pub utf8_prefix-Cut :
    (cps : List ℕ) (n : ℕ) → All IsScalar cps → n < length (utf8_text cps) → Cut cps n
unfolding utf8_text
utf8_prefix-Cut [] n h k = elim k [ ]
utf8_prefix-Cut (cp ∷ cps) n h k =
    let c = utf8-IsCharacter cp h.0 in
    elim (dec_lt n (length (utf8 cp))) [
      | yes inside ↦ record {
        kept = [];
        dropped = cp ∷ cps;
        parts = refl;
        prefix =
            utf8_prefix-inside (utf8 cp ++ utf8_text cps) n (length (utf8 cp)) inside
              (λ i l. continues-inside (utf8 cp) (utf8_text cps) i c l);
        fits = omega arith;
        longest = omega (arith, inside);
      }
      | no after ↦
          let left : n - length (utf8 cp) < length (utf8_text cps) =
            omega (arith, length-append (utf8 cp) (utf8_text cps)) in
          let r = utf8_prefix-Cut cps (n - length (utf8 cp)) h.1 left in
          record {
            kept = cp ∷ r.kept;
            dropped = r.dropped;
            parts = ap (λ t. cp ∷ t) r.parts;
            prefix =
                utf8_prefix-above (utf8 cp) (utf8_text cps) (n - length (utf8 cp)) n (omega arith)
                  (begins-text cps h.1 (omega arith))
                ∙ ap (λ m. length (utf8 cp) + m) r.prefix
                ∙ sym (length-append (utf8 cp) (utf8_text r.kept));
            fits = omega (arith, length-append (utf8 cp) (utf8_text r.kept), r.fits);
            longest = IsLongest-character cp n r.kept r.dropped (omega arith) r.longest;
          }
    ]
