-- ===== src/Utf8/Scalars.antt =====
-- `sofab_utf8_valid` against the definition of UTF-8: the data is a list of Unicode scalar
-- values, each in its shortest form.
use corelib_c_cpp.Base.{
  ℕ, zero, suc, ◌+◌, ◌-◌, ◌*◌, ◌/◌, ◌%◌, ◌<◌, ◌≤◌, ◌≡◌, refl, ◌∙◌, ap, true, false, ◌&&◌, ◌⊎◌, List,
  [], ◌∷◌, ◌++◌, arith, if◌then◌else◌, length, length-append, none, some, ltb, All,
}
use native.Mathlib.Decide.{dec_lt}
use corelib_c_cpp.Utf8.{in_range, sequence, round, valid_loop, valid}
use corelib_c_cpp.Utf8.Masks.{is_continuation}
use corelib_c_cpp.Utf8.Rounds.{
  outcome, sequence_two, sequence_three, sequence_four, tail_one, tail_two, tail_three,
}

-- The shortest form of a code point.
unfoldable pub utf8 : ℕ → List ℕ
utf8 cp =
    if ltb cp 0x80
    then cp ∷ []
    else if ltb cp 0x800
    then (192 + cp / 64) ∷ (128 + cp % 64) ∷ []
    else if ltb cp 0x10000
    then (224 + cp / 4096) ∷ (128 + cp / 64 % 64) ∷ (128 + cp % 64) ∷ []
    else (240 + cp / 262144) ∷ (128 + cp / 4096 % 64) ∷ (128 + cp / 64 % 64) ∷ (128 + cp % 64) ∷ []

-- A Unicode scalar value: a code point that is no surrogate.
abbrev pub IsScalar : ℕ → Type 0
IsScalar cp = (cp ≤ 0x10ffff) × ((cp < 0xd800) ⊎ (0xdfff < cp))

unfoldable pub utf8_text : List ℕ → List ℕ
utf8_text [] = []
utf8_text (cp ∷ cps) = utf8 cp ++ utf8_text cps

pub round-some :
    (f b : ℕ) (rest : List ℕ) {r : List ℕ}
    → round b rest ≡ some r
    → valid_loop (suc f) (b ∷ rest) ≡ valid_loop f r
unfolding valid_loop
round-some f b rest e = rw (e, valid_loop) refl

pub round-none :
    (f b : ℕ) (rest : List ℕ) → round b rest ≡ none → valid_loop (suc f) (b ∷ rest) ≡ false
unfolding valid_loop
round-none f b rest e = rw (e, valid_loop) refl

pub round_ascii : (b : ℕ) (rest : List ℕ) → b < 0x80 → round b rest ≡ some rest
unfolding round
round_ascii b rest h = ground arith

pub round-sequence : (b : ℕ) (rest : List ℕ) → 0x80 ≤ b → round b rest ≡ sequence b rest
unfolding round
round-sequence b rest h = ground arith

pub round_two :
    (b c : ℕ) (rest : List ℕ)
    → 192 ≤ b
    → b < 224
    → c < 256
    → round b (c ∷ rest)
      ≡ outcome (b - 192) 0x80 (is_continuation c) ((b - 192) * 64 + (c - 128)) rest
round_two b c rest h k l =
    round-sequence b (c ∷ rest) (omega arith)
    ∙ sequence_two b (c ∷ rest) h k
    ∙ tail_one (b - 192) 0x80 c rest l (omega arith)

pub round_three :
    (b c d : ℕ) (rest : List ℕ)
    → 224 ≤ b
    → b < 240
    → c < 256
    → d < 256
    → round b (c ∷ d ∷ rest)
      ≡ outcome
          (b - 224)
          0x800
          (is_continuation c && is_continuation d)
          (((b - 224) * 64 + (c - 128)) * 64 + (d - 128))
          rest
round_three b c d rest h k l m =
    round-sequence b (c ∷ d ∷ rest) (omega arith)
    ∙ sequence_three b (c ∷ d ∷ rest) h k
    ∙ tail_two (b - 224) 0x800 c d rest l m (omega arith)

pub round_four :
    (b c d e : ℕ) (rest : List ℕ)
    → 240 ≤ b
    → b < 248
    → c < 256
    → d < 256
    → e < 256
    → round b (c ∷ d ∷ e ∷ rest)
      ≡ outcome
          (b - 240)
          0x10000
          (is_continuation c && is_continuation d && is_continuation e)
          ((((b - 240) * 64 + (c - 128)) * 64 + (d - 128)) * 64 + (e - 128))
          rest
round_four b c d e rest h k l m n =
    round-sequence b (c ∷ d ∷ e ∷ rest) (omega arith)
    ∙ sequence_four b (c ∷ d ∷ e ∷ rest) h k
    ∙ tail_three (b - 240) 0x10000 c d e rest l m n (omega arith)

-- A round takes exactly the shortest form of a scalar value.
data Shape (cp : ℕ) (rest : List ℕ) : Type 0 where
  shape :
      (b : ℕ) (bytes : List ℕ)
      → utf8 cp ++ rest ≡ b ∷ bytes
      → round b bytes ≡ some rest
      → Shape cp rest

Shape-utf8 : (cp : ℕ) (rest : List ℕ) → IsScalar cp → Shape cp rest
unfolding utf8 in_range
Shape-utf8 cp rest h = elim (dec_lt cp 0x80) [
  | yes a ↦ shape cp rest (ground arith) (round_ascii cp rest a)
  | no a ↦ elim (dec_lt cp 0x800) [
    | yes b ↦
        shape (192 + cp / 64) ((128 + cp % 64) ∷ rest) (ground arith)
          (ground (arith, round_two (192 + cp / 64) (128 + cp % 64) rest))
    | no b ↦ elim (dec_lt cp 0x10000) [
      | yes c ↦
          shape (224 + cp / 4096) ((128 + cp / 64 % 64) ∷ (128 + cp % 64) ∷ rest) (ground arith) (
            ground (arith, round_three (224 + cp / 4096) (128 + cp / 64 % 64) (128 + cp % 64) rest))
      | no c ↦
          shape (240 + cp / 262144)
            ((128 + cp / 4096 % 64) ∷ (128 + cp / 64 % 64) ∷ (128 + cp % 64) ∷ rest) (ground arith)
            (ground (
              arith,
              round_four (240 + cp / 262144) (128 + cp / 4096 % 64) (128 + cp / 64 % 64)
                  (128 + cp % 64) rest,
            ))
    ]
  ]
]

valid_loop-utf8_text :
    (f : ℕ) (cps : List ℕ) → All IsScalar cps → length cps < f → valid_loop f (utf8_text cps) ≡ true
unfolding utf8_text
valid_loop-utf8_text zero cps h l = absurd (omega arith)
valid_loop-utf8_text (suc f) [] h l = unfold valid_loop in refl
valid_loop-utf8_text (suc f) (cp ∷ cps) h l = elim (Shape-utf8 cp (utf8_text cps) h.0) [
  | shape b bytes e r ↦
      ap (valid_loop (suc f)) e
      ∙ round-some f b bytes r
      ∙ valid_loop-utf8_text f cps h.1 (omega arith)
]

length-utf8 : (cp : ℕ) → 1 ≤ length (utf8 cp)
unfolding utf8
length-utf8 cp = ground arith

length-utf8_text : (cps : List ℕ) → length cps ≤ length (utf8_text cps)
unfolding utf8_text
length-utf8_text [] = omega arith
length-utf8_text (cp ∷ cps) =
    omega (arith, length-append (utf8 cp) (utf8_text cps), length-utf8 cp, length-utf8_text cps)

-- Every list of scalar values, written in UTF-8, is accepted.
pub valid-utf8_text : (cps : List ℕ) → All IsScalar cps → valid (utf8_text cps) ≡ true
unfolding valid
valid-utf8_text cps h = valid_loop-utf8_text _ cps h (omega (arith, length-utf8_text cps))
