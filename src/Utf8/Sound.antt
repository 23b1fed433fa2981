-- ===== src/Utf8/Sound.antt =====
-- `sofab_utf8_valid` of utf8.c against the definition of UTF-8: what it accepts.
use corelib_c_cpp.Base.{
  ℕ, zero, suc, ◌+◌, ◌-◌, ◌*◌, ◌<◌, ◌≤◌, ◌≡◌, ◌↔◌, refl, sym, ◌∙◌, ap, Bool, true, ◌&&◌, inl, inr,
  List, [], ◌∷◌, ◌++◌, arith, length, Option, none, some, All, Option-cases,
}
use corelib_c_cpp.Wire.Varint.{IsByte}
use mathlib.Core.Path.{subst}
use native.Mathlib.Decide.{dec_lt}
use corelib_c_cpp.Utf8.{in_range, round, valid_loop, valid}
use corelib_c_cpp.Utf8.Masks.{is_continuation}
use corelib_c_cpp.Utf8.Scalars.{
  utf8, IsScalar, utf8_text, round-some, round-none, round_ascii, round-sequence, round_two,
  round_three, round_four, valid-utf8_text,
}
use corelib_c_cpp.Utf8.Rounds.{
  outcome, sequence_bad, sequence_two, sequence_three, sequence_four, tail_short,
}

-- What a successful round took: the shortest form of a scalar value.
abbrev Taken : List ℕ → List ℕ → Type 0
Taken bytes r = (cp : ℕ) × IsScalar cp × (bytes ≡ utf8 cp ++ r) × All IsByte r

outcome-some :
    (cp min_cp : ℕ) (good : Bool) (value : ℕ) (rest : List ℕ) {r : List ℕ}
    → outcome cp min_cp good value rest ≡ some r
    → (good ≡ true) × (in_range min_cp value ≡ true) × (rest ≡ r)
outcome-some cp min_cp good value rest e = ground arith

two-Taken :
    (b c : ℕ) (rest : List ℕ)
    → 192 ≤ b
    → b < 224
    → c < 256
    → is_continuation c ≡ true
    → in_range 0x80 ((b - 192) * 64 + (c - 128)) ≡ true
    → All IsByte rest
    → Taken (b ∷ c ∷ rest) rest
unfolding utf8 in_range
two-Taken b c rest h k l g i a = ((b - 192) * 64 + (c - 128), ground arith, ground arith, a)

three-Taken :
    (b c d : ℕ) (rest : List ℕ)
    → 224 ≤ b
    → b < 240
    → (is_continuation c && is_continuation d) ≡ true
    → in_range 0x800 (((b - 224) * 64 + (c - 128)) * 64 + (d - 128)) ≡ true
    → All IsByte rest
    → Taken (b ∷ c ∷ d ∷ rest) rest
unfolding utf8 in_range
three-Taken b c d rest h k g i a =
    (((b - 224) * 64 + (c - 128)) * 64 + (d - 128), ground arith, ground arith, a)

four-Taken :
    (b c d e : ℕ) (rest : List ℕ)
    → 240 ≤ b
    → b < 248
    → (is_continuation c && is_continuation d && is_continuation e) ≡ true
    → in_range 0x10000 ((((b - 240) * 64 + (c - 128)) * 64 + (d - 128)) * 64 + (e - 128)) ≡ true
    → All IsByte rest
    → Taken (b ∷ c ∷ d ∷ e ∷ rest) rest
unfolding utf8 in_range
four-Taken b c d e rest h k g i a = (
  (((b - 240) * 64 + (c - 128)) * 64 + (d - 128)) * 64 + (e - 128),
  ground arith,
  ground arith,
  a,
)

none_taken : {o : Option (List ℕ)} {r : List ℕ} → o ≡ none → o ≡ some r → ⊥
none_taken e f = cc

some_eq : {xs ys : List ℕ} → some xs ≡ some ys → xs ≡ ys
some_eq e = cc

lead-Taken_two :
    (b : ℕ) (rest : List ℕ) {r : List ℕ}
    → 192 ≤ b
    → b < 224
    → All IsByte rest
    → round b rest ≡ some r
    → Taken (b ∷ rest) r
lead-Taken_two b [] h k a e = absurd (
    none_taken
      (round-sequence b [] (omega arith)
        ∙ sequence_two b [] h k
        ∙ tail_short (b - 192) 0x80 1 [] (omega arith))
      e)
lead-Taken_two b (c ∷ rest) h k a e =
    let (g, i, same) =
      outcome-some (b - 192) 0x80 (is_continuation c) _ rest
        (sym (round_two b c rest h k a.0) ∙ e) in
    subst (Taken (b ∷ c ∷ rest)) same (two-Taken b c rest h k a.0 g i a.1)

lead-Taken_three :
    (b : ℕ) (rest : List ℕ) {r : List ℕ}
    → 224 ≤ b
    → b < 240
    → All IsByte rest
    → round b rest ≡ some r
    → Taken (b ∷ rest) r
lead-Taken_three b (c ∷ d ∷ rest) h k a e =
    let (g, i, same) =
      outcome-some (b - 224) 0x800 (is_continuation c && is_continuation d) _ rest
        (sym (round_three b c d rest h k a.0 a.1.0) ∙ e) in
    subst (Taken (b ∷ c ∷ d ∷ rest)) same (three-Taken b c d rest h k g i a.1.1)
lead-Taken_three b short h k a e = absurd (
    none_taken
      (round-sequence b short (omega arith)
        ∙ sequence_three b short h k
        ∙ tail_short (b - 224) 0x800 2 short (omega arith))
      e)

lead-Taken_four :
    (b : ℕ) (rest : List ℕ) {r : List ℕ}
    → 240 ≤ b
    → b < 248
    → All IsByte rest
    → round b rest ≡ some r
    → Taken (b ∷ rest) r
lead-Taken_four b (c ∷ d ∷ x ∷ rest) h k a e =
    let (g, i, same) =
      outcome-some (b - 240) 0x10000 (is_continuation c && is_continuation d && is_continuation x) _
        rest (sym (round_four b c d x rest h k a.0 a.1.0 a.1.1.0) ∙ e) in
    subst (Taken (b ∷ c ∷ d ∷ x ∷ rest)) same (four-Taken b c d x rest h k g i a.1.1.1)
lead-Taken_four b short h k a e = absurd (
    none_taken
      (round-sequence b short (omega arith)
        ∙ sequence_four b short h k
        ∙ tail_short (b - 240) 0x10000 3 short (omega arith))
      e)

ascii-Taken : (b : ℕ) (rest : List ℕ) → b < 0x80 → All IsByte rest → Taken (b ∷ rest) rest
unfolding utf8
ascii-Taken b rest h a = (b, ground arith, ground arith, a)

round-Taken :
    (b : ℕ) (rest : List ℕ) {r : List ℕ}
    → b < 256
    → All IsByte rest
    → round b rest ≡ some r
    → Taken (b ∷ rest) r
round-Taken b rest l a e = elim (dec_lt b 0x80) [
  | yes h ↦
      subst (Taken (b ∷ rest)) (some_eq (sym (round_ascii b rest h) ∙ e)) (ascii-Taken b rest h a)
  | no h ↦ elim (dec_lt b 192) [
    | yes k ↦
        absurd (none_taken (round-sequence b rest (omega arith) ∙ sequence_bad b rest l (inl k)) e)
    | no k ↦ elim (dec_lt b 224) [
      | yes m ↦ lead-Taken_two b rest (omega arith) m a e
      | no m ↦ elim (dec_lt b 240) [
        | yes n ↦ lead-Taken_three b rest (omega arith) n a e
        | no n ↦ elim (dec_lt b 248) [
          | yes p ↦ lead-Taken_four b rest (omega arith) p a e
          | no p ↦ absurd (
              none_taken
                (round-sequence b rest (omega arith) ∙ sequence_bad b rest l (inr (omega arith))) e)
        ]
      ]
    ]
  ]
]

abbrev IsText : List ℕ → Type 0
IsText bytes = (cps : List ℕ) × All IsScalar cps × (bytes ≡ utf8_text cps)

valid_loop_sound :
    (f : ℕ) (bytes : List ℕ) → All IsByte bytes → valid_loop f bytes ≡ true → IsText bytes
unfolding utf8_text
valid_loop_sound zero bytes h e = unfold valid_loop in cc
valid_loop_sound (suc f) [] h e = ([], tt, refl)
valid_loop_sound (suc f) (b ∷ rest) h e = elim (Option-cases (round b rest)) [
  | inl n ↦ cc (round-none f b rest n)
  | inr (r, s) ↦
      let (cp, scalar, shape, a) = round-Taken b rest h.0 h.1 s in
      let (cps, scalars, same) = valid_loop_sound f r a (sym (round-some f b rest s) ∙ e) in
      (cp ∷ cps, (scalar, scalars), shape ∙ ap (λ t. utf8 cp ++ t) same)
]

-- On bytes, `sofab_utf8_valid` answers true exactly when the data is the UTF-8 form of a list of
-- Unicode scalar values, each in its shortest form.
pub valid_iff :
    (bytes : List ℕ)
    → All IsByte bytes
    → (valid bytes ≡ true) ↔ ((cps : List ℕ) × All IsScalar cps × (bytes ≡ utf8_text cps))
unfolding valid
valid_iff bytes h = (
  λ e. valid_loop_sound (length bytes + 1) bytes h e,
  λ (cps, scalars, same). ap valid same ∙ valid-utf8_text cps scalars,
)
