-- ===== src/Utf8/Rounds.antt =====
-- One round of `sofab_utf8_valid`'s loop, by the class of the lead byte.
use corelib_c_cpp.Base.{
  ℕ, ◌+◌, ◌-◌, ◌*◌, ◌^◌, ◌<◌, ◌≤◌, ◌≡◌, refl, ◌∙◌, Bool, ◌&&◌, ◌⊎◌, List, ◌∷◌, arith, if◌then◌else◌,
  length, Option, none, some,
}
use corelib_c_cpp.Utf8.{continuation, in_range, checked, sequence_tail, sequence}
use corelib_c_cpp.Utf8.Masks.{lead_of, lead-lead_of, is_continuation, continuation_step}

-- `sequence` at each class of lead bytes.
module _ (b : ℕ) where
  pub sequence_bad : (rest : List ℕ) → b < 256 → (b < 192) ⊎ (248 ≤ b) → sequence b rest ≡ none
  unfolding sequence
  sequence_bad rest h l = rw (lead-lead_of b h ∙ none_at, sequence) refl
    where
      none_at : lead_of b ≡ none
      none_at = ground arith

  pub sequence_two :
      (rest : List ℕ)
      → 192 ≤ b
      → b < 224
      → sequence b rest ≡ sequence_tail (record { need = 1; cp = b - 192; min_cp = 0x80 }) rest
  unfolding sequence
  sequence_two rest h l = rw (lead-lead_of b (omega arith) ∙ some_at, sequence) refl
    where
      some_at : lead_of b ≡ some (record { need = 1; cp = b - 192; min_cp = 0x80 })
      some_at = ground arith

  pub sequence_three :
      (rest : List ℕ)
      → 224 ≤ b
      → b < 240
      → sequence b rest ≡ sequence_tail (record { need = 2; cp = b - 224; min_cp = 0x800 }) rest
  unfolding sequence
  sequence_three rest h l = rw (lead-lead_of b (omega arith) ∙ some_at, sequence) refl
    where
      some_at : lead_of b ≡ some (record { need = 2; cp = b - 224; min_cp = 0x800 })
      some_at = ground arith

  pub sequence_four :
      (rest : List ℕ)
      → 240 ≤ b
      → b < 248
      → sequence b rest ≡ sequence_tail (record { need = 3; cp = b - 240; min_cp = 0x10000 }) rest
  unfolding sequence
  sequence_four rest h l = rw (lead-lead_of b (omega arith) ∙ some_at, sequence) refl
    where
      some_at : lead_of b ≡ some (record { need = 3; cp = b - 240; min_cp = 0x10000 })
      some_at = ground arith

module _ (cp min_cp : ℕ) where
  pub tail_short :
      (need : ℕ) (rest : List ℕ)
      → length rest < need
      → sequence_tail (record { need = need; cp = cp; min_cp = min_cp }) rest ≡ none
  unfolding sequence_tail
  tail_short need rest h = ground arith

  -- The outcome of a sequence with continuation bytes that are there.
  abbrev pub outcome : Bool → ℕ → List ℕ → Option (List ℕ)
  outcome good value rest = if good && in_range min_cp value then some rest else none

  pub tail_one :
      (c : ℕ) (rest : List ℕ)
      → c < 256
      → cp < 2 ^ 6
      → sequence_tail (record { need = 1; cp = cp; min_cp = min_cp }) (c ∷ rest)
        ≡ outcome (is_continuation c) (cp * 64 + (c - 128)) rest
  unfolding sequence_tail checked
  tail_one c rest h l =
      rw (continuation_step 0 c rest cp h (omega arith)) (unfold continuation in ground arith)

  pub tail_two :
      (c d : ℕ) (rest : List ℕ)
      → c < 256
      → d < 256
      → cp < 2 ^ 6
      → sequence_tail (record { need = 2; cp = cp; min_cp = min_cp }) (c ∷ d ∷ rest)
        ≡ outcome
            (is_continuation c && is_continuation d)
            ((cp * 64 + (c - 128)) * 64 + (d - 128))
            rest
  unfolding sequence_tail checked
  tail_two c d rest h k l =
      rw
        (
          continuation_step 1 c (d ∷ rest) cp h (omega arith),
          continuation_step 0 d rest (cp * 64 + (c - 128)) k (omega arith),
        )
        (unfold continuation in ground arith)

  pub tail_three :
      (c d e : ℕ) (rest : List ℕ)
      → c < 256
      → d < 256
      → e < 256
      → cp < 2 ^ 6
      → sequence_tail (record { need = 3; cp = cp; min_cp = min_cp }) (c ∷ d ∷ e ∷ rest)
        ≡ outcome
            (is_continuation c && is_continuation d && is_continuation e)
            (((cp * 64 + (c - 128)) * 64 + (d - 128)) * 64 + (e - 128))
            rest
  unfolding sequence_tail checked
  tail_three c d e rest h k j l =
      rw
        (
          continuation_step 2 c (d ∷ e ∷ rest) cp h (omega arith),
          continuation_step 1 d (e ∷ rest) (cp * 64 + (c - 128)) k (omega arith),
          continuation_step 0 e rest ((cp * 64 + (c - 128)) * 64 + (d - 128)) j (omega arith),
        )
        (unfold continuation in ground arith)
