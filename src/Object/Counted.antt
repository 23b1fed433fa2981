-- ===== src/Object/Counted.antt =====
-- Which field of an object `sofab_object_encode` never leaves out, and how many it walks.
use corelib_c_cpp.Base.{
  ℕ, suc, ◌+◌, ◌≡◌, refl, ◌≤◌, ◌<◌, ◌^◌, ◌/◌, Bool-cases, arith, length, length-take, Bool, true,
  false, ◌&&◌, List, ◌==◌, take, inl, inr,
}
use corelib_c_cpp.Istream.{Memory, size_pred}
use corelib_c_cpp.Object.{FieldDescr, Info, is_holder}
use corelib_c_cpp.Object.View.{is_complete}
use corelib_c_cpp.Object.Expected.{slots, elements_in_use}

-- Of `n` fields from index `i` on, the last one has the index `last` in a holder, and none has it
-- in another object.
abbrev pub LastAt : Bool → ℕ → ℕ → ℕ → Type 0
LastAt true last i n = (0 < n) → i + n ≡ last + 1
LastAt false last i n = i + n ≤ last

pub LastAt-next :
    (holder : Bool) (last i n : ℕ) → LastAt holder last i (suc n) → LastAt holder last (i + 1) n
LastAt-next true last i n h = λ some_left. let all = h (omega arith) in omega arith
LastAt-next false last i n h = omega arith

pub LastAt-test :
    (holder : Bool) (last i n : ℕ) → LastAt holder last i (suc n) → (i == last) ≡ (holder && n == 0)
LastAt-test true last i n h =
    let all = h (omega arith) in
    elim (Bool-cases (n == 0)) [
      | inl e ↦ let here : (i == last) ≡ true = ground arith in rw (e, here) refl
      | inr e ↦ let here : (i == last) ≡ false = ground arith in rw (e, here) refl
    ]
LastAt-test false last i n h = ground arith

-- A complete descriptor has the last element in use of a holder where the encoder looks for it.
pub LastAt-holder :
    (count : ℕ) (l : List FieldDescr)
    → count ≤ length l
    → count < 2 ^ 16
    → LastAt true (size_pred count) 0 (length (take count l))
LastAt-holder count l h small = λ some_left. let n = length-take count l in omega (arith, n)

pub complete_facts :
    (info : Info)
    → is_complete info ≡ true
    → (slots info ≤ length info.field_list) × (info.count_extent < 2 ^ 16)
complete_facts info c = ground arith

pub slots-bound : (info : Info) → slots info ≤ info.count_extent
unfolding slots
slots-bound info = elim (Bool-cases (is_holder info)) [
  | inl h ↦ rw h (omega arith)
  | inr h ↦ rw h (omega arith)
]

pub elements-bound :
    (info : Info) (mem : Memory) (src : ℕ) → elements_in_use info mem src ≤ slots info
unfolding elements_in_use
elements-bound info mem src = elim (Bool-cases (info.fixed_seq / 2 == 0)) [
  | inl h ↦ rw h (omega arith)
  | inr h ↦ rw h (omega arith)
]
