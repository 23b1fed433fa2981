-- ===== src/Object/Compared.antt =====
-- The comparisons of `_field_is_default` of object.c, with an image or without one, as comparisons
-- of lists of bytes.
use corelib_c_cpp.Base.{
  ℕ, zero, suc, ◌+◌, ◌-◌, ◌*◌, ◌/◌, ◌≡◌, refl, ap, Bool, true, false, not, ◌&&◌, ◌||◌, Option, none,
  some, List, [], ◌∷◌, ltb, leb, ◌==◌, if◌then◌else◌, Bool-cases, inl, inr, arith,
}
use Prim.Native.Nat.{min}
use corelib_c_cpp.Ostream.Fields.{c_string}
use corelib_c_cpp.Istream.{Memory}
use corelib_c_cpp.Istream.Payload.{span}
use corelib_c_cpp.Istream.Stores.{load}
use corelib_c_cpp.Object.{FieldDescr, Info, field_default, default_extent, load_uint, sized_width}
use corelib_c_cpp.Object.Default.{
  iszero, same_bytes, same_text, string_is_default, used_length, sized_is_default, plain_is_default,
  unit_size,
}
use corelib_c_cpp.Object.Expected.{
  text_in, number, same_list, in_use, blank, image_of, covers, expected, same_plain, same_sized,
}

pub c_string-text_in : (bytes : List ℕ) → c_string bytes ≡ text_in bytes
unfolding c_string text_in
c_string-text_in [] = refl
c_string-text_in (zero ∷ bytes) = refl
c_string-text_in (suc c ∷ bytes) =
    let no : (suc c == 0) ≡ false = ground arith in
    rw no (ap (λ t. suc c ∷ t) (c_string-text_in bytes))

load_uint-number : (mem : Memory) (p w : ℕ) → load_uint mem p w ≡ number mem p w
unfolding load_uint number
load_uint-number mem p w = refl

pub smaller : (u c : ℕ) → (if ltb u c then u else c) ≡ min u c
smaller u c = ground arith

capped : (u c : ℕ) → (if ltb c u then c else u) ≡ min u c
capped u c = ground arith

step : (a b : ℕ) (r s : Bool) → r ≡ s → (if a == b then r else false) ≡ ((b == a) && s)
step a b r s e = elim (Bool-cases (a == b)) [
  | inl h ↦ let back : (b == a) ≡ true = ground arith in rw (h, back) e
  | inr h ↦ let back : (b == a) ≡ false = ground arith in rw (h, back) refl
]

text_step :
    (a b : ℕ) (r : Bool) (xs ys : List ℕ)
    → r ≡ same_list xs ys
    → (if a == b then (if b == 0 then true else r) else false)
      ≡ same_list (if b == 0 then [] else b ∷ xs) (if a == 0 then [] else a ∷ ys)
unfolding same_list
text_step a b r xs ys e = elim (Bool-cases (a == b)) [
  | inr h ↦ elim (Bool-cases (b == 0)) [
    | inl z ↦ let no : (a == 0) ≡ false = ground arith in rw (h, z, no) refl
    | inr z ↦ elim (Bool-cases (a == 0)) [
      | inl y ↦ rw (h, z, y) refl
      | inr y ↦ let back : (b == a) ≡ false = ground arith in rw (h, z, y, back) refl
    ]
  ]
  | inl h ↦ elim (Bool-cases (b == 0)) [
    | inl z ↦ let both : (a == 0) ≡ true = ground arith in rw (h, z, both) refl
    | inr z ↦
        let back : (b == a) ≡ true = ground arith in
        let neither : (a == 0) ≡ false = ground arith in rw (h, z, neither, back) e
  ]
]

pub both : (t r s : Bool) → r ≡ s → (if t then r else false) ≡ (t && s)
both true r s e = e
both false r s e = refl

same_bytes-span :
    (image : Memory) (q : ℕ) (mem : Memory) (p n : ℕ)
    → same_bytes image q mem p n ≡ same_list (span mem p n) (span image q n)
unfolding same_bytes same_list span
same_bytes-span image q mem p zero = refl
same_bytes-span image q mem p (suc n) =
    let rest = same_bytes-span image (q + 1) mem (p + 1) n in step (image q) (mem p) _ _ rest

iszero-span :
    (q : ℕ) (mem : Memory) (p n : ℕ) → iszero mem p n ≡ same_list (span mem p n) (span blank q n)
unfolding iszero same_list span
iszero-span q mem p zero = refl
iszero-span q mem p (suc n) =
    let rest = iszero-span (q + 1) mem (p + 1) n in both (mem p == 0) _ _ rest

same_text-span :
    (image : Memory) (q : ℕ) (mem : Memory) (p n : ℕ)
    → same_text image q mem p n ≡ same_list (c_string (span mem p n)) (c_string (span image q n))
unfolding same_text same_list span c_string
same_text-span image q mem p zero = refl
same_text-span image q mem p (suc n) =
    let rest = same_text-span image (q + 1) mem (p + 1) n in text_step (image q) (mem p) _ _ _ rest

load-blank : (p w : ℕ) → load blank p w ≡ 0
load-blank p zero = refl
load-blank p (suc w) = omega (arith, load-blank (p + 1) w)

number-blank : (p w : ℕ) → number blank p w ≡ 0
unfolding number
number-blank p w = elim (Bool-cases (w == 1 || w == 2 || w == 4 || w == 8)) [
  | inl e ↦ rw e (load-blank p w)
  | inr e ↦ rw e refl
]

c_string-blank : (p n : ℕ) → c_string (span blank p n) ≡ []
unfolding c_string span
c_string-blank p zero = refl
c_string-blank p (suc n) = refl

pub used-clamped :
    (cap w : ℕ) (mem : Memory) (p : ℕ)
    → (if not (w == 0) && ltb (number mem (p - w) w) cap then number mem (p - w) w else cap)
      ≡ in_use w cap mem p
unfolding in_use
used-clamped cap w mem p = elim (Bool-cases (w == 0)) [
  | inl e ↦ rw e refl
  | inr e ↦ rw e (smaller (number mem (p - w) w) cap)
]

pub expected-default :
    (info : Info) (f : FieldDescr) → expected info f ≡ image_of (field_default info f)
unfolding expected covers field_default default_extent image_of
expected-default info f = elim (Bool-cases (info.count_extent / 256 == 0)) [
  | inl e ↦ rw e refl
  | inr e ↦ elim (Bool-cases (ltb (info.count_extent / 256) (f.offset + f.size))) [
    | inl h ↦
        let no : leb (f.offset + f.size) (info.count_extent / 256) ≡ false = ground arith in
        rw (e, h, no) refl
    | inr h ↦
        let yes : leb (f.offset + f.size) (info.count_extent / 256) ≡ true = ground arith in
        rw (e, h, yes) refl
  ]
]

empty_text :
    (mem : Memory) (p n : ℕ) → (n == 0 || mem p == 0) ≡ same_list (c_string (span mem p n)) []
unfolding c_string span same_list
empty_text mem p zero = refl
empty_text mem p (suc n) =
    let no : (suc n == 0) ≡ false = ground arith in
    elim (Bool-cases (mem p == 0)) [ inl e ↦ rw (no, e) refl | inr e ↦ rw (no, e) refl ]

empty_count :
    (n : ℕ) (mem : Memory) (p q unit : ℕ)
    → (n == 0) ≡ (0 == n && same_list (span mem p (n * unit)) (span blank q (n * unit)))
unfolding span same_list
empty_count zero mem p q unit = let z : 0 * unit ≡ 0 = omega arith in rw z refl
empty_count (suc n) mem p q unit =
    let no : (suc n == 0) ≡ false = ground arith in
    let non : (0 == suc n) ≡ false = ground arith in rw (no, non) refl

module _ (f : FieldDescr) (mem : Memory) (src : ℕ) where
  text_ok :
      (o : Option Memory)
      → string_is_default o f mem src
        ≡ same_list
            (c_string (span mem (src + f.offset) f.size))
            (c_string (span (image_of o) f.offset f.size))
  unfolding string_is_default image_of
  text_ok none = rw (c_string-blank f.offset f.size) (empty_text mem (src + f.offset) f.size)
  text_ok (some image) = same_text-span image f.offset mem (src + f.offset) f.size

  pub string_ok :
      (o : Option Memory)
      → string_is_default o f mem src
        ≡ same_list
            (text_in (span mem (src + f.offset) f.size))
            (text_in (span (image_of o) f.offset f.size))
  string_ok o =
      rw⁻¹
        (
          c_string-text_in (span mem (src + f.offset) f.size),
          c_string-text_in (span (image_of o) f.offset f.size),
        )
        (text_ok o)

  pub plain_ok :
      (o : Option Memory) → plain_is_default o f mem src ≡ same_plain f (image_of o) mem src
  unfolding plain_is_default same_plain image_of
  plain_ok none = iszero-span f.offset mem (src + f.offset) f.size
  plain_ok (some image) = same_bytes-span image f.offset mem (src + f.offset) f.size

  module _ (cap unit : ℕ) (width : sized_width f ≡ f.nested_idx) (one : unit_size f ≡ unit)
      (size : f.size / unit ≡ cap) where
    used_ok :
        (f.nested_idx == 0) ≡ false
        → used_length f mem src ≡ in_use f.nested_idx cap mem (src + f.offset)
    unfolding used_length in_use load_uint number
    used_ok e = rw (width, one, size, e) (capped _ cap)

    filled_ok :
        (f.nested_idx == 0) ≡ false
        → (o : Option Memory)
        → sized_is_default o f mem src ≡ (
            number (image_of o) (f.offset - f.nested_idx) f.nested_idx
              == in_use f.nested_idx cap mem (src + f.offset)
            && same_list
                (span mem (src + f.offset) (in_use f.nested_idx cap mem (src + f.offset) * unit))
                (span (image_of o) f.offset (in_use f.nested_idx cap mem (src + f.offset) * unit)))
    unfolding sized_is_default image_of
    filled_ok e none =
        rw (used_ok e, number-blank (f.offset - f.nested_idx) f.nested_idx)
          (empty_count (in_use f.nested_idx cap mem (src + f.offset)) mem (src + f.offset) f.offset
            unit)
    filled_ok e (some image) =
        rw (width, one, used_ok e, load_uint-number image (f.offset - f.nested_idx) f.nested_idx)
          (ap
            (λ r.
              (number image (f.offset - f.nested_idx) f.nested_idx
                == in_use f.nested_idx cap mem (src + f.offset))
              && r)
            (same_bytes-span image f.offset mem (src + f.offset) _))

    pub sized_ok :
        (o : Option Memory)
        → (if sized_width f == 0
            then plain_is_default o f mem src
            else sized_is_default o f mem src)
          ≡ same_sized cap unit f (image_of o) mem src
    unfolding sized_is_default same_sized image_of
    sized_ok o = elim (Bool-cases (f.nested_idx == 0)) [
      | inl e ↦ rw (width, e) (plain_ok o)
      | inr e ↦ rw (width, e) (filled_ok e o)
    ]
