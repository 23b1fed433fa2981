-- ===== src/Object/Layout.antt =====
-- Objects whose fields lie apart from each other, and memories that agree on them.
use corelib_c_cpp.Base.{
  ℕ, zero, suc, ◌+◌, ◌-◌, ◌≤◌, ◌<◌, ◌≡◌, ◌⊎◌, refl, ◌∙◌, false, ◌||◌, List, [], ◌∷◌, ◌==◌, bit_and,
  Bool-cases, inl, inr, arith,
}
use corelib_c_cpp.Istream.{Memory}
use corelib_c_cpp.Istream.Stores.{load, load-store_bytes}
use corelib_c_cpp.Object.{
  FieldDescr, Info, Descr, Descrs, descr, no_more, also, is_sequence, is_union, load_uint,
  store_uint, sized_width, fields,
}
use corelib_c_cpp.Object.Extent.{head_width, value_size, extents, store_width}
use corelib_c_cpp.Object.Fresh.{load_uint_width, power_pos, FreshLeaf, IsLaid}

-- Two memories that agree from `a` up to `b`.
pub record Agrees (a b : ℕ) (mem mem' : Memory) : Type 0 where
  pub same : (q : ℕ) → a ≤ q → q < b → mem' q ≡ mem q

-- Where a field starts and ends, its length member and the objects in it included.
abbrev pub start : FieldDescr → ℕ
start field = field.offset - sized_width field

abbrev pub stop : List ℕ → FieldDescr → ℕ
stop sizes field = field.offset + value_size sizes field

-- None of the fields lies from `a` up to `b`.
unfoldable pub Clear : List ℕ → ℕ → ℕ → List FieldDescr → Type 0
Clear sizes a b [] = Unit
Clear sizes a b (f ∷ fs) = ((stop sizes f ≤ a) ⊎ (b ≤ start f)) × Clear sizes a b fs

-- Fields apart from each other, with leaves that are laid out as `IsLaid` says.
unfoldable pub LaidFields : Info → List ℕ → List FieldDescr → Type 0
LaidFields info sizes [] = Unit
LaidFields info sizes (f ∷ fs) =
    ((is_sequence f.type ≡ false) → IsLaid info f)
    × Clear sizes (start f) (stop sizes f) fs
    × LaidFields info sizes fs

-- An object without unions whose fields lie apart from each other and from its length member.
unfoldable mutual
  pub IsLaidOut : Descr → Type 0
  IsLaidOut (descr info nested) =
      (is_union info ≡ false)
      × Clear (extents nested) 0 (head_width info) (fields info)
      × LaidFields info (extents nested) (fields info)
      × AllLaidOut nested

  pub AllLaidOut : Descrs → Type 0
  AllLaidOut no_more = Unit
  AllLaidOut (also d ds) = IsLaidOut d × AllLaidOut ds

load-Agrees :
    (mem mem' : Memory) (p n : ℕ) → Agrees p (p + n) mem mem' → load mem' p n ≡ load mem p n
load-Agrees mem mem' p zero h = refl
load-Agrees mem mem' p (suc n) h =
    let first = h.same p (omega arith) (omega arith) in
    let rest =
      load-Agrees mem mem' (p + 1) n
        (record { same = λ q a b. h.same q (omega arith) (omega arith) }) in
    rw (first, rest) refl

load_uint-Agrees :
    (mem mem' : Memory) (p n : ℕ)
    → Agrees p (p + n) mem mem'
    → load_uint mem' p n ≡ load_uint mem p n
unfolding load_uint
load_uint-Agrees mem mem' p n h = elim (Bool-cases (n == 1 || n == 2 || n == 4 || n == 8)) [
  | inl e ↦ rw e (load-Agrees mem mem' p n h)
  | inr e ↦ rw e refl
]

-- A length member that was set to zero.
pub masked_width : (w : ℕ) → (bit_and w 0x0f == 0) ≡ false → (w == 0) ≡ false
masked_width zero e = cc
masked_width (suc w) e = ground arith

stored_zero : (mem : Memory) (p w : ℕ) → load_uint (store_uint mem p w 0) p w ≡ 0
unfolding load_uint store_uint
stored_zero mem p w = elim (Bool-cases (w == 1 || w == 2 || w == 4 || w == 8)) [
  | inl e ↦ rw e (load-store_bytes mem w p 0 (power_pos w))
  | inr e ↦ rw e refl
]

pub length_zero :
    (mem mem' : Memory) (p w : ℕ)
    → Agrees p (p + store_width w) (store_uint mem p w 0) mem'
    → load_uint mem' p w ≡ 0
length_zero mem mem' p w h = elim (Bool-cases (w == 1 || w == 2 || w == 4 || w == 8)) [
  | inl e ↦
      load_uint-Agrees (store_uint mem p w 0) mem' p w
        (record { same = λ q a b. h.same q a (ground arith) })
      ∙ stored_zero mem p w
  | inr e ↦ load_uint_width mem' p w e
]

pub FreshLeaf-Agrees :
    (info : Info) (field : FieldDescr) (obj : ℕ) (mem mem' : Memory)
    → sized_width field ≤ field.offset
    → Agrees (obj + start field) (obj + (field.offset + field.size)) mem mem'
    → FreshLeaf info field obj mem
    → FreshLeaf info field obj mem'
FreshLeaf-Agrees info field obj mem mem' h agrees fresh = record {
  value = record {
    same = λ k small. agrees.same _ (omega arith) (omega arith) ∙ fresh.value.same k small;
  };
  used =
      load_uint-Agrees mem mem' _ _
        (record { same = λ q a b. agrees.same q (omega arith) (omega arith) })
      ∙ fresh.used;
}
