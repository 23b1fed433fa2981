-- ===== src/Object/Fresh.antt =====
-- A leaf of an object after `sofab_object_init`, under the default test.
use corelib_c_cpp.Base.{
  ℕ, zero, suc, ◌+◌, ◌-◌, ◌*◌, ◌/◌, ◌^◌, ◌≤◌, ◌<◌, ◌≡◌, ◌⊎◌, refl, sym, ap, ◌∙◌, true, false, ◌||◌,
  Option, none, some, ◌==◌, Bool-cases, inl, inr, arith,
}
use native.Mathlib.Nat.{pow-suc}
use corelib_c_cpp.Istream.{Memory}
use corelib_c_cpp.Istream.Stores.{load, load-store_bytes}
use corelib_c_cpp.Istream.Safe.{Within}
use corelib_c_cpp.Object.{
  FieldDescr, Info, is_string, load_uint, store_uint, sized_width, field_default,
}
use corelib_c_cpp.Object.Init.{init_value, default_length, init_length, init_leaf}
use corelib_c_cpp.Object.Extent.{store_uint-Within}
use corelib_c_cpp.Object.Default.{
  string_is_default, unit_size, used_length, sized_is_default, plain_is_default, leaf_is_default,
}
use corelib_c_cpp.Object.Filled.{
  Filled, Filled-less, cleared, copied, iszero-Filled, same_bytes-Filled, same_text-Filled,
}

-- An image is made of bytes.
abbrev pub IsImage : Option Memory → Type 0
IsImage none = Unit
IsImage (some image) = (q : ℕ) → image q < 256

pub power_pos : (n : ℕ) → 0 < 256 ^ n
power_pos zero = omega arith
power_pos (suc n) = omega (arith, power_pos n, pow-suc 256 n)

load_lt : (image : Memory) (p n : ℕ) → ((q : ℕ) → image q < 256) → load image p n < 256 ^ n
load_lt image p zero h = omega arith
load_lt image p (suc n) h =
    let rest = load_lt image (p + 1) n h in let first = h p in omega (arith, pow-suc 256 n)

load_uint_lt :
    (image : Memory) (p n : ℕ) → ((q : ℕ) → image q < 256) → load_uint image p n < 256 ^ n
unfolding load_uint
load_uint_lt image p n h = elim (Bool-cases (n == 1 || n == 2 || n == 4 || n == 8)) [
  | inl e ↦ rw e (load_lt image p n h)
  | inr e ↦ rw e (power_pos n)
]

default_length_lt :
    (image : Option Memory) (field : FieldDescr)
    → IsImage image
    → default_length image field < 256 ^ sized_width field
unfolding default_length
default_length_lt none field h = power_pos (sized_width field)
default_length_lt (some image) field h =
    load_uint_lt image (field.offset - sized_width field) (sized_width field) h

-- A length that `_store_uint` can write is read back; other widths have the length 0.
default_length_width :
    (image : Option Memory) (field : FieldDescr)
    → (sized_width field == 1
        || sized_width field == 2
        || sized_width field == 4
        || sized_width field == 8)
      ≡ false
    → default_length image field ≡ 0
unfolding default_length load_uint
default_length_width none field e = refl
default_length_width (some image) field e = rw e refl

-- What the initialiser leaves in a leaf.
pub record FreshLeaf (info : Info) (field : FieldDescr) (obj : ℕ) (mem : Memory) : Type 0 where
  pub value : Filled (field_default info field) field.offset mem (obj + field.offset) field.size
  pub used :
      load_uint mem (obj + field.offset - sized_width field) (sized_width field)
      ≡ default_length (field_default info field) field

load_uint-store_uint :
    (mem : Memory) (p : ℕ) (image : Option Memory) (field : FieldDescr)
    → IsImage image
    → load_uint
        (store_uint mem p (sized_width field) (default_length image field))
        p
        (sized_width field)
      ≡ default_length image field
unfolding load_uint store_uint
load_uint-store_uint mem p image field h =
    let w = sized_width field in
    elim (Bool-cases (w == 1 || w == 2 || w == 4 || w == 8)) [
      | inl e ↦ rw e (load-store_bytes mem w p _ (default_length_lt image field h))
      | inr e ↦ rw e (sym (default_length_width image field e))
    ]

-- A leaf whose length member lies in front of it, and whose default length is within its capacity.
pub record IsLaid (info : Info) (field : FieldDescr) : Type 0 where
  pub in_front : sized_width field ≤ field.offset
  pub fits : default_length (field_default info field) field * unit_size field ≤ field.size
  pub capacity : default_length (field_default info field) field ≤ field.size / unit_size field
  pub image : IsImage (field_default info field)

init_value-Filled :
    (image : Option Memory) (field : FieldDescr) (obj : ℕ) (mem : Memory)
    → Filled image field.offset (init_value image field obj mem) (obj + field.offset) field.size
unfolding init_value
init_value-Filled none field obj mem = cleared mem field.offset (obj + field.offset) field.size
init_value-Filled (some image) field obj mem =
    copied image mem field.offset (obj + field.offset) field.size

-- Writes somewhere else keep bytes.
Filled-elsewhere :
    (image : Option Memory) (q : ℕ) (mem mem' : Memory) (p n a b : ℕ)
    → Within a b mem mem'
    → (b ≤ p) ⊎ (p + n ≤ a)
    → Filled image q mem p n
    → Filled image q mem' p n
Filled-elsewhere image q mem mem' p n a b w apart h = record {
  same = λ k small. w.kept (p + k) (ground arith) ∙ h.same k small;
}

pub no_width : (w : ℕ) → (w == 0) ≡ true → (w == 1 || w == 2 || w == 4 || w == 8) ≡ false
no_width zero e = refl
no_width (suc w) e = ground arith

pub load_uint_width :
    (mem : Memory) (p w : ℕ)
    → (w == 1 || w == 2 || w == 4 || w == 8) ≡ false
    → load_uint mem p w ≡ 0
unfolding load_uint
load_uint_width mem p w e = rw e refl

pub init_leaf-FreshLeaf :
    (info : Info) (field : FieldDescr) (obj : ℕ) (mem : Memory)
    → IsLaid info field
    → FreshLeaf info field obj (init_leaf info field obj mem)
unfolding init_leaf init_length
init_leaf-FreshLeaf info field obj mem laid =
    let image = field_default info field in
    let base = init_value image field obj mem in
    let sw = sized_width field in
    let p = obj + field.offset - sw in
    let filled = init_value-Filled image field obj mem in
    elim (Bool-cases (sw == 0)) [
      | inl e ↦ rw e (record {
        value = filled;
        used =
            load_uint_width base p sw (no_width sw e)
            ∙ sym (default_length_width image field (no_width sw e));
      })
      | inr e ↦ rw e (record {
        value =
            Filled-elsewhere image field.offset base _ (obj + field.offset) field.size _ _
              (store_uint-Within base p sw (default_length image field)) (inl (ground arith))
              filled;
        used = load_uint-store_uint base p image field laid.image;
      })
    ]

string-default :
    (image : Option Memory) (field : FieldDescr) (obj : ℕ) (mem : Memory)
    → Filled image field.offset mem (obj + field.offset) field.size
    → string_is_default image field mem obj ≡ true
unfolding string_is_default
string-default none field obj mem h = elim (Bool-cases (field.size == 0)) [
  | inl e ↦ rw e refl
  | inr e ↦
      let here : obj + field.offset + 0 ≡ obj + field.offset = omega arith in
      let first : mem (obj + field.offset) ≡ 0 = ap mem (sym here) ∙ h.same 0 (ground arith) in
      rw (e, first) refl
]
string-default (some image) field obj mem h =
    same_text-Filled image field.offset mem (obj + field.offset) field.size h

plain-default :
    (image : Option Memory) (field : FieldDescr) (obj : ℕ) (mem : Memory)
    → Filled image field.offset mem (obj + field.offset) field.size
    → plain_is_default image field mem obj ≡ true
unfolding plain_is_default
plain-default none field obj mem h =
    iszero-Filled field.offset mem (obj + field.offset) field.size h
plain-default (some image) field obj mem h =
    same_bytes-Filled image field.offset mem (obj + field.offset) field.size h

module _ (field : FieldDescr) (obj : ℕ) (mem : Memory) where
  used-default :
      (image : Option Memory)
      → load_uint mem (obj + field.offset - sized_width field) (sized_width field)
        ≡ default_length image field
      → default_length image field ≤ field.size / unit_size field
      → used_length field mem obj ≡ default_length image field
  unfolding used_length
  used-default image e h = rw e (ground arith)

  sized-default :
      (image : Option Memory)
      → Filled image field.offset mem (obj + field.offset) field.size
      → load_uint mem (obj + field.offset - sized_width field) (sized_width field)
        ≡ default_length image field
      → default_length image field ≤ field.size / unit_size field
      → default_length image field * unit_size field ≤ field.size
      → sized_is_default image field mem obj ≡ true
  unfolding sized_is_default default_length
  sized-default none h e small fits = let used = used-default none e small in rw used refl
  sized-default (some image) h e small fits =
      let used = used-default (some image) e small in
      let same =
        same_bytes-Filled image field.offset mem (obj + field.offset) _
          (Filled-less (some image) field.offset mem (obj + field.offset) field.size _ fits h) in
      rw (used, same) (ground arith)

pub FreshLeaf-default :
    (info : Info) (field : FieldDescr) (obj : ℕ) (mem : Memory)
    → IsLaid info field
    → FreshLeaf info field obj mem
    → leaf_is_default info field mem obj ≡ true
unfolding leaf_is_default
FreshLeaf-default info field obj mem laid fresh = elim (Bool-cases (is_string field.type)) [
  | inl e ↦ rw e (string-default _ field obj mem fresh.value)
  | inr e ↦ rw e (elim (Bool-cases (sized_width field == 0)) [
    | inl z ↦ rw z (plain-default _ field obj mem fresh.value)
    | inr z ↦ rw z (sized-default field obj mem _ fresh.value fresh.used laid.capacity laid.fits)
  ])
]
