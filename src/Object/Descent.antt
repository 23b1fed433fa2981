-- ===== src/Object/Descent.antt =====
-- The handles that `sofab_object_field_cb` enters.
use corelib_c_cpp.Base.{
  ℕ, zero, suc, ◌<◌, ◌≤◌, ◌≡◌, refl, Bool, true, false, not, ◌&&◌, ◌==◌, leb, Option, none, some,
  List, [], ◌∷◌, if◌then◌else◌, Bool-cases, inl, inr, arith, bit_and, bit_xor,
}
use mathlib.Core.Path.{subst}
use corelib_c_cpp.Istream.{Memory}
use corelib_c_cpp.Istream.Callback.{
  Call, read_field, read_array, read_sequence, reject_message, Reply,
}
use corelib_c_cpp.Wire.{type_varintarray_unsigned, type_sequence_start}
use corelib_c_cpp.Istream.Reads.{opt_fieldtype}
use corelib_c_cpp.Object.{
  FieldDescr, Descr, is_sequence, sized_width, expected_opt, fields, nested_at,
}
use corelib_c_cpp.Object.Decode.{
  ObjectDecoder, Branch, declines, info_of, nested_of, bind_value, bind_leaf, nested_decoder,
  enter_nested, bind_sequence, bind_object_field, over_index, unmatched, find_field,
  object_field_cb,
}

-- A handle of a descriptor right inside that of another one, with fewer handles left.
pub record IsBelow (outer inner : ObjectDecoder) : Type 0 where
  pub index : ℕ
  pub nested : nested_at (nested_of outer.info) index ≡ some inner.info
  pub fewer : inner.depth < outer.depth

-- Calls that enter no other handle.
abbrev Enters : ObjectDecoder → List (Call ObjectDecoder) → Type 0
Enters outer calls =
    (inner : ObjectDecoder) → calls ≡ read_sequence inner ∷ [] → IsBelow outer inner

module _ (h : ObjectDecoder) where
  module _ {B : Type 0} (calls : B → List (Call ObjectDecoder)) where
    Enters-if :
        (test : Bool) (x y : B)
        → Enters h (calls x)
        → Enters h (calls y)
        → Enters h (calls (if test then x else y))
    Enters-if true x y p q = p
    Enters-if false x y p q = q

    Enters-option :
        {A : Type 0} (o : Option A) (x : B) (g : A → B)
        → Enters h (calls x)
        → ((a : A) → o ≡ some a → Enters h (calls (g a)))
        → Enters h (calls (elim o [ none ↦ x | some a ↦ g a ]))
    Enters-option none x g p q = p
    Enters-option (some a) x g p q = q a refl

  none-Enters : Enters h []
  none-Enters inner e = cc

  rejects-Enters : Enters h (reject_message ∷ [])
  rejects-Enters inner e = cc

  field-Enters : (p len opt : ℕ) → Enters h (read_field p len opt ∷ [])
  field-Enters p len opt inner e = cc

  array-Enters : (p : Option ℕ) (count size opt : ℕ) → Enters h (read_array p count size opt ∷ [])
  array-Enters p count size opt inner e = cc

  bind_value-Enters :
      (f : FieldDescr) (size count : ℕ) (mem : Memory) (opt : ℕ)
      → Enters h (bind_value h f size count mem opt).calls
  unfolding bind_value
  bind_value-Enters f size count mem opt =
      Enters-if (λ (b : Branch). b.calls) (leb type_varintarray_unsigned (opt_fieldtype opt)) _ _
        (array-Enters _ _ _ _) (field-Enters _ _ _)

  bind_leaf-Enters :
      (f : FieldDescr) (size count wire_opt : ℕ) (mem : Memory)
      → Enters h (bind_leaf h f size count wire_opt mem).calls
  unfolding bind_leaf
  bind_leaf-Enters f size count wire_opt mem =
      Enters-option (λ (b : Branch). b.calls) (expected_opt f.type) (declines mem) _ none-Enters
        (λ opt e.
          Enters-if (λ (b : Branch). b.calls)
            (not (sized_width f == 0) && not (bit_and wire_opt 0x3f == bit_and opt 0x3f))
            (declines mem) (bind_value h f size count mem opt) none-Enters
            (bind_value-Enters f size count mem opt))

  enter_nested-Enters :
      (f : FieldDescr) (mem : Memory) (d : Descr)
      → (h.depth == 0) ≡ false
      → nested_at (nested_of h.info) f.nested_idx ≡ some d
      → Enters h (enter_nested h f mem d).calls
  unfolding enter_nested
  enter_nested-Enters f mem d pos e inner eq =
      let same : nested_decoder h f d ≡ inner = cc in
      subst (IsBelow h) same (record { index = f.nested_idx; nested = e; fewer = ground arith })

  bind_sequence-Enters :
      (f : FieldDescr) (wire_opt : ℕ) (mem : Memory)
      → Enters h (bind_sequence h f wire_opt mem).calls
  unfolding bind_sequence
  bind_sequence-Enters f wire_opt mem = elim (Bool-cases (h.depth == 0)) [
    | inl z ↦ rw z none-Enters
    | inr z ↦
        let nested =
          Enters-option (λ (b : Branch). b.calls) (nested_at (nested_of h.info) f.nested_idx)
            (declines mem) (enter_nested h f mem) none-Enters
            (λ d e. enter_nested-Enters f mem d z e) in
        rw z (
          Enters-if (λ (b : Branch). b.calls)
            (not (bit_and wire_opt 0x07 == opt_fieldtype type_sequence_start)) (declines mem) _
            none-Enters nested)
  ]

  over_index-Enters :
      (wire_opt : ℕ) (fs : List FieldDescr) → Enters h (over_index (info_of h.info) wire_opt fs)
  unfolding over_index
  over_index-Enters wire_opt [] = none-Enters
  over_index-Enters wire_opt (f ∷ fs) =
      Enters-option (λ l. l) (expected_opt f.type) (reject_message ∷ []) _ rejects-Enters
        (λ expected e.
          Enters-if (λ l. l) (bit_and (bit_xor wire_opt expected) 0x3f == 0) (reject_message ∷ [])
            [] rejects-Enters none-Enters)

  branch-Enters :
      (f : FieldDescr) (size count wire_opt : ℕ) (mem : Memory)
      → Enters h (bind_object_field h f size count wire_opt mem).calls
  unfolding bind_object_field
  branch-Enters f size count wire_opt mem =
      Enters-if (λ (b : Branch). b.calls) (is_sequence f.type) _ _
        (bind_sequence-Enters f wire_opt mem) (bind_leaf-Enters f size count wire_opt mem)

  -- A sequence that the callback enters belongs to an object right inside the handle's object, and
  -- the handle that it is given has fewer handles left.
  object_field_cb-IsBelow :
      {U : Type 0} (id size count opt : ℕ) (mem : Memory) (usr : U) (inner : ObjectDecoder)
      → (object_field_cb h id size count opt mem usr).calls ≡ read_sequence inner ∷ []
      → IsBelow h inner
  unfolding object_field_cb unmatched
  object_field_cb-IsBelow id size count opt mem usr inner e =
      Enters-option (λ (r : Reply ObjectDecoder _). r.calls)
        (find_field id (fields (info_of h.info))) _ _
        (Enters-if (λ l. l) _ _ [] (over_index-Enters opt (info_of h.info).field_list) none-Enters)
        (λ f found. branch-Enters f size count opt mem) inner e

-- Handles that the callback enters one after the other, each from the frame of the one before.
pub data Chain (U : Type 0) : ObjectDecoder → ℕ → Type 0 where
  innermost : {h : ObjectDecoder} → Chain U h 0
  enters :
      {h inner : ObjectDecoder} {n : ℕ} (id size count opt : ℕ) (mem : Memory) (usr : U)
      → (object_field_cb h id size count opt mem usr).calls ≡ read_sequence inner ∷ []
      → Chain U inner n
      → Chain U h (suc n)

-- Whatever fields are reported and whatever the descriptors are, the handles that the callback
-- enters in one another from a first one are at most as many as the depth of the first.
pub Chain-depth : {U : Type 0} (h : ObjectDecoder) (n : ℕ) → Chain U h n → n ≤ h.depth
Chain-depth h zero innermost = omega arith
Chain-depth h (suc n) (enters {inner = inner} id size count opt mem usr e more) =
    let below = object_field_cb-IsBelow h id size count opt mem usr inner e in
    let rest = Chain-depth inner n more in let fewer = below.fewer in omega arith
