-- ===== src/Istream/AmidArray.antt =====
-- Arrays of integers without a destination.
use corelib_c_cpp.Base.{
  ℕ, zero, suc, ◌^◌, ◌<◌, ◌≤◌, ◌≡◌, refl, ap, Bool, true, false, List, [], ◌++◌, arith, ltb, leb,
  ◌==◌, if◌then◌else◌, take, drop, All, Bool-cases, inl, inr,
}
use corelib_c_cpp.Wire.{id_max, array_max, type_fixlenarray}
use corelib_c_cpp.Wire.Varint.{varint}
use corelib_c_cpp.Ostream.Commit.{header}
use corelib_c_cpp.Istream.{
  State, idle, array_count, state_code, Istream, fieldtype, set_state, size_pred, next,
}
use corelib_c_cpp.Istream.Callback.{Callbacks, call_field_callback, bind_array_count}
use corelib_c_cpp.Istream.Scalar.{element_end, varint_unsigned_state, varint_signed_state}
use corelib_c_cpp.Istream.Idle.{field_type}
use corelib_c_cpp.Istream.Feed.{on_value}
use corelib_c_cpp.Wire.{type_varintarray_unsigned, type_varintarray_signed}
use corelib_c_cpp.Wire.Varint.{IsByte}
use corelib_c_cpp.Ostream.Arrays.{from_bytes}
use corelib_c_cpp.Ostream.Elements.{
  IsWidth, element_bytes, element_value, element_payload-eq, from_bytes-lt, All-drop,
}
use mathlib.Core.Path.{subst}
use corelib_c_cpp.Istream.Payload.{array_count_state, array_empty, array_begin, array_state}
use corelib_c_cpp.Istream.Amid.{
  positive, array_type, element_state, Marks, amid, Between, IsUnread, start, call_declined,
  Reaches, amid_varint, amid_header, Skips, Reaches-append, three,
}

begins : (is_signed : Bool) → leb (state_code (element_state is_signed)) 4 ≡ true
begins true = refl
begins false = refl

element_lt :
    (is_signed : Bool) (size : ℕ) (bytes : List ℕ)
    → IsWidth size
    → All IsByte bytes
    → element_value is_signed size (from_bytes (take size bytes)) < 2 ^ 64
element_lt is_signed size bytes w all =
    let (e, l) = element_payload-eq is_signed size _ w (from_bytes-lt size bytes all) in
    subst (λ v. v < 2 ^ 64) e l

module _ {H U : Type 0} (call : Callbacks H U) (strict : Bool) where
  module _ (c : Istream H U) (b : Between c) (quiet : IsUnread call c.decoder) where
    -- The count of an array.
    pub reaches_count :
        (id type : ℕ)
        → id ≤ id_max
        → type < 8
        → field_type call type (amid c idle (start c id type))
          ≡ next (amid c array_count (start c id type))
        → Reaches call strict c (header id type) c (amid c array_count (start c id type))
    reaches_count id type h k e =
        amid_header call strict c id type array_count (start c id type) b h k e

    abbrev pub counted : ℕ → ℕ → ℕ → U → Marks U
    counted id type count usr = record (start c id type) {
      count = count;
      wire_count = count;
      usr = usr;
    }

    array_begun :
        (id type count : ℕ) (state : State)
        → fieldtype type ≡ type
        → (type == type_fixlenarray) ≡ false
        → ((s : Istream H U) → array_state call type s ≡ set_state state s)
        → count ≤ array_max
        → 1 ≤ count
        → (u : U) × (array_count_state call count (amid c array_count (start c id type))
            ≡ next (amid c state (counted id type count u)))
    unfolding array_count_state array_begin call_field_callback bind_array_count
    array_begun id type count state same plain to h k =
        let (u, asked) =
          call_declined call 0x3f c array_count (counted id type count c.usr) quiet in
        let within : ltb array_max count ≡ false = ground arith in
        let some_elements : (count == 0) ≡ false = ground arith in
        (
          u,
          rw
              (
                within,
                some_elements,
                same,
                plain,
                asked,
                to (amid c array_count (counted id type count u)),
              )
              refl,
        )

    array_left_out :
        (id type : ℕ)
        → fieldtype type ≡ type
        → (type == type_fixlenarray) ≡ false
        → (u : U) × (array_count_state call 0 (amid c array_count (start c id type))
            ≡ next (amid c idle (counted id type 0 u)))
    unfolding array_count_state array_empty bind_array_count
    array_left_out id type same plain =
        let (u, asked) = call_declined call 0x07 c array_count (counted id type 0 c.usr) quiet in
        (u, rw (same, plain, asked) refl)

    -- One element of an array.
    element_over :
        (is_signed : Bool) (v n : ℕ) (state : State) (m : Marks U)
        → m.opt ≡ array_type is_signed
        → suc n < 2 ^ 64
        → (if ltb 0 n then element_state is_signed else idle) ≡ state
        → on_value call strict
            (element_state is_signed)
            v
            (amid c (element_state is_signed) (record m { count = suc n }))
          ≡ next (amid c state (record m { count = n }))
    unfolding on_value varint_unsigned_state varint_signed_state element_end
    element_over is_signed v n state m o k e = elim (Bool-cases is_signed) [
      | inl s ↦
          let same : (fieldtype m.opt == type_varintarray_signed) ≡ true =
            ap (λ t. fieldtype t == type_varintarray_signed) (rw s at o) in
          let less : size_pred (suc n) ≡ n = omega arith in
          let to = λ (t : State). next (amid c t (record m { count = n })) in
          rw s (
            rw (same, less)
              (elim (Bool-cases (ltb 0 n)) [
                | inl z ↦ rw z (ap to (rw (z, s) at e))
                | inr z ↦ rw z (ap to (rw z at e))
              ]))
      | inr s ↦
          let same : (fieldtype m.opt == type_varintarray_unsigned) ≡ true =
            ap (λ t. fieldtype t == type_varintarray_unsigned) (rw s at o) in
          let less : size_pred (suc n) ≡ n = omega arith in
          let to = λ (t : State). next (amid c t (record m { count = n })) in
          rw s (
            rw (same, less)
              (elim (Bool-cases (ltb 0 n)) [
                | inl z ↦ rw z (ap to (rw (z, s) at e))
                | inr z ↦ rw z (ap to (rw z at e))
              ]))
    ]

    -- The elements, each a varint.
    elements_read :
        (is_signed : Bool) (size count : ℕ) (bytes : List ℕ) (m : Marks U)
        → IsWidth size
        → All IsByte bytes
        → m.opt ≡ array_type is_signed
        → suc count < 2 ^ 64
        → Reaches call strict c
            (element_bytes is_signed size (suc count) bytes)
            (amid c (element_state is_signed) (record m { count = suc count }))
            (amid c idle (record m { count = 0 }))
    elements_read is_signed size zero bytes m w all o k =
        Reaches-append call strict c _ [] _ (amid c idle (record m { count = 0 })) _
          (amid_varint call strict c (element_state is_signed) (record m { count = 1 }) _ idle
            (record m { count = 0 }) (element_lt is_signed size bytes w all) (begins is_signed)
            (element_over is_signed _ 0 idle m o k refl))
          (λ rest. refl)
    elements_read is_signed size (suc count) bytes m w all o k =
        Reaches-append call strict c _ (element_bytes is_signed size (suc count) (drop size bytes))
          _ (amid c (element_state is_signed) (record m { count = suc count })) _
          (amid_varint call strict c (element_state is_signed)
            (record m { count = suc (suc count) }) _ (element_state is_signed)
            (record m { count = suc count }) (element_lt is_signed size bytes w all)
            (begins is_signed)
            (element_over is_signed _ (suc count) (element_state is_signed) m o k
              (rw (positive count) refl)))
          (elements_read is_signed size count (drop size bytes) m w (All-drop size bytes all) o
            (omega arith))

    array_begins :
        (is_signed : Bool)
        → (fieldtype (array_type is_signed) ≡ array_type is_signed)
          × ((array_type is_signed == type_fixlenarray) ≡ false)
          × (array_type is_signed < 8)
          × ((s : Istream H U)
              → array_state call (array_type is_signed) s ≡ set_state (element_state is_signed) s)
          × ((s : Istream H U)
              → field_type call (array_type is_signed) s ≡ next (set_state array_count s))
    unfolding array_state field_type
    array_begins true = (refl, refl, omega arith, (λ s. refl), (λ s. refl))
    array_begins false = (refl, refl, omega arith, (λ s. refl), (λ s. refl))

    -- An array of integers.
    pub Skips-integers :
        (id : ℕ) (is_signed : Bool) (bytes : List ℕ) (count size : ℕ)
        → id ≤ id_max
        → count ≤ array_max
        → All IsByte bytes
        → IsWidth size
        → Skips call strict c (
            header id (array_type is_signed)
            ++ varint count
            ++ element_bytes is_signed size count bytes)
    unfolding on_value
    Skips-integers id is_signed bytes zero size h k all w =
        let t = array_type is_signed in
        let (same, plain, small, to, opens) = array_begins is_signed in
        let (u, ends) = array_left_out id t same plain in
        (
          counted id t 0 u,
          three call strict (header id t) (varint 0) [] c (amid c array_count (start c id t)) _ _
              (reaches_count id t h small (opens _))
              (amid_varint call strict c array_count (start c id t) 0 idle (counted id t 0 u)
                (omega arith) refl ends)
              (λ rest. refl),
        )
    Skips-integers id is_signed bytes (suc count) size h k all w =
        let t = array_type is_signed in
        let (same, plain, small, to, opens) = array_begins is_signed in
        let (u, begun) =
          array_begun id t (suc count) (element_state is_signed) same plain to k (omega arith) in
        (
          record (counted id t 0 u) { wire_count = suc count },
          three call strict (header id t) (varint (suc count))
              (element_bytes is_signed size (suc count) bytes) c (amid c array_count (start c id t))
              (amid c (element_state is_signed) (counted id t (suc count) u)) _
              (reaches_count id t h small (opens _))
              (amid_varint call strict c array_count (start c id t) (suc count)
                (element_state is_signed) (counted id t (suc count) u) (omega arith) refl begun)
              (elements_read is_signed size count bytes (counted id t (suc count) u) w all refl
                (omega arith)),
        )
