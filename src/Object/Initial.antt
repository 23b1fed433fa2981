-- ===== src/Object/Initial.antt =====
-- An object after `sofab_object_init`, under the default test and under `sofab_object_encode`.
use corelib_c_cpp.Base.{
  ℕ, zero, suc, ◌+◌, ◌-◌, ◌^◌, ◌≤◌, ◌<◌, ◌≡◌, refl, ap, ◌∙◌, Bool, true, false, not, List, [], ◌∷◌,
  All, get_or, ◌==◌, length, Bool-cases, inl, inr, arith,
}
use corelib_c_cpp.Istream.{Memory}
use corelib_c_cpp.Istream.Safe.{Within, Within-nothing, Within-then, Within-if, Within-wider}
use corelib_c_cpp.Object.{
  FieldDescr, Info, Descr, Descrs, descr, no_more, also, is_sequence, is_union, is_holder, not_held,
  store_uint, sized_width, field_default, seq_len_width, seq_len_width_masked, seq_len, fields,
}
use corelib_c_cpp.Object.Init.{
  init_leaf, init_length, init_field, init_fields, init_head, object_init, nested_inits,
}
use corelib_c_cpp.Object.Extent.{
  head_width, field_end, fields_end, value_size, extent, extents, store_uint-Within, in_front,
  AllInFront, AllInFrontDescrs, nested_inits-Within, init_value_within,
}
use corelib_c_cpp.Object.Default.{
  field_is_default, content_is_default, fields_are_default, object_is_default, nested_defaults,
}
use corelib_c_cpp.Object.Fresh.{IsLaid, init_leaf-FreshLeaf, FreshLeaf-default}
use corelib_c_cpp.Object.Layout.{
  Agrees, start, stop, Clear, LaidFields, IsLaidOut, AllLaidOut, length_zero, masked_width,
  FreshLeaf-Agrees,
}
use corelib_c_cpp.Ostream.{Ostream}
use corelib_c_cpp.Object.Encode.{object_encode}
use corelib_c_cpp.Object.Quiet.{object_encode-default}

module _ (info : Info) (inits : List (ℕ → Memory → Memory)) (tests : List (Memory → ℕ → Bool))
    (sizes : List ℕ) (obj : ℕ) where
  -- Nested objects that are initialised within their sizes.
  abbrev Inside : Type 0
  Inside =
      (i p : ℕ) (mem : Memory)
      → Within p (p + get_or sizes i 0) mem (get_or inits i (λ q m. m) p mem)

  -- Nested objects that pass their tests in each memory that agrees with the initialised one.
  abbrev Lasting : Type 0
  Lasting =
      (i p : ℕ) (mem mem' : Memory)
      → Agrees p (p + get_or sizes i 0) (get_or inits i (λ q m. m) p mem) mem'
      → get_or tests i (λ m q. true) mem' p ≡ true

  init_field_inside :
      (field : FieldDescr) (mem : Memory)
      → Inside
      → is_union info ≡ false
      → ((is_sequence field.type ≡ false) → IsLaid info field)
      → Within
          (obj + start field)
          (obj + stop sizes field)
          mem
          (init_field info inits obj field mem)
  unfolding init_field not_held value_size init_leaf init_length
  init_field_inside field mem inside plain laid = elim (Bool-cases (is_sequence field.type)) [
    | inl e ↦
        rw (plain, e)
          (Within-wider _ _ (omega arith) (ground arith)
            (inside field.nested_idx (obj + field.offset) mem))
    | inr e ↦
        let leaf = laid e in
        rw (plain, e)
          (Within-then
            (Within-wider _ _ (omega arith) (omega arith)
              (init_value_within (field_default info field) field obj mem))
            (Within-if (sized_width field == 0) (Within-nothing _) (
              Within-wider _ _ (omega arith) (ground arith) (
                store_uint-Within _ (obj + field.offset - sized_width field) (sized_width field)
                  _))))
  ]

  field_lasting :
      (field : FieldDescr) (mem mem' : Memory)
      → Lasting
      → is_union info ≡ false
      → ((is_sequence field.type ≡ false) → IsLaid info field)
      → Agrees
          (obj + start field)
          (obj + stop sizes field)
          (init_field info inits obj field mem)
          mem'
      → field_is_default info tests field mem' obj ≡ true
  unfolding init_field not_held value_size field_is_default content_is_default
  field_lasting field mem mem' lasting plain laid agrees =
      elim (Bool-cases (is_sequence field.type)) [
        | inl e ↦
            let held = rw (plain, e) at agrees in
            rw (plain, e)
              (lasting field.nested_idx (obj + field.offset) mem mem'
                (record { same = λ q a b. held.same q (omega arith) (ground arith) }))
        | inr e ↦
            let held = rw (plain, e) at agrees in
            rw (plain, e)
              (FreshLeaf-default info field obj mem' (laid e) (
                FreshLeaf-Agrees info field obj _ mem' (laid e).in_front
                  (record { same = λ q a b. held.same q (omega arith) (ground arith) })
                  (init_leaf-FreshLeaf info field obj mem (laid e))))
      ]

  -- The other fields keep what lies apart from them.
  init_fields-Clear :
      (a b : ℕ) (fs : List FieldDescr) (mem : Memory)
      → Inside
      → is_union info ≡ false
      → Clear sizes a b fs
      → LaidFields info sizes fs
      → Agrees (obj + a) (obj + b) mem (init_fields info inits obj fs mem)
  unfolding init_fields Clear LaidFields
  init_fields-Clear a b [] mem inside plain c laid = record { same = λ q h k. refl }
  init_fields-Clear a b (f ∷ fs) mem inside plain c laid =
      let rest =
        init_fields-Clear a b fs (init_field info inits obj f mem) inside plain c.1 laid.2 in
      let here = init_field_inside f mem inside plain laid.0 in
      record { same = λ q h k. rest.same q h k ∙ here.kept q (ground arith) }

  init_fields_lasting :
      (fs : List FieldDescr) (mem mem' : Memory) (end : ℕ)
      → Inside
      → Lasting
      → is_union info ≡ false
      → LaidFields info sizes fs
      → fields_end sizes fs ≤ end
      → Agrees obj (obj + end) (init_fields info inits obj fs mem) mem'
      → fields_are_default info tests fs mem' obj ≡ true
  unfolding init_fields LaidFields fields_are_default fields_end field_end
  init_fields_lasting [] mem mem' end inside lasting plain laid h agrees = refl
  init_fields_lasting (f ∷ fs) mem mem' end inside lasting plain laid h agrees =
      let mid = init_field info inits obj f mem in
      let kept = init_fields-Clear (start f) (stop sizes f) fs mid inside plain laid.1 laid.2 in
      let first =
        field_lasting f mem mem' lasting plain laid.0 (record {
          same = λ q a b. agrees.same q (omega arith) (omega arith) ∙ kept.same q a b;
        }) in
      let others =
        init_fields_lasting fs mid mem' end inside lasting plain laid.2 (omega arith) agrees in
      rw (first, others) refl

  -- The length member of a sized holder.
  seq_len_lasting :
      (mem mem' : Memory) (end : ℕ)
      → Inside
      → is_union info ≡ false
      → (seq_len_width_masked info == 0) ≡ false
      → Clear sizes 0 (head_width info) (fields info)
      → LaidFields info sizes (fields info)
      → head_width info ≤ end
      → Agrees obj
          (obj + end)
          (init_fields info inits obj (fields info) (init_head info obj mem))
          mem'
      → (seq_len info mem' obj == 0) ≡ true
  unfolding init_head seq_len head_width
  seq_len_lasting mem mem' end inside plain sized c laid h agrees =
      let width = seq_len_width info in
      let wide : (width == 0) ≡ false = masked_width width sized in
      let kept =
        init_fields-Clear 0 (head_width info) (fields info) (init_head info obj mem) inside plain c
          laid in
      let headed : init_head info obj mem ≡ store_uint mem obj width 0 = rw (plain, wide) refl in
      let none = length_zero mem mem' obj width (record {
        same = λ q a b.
            agrees.same q a (omega arith)
            ∙ kept.same q (omega arith) (omega arith)
            ∙ ap (λ m. m q) headed;
      }) in
      rw (none, wide) (ground arith)

LaidFields-in_front :
    (info : Info) (sizes : List ℕ) (fs : List FieldDescr)
    → LaidFields info sizes fs
    → All (λ f. in_front f ≡ true) fs
unfolding LaidFields
LaidFields-in_front info sizes [] h = tt
LaidFields-in_front info sizes (f ∷ fs) h =
    let first : in_front f ≡ true = elim (Bool-cases (is_sequence f.type)) [
      | inl e ↦ rw e refl
      | inr e ↦ let front = (h.0 e).in_front in rw e (ground arith)
    ] in
    (first, LaidFields-in_front info sizes fs h.2)

mutual
  unfolding IsLaidOut AllLaidOut AllInFront AllInFrontDescrs

  tree_in_front : (d : Descr) → IsLaidOut d → AllInFront d
  tree_in_front (descr info nested) h =
      (LaidFields-in_front info (extents nested) (fields info) h.2, descrs_in_front nested h.3)

  descrs_in_front : (ds : Descrs) → AllLaidOut ds → AllInFrontDescrs ds
  descrs_in_front no_more h = tt
  descrs_in_front (also d ds) h = (tree_in_front d h.0, descrs_in_front ds h.1)

-- Objects and, in turn, the objects inside them.
mutual
  unfolding object_init nested_inits extent extents IsLaidOut AllLaidOut object_is_default
      nested_defaults

  tree_lasting :
      (d : Descr) (obj : ℕ) (mem mem' : Memory)
      → IsLaidOut d
      → Agrees obj (obj + extent d) (object_init d obj mem) mem'
      → object_is_default d mem' obj ≡ true
  tree_lasting (descr info nested) obj mem mem' laid agrees =
      let inits = nested_inits nested in
      let tests = nested_defaults nested in
      let sizes = extents nested in
      elim (Bool-cases (seq_len_width_masked info == 0)) [
        | inl e ↦ rw e (
            init_fields_lasting info inits tests sizes obj (fields info) (init_head info obj mem)
              mem' _ (nested_inits-Within nested (descrs_in_front nested laid.3))
              (nested_lasting nested laid.3) laid.0 laid.2 (omega arith) agrees)
        | inr e ↦ rw e (
            seq_len_lasting info inits tests sizes obj mem mem' _
              (nested_inits-Within nested (descrs_in_front nested laid.3)) laid.0 e laid.1 laid.2
              (omega arith) agrees)
      ]

  nested_lasting :
      (ds : Descrs)
      → AllLaidOut ds
      → (i p : ℕ) (mem mem' : Memory)
      → Agrees p (p + get_or (extents ds) i 0) (get_or (nested_inits ds) i (λ q m. m) p mem) mem'
      → get_or (nested_defaults ds) i (λ m q. true) mem' p ≡ true
  nested_lasting no_more laid i p mem mem' h = refl
  nested_lasting (also d ds) laid zero p mem mem' h = tree_lasting d p mem mem' laid.0 h
  nested_lasting (also d ds) laid (suc i) p mem mem' h = nested_lasting ds laid.1 i p mem mem' h

-- `sofab_object_init` leaves an object that the default test accepts, nested objects included. The
-- fields of the object lie apart from each other and from its length member, no descriptor is a
-- union's, the image is made of bytes, and the default length of a sized field is within its
-- capacity.
pub object_init-object_is_default :
    (d : Descr) (obj : ℕ) (mem : Memory)
    → IsLaidOut d
    → object_is_default d (object_init d obj mem) obj ≡ true
object_init-object_is_default d obj mem laid =
    tree_lasting d obj mem (object_init d obj mem) laid (record { same = λ q a b. refl })

-- Such an object, when its length member belongs to a holder of elements and of no other object
-- and its descriptor lists fewer than 2 ^ 64 fields, is encoded as nothing once it is initialised:
-- `sofab_object_encode` returns SOFAB_RET_OK and leaves the stream as it is.
pub object_encode-object_init :
    {U : Type 0} (strict : Bool) (info : Info) (nested : Descrs) (obj : ℕ) (mem : Memory)
    (o : Ostream U)
    → IsLaidOut (descr info nested)
    → is_holder info ≡ not (seq_len_width_masked info == 0)
    → length info.field_list < 2 ^ 64
    → object_encode strict (descr info nested) (object_init (descr info nested) obj mem) obj o
      ≡ (o, 0)
object_encode-object_init strict info nested obj mem o laid h small =
    object_encode-default strict info nested _ obj o h small
      (object_init-object_is_default (descr info nested) obj mem laid)
