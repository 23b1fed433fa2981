-- ===== src/Object/Safe.antt =====
-- `sofab_object_field_cb` and the memory of the object.
use corelib_c_cpp.Base.{
  ℕ, ◌+◌, ◌≤◌, ◌≡◌, refl, Bool, true, false, not, Option, none, some, List, [], ◌∷◌, ◌==◌,
  if◌then◌else◌, bit_and, arith, Bool-cases, Option-cases, inl, inr,
}
use corelib_c_cpp.Istream.{Memory}
use corelib_c_cpp.Istream.Callback.{Call, Reply}
use corelib_c_cpp.Istream.Scalar.{store_bytes}
use corelib_c_cpp.Istream.Safe.{
  Within, Within-nothing, Within-then, Within-if, Within-wider, AreCalls, no_call, one_call,
  IsReply, Keeps,
}
use corelib_c_cpp.Object.{
  FieldDescr, Info, Descr, Descrs, descr, fields, nested_at, is_sequence, expected_opt,
  seq_len_observe, observe_length, seq_len_width, id_size,
}
use corelib_c_cpp.Object.Extent.{
  head_width, value_size, field_end, extent, extents, store_bytes-Within, store_uint-Within,
}
use corelib_c_cpp.Object.Decode.{
  ObjectDecoder, Branch, bind_sequence, bind_object_field, observed, over_index, unmatched,
  find_field, object_field_cb,
}
use corelib_c_cpp.Object.Branches.{
  has_size, AllSized, AllSizedDescrs, IsObject, find_field-end, nested_at-extents, IsBranch,
  branch_if, branch_option, bind_leaf-IsBranch, enter_nested-IsBranch,
}

-- A nested object lies inside its own.
nested_upto :
    (info : Info) (nested : Descrs) (f : FieldDescr) (d : Descr)
    → is_sequence f.type ≡ true
    → field_end (extents nested) f ≤ extent (descr info nested)
    → AllSizedDescrs nested
    → nested_at nested f.nested_idx ≡ some d
    → AllSized d × (f.offset + extent d ≤ extent (descr info nested))
unfolding field_end value_size
nested_upto info nested f d q h s e =
    let inner = nested_at-extents nested f.nested_idx d s e in
    (inner.1, ground (arith, q, inner.0, h))

module _ (a b : ℕ) (info : Info) (nested : Descrs) (dst depth : ℕ) where
  abbrev handle : ObjectDecoder
  handle = record { info = descr info nested; dst = dst; depth = depth }

  module _ (ok : IsObject a b handle) where
    bind_sequence-IsBranch :
        (f : FieldDescr) (wire : ℕ) (mem : Memory)
        → is_sequence f.type ≡ true
        → field_end (extents nested) f ≤ extent (descr info nested)
        → AllSizedDescrs nested
        → IsBranch a b mem (bind_sequence handle f wire mem)
    unfolding bind_sequence
    bind_sequence-IsBranch f wire mem q h s = branch_if a b mem _ _ (
        branch_if a b mem _ _ (
          branch_option a b mem (nested_at nested f.nested_idx) _ (λ d e.
            let inner = nested_upto info nested f d q h s e in
            enter_nested-IsBranch a b handle ok f mem d inner.0 inner.1)))

    bind_object_field-IsBranch :
        (f : FieldDescr) (size count wire : ℕ) (mem : Memory)
        → has_size f ≡ true
        → field_end (extents nested) f ≤ extent (descr info nested)
        → AllSizedDescrs nested
        → IsBranch a b mem (bind_object_field handle f size count wire mem)
    unfolding bind_object_field
    bind_object_field-IsBranch f size count wire mem z h s =
        elim (Bool-cases (is_sequence f.type)) [
          | inl q ↦ rw q (bind_sequence-IsBranch f wire mem q h s)
          | inr q ↦
              rw q (bind_leaf-IsBranch a b handle ok f (extents nested) size count wire mem q z h)
        ]

    observe_length-Within :
        (mem : Memory) (id : ℕ) → Within a b mem (observe_length info mem dst id)
    unfolding observe_length extent head_width
    observe_length-Within mem id =
        let from = ok.from in
        let upto = ok.upto in
        Within-if _
          (Within-wider a b from (omega arith) (store_uint-Within mem dst (seq_len_width info) _))
          (Within-nothing mem)

    tag_room : not (bit_and (seq_len_width info) 0x40 == 0) ≡ true → dst + id_size ≤ b
    unfolding extent head_width
    tag_room e = let upto = ok.upto in ground (arith, e, upto)

    tag-Within :
        (mem raised : Memory) (id : ℕ)
        → Within a b mem raised
        → Within a b mem (
            if not (bit_and (seq_len_width info) 0x40 == 0)
            then store_bytes raised dst id_size id
            else raised)
    tag-Within mem raised id p = elim (Bool-cases (not (bit_and (seq_len_width info) 0x40 == 0))) [
      | inl e ↦ rw e (
          Within-then p
            (Within-wider a b ok.from (tag_room e) (store_bytes-Within raised dst id_size id)))
      | inr e ↦ rw e p
    ]

    seq_len_observe-Within :
        (mem : Memory) (id : ℕ) → Within a b mem (seq_len_observe info mem dst id)
    unfolding seq_len_observe
    seq_len_observe-Within mem id =
        Within-if (seq_len_width info == 0) (Within-nothing mem)
          (tag-Within mem _ id (observe_length-Within mem id))

    observed-Within :
        (mem : Memory) (id wire : ℕ) (branch : Branch)
        → IsBranch a b mem branch
        → Within a b mem (observed handle id wire branch)
    unfolding observed
    observed-Within mem id wire branch p = elim (Option-cases branch.opt) [
      | inl e ↦ rw e (p.written)
      | inr (opt, e) ↦
          rw e
            (Within-if _ (Within-then p.written (seq_len_observe-Within branch.mem id)) p.written)
    ]

calls_if :
    {a b : ℕ} {calls : List (Call ObjectDecoder)} (test : Bool)
    → AreCalls (IsObject a b) a b calls
    → AreCalls (IsObject a b) a b (if test then calls else [])
calls_if true p = p
calls_if false p = no_call

over_index-AreCalls :
    (a b : ℕ) (info : Info) (wire : ℕ) (fs : List FieldDescr)
    → AreCalls (IsObject a b) a b (over_index info wire fs)
unfolding over_index
over_index-AreCalls a b info wire [] = no_call
over_index-AreCalls a b info wire (f ∷ fs) = elim (Option-cases (expected_opt f.type)) [
  | inl e ↦ rw (e, over_index) (one_call tt)
  | inr (opt, e) ↦ rw (e, over_index) (calls_if _ (one_call tt))
]

reply_option :
    {U A : Type 0} (a b : ℕ) (mem : Memory) (o : Option A) (n : Reply ObjectDecoder U)
    (g : A → Reply ObjectDecoder U)
    → IsReply (IsObject a b) a b mem n
    → ((x : A) → o ≡ some x → IsReply (IsObject a b) a b mem (g x))
    → IsReply (IsObject a b) a b mem (elim o [ none ↦ n | some x ↦ g x ])
reply_option a b mem none n g p q = p
reply_option a b mem (some x) n g p q = q x refl

branches-IsReply :
    {U : Type 0} (a b : ℕ) (info : Info) (nested : Descrs) (dst depth : ℕ)
    → IsObject a b (handle a b info nested dst depth)
    → (id size count opt : ℕ) (mem : Memory) (usr : U)
    → IsReply
        (IsObject a b)
        a
        b
        mem
        (object_field_cb (handle a b info nested dst depth) id size count opt mem usr)
unfolding object_field_cb unmatched AllSized extent
branches-IsReply a b info nested dst depth ok id size count opt mem usr =
    reply_option a b mem (find_field id (fields info)) _ _
      (record {
        safe_calls = calls_if _ (over_index-AreCalls a b info opt info.field_list);
        written = Within-nothing mem;
      })
      (λ f e.
        let found = find_field-end (extents nested) id (fields info) f (ok.sized.0) e in
        let branch =
          bind_object_field-IsBranch a b info nested dst depth ok f size count opt mem found.1
            (omega (arith, found.0)) (ok.sized.1) in
        record {
          safe_calls = branch.safe_calls;
          written = observed-Within a b info nested dst depth ok mem id opt _ branch;
        })

keeps :
    {U : Type 0} (a b : ℕ) (d : Descr) (dst depth : ℕ)
    → IsObject a b (record { info = d; dst = dst; depth = depth })
    → (id size count opt : ℕ) (mem : Memory) (usr : U)
    → IsReply
        (IsObject a b)
        a
        b
        mem
        (object_field_cb (record { info = d; dst = dst; depth = depth }) id size count opt mem usr)
keeps a b (descr info nested) dst depth ok id size count opt mem usr =
    branches-IsReply a b info nested dst depth ok id size count opt mem usr

-- Whatever field the stream reports, the callback of an object's handle writes nothing outside
-- the object, calls at most one function, binds only what lies in the object, with the option
-- word that the read functions ask for, and enters only nested objects that lie in it. The leaves
-- of the descriptors have a size, and their length members lie inside their objects.
pub object_field_cb-IsReply :
    {U : Type 0} (a b : ℕ) (h : ObjectDecoder) (id size count opt : ℕ) (mem : Memory) (usr : U)
    → IsObject a b h
    → IsReply (IsObject a b) a b mem (object_field_cb h id size count opt mem usr)
object_field_cb-IsReply a b h id size count opt mem usr ok =
    keeps a b h.info h.dst h.depth ok id size count opt mem usr

pub object_field_cb-Keeps :
    {U : Type 0} (a b : ℕ) → Keeps (IsObject a b) a b (object_field_cb {U = U})
object_field_cb-Keeps a b h id size count opt mem usr ok =
    object_field_cb-IsReply a b h id size count opt mem usr ok
