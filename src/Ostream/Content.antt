-- ===== src/Ostream/Content.antt =====
-- The field writers of ostream.c against an arithmetic description of the wire format.
use corelib_c_cpp.Base.{
  ℕ, zero, suc, ◌+◌, ◌*◌, ◌^◌, ◌<◌, ◌≤◌, ◌≡◌, refl, sym, ◌∙◌, ap, fun_ext, Bool, true, false, not,
  ◌&&◌, ◌⊎◌, List, ◌++◌, arith, ◌==◌, if◌then◌else◌, length, take, drop, All,
}
use corelib_c_cpp.Wire.{
  id_max, fixlen_max, array_max, type_varint_unsigned, type_varint_signed, type_fixlen,
  type_varintarray_unsigned, type_varintarray_signed, type_fixlenarray, type_sequence_start,
  type_sequence_end, fixlentype_string, type_encode,
}
use corelib_c_cpp.Wire.Varint.{varint, IsByte}
use corelib_c_cpp.Wire.Zigzag.{zigzag_encode, zigzag_encode-zigzag, zigzag, to_ℤ}
use corelib_c_cpp.Utf8.{valid}
use corelib_c_cpp.Ostream.{
  Ostream, Writer, and_then, ◌>>◌, varint_encode, write_bytes, commit_if, write_id_type,
  write_id_varint,
}
use corelib_c_cpp.Ostream.Bytes.{varint_encode-varint, write_bytes-append, and_then_assoc}
use corelib_c_cpp.Ostream.Commit.{header, varint_encode-header, type_encode-sum}
use corelib_c_cpp.Ostream.Fields.{write_unsigned, write_signed, write_fixlen}
use corelib_c_cpp.Ostream.Arrays.{
  from_bytes, element_payload, array_loop, write_varint_array, write_array_of_fixlen,
}
use corelib_c_cpp.Ostream.Elements.{
  element_value, IsWidth, element_bytes, from_bytes-lt, All-drop, element_payload-eq,
  load_element-width,
}

-- A value that one call of a field writer puts on the wire.
pub data Leaf : Type 0 where
  unsigned : ℕ → Leaf
  signed : ℕ → Leaf
  fixlen : List ℕ → ℕ → Leaf
  integers : Bool → List ℕ → ℕ → ℕ → Leaf
  floats : List ℕ → ℕ → ℕ → ℕ → Leaf

-- The call, under the build's `SOFAB_STRICT_UTF8`.
unfoldable pub write_leaf : {U : Type 0} → Bool → ℕ → Leaf → Writer U
write_leaf strict id (unsigned v) = write_unsigned id v
write_leaf strict id (signed v) = write_signed id v
write_leaf strict id (fixlen bytes type) = write_fixlen strict id bytes type
write_leaf strict id (integers is_signed bytes count size) =
    write_varint_array id bytes count size is_signed
write_leaf strict id (floats bytes count size type) = write_array_of_fixlen id bytes count size type

-- What the format puts on the wire for it.
unfoldable pub leaf_bytes : ℕ → Leaf → List ℕ
leaf_bytes id (unsigned v) = header id type_varint_unsigned ++ varint v
leaf_bytes id (signed v) = header id type_varint_signed ++ varint (zigzag (to_ℤ v))
leaf_bytes id (fixlen bytes type) =
    header id type_fixlen ++ varint (length bytes * 8 + type) ++ bytes
leaf_bytes id (integers is_signed bytes count size) =
    header id (if is_signed then type_varintarray_signed else type_varintarray_unsigned)
    ++ varint count
    ++ element_bytes is_signed size count bytes
leaf_bytes id (floats bytes count size type) =
    header id type_fixlenarray
    ++ varint count
    ++ varint (size * 8 + type)
    ++ take (count * size) bytes

-- The arguments that the C types and the API's contract allow.
abbrev pub IsLeaf : Bool → Leaf → Type 0
IsLeaf strict (unsigned v) = v < 2 ^ 64
IsLeaf strict (signed v) = v < 2 ^ 64
IsLeaf strict (fixlen bytes type) =
    (length bytes ≤ fixlen_max)
    × (type < 8)
    × ((strict && type == fixlentype_string && not (valid bytes)) ≡ false)
IsLeaf strict (integers is_signed bytes count size) =
    (count ≤ array_max) × All IsByte bytes × IsWidth size
IsLeaf strict (floats bytes count size type) = (count ≤ array_max) × (size < 2 ^ 31) × (type < 2)

module _ {U : Type 0} where
  -- A writer that puts `bytes` behind the held-back headers.
  abbrev pub IsContent : Writer U → List ℕ → Type 0
  IsContent w bytes = w ≡ (commit_if true >> write_bytes bytes)

  write_id_type-IsContent :
      (id type : ℕ) → id ≤ id_max → type < 6 → IsContent (write_id_type id type) (header id type)
  unfolding write_id_type
  write_id_type-IsContent id type h k =
      fun_ext λ o. rw (sym (varint_encode-header {U = U} id type h (omega arith))) (ground arith)

  -- The markers of a framed sequence do not commit by themselves.
  pub write_id_type-marker :
      (id type : ℕ)
      → id ≤ id_max
      → (type ≡ type_sequence_start) ⊎ (type ≡ type_sequence_end)
      → write_id_type {U = U} id type ≡ write_bytes (header id type)
  unfolding write_id_type commit_if
  write_id_type-marker id type h k =
      fun_ext λ o. rw (sym (varint_encode-header {U = U} id type h (ground arith))) (ground arith)

  IsContent-then :
      {w : Writer U} (bytes : List ℕ) (k : Writer U) (more : List ℕ)
      → IsContent w bytes
      → k ≡ write_bytes more
      → IsContent (w >> k) (bytes ++ more)
  IsContent-then bytes k more p q = fun_ext λ o.
      rw (p, q)
        (and_then_assoc (commit_if true o) (write_bytes bytes) (write_bytes more)
          ∙ ap (and_then (commit_if true o)) (fun_ext λ m. sym (write_bytes-append bytes more m)))

  write_id_varint-IsContent :
      (id type payload : ℕ)
      → id ≤ id_max
      → type < 6
      → payload < 2 ^ 64
      → IsContent (write_id_varint id type payload) (header id type ++ varint payload)
  unfolding write_id_varint
  write_id_varint-IsContent id type payload h k l =
      IsContent-then (header id type) (varint_encode payload) (varint payload)
        (write_id_type-IsContent id type h k) (varint_encode-varint payload l)

  array_loop-suc :
      (is_signed : Bool) (size count : ℕ) (bytes : List ℕ)
      → IsWidth size
      → (o : Ostream U)
      → array_loop is_signed size (suc count) bytes o
        ≡ (varint_encode (element_payload is_signed size (from_bytes (take size bytes)))
              >> array_loop is_signed size count (drop size bytes))
            o
  unfolding array_loop
  array_loop-suc is_signed size count bytes k o =
      rw (load_element-width size bytes k, array_loop) refl

  array_loop-element_bytes :
      (is_signed : Bool) (size count : ℕ) (bytes : List ℕ)
      → All IsByte bytes
      → IsWidth size
      → array_loop {U = U} is_signed size count bytes
        ≡ write_bytes (element_bytes is_signed size count bytes)
  array_loop-element_bytes is_signed size zero bytes h k = unfold array_loop write_bytes in refl
  array_loop-element_bytes is_signed size (suc count) bytes h k = fun_ext λ o.
      let (e, l) =
        element_payload-eq is_signed size (from_bytes (take size bytes)) k
          (from_bytes-lt size bytes h) in
      rw (array_loop-suc is_signed size count bytes k o) (
        rw
          (
            varint_encode-varint _ l,
            array_loop-element_bytes is_signed size count (drop size bytes) (All-drop size bytes h)
                k,
          )
          (rw e (
            sym (
              write_bytes-append
                (varint (element_value is_signed size (from_bytes (take size bytes))))
                (element_bytes is_signed size count (drop size bytes)) o))))

  -- With an id and a value within the limits, each field writer is: commit what is held back, then
  -- write the bytes of the wire format.
  pub write_leaf-IsContent :
      (strict : Bool) (id : ℕ) (l : Leaf)
      → id ≤ id_max
      → IsLeaf strict l
      → IsContent (write_leaf strict id l) (leaf_bytes id l)
  unfolding write_leaf leaf_bytes
  write_leaf-IsContent strict id (unsigned v) h k =
      unfold write_unsigned in write_id_varint-IsContent id type_varint_unsigned v h (omega arith) k
  write_leaf-IsContent strict id (signed v) h k =
      let z = zigzag_encode-zigzag v k in
      unfold write_signed in
      rw (← z.0)
        (write_id_varint-IsContent id type_varint_signed (zigzag_encode v) h (omega arith) z.1)
  write_leaf-IsContent strict id (fixlen bytes type) h k =
      let word = header id type_fixlen ++ varint (length bytes * 8 + type) in
      let c : IsContent
          (write_id_varint id type_fixlen (type_encode (length bytes) type) >> write_bytes bytes)
          (word ++ bytes) =
        rw (type_encode-sum (length bytes) type (omega arith) k.1) (
          IsContent-then word (write_bytes bytes) bytes
            (write_id_varint-IsContent id type_fixlen (length bytes * 8 + type) h (omega arith)
              (omega arith))
            refl) in
      fun_ext λ o. unfold write_fixlen in rw k.2 (ap (λ (w : Writer U). w o) c)
  write_leaf-IsContent strict id (integers true bytes count size) h k =
      unfold write_varint_array in
      IsContent-then (header id type_varintarray_signed ++ varint count)
        (array_loop true size count bytes) (element_bytes true size count bytes)
        (write_id_varint-IsContent id type_varintarray_signed count h (omega arith) (omega arith))
        (array_loop-element_bytes true size count bytes k.1 k.2)
  write_leaf-IsContent strict id (integers false bytes count size) h k =
      unfold write_varint_array in
      IsContent-then (header id type_varintarray_unsigned ++ varint count)
        (array_loop false size count bytes) (element_bytes false size count bytes)
        (write_id_varint-IsContent id type_varintarray_unsigned count h (omega arith) (omega arith))
        (array_loop-element_bytes false size count bytes k.1 k.2)
  write_leaf-IsContent strict id (floats bytes count size type) h k =
      let word = header id type_fixlenarray ++ varint count in
      let typed : varint_encode {U = U} (type_encode size type)
          ≡ write_bytes (varint (size * 8 + type)) =
        rw (type_encode-sum size type (omega arith) (omega arith))
          (varint_encode-varint (size * 8 + type) (omega arith)) in
      unfold write_array_of_fixlen in
      IsContent-then (word ++ varint (size * 8 + type)) (write_bytes (take (count * size) bytes))
        (take (count * size) bytes)
        (IsContent-then word (varint_encode (type_encode size type)) (varint (size * 8 + type))
          (write_id_varint-IsContent id type_fixlenarray count h (omega arith) (omega arith)) typed)
        refl
