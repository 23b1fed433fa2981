-- ===== src/Ostream/Commit.antt =====
-- The held-back sequence headers of ostream.c: `_commit_pending` and the byte writers.
use corelib_c_cpp.Base.{
  ℕ, ◌+◌, ◌*◌, ◌%◌, ◌^◌, ◌<◌, ◌≤◌, ◌≡◌, refl, sym, ◌∙◌, ap, Option, none, some, List, [], ◌∷◌, ◌++◌,
  arith, take, Option-cases, if◌then◌else◌, Bool-cases, inl, inr, bit_and, All,
}
use corelib_c_cpp.Base.Bits.{bit_and-mask, bit_or-shifted}
use corelib_c_cpp.Wire.{Ret, ret_ok, e_buffer_full, id_max, type_sequence_start, type_encode}
use corelib_c_cpp.Wire.Varint.{varint}
use corelib_c_cpp.Ostream.{
  Ostream, Writer, Flush, Install, and_then, returned, buffer_set, drain, push_byte, store_byte,
  is_full, varint_encode, write_bytes, commit_loop, commit_pending,
}
use corelib_c_cpp.Ostream.Bytes.{varint_encode-varint, write_bytes-append}

-- A field header: id and type in one varint.
abbrev pub header : ℕ → ℕ → List ℕ
header id type = varint (id * 8 + type)

-- The start markers of a run of sequences, outermost first.
abbrev pub headers : List ℕ → List ℕ
headers [] = []
headers (id ∷ ids) = header id type_sequence_start ++ headers ids

-- `_type_encode` on values that leave room for the three bits.
pub type_encode-sum :
    (var type : ℕ) → var < 2 ^ 61 → type < 8 → type_encode var type ≡ var * 8 + type
unfolding type_encode
type_encode-sum var type h k =
    let wide : var * 2 ^ 3 % 2 ^ 64 ≡ var * 2 ^ 3 = omega arith in
    let low : bit_and type 0x07 ≡ type = bit_and-mask 3 type ∙ omega arith in
    rw (wide, low) (bit_or-shifted 3 var type k)

module _ {U : Type 0} where
  -- The stream with other ids held back.
  abbrev pub holding : List ℕ → Ostream U → Ostream U
  holding ids o = record o { pending = ids }

  abbrev holding_result : List ℕ → Ostream U × Ret → Ostream U × Ret
  holding_result ids (o, ret) = (holding ids o, ret)

  returned-holding :
      (ids : List ℕ) (o : Ostream U) (r : U × Option Install)
      → returned (holding ids o) r ≡ holding ids (returned o r)
  unfolding returned buffer_set
  returned-holding ids o (u, none) = refl
  returned-holding ids o (u, some i) = refl

  drain-holding :
      (ids : List ℕ) (f : Flush U) (o : Ostream U)
      → drain f (holding ids o) ≡ holding ids (drain f o)
  unfolding drain
  drain-holding ids f o =
      returned-holding ids (record o { offset = 0 }) (f (take o.offset o.buffer) o.usr)

  -- `_push_byte` on a full buffer, once the callback is known.
  abbrev after_drain : ℕ → Ostream U → Ostream U × Ret
  after_drain b o = if is_full o then (o, e_buffer_full) else (store_byte b o, ret_ok)

  after_drain-holding :
      (b : ℕ) (ids : List ℕ) (o : Ostream U)
      → after_drain b (holding ids o) ≡ holding_result ids (after_drain b o)
  unfolding store_byte
  after_drain-holding b ids o = elim (Bool-cases (is_full o)) [
    | inl e ↦ rw e refl
    | inr e ↦ rw e refl
  ]

  push_byte-holding :
      (b : ℕ) (ids : List ℕ) (o : Ostream U)
      → push_byte b (holding ids o) ≡ holding_result ids (push_byte b o)
  unfolding push_byte
  push_byte-holding b ids o = elim (Bool-cases (is_full o)) [
    | inr e ↦ rw e (unfold store_byte in refl)
    | inl e ↦ rw e (elim (Option-cases o.flush) [
      | inl none_set ↦ rw none_set refl
      | inr (f, set) ↦ rw (set, drain-holding ids f o) (after_drain-holding b ids (drain f o))
    ])
  ]

  holding-and_then :
      (ids : List ℕ) (k : Writer U) (r : Ostream U × Ret)
      → ((o : Ostream U) → k (holding ids o) ≡ holding_result ids (k o))
      → and_then (holding_result ids r) k ≡ holding_result ids (and_then r k)
  holding-and_then ids k (o, ret_ok) h = h o
  holding-and_then ids k (o, r) h = refl

  pub write_bytes-holding :
      (bs ids : List ℕ) (o : Ostream U)
      → write_bytes bs (holding ids o) ≡ holding_result ids (write_bytes bs o)
  unfolding write_bytes
  write_bytes-holding [] ids o = refl
  write_bytes-holding (b ∷ bs) ids o =
      rw push_byte-holding
        (holding-and_then ids (write_bytes bs) (push_byte b o) (write_bytes-holding bs ids))

  and_then-eq-ok :
      (r : Ostream U × Ret) (k : Writer U) {o' : Ostream U}
      → and_then r k ≡ (o', ret_ok)
      → (o : Ostream U) × (r ≡ (o, ret_ok)) × (k o ≡ (o', ret_ok))
  and_then-eq-ok (o, ret_ok) k e = (o, refl, e)
  and_then-eq-ok (o, r) k e = cc

  -- A successful write of two parts is a successful write of each.
  pub write_bytes_split :
      (xs ys : List ℕ) (o : Ostream U) {o' : Ostream U}
      → write_bytes (xs ++ ys) o ≡ (o', ret_ok)
      → (m : Ostream U) × (write_bytes xs o ≡ (m, ret_ok)) × (write_bytes ys m ≡ (o', ret_ok))
  write_bytes_split xs ys o e =
      and_then-eq-ok (write_bytes xs o) (write_bytes ys) (sym (write_bytes-append xs ys o) ∙ e)

  pub varint_encode-header :
      (id type : ℕ)
      → id ≤ id_max
      → type < 8
      → varint_encode {U = U} (type_encode id type) ≡ write_bytes (header id type)
  varint_encode-header id type h k =
      rw (type_encode-sum id type (omega arith) k) (varint_encode-varint _ (omega arith))

  commit_loop-ok :
      (ids : List ℕ) (o : Ostream U) {o' : Ostream U}
      → All (λ id. id ≤ id_max) ids
      → write_bytes (headers ids) o ≡ (o', ret_ok)
      → commit_loop ids o ≡ (o', [], ret_ok)
  unfolding commit_loop
  commit_loop-ok [] o h e = unfold write_bytes in cc
  commit_loop-ok (id ∷ ids) o h e =
      let (m, e1, e2) = write_bytes_split (header id type_sequence_start) (headers ids) o e in
      let first : varint_encode (type_encode id type_sequence_start) o ≡ (m, ret_ok) =
        ap (λ w. w o) (varint_encode-header id type_sequence_start h.0 (omega arith)) ∙ e1 in
      rw first (commit_loop-ok ids m h.1 e2)

  -- When the bytes of the held-back headers can be written, `_commit_pending` writes them and
  -- holds nothing back.
  pub commit_pending-ok :
      (o : Ostream U) {o' : Ostream U}
      → All (λ id. id ≤ id_max) o.pending
      → write_bytes (headers o.pending) o ≡ (o', ret_ok)
      → commit_pending o ≡ (holding [] o', ret_ok)
  unfolding commit_pending
  commit_pending-ok o h e = rw (commit_loop-ok o.pending o h e) refl
