-- ===== src/Istream/RegionScalar.antt =====
-- The states that store scalars, and the region of the destination.
use corelib_c_cpp.Base.{
  ℕ, ◌+◌, ◌*◌, ◌^◌, ◌<◌, ◌≡◌, refl, sym, ap, Bool, true, Option, none, some, All, ltb, ◌==◌,
  if◌then◌else◌, ◌⊎◌, inl, inr, arith,
}
use corelib_c_cpp.Wire.{type_varintarray_unsigned, type_varintarray_signed}
use corelib_c_cpp.Istream.{
  Memory, idle, varint_unsigned, varint_signed, Istream, set_state, fieldtype, size_pred, Outcome,
  next, reject, bad_argument,
}
use corelib_c_cpp.Istream.Safe.{Within, Within-nothing, Within-wider}
use corelib_c_cpp.Istream.Answers.{IsWaiting}
use corelib_c_cpp.Istream.Scalar.{
  store_scalar, store_value, element_end, advance, varint_unsigned_state, varint_signed_state,
}
use corelib_c_cpp.Istream.Region.{
  goes, fails, stops, IsElement, OnTarget, Room, Room-at, next-IsElement, one_element, stored, Safe,
  Holds, Holds-if, Holds-option, idle-Holds,
}

module _ {H : Type 0} (IsHandler : H → Type 0) (a b : ℕ) {U : Type 0} where
  -- The stream at the next element, and the end of one.
  abbrev moved : Istream H U → Istream H U
  moved ctx = record ctx {
    target_ptr = advance ctx.target_len ctx.target_ptr;
    target_count = size_pred ctx.target_count;
  }

  abbrev to_next : Istream H U → Outcome (Istream H U)
  to_next ctx =
      if ltb 0 (size_pred ctx.target_count)
      then next (moved ctx)
      else next (set_state idle (moved ctx))

  module _ (room : b < 2 ^ 64) (mem : Memory) (type : ℕ)
      (array : (type ≡ type_varintarray_unsigned) ⊎ (type ≡ type_varintarray_signed))
      (ctx : Istream H U)
      (scalar : (ctx.decoder.state ≡ varint_unsigned) ⊎ (ctx.decoder.state ≡ varint_signed))
      (h : IsHandler ctx.decoder.handler) (ps : All (IsWaiting IsHandler) ctx.parents) where
    target-Room :
        (t t' : Option ℕ) (opt len count remaining : ℕ)
        → t ≡ t'
        → OnTarget (λ p. IsElement a b p opt len count) t'
        → Room a b ctx.decoder.state t opt len count remaining
    target-Room t t' opt len count remaining q r = elim scalar [
      | inl e ↦ Room-at a b ctx.decoder.state varint_unsigned t t' opt len count remaining e q r
      | inr e ↦ Room-at a b ctx.decoder.state varint_signed t t' opt len count remaining e q r
    ]

    element_end-next :
        (t' : Option ℕ)
        → advance ctx.target_len ctx.target_ptr ≡ t'
        → Within a b mem ctx.mem
        → ((fieldtype ctx.target_opt == type) ≡ true
            → 0 < size_pred ctx.target_count
            → OnTarget
                (λ p. IsElement a b p ctx.target_opt ctx.target_len (size_pred ctx.target_count))
                t')
        → Holds IsHandler a b mem (element_end type ctx)
    unfolding element_end
    element_end-next t' t w r =
        Holds-if IsHandler a b (fieldtype ctx.target_opt == type) (to_next ctx)
          (next (set_state idle ctx))
          (λ q.
            Holds-if IsHandler a b (ltb 0 (size_pred ctx.target_count)) (next (moved ctx))
              (next (set_state idle (moved ctx)))
              (λ q'. goes {ctx = moved ctx} w (record {
                handler = h;
                parents = ps;
                room =
                    target-Room (advance ctx.target_len ctx.target_ptr) t' _ _ _ _ t
                      (r q (ground (arith, q')));
              }))
              (λ q'. idle-Holds IsHandler a b mem (moved ctx) w h ps))
          (λ q. idle-Holds IsHandler a b mem ctx w h ps)

    element_end-some :
        (p : ℕ)
        → ctx.target_ptr ≡ some p
        → 0 < ctx.target_len
        → IsElement a b p ctx.target_opt ctx.target_len ctx.target_count
        → Within a b mem ctx.mem
        → Holds IsHandler a b mem (element_end type ctx)
    element_end-some p t l k w =
        element_end-next (some (p + ctx.target_len)) (ap (advance ctx.target_len) t) w
          (λ q q'. next-IsElement room k (ground (arith, array, q)) l q')

    element_end-none :
        ctx.target_ptr ≡ none
        → Within a b mem ctx.mem
        → Holds IsHandler a b mem (element_end type ctx)
    element_end-none t w = element_end-next none (ap (advance ctx.target_len) t) w (λ q q'. tt)

  module _ (room : b < 2 ^ 64) (type : ℕ)
      (array : (type ≡ type_varintarray_unsigned) ⊎ (type ≡ type_varintarray_signed)) where
    store_value-Holds :
        (ctx : Istream H U) (p : ℕ) (fits : ℕ → ℕ → Bool) (value : ℕ)
        → (ctx.decoder.state ≡ varint_unsigned) ⊎ (ctx.decoder.state ≡ varint_signed)
        → Safe IsHandler a b ctx
        → ctx.target_ptr ≡ some p
        → IsElement a b p ctx.target_opt ctx.target_len ctx.target_count
        → Holds IsHandler a b ctx.mem (store_value ctx p fits type value)
    unfolding store_value
    store_value-Holds ctx p fits value e s t k =
        Holds-option IsHandler a b (store_scalar ctx.mem p ctx.target_len value) (bad_argument ctx)
          _ (λ q. stops (Within-nothing ctx.mem))
          (λ mem' q.
            let put = stored ctx.mem p ctx.target_len value mem' q in
            let w = Within-wider a b k.from (one_element k) put.1 in
            Holds-if IsHandler a b (fits value (ctx.target_len * 8))
              (element_end type (record ctx { mem = mem' })) (reject (record ctx { mem = mem' }))
              (λ q'.
                element_end-some room ctx.mem type array (record ctx { mem = mem' }) e s.handler
                  s.parents p t put.0 k w)
              (λ q'. fails w))

    -- What a state that waits for a scalar has bound.
    IsElement-target :
        (ctx : Istream H U)
        → (ctx.decoder.state ≡ varint_unsigned) ⊎ (ctx.decoder.state ≡ varint_signed)
        → Safe IsHandler a b ctx
        → (t : Option ℕ) → ctx.target_ptr ≡ t
        → OnTarget (λ p. IsElement a b p ctx.target_opt ctx.target_len ctx.target_count) t
    IsElement-target ctx e s t q = elim e [
      | inl e ↦
          Room-at a b varint_unsigned ctx.decoder.state t ctx.target_ptr _ _ _ ctx.fixlen_remaining
            (sym e) (sym q) s.room
      | inr e ↦
          Room-at a b varint_signed ctx.decoder.state t ctx.target_ptr _ _ _ ctx.fixlen_remaining
            (sym e) (sym q) s.room
    ]

    scalar-Holds :
        (ctx : Istream H U) (fits : ℕ → ℕ → Bool) (value : ℕ)
        → (ctx.decoder.state ≡ varint_unsigned) ⊎ (ctx.decoder.state ≡ varint_signed)
        → Safe IsHandler a b ctx
        → Holds IsHandler a b ctx.mem (elim ctx.target_ptr [
          | none ↦ element_end type ctx
          | some p ↦ store_value ctx p fits type value
        ])
    scalar-Holds ctx fits value e s =
        Holds-option IsHandler a b ctx.target_ptr (element_end type ctx) _
          (λ q.
            element_end-none room ctx.mem type array ctx e s.handler s.parents q
              (Within-nothing ctx.mem))
          (λ p q. store_value-Holds ctx p fits value e s q (IsElement-target ctx e s (some p) q))

  pub varint_unsigned_state-Holds :
      (ctx : Istream H U) (value : ℕ)
      → b < 2 ^ 64
      → ctx.decoder.state ≡ varint_unsigned
      → Safe IsHandler a b ctx
      → Holds IsHandler a b ctx.mem (varint_unsigned_state value ctx)
  unfolding varint_unsigned_state
  varint_unsigned_state-Holds ctx value room e s =
      scalar-Holds room type_varintarray_unsigned (inl refl) ctx _ _ (inl e) s

  pub varint_signed_state-Holds :
      (ctx : Istream H U) (value : ℕ)
      → b < 2 ^ 64
      → ctx.decoder.state ≡ varint_signed
      → Safe IsHandler a b ctx
      → Holds IsHandler a b ctx.mem (varint_signed_state value ctx)
  unfolding varint_signed_state
  varint_signed_state-Holds ctx value room e s =
      scalar-Holds room type_varintarray_signed (inr refl) ctx _ _ (inr e) s
