-- ===== src/Istream/Rejected.antt =====
-- Streams that carry the `invalid` flag, through the callbacks and the scalar states.
use corelib_c_cpp.Base.{
  ℕ, ◌≡◌, refl, Bool, true, false, List, [], ◌∷◌, ◌==◌, if◌then◌else◌, bit_and, bit_xor, Option,
  none, some,
}
use corelib_c_cpp.Wire.{type_sequence_start}
use corelib_c_cpp.Istream.{
  Istream, Decoder, fieldtype, Outcome, next, reject, bad_argument, then_next, invalidate,
}
use corelib_c_cpp.Istream.Callback.{
  Call, read_field, read_array, read_sequence, reject_message, Callbacks, apply_call, apply_calls,
  unbind, pop_decoder, verify_bound, dispatch, call_field_callback_masked,
}
use corelib_c_cpp.Istream.Scalar.{
  element_end, store_value, store_scalar, varint_unsigned_state, varint_signed_state,
}

module _ {H U : Type 0} where
  pub record IsInvalid (ctx : Istream H U) : Type 0 where
    pub flag : ctx.invalid ≡ true

  -- The stream goes on only as a rejected one.
  pub data StaysInvalid : Outcome (Istream H U) → Type 0 where
    goes_on : {ctx : Istream H U} → IsInvalid ctx → StaysInvalid (next ctx)
    rejects : {ctx : Istream H U} → StaysInvalid (reject ctx)
    stops : {ctx : Istream H U} → IsInvalid ctx → StaysInvalid (bad_argument ctx)

  pub if-StaysInvalid :
      (b : Bool) (x y : Outcome (Istream H U))
      → StaysInvalid x
      → StaysInvalid y
      → StaysInvalid (if b then x else y)
  if-StaysInvalid true x y p q = p
  if-StaysInvalid false x y p q = q

  pub if-IsInvalid :
      (b : Bool) (x y : Istream H U) → IsInvalid x → IsInvalid y → IsInvalid (if b then x else y)
  if-IsInvalid true x y p q = p
  if-IsInvalid false x y p q = q

  pub Option-StaysInvalid :
      {A : Type 0} (o : Option A) (x : Outcome (Istream H U)) (f : A → Outcome (Istream H U))
      → StaysInvalid x
      → ((a : A) → StaysInvalid (f a))
      → StaysInvalid (elim o [ none ↦ x | some a ↦ f a ])
  Option-StaysInvalid none x f p q = p
  Option-StaysInvalid (some a) x f p q = q a

  pub Option-IsInvalid :
      {A : Type 0} (o : Option A) (x : Istream H U) (f : A → Istream H U)
      → IsInvalid x
      → ((a : A) → IsInvalid (f a))
      → IsInvalid (elim o [ none ↦ x | some a ↦ f a ])
  Option-IsInvalid none x f p q = p
  Option-IsInvalid (some a) x f p q = q a

  pub then_next-StaysInvalid :
      (o : Outcome (Istream H U)) (f : Istream H U → Outcome (Istream H U))
      → StaysInvalid o
      → ((c : Istream H U) → IsInvalid c → StaysInvalid (f c))
      → StaysInvalid (then_next o f)
  then_next-StaysInvalid (next ctx) f (goes_on p) q = q ctx p
  then_next-StaysInvalid (reject ctx) f p q = rejects
  then_next-StaysInvalid (bad_argument ctx) f (stops p) q = stops p

  pub apply_call-IsInvalid :
      (c : Call H) (ctx : Istream H U) → IsInvalid ctx → IsInvalid (apply_call c ctx)
  unfolding apply_call invalidate
  apply_call-IsInvalid (read_field var len opt) ctx e = record { flag = e.flag }
  apply_call-IsInvalid (read_array var count size opt) ctx e = record { flag = e.flag }
  apply_call-IsInvalid (read_sequence handler) ctx e = record { flag = e.flag }
  apply_call-IsInvalid reject_message ctx e = record { flag = refl }

  pub apply_calls-IsInvalid :
      (cs : List (Call H)) (ctx : Istream H U) → IsInvalid ctx → IsInvalid (apply_calls cs ctx)
  unfolding apply_calls
  apply_calls-IsInvalid [] ctx e = e
  apply_calls-IsInvalid (c ∷ cs) ctx e =
      apply_calls-IsInvalid cs (apply_call c ctx) (apply_call-IsInvalid c ctx e)

  pub pop-IsInvalid :
      (ds : List (Decoder H)) (ctx : Istream H U) → IsInvalid ctx → IsInvalid (pop_decoder ds ctx)
  pop-IsInvalid [] ctx e = e
  pop-IsInvalid (d ∷ ds) ctx e = record { flag = e.flag }

  pub verify_bound-IsInvalid :
      (m a b c : ℕ) (ctx : Istream H U) → IsInvalid ctx → IsInvalid (verify_bound m a b c ctx)
  unfolding verify_bound unbind
  verify_bound-IsInvalid m a b c ctx e = Option-IsInvalid ctx.target_ptr _ _ e (λ p.
      if-IsInvalid (bit_and (bit_xor ctx.target_opt a) m == 0) ctx (unbind a b c ctx) e (record {
        flag =
            (if-IsInvalid (fieldtype ctx.target_opt == type_sequence_start) _ _
              (pop-IsInvalid ctx.parents ctx e) e).flag;
      }))

  module _ (call : Callbacks H U) where
    pub callback-IsInvalid :
        (m : ℕ) (ctx : Istream H U)
        → IsInvalid ctx
        → IsInvalid (call_field_callback_masked call m ctx)
    unfolding call_field_callback_masked dispatch
    callback-IsInvalid m ctx e =
        if-IsInvalid _ _ _ e
          (verify_bound-IsInvalid m _ _ _ _ (apply_calls-IsInvalid _ _ (record { flag = e.flag })))

  pub element_end-StaysInvalid :
      (t : ℕ) (ctx : Istream H U) → IsInvalid ctx → StaysInvalid (element_end t ctx)
  unfolding element_end
  element_end-StaysInvalid t ctx e =
      if-StaysInvalid _ _ _
        (if-StaysInvalid _ _ _ (goes_on (record { flag = e.flag }))
          (goes_on (record { flag = e.flag })))
        (goes_on (record { flag = e.flag }))

  pub store_value-StaysInvalid :
      (ctx : Istream H U) (p : ℕ) (fits : ℕ → ℕ → Bool) (t v : ℕ)
      → IsInvalid ctx
      → StaysInvalid (store_value ctx p fits t v)
  unfolding store_value
  store_value-StaysInvalid ctx p fits t v e =
      Option-StaysInvalid (store_scalar ctx.mem p ctx.target_len v) _ _ (stops e) (λ mem.
        if-StaysInvalid _ _ _
          (element_end-StaysInvalid t (record ctx { mem = mem }) (record { flag = e.flag }))
          rejects)

  pub varint_unsigned-StaysInvalid :
      (v : ℕ) (ctx : Istream H U) → IsInvalid ctx → StaysInvalid (varint_unsigned_state v ctx)
  unfolding varint_unsigned_state
  varint_unsigned-StaysInvalid v ctx e =
      Option-StaysInvalid ctx.target_ptr _ _ (element_end-StaysInvalid _ ctx e)
        (λ p. store_value-StaysInvalid ctx p _ _ _ e)

  pub varint_signed-StaysInvalid :
      (v : ℕ) (ctx : Istream H U) → IsInvalid ctx → StaysInvalid (varint_signed_state v ctx)
  unfolding varint_signed_state
  varint_signed-StaysInvalid v ctx e =
      Option-StaysInvalid ctx.target_ptr _ _ (element_end-StaysInvalid _ ctx e)
        (λ p. store_value-StaysInvalid ctx p _ _ _ e)
