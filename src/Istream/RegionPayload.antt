-- ===== src/Istream/RegionPayload.antt =====
-- The beginning of a payload, and the region of the destination.
use corelib_c_cpp.Base.{
  ℕ, ◌<◌, ◌≤◌, ◌≡◌, refl, sym, Bool, true, false, ◌&&◌, Option, none, some, ltb, ◌==◌,
  if◌then◌else◌, ◌⊎◌, inl, inr, Bool-cases, Option-cases, arith,
}
use mathlib.Core.Path.{subst}
use corelib_c_cpp.Wire.{type_fixlen, type_fixlenarray}
use corelib_c_cpp.Istream.{
  Memory, State, idle, fixlen_val, fixlen_raw, Istream, set_state, fieldtype, next,
}
use corelib_c_cpp.Istream.Safe.{Within, is_array}
use corelib_c_cpp.Istream.Payload.{payload_begin, string_start}
use corelib_c_cpp.Istream.Region.{IsPayload, mul_pred, Holds, goes, idle-Holds}
use corelib_c_cpp.Istream.RegionEnd.{payload-Room}
use corelib_c_cpp.Istream.RegionBind.{Stage, target_at}

module _ {H : Type 0} (IsHandler : H → Type 0) (a b : ℕ) {U : Type 0} where
  -- What the state finds once the length is known: room for it at the destination.
  IsPayload-bound :
      {s : State} {type length : ℕ} (ctx : Istream H U) (p : ℕ)
      → Stage IsHandler a b s type (λ len count. length ≤ len) ctx
      → ctx.target_ptr ≡ some p
      → 0 < length
      → (is_array ctx.target_opt ≡ true → 0 < ctx.target_count)
      → IsPayload a b p ctx.target_opt ctx.target_len ctx.target_count length
  IsPayload-bound {length = length} ctx p g q l live =
      let (t, e, fits) = target_at IsHandler a b p g q in
      let upto = t.upto in
      elim (Bool-cases (is_array ctx.target_opt)) [
        | inl k ↦
            let some_left = live k in
            let split = mul_pred ctx.target_count ctx.target_len some_left in
            record {
              from = t.from;
              upto = ground (arith, k, upto, split, fits);
              live = λ j. (some_left, omega (arith, l, fits));
              unread = l;
            }
        | inr k ↦ record {
          from = t.from;
          upto = ground (arith, k, upto, fits);
          live = λ j. absurd (ground (arith, k, j));
          unread = l;
        }
      ]

  payload_next :
      {s : State} {type length : ℕ} (mem : Memory) (ctx : Istream H U) (start : Option ℕ)
      → (s ≡ fixlen_val) ⊎ (s ≡ fixlen_raw)
      → Within a b mem ctx.mem
      → Stage IsHandler a b s type (λ len count. length ≤ len) ctx
      → 0 < length
      → ((p : ℕ) → ctx.target_ptr ≡ some p → is_array ctx.target_opt ≡ true → 0 < ctx.target_count)
      → Holds IsHandler a b mem
          (next (record ctx { utf8_start = start; fixlen_remaining = length }))
  payload_next {s} {type} {length} mem ctx start e w g l live = goes w (record {
    handler = g.handler;
    parents = g.parents;
    room = elim (Option-cases ctx.target_ptr) [
      | inl q ↦
          payload-Room a b ctx.decoder.state ctx.target_ptr none _ _ _ _
            (subst (λ x. (x ≡ fixlen_val) ⊎ (x ≡ fixlen_raw)) (sym g.state) e) q tt
      | inr (p, q) ↦
          payload-Room a b ctx.decoder.state ctx.target_ptr (some p) _ _ _ _
            (subst (λ x. (x ≡ fixlen_val) ⊎ (x ≡ fixlen_raw)) (sym g.state) e) q
            (IsPayload-bound ctx p g q l (live p q))
    ];
  })

  pub next-if :
      {mem : Memory} (test : Bool) (x y : Istream H U)
      → (test ≡ true → Holds IsHandler a b mem (next x))
      → (test ≡ false → Holds IsHandler a b mem (next y))
      → Holds IsHandler a b mem (next (if test then x else y))
  next-if true x y p q = p refl
  next-if false x y p q = q refl

  marked-Holds :
      {s : State} {type : ℕ} (length : ℕ) (mem : Memory) (ctx : Istream H U) (start : Option ℕ)
      → (s ≡ fixlen_val) ⊎ (s ≡ fixlen_raw)
      → (type ≡ type_fixlen) ⊎ (type ≡ type_fixlenarray)
      → Within a b mem ctx.mem
      → Stage IsHandler a b s type (λ len count. length ≤ len) ctx
      → Holds IsHandler a b mem (
          next (
            if fieldtype ctx.target_opt == type_fixlenarray && ctx.target_count == 0
            then set_state idle ctx
            else if ltb 0 length
            then record ctx { utf8_start = start; fixlen_remaining = length }
            else set_state idle (record ctx { utf8_start = start })))
  marked-Holds length mem ctx start e f w g =
      next-if (fieldtype ctx.target_opt == type_fixlenarray && ctx.target_count == 0) _ _
        (λ k. idle-Holds IsHandler a b mem ctx w g.handler g.parents)
        (λ k.
          next-if (ltb 0 length) _ _
            (λ l. payload_next mem ctx start e w g (ground (arith, l)) (λ p q array.
              let same = (target_at IsHandler a b p g q).1 in ground (arith, f, same, array, k)))
            (λ l.
              idle-Holds IsHandler a b mem (record ctx { utf8_start = start }) w g.handler
                g.parents))

  pub payload_begin-Holds :
      {s : State} {type : ℕ} (strict : Bool) (length : ℕ) (mem : Memory) (ctx : Istream H U)
      → (s ≡ fixlen_val) ⊎ (s ≡ fixlen_raw)
      → (type ≡ type_fixlen) ⊎ (type ≡ type_fixlenarray)
      → Within a b mem ctx.mem
      → Stage IsHandler a b s type (λ len count. length ≤ len) ctx
      → Holds IsHandler a b mem (next (payload_begin strict length ctx))
  unfolding payload_begin
  payload_begin-Holds true length mem ctx e f w g =
      marked-Holds length mem ctx (string_start length ctx) e f w g
  payload_begin-Holds false length mem ctx e f w g =
      marked-Holds length mem ctx ctx.utf8_start e f w g
