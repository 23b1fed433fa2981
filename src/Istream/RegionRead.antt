-- ===== src/Istream/RegionRead.antt =====
-- The states of `sofab_istream_feed` that read a payload, and the region of the destination.
use corelib_c_cpp.Base.{
  ℕ, ◌+◌, ◌^◌, ◌<◌, ◌≡◌, sym, ap, ◌∙◌, Bool, Option, none, some, All, ◌⊎◌, inl, inr, Option-cases,
  arith,
}
use mathlib.Core.Path.{subst}
use corelib_c_cpp.Istream.{write, fixlen_val, fixlen_raw, Istream}
use corelib_c_cpp.Istream.Safe.{Within, Within-nothing}
use corelib_c_cpp.Istream.Answers.{IsWaiting}
use corelib_c_cpp.Istream.Payload.{value_end, fixlen_val_state, raw_end, fixlen_raw_state}
use corelib_c_cpp.Istream.Region.{IsPayload, OnTarget, Room-at, Safe, Holds}
use corelib_c_cpp.Istream.RegionEnd.{
  IsRest, IsRead, read_fixlen-IsRead, IsRest-payload, value_end-Holds, raw_end-Holds,
}

module _ {H : Type 0} (IsHandler : H → Type 0) (a b : ℕ) {U : Type 0} where
  -- The stream behind a byte of its payload.
  module _ (ctx after : Istream H U) (byte : ℕ) (room : b < 2 ^ 64) (s : Safe IsHandler a b ctx)
      (r : IsRead byte ctx after)
      (e : (ctx.decoder.state ≡ fixlen_val) ⊎ (ctx.decoder.state ≡ fixlen_raw)) where
    IsPayload-target :
        (t : Option ℕ)
        → ctx.target_ptr ≡ t
        → OnTarget
            (λ p.
              IsPayload a b p ctx.target_opt ctx.target_len ctx.target_count ctx.fixlen_remaining)
            t
    IsPayload-target t q = elim e [
      | inl e ↦
          Room-at a b fixlen_val ctx.decoder.state t ctx.target_ptr _ _ _ _ (sym e) (sym q) s.room
      | inr e ↦
          Room-at a b fixlen_raw ctx.decoder.state t ctx.target_ptr _ _ _ _ (sym e) (sym q) s.room
    ]

    written_one :
        (p : ℕ)
        → IsPayload a b p ctx.target_opt ctx.target_len ctx.target_count ctx.fixlen_remaining
        → Within a b ctx.mem (write ctx.mem p byte)
    written_one p k =
        let from = k.from in
        let upto = k.upto in
        let unread = k.unread in record { kept = λ q o. ground (arith, from, upto, unread, o) }

    IsRest-of :
        (p : ℕ)
        → IsPayload a b p ctx.target_opt ctx.target_len ctx.target_count ctx.fixlen_remaining
        → IsRest a b
            (p + 1)
            after.target_opt
            after.target_len
            after.target_count
            after.fixlen_remaining
    IsRest-of p k = rw (r.same_opt, r.same_len, r.same_count, r.left) (IsRest-payload room k)

    abbrev Ready : Option ℕ → Type 0
    Ready t =
        (after.target_ptr ≡ t)
        × Within a b ctx.mem after.mem
        × OnTarget
            (λ p.
              IsRest a b p after.target_opt after.target_len after.target_count
                after.fixlen_remaining)
            t

    ready : (t : Option ℕ) × Ready t
    ready = elim (Option-cases ctx.target_ptr) [
      | inl q ↦
          let nothing = r.nothing q in
          (
            none,
            (nothing.0, subst (Within a b ctx.mem) (sym nothing.1) (Within-nothing ctx.mem), tt),
          )
      | inr (p, q) ↦
          let k = IsPayload-target (some p) q in
          let something = r.something p q k.unread in
          (
            some (p + 1),
            (
              something.0,
              subst (Within a b ctx.mem) (sym something.1) (written_one p k),
              IsRest-of p k,
            ),
          )
    ]

    same_state : (after.decoder.state ≡ fixlen_val) ⊎ (after.decoder.state ≡ fixlen_raw)
    same_state = elim e [
      | inl e ↦ inl (ap (λ d. d.state) r.same_decoder ∙ e)
      | inr e ↦ inr (ap (λ d. d.state) r.same_decoder ∙ e)
    ]

    same_handler : IsHandler after.decoder.handler
    same_handler = subst (λ d. IsHandler d.handler) (sym r.same_decoder) s.handler

    same-IsWaiting : All (IsWaiting IsHandler) after.parents
    same-IsWaiting = subst (All (IsWaiting IsHandler)) (sym r.same_parents) s.parents

    value-Holds : Holds IsHandler a b ctx.mem (value_end after)
    value-Holds =
        let (t, (q, w, k)) = ready in
        value_end-Holds IsHandler a b ctx.mem after same_state same_handler same-IsWaiting w t q k
          room

    raw-Holds : (strict : Bool) → Holds IsHandler a b ctx.mem (raw_end strict after)
    raw-Holds strict =
        let (t, (q, w, k)) = ready in
        raw_end-Holds IsHandler a b ctx.mem after same_state same_handler same-IsWaiting w t q k
          strict

  pub fixlen_val_state-Holds :
      (ctx : Istream H U) (byte : ℕ)
      → b < 2 ^ 64
      → ctx.decoder.state ≡ fixlen_val
      → Safe IsHandler a b ctx
      → Holds IsHandler a b ctx.mem (fixlen_val_state byte ctx)
  unfolding fixlen_val_state
  fixlen_val_state-Holds ctx byte room e s =
      value-Holds ctx _ byte room s (read_fixlen-IsRead ctx byte) (inl e)

  pub fixlen_raw_state-Holds :
      (strict : Bool) (ctx : Istream H U) (byte : ℕ)
      → b < 2 ^ 64
      → ctx.decoder.state ≡ fixlen_raw
      → Safe IsHandler a b ctx
      → Holds IsHandler a b ctx.mem (fixlen_raw_state strict byte ctx)
  unfolding fixlen_raw_state
  fixlen_raw_state-Holds strict ctx byte room e s =
      raw-Holds ctx _ byte room s (read_fixlen-IsRead ctx byte) (inr e) strict
