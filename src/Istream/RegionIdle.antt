-- ===== src/Istream/RegionIdle.antt =====
-- The header of a field, and the region of the destination.
use corelib_c_cpp.Base.{
  ℕ, ◌/◌, ◌^◌, ◌<◌, ◌≡◌, refl, sym, ap, ◌∙◌, Bool, true, Option, none, some, List, [], ◌∷◌, All,
  ltb, ◌==◌, bit_and, ◌⊎◌, inl, inr, arith,
}
use mathlib.Core.Path.{subst}
use corelib_c_cpp.Base.Bits.{bit_and-mask}
use corelib_c_cpp.Wire.{id_max, max_depth, type_sequence_start}
use corelib_c_cpp.Istream.{
  Memory, State, idle, varint_unsigned, varint_signed, fixlen_len, array_count, fixlen_val,
  fixlen_raw, Decoder, Istream, set_state, fieldtype, u8_suc, next, reject,
}
use corelib_c_cpp.Istream.Callback.{Callbacks, call_field_callback}
use corelib_c_cpp.Istream.Safe.{Within, Within-nothing, is_plain, Keeps}
use corelib_c_cpp.Istream.Answers.{IsWaiting, unbound, bound_to, entered, callback-Taken}
use corelib_c_cpp.Istream.Idle.{
  begin_field, set_skip_depth, opened, closed, sequence_pop, sequence_end, sequence_start,
  field_type, idle_state,
}
use corelib_c_cpp.Istream.Feed.{on_value}
use corelib_c_cpp.Istream.Region.{
  IsElement, OnTarget-map, Room, Room-at, Safe, Holds, goes, fails, Holds-if,
}
use corelib_c_cpp.Istream.RegionScalar.{varint_unsigned_state-Holds, varint_signed_state-Holds}
use corelib_c_cpp.Istream.RegionBind.{Stage, Stage-of}
use corelib_c_cpp.Istream.RegionLen.{fixlen_len_state-Holds, array_count_state-Holds}

module _ {H : Type 0} (IsHandler : H → Type 0) (a b : ℕ) {U : Type 0} where
  sequence_pop-Holds :
      (ds : List (Decoder H)) (ctx : Istream H U)
      → All (IsWaiting IsHandler) ds
      → Holds IsHandler a b ctx.mem (sequence_pop ds ctx)
  unfolding sequence_pop closed
  sequence_pop-Holds [] ctx ps = fails (Within-nothing ctx.mem)
  sequence_pop-Holds (d ∷ ds) ctx ps = goes (Within-nothing ctx.mem) (record {
    handler = ps.0.0;
    parents = ps.1;
    room = Room-at a b d.state idle ctx.target_ptr ctx.target_ptr _ _ _ _ ps.0.1 refl tt;
  })

  sequence_end-Holds :
      (ctx : Istream H U)
      → ctx.decoder.state ≡ idle
      → IsHandler ctx.decoder.handler
      → All (IsWaiting IsHandler) ctx.parents
      → Holds IsHandler a b ctx.mem (sequence_end ctx)
  unfolding sequence_end closed
  sequence_end-Holds ctx e h ps =
      Holds-if IsHandler a b (ltb 0 ctx.decoder.skip_depth) _ (sequence_pop ctx.parents ctx)
        (λ q. goes (Within-nothing ctx.mem) (record {
          handler = h;
          parents = ps;
          room = Room-at a b ctx.decoder.state idle ctx.target_ptr ctx.target_ptr _ _ _ _ e refl tt;
        }))
        (λ q. sequence_pop-Holds ctx.parents ctx ps)

  -- A stream whose active decoder is between two fields.
  waiting-Holds :
      (mem : Memory) (ctx : Istream H U)
      → ctx.decoder.state ≡ idle
      → IsHandler ctx.decoder.handler
      → All (IsWaiting IsHandler) ctx.parents
      → Within a b mem ctx.mem
      → Holds IsHandler a b mem (next ctx)
  waiting-Holds mem ctx e h ps w = goes w (record {
    handler = h;
    parents = ps;
    room = Room-at a b ctx.decoder.state idle ctx.target_ptr ctx.target_ptr _ _ _ _ e refl tt;
  })

  option-Holds :
      {mem : Memory} (t : Option ℕ) (x y : Istream H U)
      → Holds IsHandler a b mem (next x)
      → Holds IsHandler a b mem (next y)
      → Holds IsHandler a b mem (next (elim t [ none ↦ x | some p ↦ y ]))
  option-Holds none x y p q = p
  option-Holds (some v) x y p q = q

  opened-Holds :
      (mem : Memory) (ctx : Istream H U)
      → ctx.decoder.state ≡ idle
      → IsHandler ctx.decoder.handler
      → All (IsWaiting IsHandler) ctx.parents
      → Within a b mem ctx.mem
      → Holds IsHandler a b mem (next (opened ctx))
  unfolding opened
  opened-Holds mem ctx e h ps w =
      let deeper : Istream H U = record ctx { depth = u8_suc ctx.depth } in
      option-Holds ctx.target_ptr (set_skip_depth (u8_suc ctx.decoder.skip_depth) deeper) deeper
        (waiting-Holds mem (set_skip_depth (u8_suc ctx.decoder.skip_depth) deeper) e h ps w)
        (waiting-Holds mem deeper e h ps w)

  plain-Room :
      (s : State) (type : ℕ) (ctx : Istream H U)
      → (s ≡ varint_unsigned) ⊎ (s ≡ varint_signed)
      → type < 3
      → Stage IsHandler a b s type (λ len count. Unit) ctx
      → Room a b ctx.decoder.state ctx.target_ptr ctx.target_opt ctx.target_len ctx.target_count
          ctx.fixlen_remaining
  plain-Room s type ctx k l g =
      let bound =
        OnTarget-map _ (λ p. IsElement a b p ctx.target_opt ctx.target_len ctx.target_count)
          g.target
          (λ p t.
            let same = t.1 in
            record {
              from = t.0.from;
              upto = t.0.upto;
              live = λ array. absurd (ground (arith, array, same, l));
            })
          g.bound in
      elim k [
        | inl k ↦
            Room-at a b ctx.decoder.state varint_unsigned ctx.target_ptr g.target _ _ _ _
              (g.state ∙ k) g.here bound
        | inr k ↦
            Room-at a b ctx.decoder.state varint_signed ctx.target_ptr g.target _ _ _ _
              (g.state ∙ k) g.here bound
      ]

  module _ (call : Callbacks H U) (keeps : Keeps IsHandler a b call) (room : b < 2 ^ 64) where
    sequence_start-Holds :
        (ctx : Istream H U)
        → ctx.decoder.state ≡ idle
        → IsHandler ctx.decoder.handler
        → All (IsWaiting IsHandler) ctx.parents
        → ctx.target_ptr ≡ none
        → fieldtype ctx.target_opt ≡ type_sequence_start
        → Holds IsHandler a b ctx.mem (sequence_start call ctx)
    unfolding sequence_start call_field_callback
    sequence_start-Holds ctx e h ps t k =
        let taken = callback-Taken IsHandler a b call 0x3f ctx keeps (inl refl) h t in
        Holds-if IsHandler a b (ctx.depth == max_depth) (reject ctx) _
          (λ q. fails (Within-nothing ctx.mem))
          (λ q. elim taken.found [
            | unbound d q' h' t' ↦
                opened-Holds ctx.mem _ (d ∙ e) h' (subst (All (IsWaiting IsHandler)) (sym q') ps)
                  taken.kept
            | bound_to d q' h' p t' g f ↦ let kind = g.kind in absurd (ground (arith, k, f, kind))
            | entered d q' h' f ↦
                opened-Holds ctx.mem _ d h'
                  (subst (All (IsWaiting IsHandler)) (sym q') ((h, e), ps)) taken.kept
          ])

    scalar_begin-Holds :
        (s : State) (ctx : Istream H U)
        → (s ≡ varint_unsigned) ⊎ (s ≡ varint_signed)
        → ctx.decoder.state ≡ s
        → IsHandler ctx.decoder.handler
        → All (IsWaiting IsHandler) ctx.parents
        → ctx.target_ptr ≡ none
        → is_plain ctx.target_opt ≡ true
        → Holds IsHandler a b ctx.mem (next (call_field_callback call ctx))
    unfolding call_field_callback
    scalar_begin-Holds s ctx k e h ps t plain =
        let taken = callback-Taken IsHandler a b call 0x3f ctx keeps (inl refl) h t in
        let g =
          Stage-of IsHandler a b s (fieldtype ctx.target_opt) ctx _ taken.found e ps refl
            (ground (arith, plain)) in
        goes taken.kept (record {
          handler = g.handler;
          parents = g.parents;
          room = plain-Room s _ _ k (ground (arith, plain)) g;
        })

    field_type-Holds :
        (type : ℕ) (ctx : Istream H U)
        → type < 8
        → ctx.decoder.state ≡ idle
        → IsHandler ctx.decoder.handler
        → All (IsWaiting IsHandler) ctx.parents
        → ctx.target_ptr ≡ none
        → ctx.target_opt ≡ type
        → Holds IsHandler a b ctx.mem (field_type call type ctx)
    unfolding field_type
    field_type-Holds type ctx l e h ps t o =
        let same : fieldtype ctx.target_opt ≡ type =
          ap fieldtype o ∙ bit_and-mask 3 type ∙ omega (arith, l) in
        Holds-if IsHandler a b (type == 0)
          (next (call_field_callback call (set_state varint_unsigned ctx))) _
          (λ q.
            scalar_begin-Holds varint_unsigned (set_state varint_unsigned ctx) (inl refl) refl h ps
              t (ground (arith, same, q)))
          (λ q0.
            Holds-if IsHandler a b (type == 1)
              (next (call_field_callback call (set_state varint_signed ctx))) _
              (λ q.
                scalar_begin-Holds varint_signed (set_state varint_signed ctx) (inr refl) refl h ps
                  t (ground (arith, same, q)))
              (λ q1.
                Holds-if IsHandler a b (type == 2) (next (set_state fixlen_len ctx)) _
                  (λ q. goes (Within-nothing ctx.mem) (record {
                    handler = h;
                    parents = ps;
                    room = (t, inl (ground (arith, same, q)));
                  }))
                  (λ q2.
                    Holds-if IsHandler a b (ltb type 6) (next (set_state array_count ctx)) _
                      (λ q. goes (Within-nothing ctx.mem) (record {
                        handler = h;
                        parents = ps;
                        room = (t, ground (arith, same, q, q0, q1, q2));
                      }))
                      (λ q5.
                        Holds-if IsHandler a b (type == 6) (sequence_start call ctx)
                          (sequence_end ctx)
                          (λ q. sequence_start-Holds ctx e h ps t (ground (arith, same, q)))
                          (λ q. sequence_end-Holds ctx e h ps)))))

    idle_state-Holds :
        (decoded : ℕ) (ctx : Istream H U)
        → ctx.decoder.state ≡ idle
        → Safe IsHandler a b ctx
        → Holds IsHandler a b ctx.mem (idle_state call decoded ctx)
    unfolding idle_state begin_field
    idle_state-Holds decoded ctx e g =
        let type = bit_and decoded 0x07 in
        let small : type < 8 = omega (arith, bit_and-mask 3 decoded) in
        Holds-if IsHandler a b ctx.invalid (reject ctx) _ (λ q. fails (Within-nothing ctx.mem))
          (λ q.
            Holds-if IsHandler a b (ltb id_max (decoded / 2 ^ 3)) (reject ctx) _
              (λ q. fails (Within-nothing ctx.mem))
              (λ q.
                field_type-Holds type (begin_field (decoded / 2 ^ 3) type ctx) small e g.handler
                  g.parents refl refl))

    module _ (strict : Bool) where
      pub on_value-Holds :
          (s : State) (value : ℕ) (ctx : Istream H U)
          → ctx.decoder.state ≡ s
          → Safe IsHandler a b ctx
          → Holds IsHandler a b ctx.mem (on_value call strict s value ctx)
      unfolding on_value
      on_value-Holds idle value ctx e g = idle_state-Holds value ctx e g
      on_value-Holds varint_unsigned value ctx e g =
          varint_unsigned_state-Holds IsHandler a b ctx value room e g
      on_value-Holds varint_signed value ctx e g =
          varint_signed_state-Holds IsHandler a b ctx value room e g
      on_value-Holds fixlen_len value ctx e g =
          fixlen_len_state-Holds IsHandler a b call keeps room strict value ctx e g
      on_value-Holds array_count value ctx e g =
          array_count_state-Holds IsHandler a b call keeps room value ctx e g
      on_value-Holds fixlen_val value ctx e g = goes (Within-nothing ctx.mem) g
      on_value-Holds fixlen_raw value ctx e g = goes (Within-nothing ctx.mem) g
