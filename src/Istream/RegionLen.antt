-- ===== src/Istream/RegionLen.antt =====
-- The states of `sofab_istream_feed` for lengths and counts, and the region of the destination.
use corelib_c_cpp.Base.{
  ℕ, ◌*◌, ◌/◌, ◌^◌, ◌<◌, ◌≡◌, refl, sym, ap, ◌∙◌, Bool, true, false, ◌||◌, Option, none, some, All,
  ltb, ◌==◌, if◌then◌else◌, bit_and, bit_or, ◌⊎◌, inl, inr, arith,
}
use mathlib.Core.Path.{subst}
use corelib_c_cpp.Base.Bits.{bit_and-mask, bit_or-low}
use corelib_c_cpp.Wire.{
  type_varintarray_unsigned, type_varintarray_signed, type_fixlen, type_fixlenarray, fixlen_max,
  array_max,
}
use corelib_c_cpp.Istream.{
  Memory, State, varint_unsigned, varint_signed, fixlen_len, array_count, fixlen_val, fixlen_raw,
  Istream, set_state, fieldtype, Outcome, next, reject, bad_argument,
}
use corelib_c_cpp.Istream.Callback.{
  Callbacks, call_field_callback, call_field_callback_masked, bind_array_count,
}
use corelib_c_cpp.Istream.Safe.{Within, Within-nothing, is_array, Keeps}
use corelib_c_cpp.Istream.Answers.{IsWaiting, callback-Taken}
use corelib_c_cpp.Istream.Payload.{
  payload_state, bind_fixlen, check_length, fixlen_accepted, fixlen_len_state, array_state,
  array_empty, array_begin, array_count_state,
}
use corelib_c_cpp.Istream.Region.{
  IsElement, OnTarget, OnTarget-map, Room-at, Safe, Leads, Holds, goes, fails, stops, Holds-if,
  Holds-option, Holds-then, idle-Holds,
}
use corelib_c_cpp.Istream.RegionBind.{
  Stage, Stage-of, target_at, Stage-any, bind_array_count-Stage, check_length-Stage,
}
use corelib_c_cpp.Istream.RegionPayload.{payload_begin-Holds, next-if}

-- The subtype does not change the field type.
subtype-fieldtype : (opt n : ℕ) → fieldtype (bit_or opt (n * 2 ^ 3)) ≡ fieldtype opt
subtype-fieldtype opt n =
    bit_and-mask 3 (bit_or opt (n * 2 ^ 3))
    ∙ bit_or-low opt (n * 2 ^ 3) (omega arith)
    ∙ sym (bit_and-mask 3 opt)

abbrev ReadsPayload : Option State → Type 0
ReadsPayload none = Unit
ReadsPayload (some s) = (s ≡ fixlen_val) ⊎ (s ≡ fixlen_raw)

ReadsPayload-if :
    (test : Bool) (x y : Option State)
    → ReadsPayload x
    → ReadsPayload y
    → ReadsPayload (if test then x else y)
ReadsPayload-if true x y p q = p
ReadsPayload-if false x y p q = q

payload_state-ReadsPayload : (type length opt : ℕ) → ReadsPayload (payload_state type length opt)
unfolding payload_state
payload_state-ReadsPayload type length opt =
    ReadsPayload-if (type == 0) _ _ (ReadsPayload-if (length == 4) _ _ (inl refl) tt) (
      ReadsPayload-if (type == 1) _ _ (ReadsPayload-if (length == 8) _ _ (inl refl) tt) (
        ReadsPayload-if (type == 2 || type == 3) _ _
          (ReadsPayload-if (fieldtype opt == type_fixlenarray) _ _ tt (inr refl)) tt))

module _ {H : Type 0} (IsHandler : H → Type 0) (a b : ℕ) {U : Type 0} where
  any_count :
      {s : State} {type : ℕ} {Q : ℕ → ℕ → Type 0} {mem : Memory} (o : Outcome (Istream H U))
      → Leads IsHandler a b (Stage IsHandler a b s type Q) mem o
      → Leads IsHandler a b (Stage IsHandler a b s type (λ len count. Unit)) mem o
  any_count (next ctx) (goes w g) = goes w (Stage-any IsHandler a b ctx g)
  any_count (reject ctx) (fails w) = fails w
  any_count (bad_argument ctx) (stops w) = stops w

  bind_fixlen-Stage :
      (s : State) (type : ℕ) (mem : Memory) (ctx : Istream H U)
      → Within a b mem ctx.mem
      → Stage IsHandler a b s type (λ len count. Unit) ctx
      → Leads IsHandler a b (Stage IsHandler a b s type (λ len count. Unit)) mem (bind_fixlen ctx)
  unfolding bind_fixlen
  bind_fixlen-Stage s type mem ctx w g =
      Holds-if IsHandler a b (fieldtype ctx.target_opt == type_fixlenarray)
        (bind_array_count ctx.array_wire_count ctx) (next ctx)
        (λ k. any_count (bind_array_count ctx.array_wire_count ctx) (
          bind_array_count-Stage IsHandler a b s type ctx.array_wire_count mem ctx
            (λ p q. let same = (target_at IsHandler a b p g q).1 in ground (arith, k, same)) w g))
        (λ k. goes w g)

  module _ (call : Callbacks H U) (keeps : Keeps IsHandler a b call) (room : b < 2 ^ 64) where
    fixlen_accepted-Holds :
        (strict : Bool) (type length : ℕ) (s : State) (ctx : Istream H U)
        → (s ≡ fixlen_val) ⊎ (s ≡ fixlen_raw)
        → ctx.decoder.state ≡ s
        → IsHandler ctx.decoder.handler
        → All (IsWaiting IsHandler) ctx.parents
        → ctx.target_ptr ≡ none
        → (fieldtype ctx.target_opt ≡ type_fixlen) ⊎ (fieldtype ctx.target_opt ≡ type_fixlenarray)
        → Holds IsHandler a b ctx.mem (fixlen_accepted call strict type length ctx)
    unfolding fixlen_accepted call_field_callback
    fixlen_accepted-Holds strict type length s ctx f e h ps t k =
        let asked : Istream H U = record ctx {
          target_opt = bit_or ctx.target_opt (type * 2 ^ 3);
          target_len = length;
        } in
        let taken = callback-Taken IsHandler a b call 0x3f asked keeps (inl refl) h t in
        let wire = fieldtype ctx.target_opt in
        let g =
          Stage-of IsHandler a b s wire asked _ taken.found e ps
            (subtype-fieldtype ctx.target_opt type) (ground (arith, k)) in
        Holds-if IsHandler a b (ltb fixlen_max length) (reject ctx) _
          (λ q. fails (Within-nothing ctx.mem))
          (λ q.
            Holds-then IsHandler a b _ _ (bind_fixlen-Stage s wire ctx.mem _ taken.kept g) (λ c w g.
              Holds-then IsHandler a b (check_length length c) _
                (check_length-Stage IsHandler a b s wire length ctx.mem c room w g)
                (λ c w g. payload_begin-Holds IsHandler a b strict length ctx.mem c f k w g)))

    pub fixlen_len_state-Holds :
        (strict : Bool) (decoded : ℕ) (ctx : Istream H U)
        → ctx.decoder.state ≡ fixlen_len
        → Safe IsHandler a b ctx
        → Holds IsHandler a b ctx.mem (fixlen_len_state call strict decoded ctx)
    unfolding fixlen_len_state
    fixlen_len_state-Holds strict decoded ctx e g =
        let (t, k) =
          Room-at a b fixlen_len ctx.decoder.state ctx.target_ptr ctx.target_ptr ctx.target_opt
            ctx.target_len ctx.target_count ctx.fixlen_remaining (sym e) refl g.room in
        Holds-option IsHandler a b
          (payload_state (bit_and decoded 0x07) (decoded / 2 ^ 3) ctx.target_opt) (reject ctx) _
          (λ q. fails (Within-nothing ctx.mem))
          (λ s q.
            fixlen_accepted-Holds strict _ _ s (set_state s ctx)
              (subst ReadsPayload q (payload_state-ReadsPayload _ _ _)) refl g.handler g.parents t
              k)

    IsElement-room :
        {s : State} {type count : ℕ} (ctx : Istream H U)
        → 0 < count
        → Stage IsHandler a b s type (λ len n. n ≡ count) ctx
        → OnTarget
            (λ p. IsElement a b p ctx.target_opt ctx.target_len ctx.target_count)
            ctx.target_ptr
    IsElement-room ctx l g =
        subst (OnTarget (λ p. IsElement a b p ctx.target_opt ctx.target_len ctx.target_count))
          (sym g.here)
          (OnTarget-map _ _ g.target
            (λ p t.
              let same = t.2 in
              record { from = t.0.from; upto = t.0.upto; live = λ k. omega (arith, same, l) })
            g.bound)

    array_state-fixlen :
        (type : ℕ) (ctx : Istream H U)
        → type ≡ type_fixlenarray
        → array_state call type ctx ≡ set_state fixlen_len ctx
    unfolding array_state
    array_state-fixlen type ctx e = ap (λ t. array_state call t ctx) e

    -- An array of varints, whose destination has been bound.
    array_state-Holds :
        (type count : ℕ) (mem : Memory) (s : State) (ctx : Istream H U)
        → (type ≡ type_varintarray_unsigned) ⊎ (type ≡ type_varintarray_signed)
        → 0 < count
        → Within a b mem ctx.mem
        → Stage IsHandler a b s type (λ len n. n ≡ count) ctx
        → Holds IsHandler a b mem (next (array_state call type ctx))
    unfolding array_state
    array_state-Holds type count mem s ctx k l w g =
        next-if IsHandler a b (type == type_varintarray_unsigned) (set_state varint_unsigned ctx) _
          (λ q.
            goes w
              (record { handler = g.handler; parents = g.parents; room = IsElement-room ctx l g }))
          (λ q.
            next-if IsHandler a b (type == type_varintarray_signed) (set_state varint_signed ctx) _
              (λ q'. goes w (record {
                handler = g.handler;
                parents = g.parents;
                room = IsElement-room ctx l g;
              }))
              (λ q'. absurd (ground (arith, k, q, q'))))

    array_empty-Holds :
        (ctx : Istream H U)
        → IsHandler ctx.decoder.handler
        → All (IsWaiting IsHandler) ctx.parents
        → ctx.target_ptr ≡ none
        → is_array ctx.target_opt ≡ true
        → Holds IsHandler a b ctx.mem (array_empty call (fieldtype ctx.target_opt) ctx)
    unfolding array_empty
    array_empty-Holds ctx h ps t k =
        let type = fieldtype ctx.target_opt in
        let taken = callback-Taken IsHandler a b call 0x07 ctx keeps (inr refl) h t in
        let g =
          Stage-of IsHandler a b ctx.decoder.state type ctx _ taken.found refl ps refl
            (ground (arith, k)) in
        Holds-if IsHandler a b (type == type_fixlenarray) (next (set_state fixlen_len ctx)) _
          (λ q.
            goes (Within-nothing ctx.mem)
              (record { handler = h; parents = ps; room = (t, inr (ground (arith, q))) }))
          (λ q.
            Holds-then IsHandler a b (bind_array_count 0 (call_field_callback_masked call 0x07 ctx))
              _
              (bind_array_count-Stage IsHandler a b ctx.decoder.state type 0 ctx.mem _
                (λ p j. ground (arith, k)) taken.kept g)
              (λ c w g. idle-Holds IsHandler a b ctx.mem c w g.handler g.parents))

    array_begin-Holds :
        (count : ℕ) (ctx : Istream H U)
        → 0 < count
        → IsHandler ctx.decoder.handler
        → All (IsWaiting IsHandler) ctx.parents
        → ctx.target_ptr ≡ none
        → is_array ctx.target_opt ≡ true
        → Holds IsHandler a b ctx.mem (array_begin call (fieldtype ctx.target_opt) count ctx)
    unfolding array_begin call_field_callback array_state
    array_begin-Holds count ctx l h ps t k =
        let type = fieldtype ctx.target_opt in
        let taken = callback-Taken IsHandler a b call 0x3f ctx keeps (inl refl) h t in
        let g =
          Stage-of IsHandler a b ctx.decoder.state type ctx _ taken.found refl ps refl
            (ground (arith, k)) in
        Holds-if IsHandler a b (type == type_fixlenarray) (next (array_state call type ctx)) _
          (λ q.
            subst (λ c. Holds IsHandler a b ctx.mem (next c))
              (sym (array_state-fixlen type ctx (ground (arith, q))))
              (goes (Within-nothing ctx.mem)
                (record { handler = h; parents = ps; room = (t, inr (ground (arith, q))) })))
          (λ q.
            Holds-then IsHandler a b
              (bind_array_count count (call_field_callback_masked call 0x3f ctx)) _
              (bind_array_count-Stage IsHandler a b ctx.decoder.state type count ctx.mem _
                (λ p j. ground (arith, k)) taken.kept g)
              (λ c w g.
                array_state-Holds type count ctx.mem ctx.decoder.state c (ground (arith, k, q)) l w
                  g))

    pub array_count_state-Holds :
        (count : ℕ) (ctx : Istream H U)
        → ctx.decoder.state ≡ array_count
        → Safe IsHandler a b ctx
        → Holds IsHandler a b ctx.mem (array_count_state call count ctx)
    unfolding array_count_state
    array_count_state-Holds count ctx e g =
        let (t, k) =
          Room-at a b array_count ctx.decoder.state ctx.target_ptr ctx.target_ptr ctx.target_opt
            ctx.target_len ctx.target_count ctx.fixlen_remaining (sym e) refl g.room in
        let seeded : Istream H U = record ctx { target_count = count; array_wire_count = count } in
        Holds-if IsHandler a b (ltb array_max count) (reject ctx) _
          (λ q. fails (Within-nothing ctx.mem))
          (λ q.
            Holds-if IsHandler a b (count == 0) (array_empty call (fieldtype ctx.target_opt) seeded)
              _ (λ q'. array_empty-Holds seeded g.handler g.parents t k)
              (λ q'. array_begin-Holds count seeded (ground (arith, q')) g.handler g.parents t k))
