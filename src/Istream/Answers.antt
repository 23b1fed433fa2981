-- ===== src/Istream/Answers.antt =====
-- What `_call_field_callback_masked` leaves of a callback that keeps to a region of memory.
use corelib_c_cpp.Base.{
  ℕ, ◌+◌, ◌*◌, ◌%◌, ◌<◌, ◌≤◌, ◌≡◌, refl, sym, ◌∙◌, Bool, true, false, ◌||◌, none, some, List, [],
  ◌∷◌, ◌==◌, if◌then◌else◌, bit_and, bit_xor, ◌⊎◌, inl, inr, Bool-cases, arith,
}
use mathlib.Core.Path.{subst}
use corelib_c_cpp.Base.Bits.{bit_and-mask, bit_xor-low}
use corelib_c_cpp.Wire.{type_sequence_start}
use corelib_c_cpp.Istream.{Memory, idle, Decoder, Istream, fieldtype, invalidate}
use corelib_c_cpp.Istream.Callback.{
  Call, read_field, read_array, read_sequence, reject_message, Callbacks, apply_call, apply_calls,
  unbind, verify_bound, dispatch, call_field_callback_masked,
}
use corelib_c_cpp.Istream.Safe.{
  Within, Within-nothing, is_plain, is_array, terminated, IsCall, AreCalls, no_call, one_call,
  Keeps,
}

-- Option words that agree under one of the masks have the same field type.
same_type :
    (mask a b : ℕ)
    → (mask ≡ 0x3f) ⊎ (mask ≡ 0x07)
    → (bit_and (bit_xor a b) mask == 0) ≡ true
    → fieldtype a ≡ fieldtype b
same_type mask a b m e =
    let wide : bit_and (bit_xor a b) 0x3f ≡ bit_xor a b % 64 = bit_and-mask 6 (bit_xor a b) in
    let narrow : bit_and (bit_xor a b) 0x07 ≡ bit_xor a b % 8 = bit_and-mask 3 (bit_xor a b) in
    let zeros : bit_xor a b % 8 ≡ 0 = elim m [
      | inl k ↦
          let none : (bit_and (bit_xor a b) 0x3f == 0) ≡ true =
            subst (λ n. (bit_and (bit_xor a b) n == 0) ≡ true) k e in
          ground (arith, wide, none)
      | inr k ↦
          let none : (bit_and (bit_xor a b) 0x07 == 0) ≡ true =
            subst (λ n. (bit_and (bit_xor a b) n == 0) ≡ true) k e in
          ground (arith, narrow, none)
    ] in
    bit_and-mask 3 a ∙ bit_xor-low a b zeros ∙ sym (bit_and-mask 3 b)

-- The bytes that are bound, for a value or for an array.
abbrev pub span_of : ℕ → ℕ → ℕ → ℕ
span_of opt len count = if is_array opt then count * len else len

pub record IsTarget (a b p opt len count : ℕ) : Type 0 where
  pub from : a ≤ p
  pub upto : p + span_of opt len count ≤ b
  pub kind : (is_plain opt || is_array opt) ≡ true
  pub sized : is_plain opt ≡ true → 0 < len
  pub raw : is_array opt ≡ true → terminated opt ≡ false

-- Decoders between two fields.
abbrev pub IsWaiting : {H : Type 0} → (H → Type 0) → Decoder H → Type 0
IsWaiting IsHandler d = IsHandler d.handler × (d.state ≡ idle)

module _ {H : Type 0} (IsHandler : H → Type 0) (a b : ℕ) where
  module _ {U : Type 0} where
    -- The outcomes of the call, no destination, one of the type on the wire, or a new decoder.
    pub data Bound (before after : Istream H U) : Type 0 where
      unbound :
          after.decoder.state ≡ before.decoder.state
          → after.parents ≡ before.parents
          → IsHandler after.decoder.handler
          → after.target_ptr ≡ none
          → Bound before after
      bound_to :
          after.decoder.state ≡ before.decoder.state
          → after.parents ≡ before.parents
          → IsHandler after.decoder.handler
          → (p : ℕ) → after.target_ptr ≡ some p
          → IsTarget a b p after.target_opt after.target_len after.target_count
          → fieldtype after.target_opt ≡ fieldtype before.target_opt
          → Bound before after
      entered :
          after.decoder.state ≡ idle
          → after.parents ≡ before.decoder ∷ before.parents
          → IsHandler after.decoder.handler
          → fieldtype before.target_opt ≡ type_sequence_start
          → Bound before after

    pub record Answered (before after : Istream H U) : Type 0 where
      pub same_mem : after.mem ≡ before.mem
      pub outcome : Bound before after

    -- A read that is undone.
    undone :
        (len count opt : ℕ) (before after : Istream H U)
        → IsHandler after.decoder.handler
        → after.mem ≡ before.mem
        → after.decoder.state ≡ before.decoder.state
        → after.parents ≡ before.parents
        → (fieldtype after.target_opt == type_sequence_start) ≡ false
        → Answered before (unbind opt len count after)
    unfolding unbind
    undone len count opt before after h m d ps e =
        rw (e, unbind) (record { same_mem = m; outcome = unbound d ps h refl })

    -- The check of what one call has bound.
    verified :
        (mask : ℕ) (c : Call H) (ctx : Istream H U)
        → (mask ≡ 0x3f) ⊎ (mask ≡ 0x07)
        → IsHandler ctx.decoder.handler
        → ctx.target_ptr ≡ none
        → IsCall IsHandler a b c
        → Answered ctx
            (verify_bound mask ctx.target_opt ctx.target_len ctx.target_count (apply_call c ctx))
    unfolding verify_bound apply_call unbind invalidate
    verified mask (read_field p len opt) ctx m h t k =
        elim (Bool-cases (bit_and (bit_xor opt ctx.target_opt) mask == 0)) [
          | inl e ↦ rw e (record {
            same_mem = refl;
            outcome =
                bound_to refl refl h p refl
                  (record {
                    from = k.0;
                    upto = ground (arith, k.1, k.3);
                    kind = ground (arith, k.3);
                    sized = λ q. k.2;
                    raw = λ q. ground (arith, k.3, q);
                  })
                  (same_type mask opt ctx.target_opt m e);
          })
          | inr e ↦ rw e (undone _ _ _ ctx _ h refl refl refl (ground (arith, k.3)))
        ]
    verified mask (read_array none count size opt) ctx m h t k = record {
      same_mem = refl;
      outcome = unbound refl refl h refl;
    }
    verified mask (read_array (some p) count size opt) ctx m h t k =
        elim (Bool-cases (bit_and (bit_xor opt ctx.target_opt) mask == 0)) [
          | inl e ↦ rw e (record {
            same_mem = refl;
            outcome =
                bound_to refl refl h p refl
                  (record {
                    from = k.0;
                    upto = ground (arith, k.1, k.2);
                    kind = ground (arith, k.2);
                    sized = λ q. ground (arith, k.2, q);
                    raw = λ q. k.3;
                  })
                  (same_type mask opt ctx.target_opt m e);
          })
          | inr e ↦ rw e (undone _ _ _ ctx _ h refl refl refl (ground (arith, k.2)))
        ]
    verified mask (read_sequence handler) ctx m h t k =
        elim (Bool-cases (bit_and (bit_xor type_sequence_start ctx.target_opt) mask == 0)) [
          | inl e ↦ rw e (record {
            same_mem = refl;
            outcome =
                entered refl refl k (sym (same_type mask type_sequence_start ctx.target_opt m e));
          })
          | inr e ↦ rw e (record { same_mem = refl; outcome = unbound refl refl h refl })
        ]
    verified mask reject_message ctx m h t k =
        rw t (record { same_mem = refl; outcome = unbound refl refl h refl })

    answered :
        (mask : ℕ) (calls : List (Call H)) (ctx : Istream H U)
        → (mask ≡ 0x3f) ⊎ (mask ≡ 0x07)
        → IsHandler ctx.decoder.handler
        → ctx.target_ptr ≡ none
        → AreCalls IsHandler a b calls
        → Answered ctx (
            verify_bound mask ctx.target_opt ctx.target_len ctx.target_count
              (apply_calls calls ctx))
    unfolding apply_calls verify_bound
    answered mask [] ctx m h t no_call =
        rw t (record { same_mem = refl; outcome = unbound refl refl h refl })
    answered mask (c ∷ []) ctx m h t (one_call k) = verified mask c ctx m h t k
    answered mask (c ∷ d ∷ calls) ctx m h t k = elim k [ ]

    pub record Taken (before after : Istream H U) : Type 0 where
      pub kept : Within a b before.mem after.mem
      pub found : Bound before after

    taken :
        (before after : Istream H U) (mem : Memory) (usr : U)
        → Within a b before.mem mem
        → Answered (record before { mem = mem; usr = usr }) after
        → Taken before after
    taken before after mem usr w r = record {
      kept = subst (λ m. Within a b before.mem m) (sym r.same_mem) w;
      found = elim r.outcome [
        | unbound d ps h t ↦ unbound d ps h t
        | bound_to d ps h p t k f ↦ bound_to d ps h p t k f
        | entered d ps h f ↦ entered d ps h f
      ];
    }

    if-Taken :
        (test : Bool) (before x y : Istream H U)
        → Taken before x
        → Taken before y
        → Taken before (if test then x else y)
    if-Taken true before x y p q = p
    if-Taken false before x y p q = q

    -- A field that no destination is bound to yet.
    pub callback-Taken :
        (call : Callbacks H U) (mask : ℕ) (ctx : Istream H U)
        → Keeps IsHandler a b call
        → (mask ≡ 0x3f) ⊎ (mask ≡ 0x07)
        → IsHandler ctx.decoder.handler
        → ctx.target_ptr ≡ none
        → Taken ctx (call_field_callback_masked call mask ctx)
    unfolding call_field_callback_masked dispatch
    callback-Taken call mask ctx k m h t =
        let r =
          call ctx.decoder.handler ctx.id ctx.target_len ctx.target_count ctx.target_opt ctx.mem
            ctx.usr in
        let reply =
          k ctx.decoder.handler ctx.id ctx.target_len ctx.target_count ctx.target_opt ctx.mem
            ctx.usr h in
        if-Taken _ ctx ctx _
          (record { kept = Within-nothing ctx.mem; found = unbound refl refl h t })
          (taken ctx _ r.mem r.usr reply.written (
            answered mask r.calls (record ctx { mem = r.mem; usr = r.usr }) m h t reply.safe_calls))
