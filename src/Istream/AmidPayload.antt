-- ===== src/Istream/AmidPayload.antt =====
-- The payload of a field without a destination.
use corelib_c_cpp.Base.{
  ℕ, suc, ◌+◌, ◌*◌, ◌/◌, ◌^◌, ◌<◌, ◌≤◌, ◌≡◌, ◌⊎◌, refl, ap, ◌∙◌, Bool, true, false, ◌&&◌, Option,
  none, some, List, [], ◌∷◌, ◌++◌, arith, ltb, ◌==◌, if◌then◌else◌, bit_and, bit_or, length,
  Bool-cases, Option-cases, inl, inr,
}
use corelib_c_cpp.Wire.{fixlen_max, type_fixlenarray, fixlentype_string}
use corelib_c_cpp.Istream.{
  State, idle, fixlen_len, fixlen_val, fixlen_raw, Istream, fieldtype, size_pred, Outcome, next,
  then_next,
}
use corelib_c_cpp.Istream.Callback.{Callbacks, call_field_callback, bind_array_count}
use corelib_c_cpp.Istream.Feed.{on_value, on_byte, step, feed_loop}
use corelib_c_cpp.Base.Bits.{bit_and-mask}
use corelib_c_cpp.Istream.Payload.{
  fixlentype, read_fixlen, value_end, raw_end, utf8_ok, fixlen_len_state, payload_state,
  fixlen_accepted, bind_fixlen, check_length, payload_begin, string_start,
}
use corelib_c_cpp.Istream.Amid.{positive, Marks, amid, IsUnread, start, call_declined, Reaches}

module _ {H U : Type 0} (call : Callbacks H U) (strict : Bool) where
  -- The bytes of a payload.
  module _ (c : Istream H U) (state : State) (end : Istream H U → Outcome (Istream H U))
      (reads : (byte : ℕ) (ctx : Istream H U)
        → on_byte call strict state byte ctx ≡ end (read_fixlen ctx byte))
      (goes_on : (n : ℕ) (m : Marks U)
        → end (amid c state (record m { remaining = suc n }))
          ≡ next (amid c state (record m { remaining = suc n }))) where
    read_byte :
        (byte n : ℕ) (m : Marks U)
        → suc n < 2 ^ 64
        → read_fixlen (amid c state (record m { remaining = suc n })) byte
          ≡ amid c state (record m { remaining = n })
    unfolding read_fixlen
    read_byte byte n m h =
        let less : size_pred (suc n) ≡ n = omega arith in rw (positive n, less) refl

    pub payload_bytes :
        (byte : ℕ) (bytes : List ℕ) (m : Marks U) (to : Istream H U)
        → suc (length bytes) < 2 ^ 64
        → end (amid c state (record m { remaining = 0 })) ≡ next to
        → Reaches call strict c
            (byte ∷ bytes)
            (amid c state (record m { remaining = suc (length bytes) }))
            to
    unfolding feed_loop step
    payload_bytes byte [] m to h e rest =
        ap (λ o. then_next o (feed_loop call strict rest))
          (reads byte _ ∙ ap end (read_byte byte 0 m h) ∙ e)
    payload_bytes byte (b ∷ bytes) m to h e rest =
        ap (λ o. then_next o (feed_loop call strict (b ∷ bytes ++ rest)))
          (reads byte _
            ∙ ap end (read_byte byte (suc (length bytes)) m h)
            ∙ goes_on (length bytes) m)
        ∙ payload_bytes b bytes m to (omega arith) e rest

    pub payload :
        (bytes : List ℕ) (m : Marks U) (to : Istream H U)
        → 1 ≤ length bytes
        → length bytes < 2 ^ 64
        → end (amid c state (record m { remaining = 0 })) ≡ next to
        → Reaches call strict c bytes (amid c state (record m { remaining = length bytes })) to
    payload [] m to h k e = absurd (omega arith)
    payload (b ∷ bytes) m to h k e = payload_bytes b bytes m to k e

  pub val_goes_on :
      (c : Istream H U) (n : ℕ) (m : Marks U)
      → value_end (amid c fixlen_val (record m { remaining = suc n }))
        ≡ next (amid c fixlen_val (record m { remaining = suc n }))
  unfolding value_end
  val_goes_on c n m = rw (positive n) refl

  pub raw_goes_on :
      (c : Istream H U) (n : ℕ) (m : Marks U)
      → raw_end strict (amid c fixlen_raw (record m { remaining = suc n }))
        ≡ next (amid c fixlen_raw (record m { remaining = suc n }))
  unfolding raw_end
  raw_goes_on c n m = rw (positive n) refl

  unchecked :
      (c : Istream H U) (state : State) (m : Marks U) → utf8_ok strict (amid c state m) ≡ true
  unfolding utf8_ok
  unchecked c state m = elim (Bool-cases strict) [
    | inl e ↦ elim (Option-cases m.utf8) [
      | inl n ↦ rw (e, n) refl
      | inr (start, n) ↦ rw (e, n) refl
    ]
    | inr e ↦ rw e refl
  ]

  pub raw_ends :
      (c : Istream H U) (m : Marks U)
      → raw_end strict (amid c fixlen_raw (record m { remaining = 0 }))
        ≡ next (amid c idle (record m { remaining = 0 }))
  unfolding raw_end
  raw_ends c m = rw (unchecked c fixlen_raw (record m { remaining = 0 })) refl

  module _ (c : Istream H U) where
    -- Where the payload of a field without a destination begins.
    pub begins_payload :
        (len : ℕ) (state : State) (m : Marks U)
        → (fieldtype m.opt == type_fixlenarray && m.count == 0) ≡ false
        → 1 ≤ len
        → (v : Option ℕ) × (payload_begin strict len (amid c state m)
            ≡ amid c state (record m { remaining = len; utf8 = v }))
    unfolding payload_begin string_start
    begins_payload len state m e h =
        let some_bytes : ltb 0 len ≡ true = ground arith in
        elim (Bool-cases strict) [
          | inl s ↦ (
            if fixlentype m.opt == fixlentype_string && true then none else none,
            rw (s, e, some_bytes) refl,
          )
          | inr s ↦ (m.utf8, rw (s, e, some_bytes) refl)
        ]

    pub no_payload :
        (len : ℕ) (state : State) (m : Marks U)
        → ((fieldtype m.opt == type_fixlenarray && m.count == 0) ≡ true) ⊎ (len ≡ 0)
        → (v : Option ℕ) × (payload_begin strict len (amid c state m)
            ≡ amid c idle (record m { utf8 = v }))
    unfolding payload_begin string_start
    no_payload len state m (inl e) = (m.utf8, rw e refl)
    no_payload len state m (inr z) =
        elim (Bool-cases (fieldtype m.opt == type_fixlenarray && m.count == 0)) [
          | inl e ↦ (m.utf8, rw e refl)
          | inr e ↦ elim (Bool-cases strict) [
            | inl s ↦ (
              if fixlentype m.opt == fixlentype_string && false then none else none,
              rw (s, e, z) refl,
            )
            | inr s ↦ (m.utf8, rw (s, e, z) refl)
          ]
        ]

    bind_fixlen-unbound :
        (state : State) (m : Marks U) → bind_fixlen (amid c state m) ≡ next (amid c state m)
    unfolding bind_fixlen bind_array_count
    bind_fixlen-unbound state m = elim (Bool-cases (fieldtype m.opt == type_fixlenarray)) [
      | inl e ↦ rw e refl
      | inr e ↦ rw e refl
    ]

    -- A length and a subtype that have been accepted.
    pub accepted :
        (type len : ℕ) (state : State) (m : Marks U)
        → IsUnread call c.decoder
        → len ≤ fixlen_max
        → (u : U) × (fixlen_accepted call strict type len (amid c state m)
            ≡ next (
                payload_begin strict len (
                  amid c state
                    (record m { opt = bit_or m.opt (type * 2 ^ 3); len = len; usr = u }))))
    unfolding fixlen_accepted call_field_callback check_length
    accepted type len state m quiet h =
        let asked = record m { opt = bit_or m.opt (type * 2 ^ 3); len = len } in
        let (u, answer) = call_declined call 0x3f c state asked quiet in
        let within : ltb fixlen_max len ≡ false = ground arith in
        let after = amid c state (record asked { usr = u }) in
        (u, rw (within, answer, bind_fixlen-unbound state (record asked { usr = u })) refl)

    pub fixlen_word :
        (type len : ℕ) (state : State) (m : Marks U)
        → type < 8
        → payload_state type len m.opt ≡ some state
        → on_value call strict fixlen_len (len * 8 + type) (amid c fixlen_len m)
          ≡ fixlen_accepted call strict type len (amid c state m)
    unfolding on_value fixlen_len_state
    fixlen_word type len state m h e =
        let low : bit_and (len * 8 + type) 0x07 ≡ type =
          bit_and-mask 3 (len * 8 + type) ∙ omega arith in
        let high : (len * 8 + type) / 8 ≡ len = omega arith in ground (arith, low, high, e)
