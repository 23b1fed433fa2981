-- ===== src/Istream/AmidFixlen.antt =====
-- Scalars and fields of fixed length without a destination.
use corelib_c_cpp.Base.{
  ℕ, suc, ◌+◌, ◌*◌, ◌^◌, ◌<◌, ◌≤◌, ◌≡◌, ◌⊎◌, refl, sym, ap, ◌∙◌, Bool, true, false, ◌&&◌, Option,
  some, List, [], ◌∷◌, ◌++◌, arith, ◌==◌, bit_or, length, inl, inr,
}
use corelib_c_cpp.Wire.{id_max, fixlen_max, type_fixlenarray}
use corelib_c_cpp.Wire.Varint.{varint}
use corelib_c_cpp.Ostream.Commit.{header}
use corelib_c_cpp.Istream.{
  State, idle, varint_unsigned, varint_signed, fixlen_len, fixlen_val, fixlen_raw, Istream,
  fieldtype, Outcome, next,
}
use corelib_c_cpp.Istream.Callback.{Callbacks, call_field_callback}
use corelib_c_cpp.Istream.Scalar.{element_end, varint_unsigned_state, varint_signed_state}
use corelib_c_cpp.Istream.Idle.{field_type}
use corelib_c_cpp.Istream.Feed.{on_value, on_byte}
use mathlib.Core.Path.{subst}
use corelib_c_cpp.Istream.Payload.{
  read_fixlen, value_end, raw_end, fixlen_val_state, fixlen_raw_state, payload_state,
}
use corelib_c_cpp.Istream.Amid.{
  IsPayload, Marks, amid, Between, IsUnread, start, call_declined, Reaches, amid_varint,
  amid_header, Skips, Reaches-append, three,
}
use corelib_c_cpp.Istream.AmidPayload.{
  payload_bytes, val_goes_on, raw_goes_on, raw_ends, begins_payload, no_payload, accepted,
  fixlen_word,
}

module _ {H U : Type 0} (call : Callbacks H U) (strict : Bool) where
  -- A state that reads a payload call strict: what it does at the end of it, and in the middle.
  pub record Reader (state : State) : Type 0 where
    pub end : Istream H U → Outcome (Istream H U)
    pub reads :
        (byte : ℕ) (ctx : Istream H U)
        → on_byte call strict state byte ctx ≡ end (read_fixlen ctx byte)
    pub goes_on :
        (c : Istream H U) (n : ℕ) (m : Marks U)
        → end (amid c state (record m { remaining = suc n }))
          ≡ next (amid c state (record m { remaining = suc n }))
    pub ends :
        (c : Istream H U) (m : Marks U)
        → (fieldtype m.opt == type_fixlenarray) ≡ false
        → end (amid c state (record m { remaining = 0 }))
          ≡ next (amid c idle (record m { remaining = 0 }))

  raw_Reader : Reader fixlen_raw
  unfolding on_byte fixlen_raw_state
  raw_Reader = record {
    end = raw_end strict;
    reads = λ byte ctx. refl;
    goes_on = raw_goes_on call strict;
    ends = λ c m e. raw_ends call strict c m;
  }

  val_ends :
      (c : Istream H U) (m : Marks U)
      → (fieldtype m.opt == type_fixlenarray) ≡ false
      → value_end (amid c fixlen_val (record m { remaining = 0 }))
        ≡ next (amid c idle (record m { remaining = 0 }))
  unfolding value_end
  val_ends c m e = rw e refl

  pub val_reads :
      (byte : ℕ) (ctx : Istream H U)
      → on_byte call strict fixlen_val byte ctx ≡ value_end (read_fixlen ctx byte)
  unfolding on_byte fixlen_val_state
  val_reads byte ctx = refl

  val_Reader : Reader fixlen_val
  val_Reader = record {
    end = value_end;
    reads = val_reads;
    goes_on = val_goes_on call strict;
    ends = val_ends;
  }

  module _ (c : Istream H U) (b : Between c) (quiet : IsUnread call c.decoder) where
    -- The word of a field with bytes behind it, and of one without.
    pub reaches_payload :
        (type len : ℕ) (state : State) (m : Marks U)
        → type < 8
        → len ≤ fixlen_max
        → payload_state type len m.opt ≡ some state
        → (fieldtype (bit_or m.opt (type * 2 ^ 3)) == type_fixlenarray && m.count == 0) ≡ false
        → 1 ≤ len
        → (u : U) × (v : Option ℕ) × Reaches call strict c
            (varint (len * 8 + type))
            (amid c fixlen_len m)
            (amid c state (record m {
              opt = bit_or m.opt (type * 2 ^ 3);
              len = len;
              remaining = len;
              utf8 = v;
              usr = u;
            }))
    reaches_payload type len state m h k e plain some_bytes =
        let (u, a) = accepted call strict c type len state m quiet k in
        let (v, p) =
          begins_payload call strict c len state
            (record m { opt = bit_or m.opt (type * 2 ^ 3); len = len; usr = u }) plain some_bytes in
        (
          u,
          v,
          amid_varint call strict c fixlen_len m (len * 8 + type) state _ (omega arith) refl
              (fixlen_word call strict c type len state m h e ∙ a ∙ ap next p),
        )

    pub reaches_end :
        (type len : ℕ) (state : State) (m : Marks U)
        → type < 8
        → len ≤ fixlen_max
        → payload_state type len m.opt ≡ some state
        → ((fieldtype (bit_or m.opt (type * 2 ^ 3)) == type_fixlenarray && m.count == 0) ≡ true)
          ⊎ (len ≡ 0)
        → (m' : Marks U) × Reaches call strict c
            (varint (len * 8 + type))
            (amid c fixlen_len m)
            (amid c idle m')
    reaches_end type len state m h k e no_bytes =
        let (u, a) = accepted call strict c type len state m quiet k in
        let m1 : Marks U = record m { opt = bit_or m.opt (type * 2 ^ 3); len = len; usr = u } in
        let (v, p) = no_payload call strict c len state m1 no_bytes in
        (
          record m1 { utf8 = v },
          amid_varint call strict c fixlen_len m (len * 8 + type) idle _ (omega arith) refl
              (fixlen_word call strict c type len state m h e ∙ a ∙ ap next p),
        )

    reaches_length :
        (id : ℕ)
        → id ≤ id_max
        → Reaches call strict c (header id 2) c (amid c fixlen_len (start c id 2))
    unfolding field_type
    reaches_length id h =
        amid_header call strict c id 2 fixlen_len (start c id 2) b h (omega arith) refl

    Skips-payload :
        (id type : ℕ) (bytes : List ℕ) (state : State)
        → Reader state
        → id ≤ id_max
        → type < 8
        → length bytes ≤ fixlen_max
        → payload_state type (length bytes) 2 ≡ some state
        → (fieldtype (bit_or 2 (type * 2 ^ 3)) == type_fixlenarray) ≡ false
        → Skips call strict c (header id 2 ++ varint (length bytes * 8 + type) ++ bytes)
    Skips-payload id type [] state reader h k small e plain =
        let (m, rest) = reaches_end type 0 state (start c id 2) k small e (inr refl) in
        (
          m,
          three call strict (header id 2) (varint (0 * 8 + type)) [] c
              (amid c fixlen_len (start c id 2)) (amid c idle m) _ (reaches_length id h) rest
              (λ more. refl),
        )
    Skips-payload id type (x ∷ bytes) state reader h k small e plain =
        let len = suc (length bytes) in
        let (u, v, word) =
          reaches_payload type len state (start c id 2) k small e (rw plain refl) (omega arith) in
        let m : Marks U = record (start c id 2) {
          opt = bit_or 2 (type * 2 ^ 3);
          len = len;
          utf8 = v;
          usr = u;
        } in
        (
          record m { remaining = 0 },
          three call strict (header id 2) (varint (len * 8 + type)) (x ∷ bytes) c
              (amid c fixlen_len (start c id 2)) (amid c state (record m { remaining = len }))
              (amid c idle (record m { remaining = 0 })) (reaches_length id h) word
              (payload_bytes call strict c state reader.end reader.reads (reader.goes_on c) x bytes
                m _ (omega arith) (reader.ends c m plain)),
        )

    -- A field of fixed length: a floating-point number, text or bytes.
    pub Skips-fixlen :
        (id type : ℕ) (bytes : List ℕ)
        → id ≤ id_max
        → length bytes ≤ fixlen_max
        → IsPayload type (length bytes)
        → Skips call strict c (header id 2 ++ varint (length bytes * 8 + type) ++ bytes)
    unfolding payload_state
    Skips-fixlen id type bytes h small (inl (t, e)) =
        subst (λ t. Skips call strict c (header id 2 ++ varint (length bytes * 8 + t) ++ bytes))
          (sym t)
          (Skips-payload id 0 bytes fixlen_val val_Reader h (omega arith) small (rw e refl) refl)
    Skips-fixlen id type bytes h small (inr (inl (t, e))) =
        subst (λ t. Skips call strict c (header id 2 ++ varint (length bytes * 8 + t) ++ bytes))
          (sym t)
          (Skips-payload id 1 bytes fixlen_val val_Reader h (omega arith) small (rw e refl) refl)
    Skips-fixlen id type bytes h small (inr (inr (inl t))) =
        subst (λ t. Skips call strict c (header id 2 ++ varint (length bytes * 8 + t) ++ bytes))
          (sym t) (Skips-payload id 2 bytes fixlen_raw raw_Reader h (omega arith) small refl refl)
    Skips-fixlen id type bytes h small (inr (inr (inr t))) =
        subst (λ t. Skips call strict c (header id 2 ++ varint (length bytes * 8 + t) ++ bytes))
          (sym t) (Skips-payload id 3 bytes fixlen_raw raw_Reader h (omega arith) small refl refl)

    pub Skips-unsigned :
        (id v : ℕ) → id ≤ id_max → v < 2 ^ 64 → Skips call strict c (header id 0 ++ varint v)
    unfolding field_type on_value varint_unsigned_state element_end call_field_callback
    Skips-unsigned id v h k =
        let (u, asked) = call_declined call 0x3f c varint_unsigned (start c id 0) quiet in
        let m = record (start c id 0) { usr = u } in
        (
          m,
          Reaches-append call strict c (header id 0) (varint v) c (amid c varint_unsigned m) _
              (amid_header call strict c id 0 varint_unsigned m b h (omega arith) (ap next asked))
              (amid_varint call strict c varint_unsigned m v idle m k refl refl),
        )

    pub Skips-signed :
        (id z : ℕ) → id ≤ id_max → z < 2 ^ 64 → Skips call strict c (header id 1 ++ varint z)
    unfolding field_type on_value varint_signed_state element_end call_field_callback
    Skips-signed id z h k =
        let (u, asked) = call_declined call 0x3f c varint_signed (start c id 1) quiet in
        let m = record (start c id 1) { usr = u } in
        (
          m,
          Reaches-append call strict c (header id 1) (varint z) c (amid c varint_signed m) _
              (amid_header call strict c id 1 varint_signed m b h (omega arith) (ap next asked))
              (amid_varint call strict c varint_signed m z idle m k refl refl),
        )
