-- ===== src/Istream/Scalars.antt =====
-- Scalar fields from the encoder's bytes into memory.
use corelib_c_cpp.Base.{
  ℕ, ◌+◌, ◌*◌, ◌/◌, ◌^◌, ◌<◌, ◌≤◌, ◌≡◌, refl, sym, ap, ◌∙◌, Bool, true, false, List, [], ◌∷◌, ◌++◌,
  arith, ltb, leb, ◌==◌, bit_and, bit_xor, append-nil, some,
}
use corelib_c_cpp.Base.Bits.{bit_and-mask}
use corelib_c_cpp.Wire.{Ret, ret_ok, id_max, type_varint_unsigned, type_varint_signed}
use corelib_c_cpp.Wire.Varint.{varint}
use corelib_c_cpp.Wire.Zigzag.{
  zigzag_decode, zigzag, to_ℤ, zigzag_encode-zigzag, zigzag_decode-zigzag_encode,
}
use corelib_c_cpp.Ostream.Commit.{header}
use corelib_c_cpp.Ostream.Content.{unsigned, signed, leaf_bytes}
use corelib_c_cpp.Istream.{
  Memory, State, idle, state_code, varint_unsigned, varint_signed, Istream, init, next, then_next,
  at_message_boundary, set_state,
}
use corelib_c_cpp.Istream.Callback.{
  read_field, Callbacks, apply_call, apply_calls, verify_bound, dispatch, call_field_callback,
  call_field_callback_masked,
}
use corelib_c_cpp.Istream.Scalar.{
  store_bytes, store_scalar, store_value, fits_unsigned_n, fits_signed_n, element_end, normalize,
  varint_unsigned_state, varint_signed_state,
}
use corelib_c_cpp.Istream.Idle.{begin_field, field_type, idle_state}
use corelib_c_cpp.Istream.Feed.{on_value, feed_loop, finish, feed}
use corelib_c_cpp.Istream.Chunks.{feed-going}
use corelib_c_cpp.Istream.Varints.{feed_loop-varint}
use mathlib.Core.Path.{subst}
use corelib_c_cpp.Istream.Stores.{load, outside, store_bytes-outside, load-store_bytes}

module _ {H U : Type 0} (call : Callbacks H U) (strict : Bool) where
  idle_state-header :
      (id type : ℕ) (ctx : Istream H U)
      → id ≤ id_max
      → type < 8
      → ctx.invalid ≡ false
      → idle_state call (id * 8 + type) ctx ≡ field_type call type (begin_field id type ctx)
  unfolding idle_state
  idle_state-header id type ctx h k v =
      let low : bit_and (id * 8 + type) 0x07 ≡ type =
        bit_and-mask 3 (id * 8 + type) ∙ omega arith in
      let high : (id * 8 + type) / 8 ≡ id = omega arith in
      let within : ltb id_max id ≡ false = ground arith in rw (v, low, high, within) refl

  pub on_value-idle :
      (state : State) (value : ℕ) (ctx : Istream H U)
      → state ≡ idle
      → on_value call strict state value ctx ≡ idle_state call value ctx
  on_value-idle state value ctx e =
      ap (λ t. on_value call strict t value ctx) e ∙ unfold on_value in refl

  -- Between fields, the header of a field leads to the switch on its type.
  pub feed_loop-header :
      (id type : ℕ) (bytes : List ℕ) (ctx : Istream H U)
      → id ≤ id_max
      → type < 8
      → ctx.decoder.state ≡ idle
      → ctx.varint_value ≡ 0
      → ctx.varint_shift ≡ 0
      → ctx.invalid ≡ false
      → feed_loop call strict (header id type ++ bytes) ctx
        ≡ then_next (field_type call type (begin_field id type ctx)) (feed_loop call strict bytes)
  feed_loop-header id type bytes ctx h k e p q v =
      let begins : leb (state_code ctx.decoder.state) 4 ≡ true = ap (λ t. leb (state_code t) 4) e in
      feed_loop-varint call strict (id * 8 + type) bytes ctx (omega arith) begins p q
      ∙ ap (λ o. then_next o (feed_loop call strict bytes))
          (on_value-idle ctx.decoder.state _ ctx e ∙ idle_state-header id type ctx h k v)

module _ {H U : Type 0} where
  -- The callback's answer to a field: it binds the eight bytes at `p`, and leaves memory as it is.
  abbrev pub Binds : Callbacks H U → H → Memory → U → U → ℕ → ℕ → ℕ → Type 0
  Binds call handler mem usr usr' id p type =
      call handler id 0 0 type mem usr
      ≡ record { calls = read_field p 8 type ∷ []; mem = mem; usr = usr' }

  -- The stream after that, in a state, with a memory.
  abbrev bound : H → U → ℕ → ℕ → State → ℕ → Memory → Istream H U
  bound handler usr id p state type after = record (init handler after usr) {
    decoder = record { handler = handler; state = state; skip_depth = 0 };
    id = id;
    target_ptr = some p;
    target_len = 8;
    target_opt = type;
  }

-- A new stream whose callback binds eight bytes at `p` to the field.
module _ {H U : Type 0} (call : Callbacks H U) (strict : Bool) (handler : H) (mem : Memory)
    (usr usr' : U) (id p : ℕ) where
  nothing_left : (ctx : Istream H U) → feed_loop call strict [] ctx ≡ next ctx
  unfolding feed_loop
  nothing_left ctx = refl

  callback-bound :
      (state : State) (type : ℕ)
      → Binds call handler mem usr usr' id p type
      → (bit_and (bit_xor type type) 0x3f == 0) ≡ true
      → call_field_callback call (set_state state (begin_field id type (init handler mem usr)))
        ≡ bound handler usr' id p state type mem
  unfolding call_field_callback call_field_callback_masked verify_bound dispatch apply_calls
      apply_call begin_field init
  callback-bound state type b same = rw b (rw same refl)

  unsigned_stored :
      (v : ℕ)
      → varint_unsigned_state v (bound handler usr' id p varint_unsigned type_varint_unsigned mem)
        ≡ next (bound handler usr' id p idle type_varint_unsigned (store_bytes mem p 8 v))
  unfolding varint_unsigned_state store_value store_scalar fits_unsigned_n element_end normalize
      init
  unsigned_stored v = refl

  signed_stored :
      (u : ℕ)
      → varint_signed_state u (bound handler usr' id p varint_signed type_varint_signed mem)
        ≡ next (
            bound handler usr' id p idle type_varint_signed (store_bytes mem p 8 (zigzag_decode u)))
  unfolding varint_signed_state store_value store_scalar fits_signed_n element_end init
  signed_stored u = refl

  closes :
      (type : ℕ) (after : Memory)
      → finish (next (bound handler usr' id p idle type after))
        ≡ (ret_ok, bound handler usr' id p idle type after)
  unfolding finish at_message_boundary init
  closes type after = refl

  module _ (h : id ≤ id_max) where
    -- The header, the callback, the value.
    scalar_fed :
        (type v : ℕ) (state : State) (after : Memory)
        → type < 8
        → v < 2 ^ 64
        → leb (state_code state) 4 ≡ true
        → field_type call type (begin_field id type (init handler mem usr))
          ≡ next (bound handler usr' id p state type mem)
        → on_value call strict state v (bound handler usr' id p state type mem)
          ≡ next (bound handler usr' id p idle type after)
        → feed call strict (header id type ++ varint v) (init handler mem usr)
          ≡ (ret_ok, bound handler usr' id p idle type after)
    scalar_fed type v state after k l c begins stores =
        feed-going call strict (header id type ++ varint v) (init handler mem usr)
          (unfold init in refl)
        ∙ ap finish (
            feed_loop-header call strict id type (varint v) (init handler mem usr) h k
              (unfold init in refl) (unfold init in refl) (unfold init in refl)
              (unfold init in refl)
            ∙ ap (λ o. then_next o (feed_loop call strict (varint v))) begins
            ∙ ap (λ bytes. feed_loop call strict bytes (bound handler usr' id p state type mem))
                (sym (append-nil (varint v)))
            ∙ feed_loop-varint call strict v [] (bound handler usr' id p state type mem) l c
                (unfold init in refl) (unfold init in refl)
            ∙ ap (λ o. then_next o (feed_loop call strict [])) stores
            ∙ nothing_left (bound handler usr' id p idle type after))
        ∙ closes type after

    begins :
        (type : ℕ) (state : State)
        → Binds call handler mem usr usr' id p type
        → (bit_and (bit_xor type type) 0x3f == 0) ≡ true
        → field_type call type (begin_field id type (init handler mem usr))
          ≡ next (
              call_field_callback call
                (set_state state (begin_field id type (init handler mem usr))))
        → field_type call type (begin_field id type (init handler mem usr))
          ≡ next (bound handler usr' id p state type mem)
    begins type state b same switch = switch ∙ ap next (callback-bound state type b same)

    feed-unsigned_state :
        (v : ℕ)
        → v < 2 ^ 64
        → Binds call handler mem usr usr' id p type_varint_unsigned
        → feed call strict (leaf_bytes id (unsigned v)) (init handler mem usr)
          ≡ (ret_ok, bound handler usr' id p idle type_varint_unsigned (store_bytes mem p 8 v))
    feed-unsigned_state v l b =
        unfold leaf_bytes in
        scalar_fed type_varint_unsigned v varint_unsigned _ (omega arith) l refl
          (begins type_varint_unsigned varint_unsigned b refl (unfold field_type in refl))
          (unfold on_value in unsigned_stored v)

    feed-signed_state :
        (v : ℕ)
        → v < 2 ^ 64
        → Binds call handler mem usr usr' id p type_varint_signed
        → feed call strict (leaf_bytes id (signed v)) (init handler mem usr)
          ≡ (ret_ok, bound handler usr' id p idle type_varint_signed (store_bytes mem p 8 v))
    feed-signed_state v l b =
        let z = zigzag_encode-zigzag v l in
        let back : zigzag_decode (zigzag (to_ℤ v)) ≡ v =
          ap zigzag_decode (sym (z.0)) ∙ zigzag_decode-zigzag_encode v l in
        let small : zigzag (to_ℤ v) < 2 ^ 64 = omega arith in
        unfold leaf_bytes in
        scalar_fed type_varint_signed (zigzag (to_ℤ v)) varint_signed _ (omega arith) small refl
          (begins type_varint_signed varint_signed b refl (unfold field_type in refl))
          (unfold on_value in
            signed_stored (zigzag (to_ℤ v))
            ∙ ap
                (λ t.
                  next (bound handler usr' id p idle type_varint_signed (store_bytes mem p 8 t)))
                back)

module _ {H U : Type 0} where
  -- SOFAB_RET_OK, with `v` in the eight bytes at `p`, and all other memory as it was.
  abbrev pub Received : ℕ → ℕ → Memory → U → Ret × Istream H U → Type 0
  Received v p mem usr r =
      (r.0 ≡ ret_ok)
      × (load r.1.mem p 8 ≡ v)
      × (outside p 8 r.1.mem ≡ outside p 8 mem)
      × (r.1.usr ≡ usr)

  stored-Received :
      (handler : H) (mem : Memory) (usr : U) (id p v type : ℕ)
      → v < 2 ^ 64
      → Received v p mem usr (ret_ok, bound handler usr id p idle type (store_bytes mem p 8 v))
  unfolding init
  stored-Received handler mem usr id p v type h =
      (refl, load-store_bytes mem 8 p v (omega arith), store_bytes-outside mem 8 p v, refl)

  -- Fed to a new stream, the bytes of an unsigned field end with SOFAB_RET_OK, and its value
  -- stands in the eight bytes that the callback bound, and no other byte of memory has changed.
  -- The callback answers the field by one read of eight bytes, and leaves memory as it is.
  pub feed-unsigned :
      (call : Callbacks H U) (strict : Bool) (handler : H) (mem : Memory) (usr usr' : U)
      (id p v : ℕ)
      → id ≤ id_max
      → v < 2 ^ 64
      → Binds call handler mem usr usr' id p type_varint_unsigned
      → Received v p mem usr' (feed call strict (leaf_bytes id (unsigned v)) (init handler mem usr))
  feed-unsigned call strict handler mem usr usr' id p v h l b =
      subst (Received v p mem usr')
        (sym (feed-unsigned_state call strict handler mem usr usr' id p h v l b))
        (stored-Received handler mem usr' id p v type_varint_unsigned l)

  -- Fed to a new stream, the bytes of a signed field end with SOFAB_RET_OK, and its two's complement pattern
  -- stands in the eight bytes that the callback bound, and no other byte of memory has changed.
  -- The callback answers the field by one read of eight bytes, and leaves memory as it is.
  pub feed-signed :
      (call : Callbacks H U) (strict : Bool) (handler : H) (mem : Memory) (usr usr' : U)
      (id p v : ℕ)
      → id ≤ id_max
      → v < 2 ^ 64
      → Binds call handler mem usr usr' id p type_varint_signed
      → Received v p mem usr' (feed call strict (leaf_bytes id (signed v)) (init handler mem usr))
  feed-signed call strict handler mem usr usr' id p v h l b =
      subst (Received v p mem usr')
        (sym (feed-signed_state call strict handler mem usr usr' id p h v l b))
        (stored-Received handler mem usr' id p v type_varint_signed l)
