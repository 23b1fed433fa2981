-- ===== src/Istream/Amid.antt =====
-- A field without a destination, between its header and its end.
use corelib_c_cpp.Base.{
  ℕ, suc, ◌^◌, ◌<◌, ◌≤◌, ◌≡◌, ◌⊎◌, refl, ap, ◌∙◌, Bool, true, false, Option, none, List, [], ◌++◌,
  arith, ltb, leb, if◌then◌else◌, append_assoc, Bool-cases, inl, inr,
}
use corelib_c_cpp.Wire.{id_max}
use corelib_c_cpp.Wire.Varint.{varint}
use corelib_c_cpp.Ostream.Commit.{header}
use corelib_c_cpp.Istream.{
  Memory, State, idle, varint_unsigned, varint_signed, state_code, Decoder, Istream, next,
  then_next,
}
use corelib_c_cpp.Istream.Callback.{
  Callbacks, apply_calls, verify_bound, dispatch, call_field_callback_masked,
}
use corelib_c_cpp.Istream.Idle.{begin_field, field_type}
use corelib_c_cpp.Istream.Feed.{on_value, feed_loop}
use corelib_c_cpp.Wire.{type_varintarray_unsigned, type_varintarray_signed}
use corelib_c_cpp.Istream.Varints.{feed_loop-varint}
use corelib_c_cpp.Istream.Scalars.{feed_loop-header}

pub positive : (n : ℕ) → ltb 0 (suc n) ≡ true
positive n = ground arith

-- The subtypes and lengths of fixed-length fields.
abbrev pub IsPayload : ℕ → ℕ → Type 0
IsPayload type len =
    ((type ≡ 0) × (len ≡ 4)) ⊎ (((type ≡ 1) × (len ≡ 8)) ⊎ ((type ≡ 2) ⊎ (type ≡ 3)))

-- The subtypes and element sizes of floating-point arrays.
abbrev pub IsFloat : ℕ → ℕ → Type 0
IsFloat type size = ((type ≡ 0) × (size ≡ 4)) ⊎ ((type ≡ 1) × (size ≡ 8))

-- The wire type and the state of an integer array.
abbrev pub array_type : Bool → ℕ
array_type is_signed = if is_signed then type_varintarray_signed else type_varintarray_unsigned

abbrev pub element_state : Bool → State
element_state is_signed = if is_signed then varint_signed else varint_unsigned

-- What a field leaves in the stream that the next field does not look at.
pub record Marks (U : Type 0) : Type 0 where
  pub id : ℕ
  pub opt : ℕ
  pub len : ℕ
  pub count : ℕ
  pub remaining : ℕ
  pub wire_count : ℕ
  pub utf8 : Option ℕ
  pub usr : U

module _ {H U : Type 0} where
  -- The stream `c` in the middle of a field that has no destination.
  abbrev pub amid : Istream H U → State → Marks U → Istream H U
  amid c state m = record c {
    varint_value = 0;
    varint_shift = 0;
    target_ptr = none;
    utf8_start = m.utf8;
    decoder = record (c.decoder) { state = state };
    fixlen_remaining = m.remaining;
    target_len = m.len;
    target_count = m.count;
    array_wire_count = m.wire_count;
    id = m.id;
    target_opt = m.opt;
    invalid = false;
    usr = m.usr;
  }

  -- Between two fields of a message that has not been rejected.
  pub record Between (c : Istream H U) : Type 0 where
    pub waits : c.decoder.state ≡ idle
    pub no_value : c.varint_value ≡ 0
    pub no_shift : c.varint_shift ≡ 0
    pub not_invalid : c.invalid ≡ false

  -- A handler that declines every field: no call, and memory as it is.
  abbrev pub Declines : Callbacks H U → H → Type 0
  Declines call handler =
      (id size count opt : ℕ) (mem : Memory) (usr : U)
      → (usr' : U) × (call handler id size count opt mem usr
          ≡ record { calls = []; mem = mem; usr = usr' })

  -- A decoder whose fields nobody reads: they lie in a skipped sequence, or the handler declines.
  abbrev pub IsUnread : Callbacks H U → Decoder H → Type 0
  IsUnread call d = (0 < d.skip_depth) ⊎ Declines call d.handler

  abbrev pub start : Istream H U → ℕ → ℕ → Marks U
  start c id type = record {
    id = id;
    opt = type;
    len = 0;
    count = 0;
    remaining = c.fixlen_remaining;
    wire_count = c.array_wire_count;
    utf8 = c.utf8_start;
    usr = c.usr;
  }

  amid-begin_field :
      (c : Istream H U) (id type : ℕ)
      → Between c
      → begin_field id type c ≡ amid c idle (start c id type)
  unfolding begin_field
  amid-begin_field c id type b = λ i. record c {
    varint_value = b.no_value i;
    varint_shift = b.no_shift i;
    target_ptr = none;
    decoder = record (c.decoder) { state = b.waits i };
    target_len = 0;
    target_count = 0;
    id = id;
    target_opt = type;
    invalid = b.not_invalid i;
  }

module _ {H U : Type 0} (call : Callbacks H U) where
  pub call_declined :
      (mask : ℕ) (c : Istream H U) (state : State) (m : Marks U)
      → IsUnread call c.decoder
      → (u : U) × (call_field_callback_masked call mask (amid c state m)
          ≡ amid c state (record m { usr = u }))
  unfolding call_field_callback_masked verify_bound dispatch apply_calls
  call_declined mask c state m d = elim (Bool-cases (ltb 0 c.decoder.skip_depth)) [
    | inl e ↦ (m.usr, rw e refl)
    | inr e ↦ elim d [
      | inl inside ↦ absurd (ground arith)
      | inr q ↦ let (u, answer) = q m.id m.len m.count m.opt c.mem m.usr in (u, rw (e, answer) refl)
    ]
  ]

module _ {H U : Type 0} (call : Callbacks H U) (strict : Bool) where
  -- Reading `bytes` in the middle of a field leads on to a state of it.
  abbrev pub Reaches : Istream H U → List ℕ → Istream H U → Istream H U → Type 0
  Reaches c bytes from to =
      (rest : List ℕ) → feed_loop call strict (bytes ++ rest) from ≡ feed_loop call strict rest to

  -- A varint in the middle of a field.
  pub amid_varint :
      (c : Istream H U) (state : State) (m : Marks U) (v : ℕ) (next_state : State) (m' : Marks U)
      → v < 2 ^ 64
      → leb (state_code state) 4 ≡ true
      → on_value call strict state v (amid c state m) ≡ next (amid c next_state m')
      → Reaches c (varint v) (amid c state m) (amid c next_state m')
  amid_varint c state m v next_state m' h begins e rest =
      feed_loop-varint call strict v rest (amid c state m) h begins refl refl
      ∙ ap (λ o. then_next o (feed_loop call strict rest)) e

  -- The header, up to the switch on the type.
  pub header_to :
      (c : Istream H U) (id type : ℕ) (to : Istream H U)
      → Between c
      → id ≤ id_max
      → type < 8
      → field_type call type (amid c idle (start c id type)) ≡ next to
      → Reaches c (header id type) c to
  header_to c id type to b h k e rest =
      feed_loop-header call strict id type rest c h k b.waits b.no_value b.no_shift b.not_invalid
      ∙ ap (λ s. then_next (field_type call type s) (feed_loop call strict rest))
          (amid-begin_field c id type b)
      ∙ ap (λ o. then_next o (feed_loop call strict rest)) e

  pub amid_header :
      (c : Istream H U) (id type : ℕ) (next_state : State) (m : Marks U)
      → Between c
      → id ≤ id_max
      → type < 8
      → field_type call type (amid c idle (start c id type)) ≡ next (amid c next_state m)
      → Reaches c (header id type) c (amid c next_state m)
  amid_header c id type next_state m = header_to c id type (amid c next_state m)

  -- A field that is read over.
  abbrev pub Skips : Istream H U → List ℕ → Type 0
  Skips c bytes = (m : Marks U) × Reaches c bytes c (amid c idle m)

  pub Reaches-append :
      (c : Istream H U) (xs ys : List ℕ) (from mid to : Istream H U)
      → Reaches c xs from mid
      → Reaches c ys mid to
      → Reaches c (xs ++ ys) from to
  Reaches-append c xs ys from mid to p q rest =
      ap (λ l. feed_loop call strict l from) (append_assoc xs ys rest) ∙ p (ys ++ rest) ∙ q rest

  pub three :
      (xs ys zs : List ℕ) (from p q to : Istream H U)
      → Reaches from xs from p
      → Reaches from ys p q
      → Reaches from zs q to
      → Reaches from (xs ++ ys ++ zs) from to
  three xs ys zs from p q to a b d =
      Reaches-append from (xs ++ ys) zs from q to (Reaches-append from xs ys from p q a b) d
