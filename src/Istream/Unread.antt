-- ===== src/Istream/Unread.antt =====
-- Whole messages that no callback reads.
use corelib_c_cpp.Base.{
  ℕ, suc, ◌+◌, ◌*◌, ◌^◌, ◌<◌, ◌≤◌, ◌≡◌, refl, sym, ap, ◌∙◌, inl, Bool, true, false, List, [], ◌∷◌,
  arith, ltb, ◌==◌, length, All,
}
use mathlib.Core.Path.{subst}
use corelib_c_cpp.Wire.{id_max, fixlen_max, array_max, max_depth}
use corelib_c_cpp.Wire.Varint.{IsByte}
use corelib_c_cpp.Wire.Zigzag.{zigzag, to_ℤ, zigzag_encode-zigzag}
use corelib_c_cpp.Ostream.Commit.{header}
use corelib_c_cpp.Ostream.Elements.{IsWidth}
use corelib_c_cpp.Ostream.Content.{Leaf, unsigned, signed, fixlen, integers, floats, leaf_bytes}
use corelib_c_cpp.Ostream.Message.{
  Field, Fields, leaf, lazy, kept, framed, nil, cons, field_bytes, fields_bytes, frame,
  frame_if_any, depth, depth_fields,
}
use corelib_c_cpp.Istream.{idle, Istream, next, u8_suc, u8_pred}
use corelib_c_cpp.Istream.Callback.{Callbacks, call_field_callback}
use corelib_c_cpp.Istream.Idle.{
  field_type, sequence_start, opened, closed, set_skip_depth, sequence_end,
}
use corelib_c_cpp.Istream.Amid.{
  Marks, amid, start, Between, IsUnread, IsPayload, IsFloat, Reaches, Skips, Reaches-append, three,
  header_to, call_declined,
}
use corelib_c_cpp.Istream.AmidFixlen.{Skips-unsigned, Skips-signed, Skips-fixlen}
use corelib_c_cpp.Istream.AmidArray.{Skips-integers}
use corelib_c_cpp.Istream.AmidFloat.{Skips-floats}

-- A value as the decoder takes it: a floating-point number has its width, and an array its bytes.
abbrev pub IsReadable : Leaf → Type 0
IsReadable (unsigned v) = v < 2 ^ 64
IsReadable (signed v) = v < 2 ^ 64
IsReadable (fixlen bytes type) = (length bytes ≤ fixlen_max) × IsPayload type (length bytes)
IsReadable (integers is_signed bytes count size) =
    (count ≤ array_max) × All IsByte bytes × IsWidth size
IsReadable (floats bytes count size type) =
    (count ≤ array_max) × (count * size ≤ length bytes) × IsFloat type size

abbrev mutual
  pub AreReadable : Fields → Type 0
  AreReadable nil = Unit
  AreReadable (cons f fs) = IsReadableField f × AreReadable fs

  pub IsReadableField : Field → Type 0
  IsReadableField (leaf id l) = (id ≤ id_max) × IsReadable l
  IsReadableField (lazy id fs) = (id ≤ id_max) × AreReadable fs
  IsReadableField (kept id fs) = (id ≤ id_max) × AreReadable fs
  IsReadableField (framed id fs) = (id ≤ id_max) × AreReadable fs

module _ {H U : Type 0} where
  -- A later stream that is between two fields again, with the same decoders, depth and memory.
  pub record Passed (c to : Istream H U) : Type 0 where
    pub between : Between to
    pub same_decoder : to.decoder ≡ c.decoder
    pub same_parents : to.parents ≡ c.parents
    pub same_depth : to.depth ≡ c.depth
    pub same_skipped : to.skipped ≡ c.skipped
    pub same_mem : to.mem ≡ c.mem

  Passed-then : (a b c : Istream H U) → Passed a b → Passed b c → Passed a c
  Passed-then a b c p q = record {
    between = q.between;
    same_decoder = q.same_decoder ∙ p.same_decoder;
    same_parents = q.same_parents ∙ p.same_parents;
    same_depth = q.same_depth ∙ p.same_depth;
    same_skipped = q.same_skipped ∙ p.same_skipped;
    same_mem = q.same_mem ∙ p.same_mem;
  }

  amid-Passed : (c : Istream H U) (m : Marks U) → Between c → Passed c (amid c idle m)
  amid-Passed c m b = record {
    between = record { waits = refl; no_value = refl; no_shift = refl; not_invalid = refl };
    same_decoder = λ i. record (c.decoder) { state = sym b.waits i };
    same_parents = refl;
    same_depth = refl;
    same_skipped = refl;
    same_mem = refl;
  }

  -- The levels that are skipped are among those that are open, and `n` more may be opened.
  pub record Level (n : ℕ) (c : Istream H U) : Type 0 where
    pub skips : c.decoder.skip_depth ≤ c.depth
    pub opens : c.depth + n ≤ max_depth

module _ {H U : Type 0} (call : Callbacks H U) (strict : Bool) where
  -- The bytes are read over, whatever follows them.
  abbrev pub Passes : Istream H U → List ℕ → Type 0
  Passes c bytes = (to : Istream H U) × Passed c to × Reaches call strict c bytes c to

  Skips-leaf :
      (c : Istream H U) (id : ℕ) (l : Leaf)
      → Between c
      → IsUnread call c.decoder
      → id ≤ id_max
      → IsReadable l
      → Skips call strict c (leaf_bytes id l)
  unfolding leaf_bytes
  Skips-leaf c id (unsigned v) b q h k = Skips-unsigned call strict c b q id v h k
  Skips-leaf c id (signed v) b q h k =
      let z = zigzag_encode-zigzag v k in
      Skips-signed call strict c b q id (zigzag (to_ℤ v)) h (omega arith)
  Skips-leaf c id (fixlen bytes type) b q h k =
      Skips-fixlen call strict c b q id type bytes h k.0 k.1
  Skips-leaf c id (integers is_signed bytes count size) b q h k =
      Skips-integers call strict c b q id is_signed bytes count size h k.0 k.1 k.2
  Skips-leaf c id (floats bytes count size type) b q h k =
      Skips-floats call strict c b q id bytes count size type h k.0 k.1 k.2

  -- The stream one level deeper, in a sequence that nobody reads.
  abbrev deeper : Istream H U → Istream H U
  deeper c = record c {
    depth = u8_suc c.depth;
    decoder = record (c.decoder) { skip_depth = u8_suc c.decoder.skip_depth };
  }

  frame_opens :
      (c : Istream H U) (id n : ℕ)
      → IsUnread call c.decoder
      → Level (suc n) c
      → (m : Marks U) × (field_type call 6 (amid c idle (start c id 6))
          ≡ next (amid (deeper c) idle m))
  unfolding field_type sequence_start opened call_field_callback
  frame_opens c id n q l =
      let (u, asked) = call_declined call 0x3f c idle (start c id 6) q in
      let opens = l.opens in
      let room : (c.depth == max_depth) ≡ false = ground arith in
      (record (start c id 6) { usr = u }, rw (room, asked) refl)

  -- The end of a sequence, in a stream that has passed its content.
  shallower : Istream H U → Istream H U
  shallower s = closed (set_skip_depth (u8_pred s.decoder.skip_depth) (amid s idle (start s 0 7)))

  frame_closes :
      (c s : Istream H U) (n : ℕ)
      → Level (suc n) c
      → Passed (deeper c) s
      → (field_type call 7 (amid s idle (start s 0 7)) ≡ next (shallower s))
        × Passed c (shallower s)
  unfolding field_type sequence_end shallower closed
  frame_closes c s n l p =
      let opens = l.opens in
      let skips = l.skips in
      let level : s.decoder.skip_depth ≡ suc c.decoder.skip_depth =
        ap (λ d. d.skip_depth) p.same_decoder ∙ omega arith in
      let inside : ltb 0 s.decoder.skip_depth ≡ true = ground arith in
      let handler : s.decoder.handler ≡ c.decoder.handler = ap (λ d. d.handler) p.same_decoder in
      let state : idle ≡ c.decoder.state = sym p.between.waits ∙ ap (λ d. d.state) p.same_decoder in
      let back : u8_pred s.decoder.skip_depth ≡ c.decoder.skip_depth = omega arith in
      let up = p.same_depth in
      (
        rw inside refl,
        record {
          between = record { waits = refl; no_value = refl; no_shift = refl; not_invalid = refl };
          same_decoder = λ i. record { handler = handler i; state = state i; skip_depth = back i };
          same_parents = p.same_parents;
          same_depth = omega arith;
          same_skipped = p.same_skipped;
          same_mem = p.same_mem;
        },
      )

  -- A sequence round what is passed over at any level.
  Passes-frame :
      (c : Istream H U) (id n : ℕ) (bytes : List ℕ)
      → Between c
      → IsUnread call c.decoder
      → id ≤ id_max
      → Level (suc n) c
      → ((d : Istream H U) → Between d → IsUnread call d.decoder → Level n d → Passes d bytes)
      → Passes c (frame id bytes)
  Passes-frame c id n bytes b q h l inner =
      let opens = l.opens in
      let skips = l.skips in
      let (m, opened_at) = frame_opens c id n q l in
      let d = amid (deeper c) idle m in
      let entered = header_to call strict c id 6 d b h (omega arith) opened_at in
      let (s, p, read) =
        inner d (record { waits = refl; no_value = refl; no_shift = refl; not_invalid = refl })
          (inl (omega arith)) (record { skips = omega arith; opens = omega arith }) in
      let begun : Between (deeper c) = record {
        waits = b.waits;
        no_value = b.no_value;
        no_shift = b.no_shift;
        not_invalid = b.not_invalid;
      } in
      let closes =
        frame_closes c s n l (Passed-then (deeper c) d s (amid-Passed (deeper c) m begun) p) in
      (
        shallower s,
        closes.1,
        three call strict (header id 6) bytes (header 0 7) c d s (shallower s) entered read (
            header_to call strict s 0 7 (shallower s) p.between (omega arith) (omega arith)
              closes.0),
      )

  Passes-none : (c : Istream H U) → Between c → Passes c []
  Passes-none c b = (
    c,
    record {
      between = b;
      same_decoder = refl;
      same_parents = refl;
      same_depth = refl;
      same_skipped = refl;
      same_mem = refl;
    },
    λ rest. refl,
  )

  Passes-if_any :
      (c : Istream H U) (id : ℕ) (bytes : List ℕ)
      → Between c
      → Passes c (frame id bytes)
      → Passes c (frame_if_any id bytes)
  Passes-if_any c id [] b p = Passes-none c b
  Passes-if_any c id (x ∷ bytes) b p = p

  mutual
    unfolding field_bytes fields_bytes depth depth_fields

    Passes-field :
        (f : Field) (c : Istream H U)
        → IsReadableField f
        → Between c
        → IsUnread call c.decoder
        → Level (depth f) c
        → Passes c (field_bytes f)
    Passes-field (leaf id l) c r b q v =
        let (m, read) = Skips-leaf c id l b q r.0 r.1 in (amid c idle m, amid-Passed c m b, read)
    Passes-field (lazy id fs) c r b q v = Passes-if_any c id (fields_bytes fs) b (
        Passes-frame c id (depth_fields fs) (fields_bytes fs) b q r.0 v
          (λ d. Passes-fields fs d r.1))
    Passes-field (kept id fs) c r b q v =
        Passes-frame c id (depth_fields fs) (fields_bytes fs) b q r.0 v
          (λ d. Passes-fields fs d r.1)
    Passes-field (framed id fs) c r b q v =
        Passes-frame c id (depth_fields fs) (fields_bytes fs) b q r.0 v
          (λ d. Passes-fields fs d r.1)

    pub Passes-fields :
        (fs : Fields) (c : Istream H U)
        → AreReadable fs
        → Between c
        → IsUnread call c.decoder
        → Level (depth_fields fs) c
        → Passes c (fields_bytes fs)
    Passes-fields nil c r b q v = Passes-none c b
    Passes-fields (cons f fs) c r b q v =
        let opens = v.opens in
        let (s, p, read) =
          Passes-field f c r.0 b q (record { skips = v.skips; opens = omega arith }) in
        let same : s.decoder ≡ c.decoder = p.same_decoder in
        let up = p.same_depth in
        let skips = v.skips in
        let still : IsUnread call s.decoder = subst (IsUnread call) (sym same) q in
        let levels : s.decoder.skip_depth ≤ s.depth = omega (arith, ap (λ e. e.skip_depth) same) in
        let (to, p', read') =
          Passes-fields fs s r.1 p.between still (record { skips = levels; opens = omega arith }) in
        (
          to,
          Passed-then c s to p p',
          Reaches-append call strict c (field_bytes f) (fields_bytes fs) c s to read read',
        )
