-- ===== src/Ostream/Sink.antt =====
-- A stream with a flush callback: what the sink receives, at any buffer size.
use corelib_c_cpp.Base.{
  ℕ, zero, suc, ◌<◌, ◌≤◌, ◌≡◌, refl, sym, ◌∙◌, ap, Option, none, some, List, [], ◌∷◌, ◌++◌, arith,
  append_assoc, append-nil, ltb, if◌then◌else◌, length, length-take, take, drop, drop-append,
  Bool-cases, inl, inr,
}
use corelib_c_cpp.Wire.{ret_ok}
use corelib_c_cpp.Ostream.{
  Ostream, Flush, Install, returned, push_byte, store_byte, drain, buffer_set, write_bytes, flush,
}
use native.Mathlib.Decide.{dec_lt}
use corelib_c_cpp.Ostream.Room.{written, Appended, store_byte-Appended, push_byte_room}

-- What one call of the callback does with `bytes`: it keeps all of them but the `reserved` first,
-- which are the room that its last installation left free for its own framing header, and
-- installs nothing or a buffer with at least `SOFAB_MIN_OUTPUT_BUFFER` bytes behind the offset.
abbrev pub Delivers :
    {U : Type 0} → (U → List ℕ) → (U → ℕ) → List ℕ → U → U × Option Install → Type 0
Delivers log reserved bytes u (u', none) =
    (log u' ≡ log u ++ drop (reserved u) bytes) × (reserved u' ≡ 0)
Delivers log reserved bytes u (u', some i) =
    (log u' ≡ log u ++ drop (reserved u) bytes)
    × (reserved u' ≡ i.offset)
    × (i.offset < length i.buffer)

-- A callback that collects: `log` reads from its state what it has kept so far.
pub record Collects {U : Type 0} (f : Flush U) : Type 0 where
  pub log : U → List ℕ
  pub reserved : U → ℕ
  pub delivers : (bytes : List ℕ) (u : U) → Delivers log reserved bytes u (f bytes u)

drop-nil : {A : Type 0} (n : ℕ) → drop {A = A} n [] ≡ []
drop-nil zero = refl
drop-nil (suc n) = refl

drop-take : {A : Type 0} (n : ℕ) (xs : List A) → drop n (take n xs) ≡ []
drop-take zero xs = refl
drop-take (suc n) [] = refl
drop-take (suc n) (x ∷ xs) = drop-take n xs

module _ {U : Type 0} {f : Flush U} (c : Collects f) where
  -- All that the stream has been given: what the sink keeps, and what waits in the buffer.
  abbrev pub stream : Ostream U → List ℕ
  stream o = c.log o.usr ++ drop (c.reserved o.usr) (written o)

  -- The cursor lies in the buffer, behind the room that the sink reserved.
  pub record Ready (o : Ostream U) : Type 0 where
    pub has_sink : o.flush ≡ some f
    pub behind_room : c.reserved o.usr ≤ o.offset
    pub inside : o.offset ≤ length o.buffer
    pub not_empty : 0 < length o.buffer

  stream-Appended :
      {bs : List ℕ} {o o' : Ostream U} → Ready o → Appended bs o o' → stream o' ≡ stream o ++ bs
  stream-Appended {bs} {o} {o'} r a =
      rw (a.same_usr, a.grown)
        (rw (drop-append (c.reserved o.usr) (written o) bs fits)
          (sym (append_assoc (c.log o.usr) (drop (c.reserved o.usr) (written o)) bs)))
    where
      fits : c.reserved o.usr ≤ length (written o)
      fits = omega (arith, length-take o.offset o.buffer, r.behind_room, r.inside)

  -- The state after a callback is ready, has room, and nothing is lost or added.
  pub record Drained (o o' : Ostream U) : Type 0 where
    pub ready : Ready o'
    pub has_room : o'.offset < length o'.buffer
    pub kept : stream o' ≡ stream o
    pub handed_over : c.log o'.usr ≡ stream o
    pub same_pending : o'.pending ≡ o.pending

  returned-Drained :
      (o : Ostream U) (r : U × Option Install)
      → Ready o
      → Delivers c.log c.reserved (written o) o.usr r
      → Drained o (returned (record o { offset = 0 }) r)
  unfolding returned buffer_set
  returned-Drained o (u, none) h d = record {
    ready = record {
      has_sink = h.has_sink;
      behind_room = omega arith;
      inside = omega arith;
      not_empty = h.not_empty;
    };
    has_room = h.not_empty;
    kept = rw d.1 (append-nil (c.log u) ∙ d.0);
    handed_over = d.0;
    same_pending = refl;
  }
  returned-Drained o (u, some i) h d = record {
    ready = record {
      has_sink = h.has_sink;
      behind_room = omega arith;
      inside = omega arith;
      not_empty = omega arith;
    };
    has_room = d.2;
    kept = rw d.1 (rw drop-take (append-nil (c.log u) ∙ d.0));
    handed_over = d.0;
    same_pending = refl;
  }

  drain-Drained : (o : Ostream U) → Ready o → Drained o (drain f o)
  unfolding drain
  drain-Drained o h = returned-Drained o (f (written o) o.usr) h (c.delivers (written o) o.usr)

  -- After writing `bytes` the stream is ready again, and they stand behind all that it was given.
  pub record Streamed (bytes : List ℕ) (o o' : Ostream U) : Type 0 where
    pub ready : Ready o'
    pub received : stream o' ≡ stream o ++ bytes
    pub same_pending : o'.pending ≡ o.pending

  Appended-Streamed :
      {bs : List ℕ} {o o' : Ostream U}
      → Ready o
      → Appended bs o o'
      → o'.offset ≤ length o'.buffer
      → Streamed bs o o'
  Appended-Streamed h a fits = record {
    ready = record {
      has_sink = a.same_flush ∙ h.has_sink;
      behind_room = rw a.same_usr (omega (arith, a.cursor, h.behind_room));
      inside = fits;
      not_empty = omega (arith, a.same_size, h.not_empty);
    };
    received = stream-Appended h a;
    same_pending = a.same_pending;
  }

  push_byte_drains :
      (b : ℕ) (o : Ostream U)
      → o.flush ≡ some f
      → length o.buffer ≤ o.offset
      → (drain f o).offset < length (drain f o).buffer
      → push_byte b o ≡ (store_byte b (drain f o), ret_ok)
  unfolding push_byte
  push_byte_drains b o e h l = rw (e) (ground arith)

  push_byte-Streamed :
      (b : ℕ) (o : Ostream U)
      → Ready o
      → (o' : Ostream U) × (push_byte b o ≡ (o', ret_ok)) × Streamed (b ∷ []) o o'
  push_byte-Streamed b o h = elim (dec_lt o.offset (length o.buffer)) [
    | yes room ↦
        let a = store_byte-Appended b o room in
        (
          store_byte b o,
          push_byte_room b o room,
          Appended-Streamed h a (omega (arith, a.cursor, a.same_size)),
        )
    | no full ↦
        let d = drain-Drained o h in
        let a = store_byte-Appended b (drain f o) d.has_room in
        let s = Appended-Streamed d.ready a (omega (arith, a.cursor, a.same_size, d.has_room)) in
        (
          store_byte b (drain f o),
          push_byte_drains b o h.has_sink (omega arith) d.has_room,
          record {
            ready = s.ready;
            received = s.received ∙ ap (λ t. t ++ b ∷ []) d.kept;
            same_pending = s.same_pending ∙ d.same_pending;
          },
        )
  ]

  -- With a collecting sink and a cursor in a buffer that is not empty, the writer returns
  -- SOFAB_RET_OK, the cursor stays so, and what the sink keeps with what waits in the buffer grows
  -- by exactly these bytes.
  pub write_bytes-Streamed :
      (bytes : List ℕ) (o : Ostream U)
      → Ready o
      → (o' : Ostream U) × (write_bytes bytes o ≡ (o', ret_ok)) × Streamed bytes o o'
  unfolding write_bytes
  write_bytes-Streamed [] o h =
      (o, refl, record { ready = h; received = sym (append-nil (stream o)); same_pending = refl })
  write_bytes-Streamed (b ∷ bs) o h =
      let (o1, e1, s1) = push_byte-Streamed b o h in
      let (o2, e2, s2) = write_bytes-Streamed bs o1 s1.ready in
      (
        o2,
        rw e1 e2,
        record {
          ready = s2.ready;
          received =
              s2.received ∙ ap (λ t. t ++ bs) s1.received ∙ append_assoc (stream o) (b ∷ []) bs;
          same_pending = s2.same_pending ∙ s1.same_pending;
        },
      )

  -- `sofab_ostream_flush` hands over all that waits: then the sink keeps the whole stream.
  flush_sink :
      (o : Ostream U)
      → o.flush ≡ some f
      → flush o ≡ (if ltb 0 o.offset then (drain f o, o.offset) else (o, o.offset))
  unfolding flush
  flush_sink o e = rw e

  nothing_waits : (o : Ostream U) → o.offset ≡ 0 → c.log o.usr ≡ stream o
  nothing_waits o e =
      let none_written : written o ≡ [] = ap (λ n. take n o.buffer) e in
      sym (
        ap (λ t. c.log o.usr ++ drop (c.reserved o.usr) t) none_written
        ∙ ap (λ t. c.log o.usr ++ t) (drop-nil (c.reserved o.usr))
        ∙ append-nil (c.log o.usr))

  pub flush-log : (o : Ostream U) → Ready o → c.log (flush o).0.usr ≡ stream o
  flush-log o h = rw (flush_sink o h.has_sink) (elim (Bool-cases (ltb 0 o.offset)) [
    | inl e ↦ rw e (drain-Drained o h).handed_over
    | inr e ↦ rw e (nothing_waits o (ground arith))
  ])
