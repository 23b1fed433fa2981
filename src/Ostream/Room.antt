-- ===== src/Ostream/Room.antt =====
-- What `_write_fixlen` does to the buffer: with room, and without room and without a sink.
use corelib_c_cpp.Base.{
  ℕ, zero, suc, ◌+◌, ◌-◌, ◌<◌, ◌≤◌, ◌≡◌, refl, sym, ◌∙◌, ap, none, List, [], ◌∷◌, ◌++◌, arith,
  append_assoc, append-nil, length, take, set, length-set, take-set,
}
use native.Mathlib.Numerals.{add-one}
use corelib_c_cpp.Wire.{ret_ok, e_buffer_full}
use corelib_c_cpp.Ostream.{Ostream, push_byte, store_byte, write_bytes}

module _ {U : Type 0} where
  -- The bytes of the current buffer before the cursor.
  abbrev pub written : Ostream U → List ℕ
  written o = take o.offset o.buffer

  -- `o'` is `o` with `bytes` behind what was written, in the same buffer.
  pub record Appended (bytes : List ℕ) (o o' : Ostream U) : Type 0 where
    pub grown : written o' ≡ written o ++ bytes
    pub cursor : o'.offset ≡ o.offset + length bytes
    pub same_size : length o'.buffer ≡ length o.buffer
    pub same_flush : o'.flush ≡ o.flush
    pub same_usr : o'.usr ≡ o.usr
    pub same_pending : o'.pending ≡ o.pending

  Appended-nil : (o : Ostream U) → Appended [] o o
  Appended-nil o = record {
    grown = sym (append-nil (written o));
    cursor = omega arith;
    same_size = refl;
    same_flush = refl;
    same_usr = refl;
    same_pending = refl;
  }

  Appended-cons :
      {b : ℕ} {bs : List ℕ} {o o' o'' : Ostream U}
      → Appended (b ∷ []) o o'
      → Appended bs o' o''
      → Appended (b ∷ bs) o o''
  Appended-cons {b} {bs} {o} p q = record {
    grown = q.grown ∙ ap (λ t. t ++ bs) p.grown ∙ append_assoc (written o) (b ∷ []) bs;
    cursor = omega (arith, p.cursor, q.cursor);
    same_size = q.same_size ∙ p.same_size;
    same_flush = q.same_flush ∙ p.same_flush;
    same_usr = q.same_usr ∙ p.same_usr;
    same_pending = q.same_pending ∙ p.same_pending;
  }

  pub store_byte-Appended :
      (b : ℕ) (o : Ostream U) → o.offset < length o.buffer → Appended (b ∷ []) o (store_byte b o)
  unfolding store_byte
  store_byte-Appended b o h = record {
    grown = step;
    cursor = refl;
    same_size = length-set o.buffer o.offset b;
    same_flush = refl;
    same_usr = refl;
    same_pending = refl;
  }
    where
      step : take (o.offset + 1) (set o.buffer o.offset b) ≡ take o.offset o.buffer ++ b ∷ []
      step = rw add-one (take-set o.buffer o.offset b h)

  pub push_byte_room :
      (b : ℕ) (o : Ostream U)
      → o.offset < length o.buffer
      → push_byte b o ≡ (store_byte b o, ret_ok)
  unfolding push_byte
  push_byte_room b o h = ground arith

  push_byte_full :
      (b : ℕ) (o : Ostream U)
      → o.flush ≡ none
      → length o.buffer ≤ o.offset
      → push_byte b o ≡ (o, e_buffer_full)
  unfolding push_byte
  push_byte_full b o e h = ground arith

  -- With room for all the bytes they are appended, and no sink is called.
  pub write_bytes_room :
      (bytes : List ℕ) (o : Ostream U)
      → o.offset + length bytes ≤ length o.buffer
      → (o' : Ostream U) × (write_bytes bytes o ≡ (o', ret_ok)) × Appended bytes o o'
  unfolding write_bytes
  write_bytes_room [] o h = (o, refl, Appended-nil o)
  write_bytes_room (b ∷ bs) o h =
      let p = store_byte-Appended b o (omega arith) in
      let (o', e, q) =
        write_bytes_room bs (store_byte b o) (omega (arith, p.cursor, p.same_size)) in
      (o', rw (push_byte_room b o (omega arith)) e, Appended-cons p q)

  overflow_at :
      (bytes : List ℕ) (room : ℕ) (o : Ostream U)
      → o.flush ≡ none
      → length o.buffer ≡ o.offset + room
      → room < length bytes
      → (o' : Ostream U) × (write_bytes bytes o ≡ (o', e_buffer_full))
        × Appended (take room bytes) o o'
  unfolding write_bytes
  overflow_at [] room o e h l = absurd (omega arith)
  overflow_at (b ∷ bs) zero o e h l =
      (o, rw (push_byte_full b o e (omega arith)) refl, Appended-nil o)
  overflow_at (b ∷ bs) (suc room) o e h l =
      let p = store_byte-Appended b o (omega arith) in
      let (o', r, q) =
        overflow_at bs room (store_byte b o) (p.same_flush ∙ e)
          (omega (arith, p.cursor, p.same_size)) (omega arith) in
      (o', rw (push_byte_room b o (omega arith)) r, Appended-cons p q)

  -- Without a sink, bytes that do not fit fill the buffer to its end and the writer returns
  -- SOFAB_RET_E_BUFFER_FULL.
  pub write_bytes_overflow :
      (bytes : List ℕ) (o : Ostream U)
      → o.flush ≡ none
      → o.offset ≤ length o.buffer
      → length o.buffer < o.offset + length bytes
      → (o' : Ostream U) × (write_bytes bytes o ≡ (o', e_buffer_full))
        × Appended (take (length o.buffer - o.offset) bytes) o o'
  write_bytes_overflow bytes o e h l =
      overflow_at bytes (length o.buffer - o.offset) o e (omega arith) (omega arith)
