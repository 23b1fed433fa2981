-- ===== src/Istream/AmidFloat.antt =====
-- Arrays of floating-point numbers without a destination.
use corelib_c_cpp.Base.{
  ℕ, zero, suc, ◌+◌, ◌*◌, ◌^◌, ◌<◌, ◌≤◌, ◌≡◌, refl, ap, Bool, true, false, some, List, ◌++◌, arith,
  ltb, ◌==◌, bit_or, length, length-take, length-drop, take-drop, take, drop, Bool-cases, inl, inr,
}
use corelib_c_cpp.Wire.{id_max, fixlen_max, array_max, type_fixlenarray}
use corelib_c_cpp.Wire.Varint.{varint}
use corelib_c_cpp.Ostream.Commit.{header}
use corelib_c_cpp.Istream.{
  idle, fixlen_len, fixlen_val, array_count, Istream, fieldtype, size_pred, next,
}
use corelib_c_cpp.Istream.Callback.{Callbacks}
use corelib_c_cpp.Istream.Idle.{field_type}
use corelib_c_cpp.Istream.Feed.{on_value, feed_loop}
use mathlib.Core.Path.{subst}
use corelib_c_cpp.Istream.Payload.{
  value_end, payload_state, array_count_state, array_empty, array_begin, array_state,
}
use corelib_c_cpp.Istream.Amid.{
  positive, IsFloat, Marks, amid, Between, IsUnread, start, Reaches, amid_varint, Skips,
  Reaches-append, three,
}
use corelib_c_cpp.Istream.AmidPayload.{payload, val_goes_on}
use corelib_c_cpp.Istream.AmidFixlen.{val_reads, reaches_payload, reaches_end}
use corelib_c_cpp.Istream.AmidArray.{reaches_count, counted}

module _ {H U : Type 0} (call : Callbacks H U) (strict : Bool) where
  module _ (c : Istream H U) (b : Between c) (quiet : IsUnread call c.decoder) where
    floats_counted :
        (id count : ℕ)
        → count ≤ array_max
        → array_count_state call count (amid c array_count (start c id 5))
          ≡ next (amid c fixlen_len (counted call strict c b quiet id 5 count c.usr))
    unfolding array_count_state array_empty array_begin array_state
    floats_counted id count h =
        let within : ltb array_max count ≡ false = ground arith in
        elim (Bool-cases (count == 0)) [ inl e ↦ rw (within, e) refl | inr e ↦ rw (within, e) refl ]

    -- The end of one element, and of the last.
    float_over :
        (n size : ℕ) (m : Marks U)
        → (fieldtype m.opt == type_fixlenarray) ≡ true
        → suc (suc n) < 2 ^ 64
        → value_end
            (amid c fixlen_val (record m { count = suc (suc n); len = size; remaining = 0 }))
          ≡ next (amid c fixlen_val (record m { count = suc n; len = size; remaining = size }))
    unfolding value_end
    float_over n size m e h =
        let less : size_pred (suc (suc n)) ≡ suc n = omega arith in rw (e, less, positive n) refl

    floats_over :
        (size : ℕ) (m : Marks U)
        → (fieldtype m.opt == type_fixlenarray) ≡ true
        → value_end (amid c fixlen_val (record m { count = 1; len = size; remaining = 0 }))
          ≡ next (amid c idle (record m { count = 0; len = size; remaining = 0 }))
    unfolding value_end
    floats_over size m e = rw e refl

    chunk :
        (size : ℕ) (bytes : List ℕ) (m : Marks U) (to : Istream H U)
        → length bytes ≡ size
        → 1 ≤ size
        → size < 2 ^ 64
        → value_end (amid c fixlen_val (record m { len = size; remaining = 0 })) ≡ next to
        → Reaches call strict c bytes
            (amid c fixlen_val (record m { len = size; remaining = size }))
            to
    chunk size bytes m to e h k over =
        subst
          (λ r.
            Reaches call strict c bytes (amid c fixlen_val (record m { len = size; remaining = r }))
              to)
          e
          (payload call strict c fixlen_val value_end (val_reads call strict)
            (val_goes_on call strict c) bytes (record m { len = size }) to (omega arith)
            (omega arith) over)

    floats_read :
        (size n : ℕ) (bytes : List ℕ) (m : Marks U)
        → length bytes ≡ suc n * size
        → 1 ≤ size
        → size < 2 ^ 64
        → suc n < 2 ^ 64
        → (fieldtype m.opt == type_fixlenarray) ≡ true
        → Reaches call strict c bytes
            (amid c fixlen_val (record m { count = suc n; len = size; remaining = size }))
            (amid c idle (record m { count = 0; len = size; remaining = 0 }))
    floats_read size zero bytes m e h k small a =
        chunk size bytes (record m { count = 1 }) _ (omega arith) h k (floats_over size m a)
    floats_read size (suc n) bytes m e h k small a =
        let whole : length bytes ≡ size + suc n * size = omega arith in
        let from =
          amid c fixlen_val (record m { count = suc (suc n); len = size; remaining = size }) in
        let to = amid c idle (record m { count = 0; len = size; remaining = 0 }) in
        subst (λ l. Reaches call strict c l from to) (take-drop size bytes)
          (Reaches-append call strict c (take size bytes) (drop size bytes) _
            (amid c fixlen_val (record m { count = suc n; len = size; remaining = size })) _
            (chunk size (take size bytes) (record m { count = suc (suc n) }) _
              (omega (arith, length-take size bytes)) h k (float_over n size m a small))
            (floats_read size n (drop size bytes) m (omega (arith, length-drop size bytes)) h k
              (omega arith) a))

    -- An array of floating-point numbers, with at least one and with none.
    Skips-floats_of :
        (id : ℕ) (bytes : List ℕ) (count size type : ℕ)
        → id ≤ id_max
        → count ≤ array_max
        → count * size ≤ length bytes
        → type < 8
        → size ≤ fixlen_max
        → 1 ≤ size
        → payload_state type size 5 ≡ some fixlen_val
        → (fieldtype (bit_or 5 (type * 2 ^ 3)) == type_fixlenarray) ≡ true
        → Skips call strict c
            (header id 5 ++ varint count ++ varint (size * 8 + type) ++ take (count * size) bytes)
    unfolding field_type on_value
    Skips-floats_of id bytes zero size type h k enough t l some_bytes e a =
        let m = counted call strict c b quiet id 5 0 c.usr in
        let none : 0 * size ≡ 0 = omega arith in
        let (m', word) =
          reaches_end call strict c b quiet type size fixlen_val m t l e (inl (rw a refl)) in
        (
          m',
          Reaches-append call strict c (header id 5 ++ varint 0 ++ varint (size * 8 + type))
              (take (0 * size) bytes) c (amid c idle m') _
              (three call strict (header id 5) (varint 0) (varint (size * 8 + type)) c
                (amid c array_count (start c id 5)) (amid c fixlen_len m) (amid c idle m')
                (reaches_count call strict c b quiet id 5 h (omega arith) refl)
                (amid_varint call strict c array_count (start c id 5) 0 fixlen_len m (omega arith)
                  refl (floats_counted id 0 k))
                word)
              (λ rest.
                ap (λ k. feed_loop call strict (take k bytes ++ rest) (amid c idle m')) none),
        )
    Skips-floats_of id bytes (suc n) size type h k enough t l some_bytes e a =
        let m = counted call strict c b quiet id 5 (suc n) c.usr in
        let (u, v, word) =
          reaches_payload call strict c b quiet type size fixlen_val m t l e (rw a (ground arith))
            some_bytes in
        let m' : Marks U = record m {
          opt = bit_or 5 (type * 2 ^ 3);
          len = size;
          utf8 = v;
          usr = u;
        } in
        (
          record m' { count = 0; remaining = 0 },
          Reaches-append call strict c (header id 5 ++ varint (suc n) ++ varint (size * 8 + type)) _
              c (amid c fixlen_val (record m' { remaining = size })) _
              (three call strict (header id 5) (varint (suc n)) (varint (size * 8 + type)) c
                (amid c array_count (start c id 5)) (amid c fixlen_len m)
                (amid c fixlen_val (record m' { remaining = size }))
                (reaches_count call strict c b quiet id 5 h (omega arith) refl)
                (amid_varint call strict c array_count (start c id 5) (suc n) fixlen_len m
                  (omega arith) refl (floats_counted id (suc n) k))
                word)
              (floats_read size n (take (suc n * size) bytes) m'
                (omega (arith, length-take (suc n * size) bytes)) some_bytes (omega arith)
                (omega arith) a),
        )

    pub Skips-floats :
        (id : ℕ) (bytes : List ℕ) (count size type : ℕ)
        → id ≤ id_max
        → count ≤ array_max
        → count * size ≤ length bytes
        → IsFloat type size
        → Skips call strict c
            (header id 5 ++ varint count ++ varint (size * 8 + type) ++ take (count * size) bytes)
    unfolding payload_state
    Skips-floats id bytes count size type h k enough (inl (t, s)) =
        rw (t, s)
          (Skips-floats_of id bytes count 4 0 h k (rw s at enough) (omega arith) (omega arith)
            (omega arith) refl refl)
    Skips-floats id bytes count size type h k enough (inr (t, s)) =
        rw (t, s)
          (Skips-floats_of id bytes count 8 1 h k (rw s at enough) (omega arith) (omega arith)
            (omega arith) refl refl)
