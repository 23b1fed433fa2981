-- ===== src/Istream/RegionEnd.antt =====
-- The end of a payload, and the region of the destination.
use corelib_c_cpp.Base.{
  ℕ, ◌+◌, ◌-◌, ◌*◌, ◌^◌, ◌<◌, ◌≤◌, ◌≡◌, refl, ap, Bool, true, false, Option, none, some, All, ltb,
  ◌==◌, if◌then◌else◌, ◌⊎◌, inl, inr, Bool-cases, arith,
}
use mathlib.Core.Path.{subst}
use native.Mathlib.Nat.{le-mul_of_pos_right}
use corelib_c_cpp.Wire.{type_fixlenarray}
use corelib_c_cpp.Istream.{
  Memory, write, State, idle, fixlen_val, fixlen_raw, Istream, set_state, fieldtype, size_pred,
  next, reject,
}
use corelib_c_cpp.Istream.Safe.{Within, is_array}
use corelib_c_cpp.Istream.Answers.{IsWaiting}
use corelib_c_cpp.Istream.Scalar.{advance}
use corelib_c_cpp.Istream.Payload.{put, read_fixlen, value_end, utf8_ok, raw_end}
use corelib_c_cpp.Istream.Region.{
  IsPayload, OnTarget, OnTarget-map, Room, Room-at, size_pred_pos, mul_pred, Holds, goes, fails,
  Holds-if, idle-Holds,
}

-- What is left behind a byte of the payload.
pub record IsRest (a b p opt len count remaining : ℕ) : Type 0 where
  pub from : a ≤ p
  pub upto : p + remaining + (if is_array opt then (count - 1) * len else 0) ≤ b
  pub live : is_array opt ≡ true → (0 < count) × (0 < len)

module _ {H U : Type 0} where
  -- What `_read_fixlen` does.
  pub record IsRead (byte : ℕ) (ctx after : Istream H U) : Type 0 where
    pub same_decoder : after.decoder ≡ ctx.decoder
    pub same_parents : after.parents ≡ ctx.parents
    pub same_opt : after.target_opt ≡ ctx.target_opt
    pub same_len : after.target_len ≡ ctx.target_len
    pub same_count : after.target_count ≡ ctx.target_count
    pub left : after.fixlen_remaining ≡ size_pred ctx.fixlen_remaining
    pub nothing : ctx.target_ptr ≡ none → (after.target_ptr ≡ none) × (after.mem ≡ ctx.mem)
    pub something :
        (p : ℕ)
        → ctx.target_ptr ≡ some p
        → 0 < ctx.fixlen_remaining
        → (after.target_ptr ≡ some (p + 1)) × (after.mem ≡ write ctx.mem p byte)

  pub read_fixlen-IsRead : (ctx : Istream H U) (byte : ℕ) → IsRead byte ctx (read_fixlen ctx byte)
  unfolding read_fixlen
  read_fixlen-IsRead ctx byte = elim (Bool-cases (ltb 0 ctx.fixlen_remaining)) [
    | inl e ↦
        rw (e, read_fixlen)
          (record {
            same_decoder = refl;
            same_parents = refl;
            same_opt = refl;
            same_len = refl;
            same_count = refl;
            left = refl;
            nothing = λ q. (ap (advance 1) q, ap (λ t. put ctx.mem t byte) q);
            something = λ p q h. (ap (advance 1) q, ap (λ t. put ctx.mem t byte) q);
          })
    | inr e ↦
        rw (e, read_fixlen)
          (record {
            same_decoder = refl;
            same_parents = refl;
            same_opt = refl;
            same_len = refl;
            same_count = refl;
            left = refl;
            nothing = λ q. (q, refl);
            something = λ p q h. absurd (ground (arith, e, h));
          })
  ]

next-IsPayload :
    {a b p opt len count : ℕ}
    → b < 2 ^ 64
    → IsRest a b p opt len count 0
    → is_array opt ≡ true
    → 0 < size_pred count
    → IsPayload a b p opt len (size_pred count) len
next-IsPayload {opt = opt} {len = len} {count = count} room r k l =
    let live = r.live k in
    let upto = r.upto in
    let more = le-mul_of_pos_right (count - 1) live.1 in
    let small : count ≤ 2 ^ 64 = ground (arith, k, upto, more) in
    let less = size_pred_pos count live.0 small in
    let split = mul_pred (count - 1) len (omega (arith, less, l)) in
    record {
      from = r.from;
      upto = rw less (ground (arith, k, upto, split));
      live = λ q. (l, live.1);
      unread = live.1;
    }

pub payload-Room :
    (a b : ℕ) (s : State) (t t' : Option ℕ) (opt len count remaining : ℕ)
    → (s ≡ fixlen_val) ⊎ (s ≡ fixlen_raw)
    → t ≡ t'
    → OnTarget (λ p. IsPayload a b p opt len count remaining) t'
    → Room a b s t opt len count remaining
payload-Room a b s t t' opt len count remaining e q r = elim e [
  | inl e ↦ Room-at a b s fixlen_val t t' opt len count remaining e q r
  | inr e ↦ Room-at a b s fixlen_raw t t' opt len count remaining e q r
]

pub IsRest-payload :
    {a b p opt len count remaining : ℕ}
    → b < 2 ^ 64
    → IsPayload a b p opt len count remaining
    → IsRest a b (p + 1) opt len count (size_pred remaining)
IsRest-payload {remaining = remaining} room k =
    let upto = k.upto in
    let unread = k.unread in
    let less = size_pred_pos remaining unread (omega (arith, upto)) in
    record { from = omega (arith, k.from); upto = rw less (omega (arith, upto)); live = k.live }

module _ {H : Type 0} (IsHandler : H → Type 0) (a b : ℕ) {U : Type 0} where
  module _ (mem : Memory) (ctx : Istream H U)
      (e : (ctx.decoder.state ≡ fixlen_val) ⊎ (ctx.decoder.state ≡ fixlen_raw))
      (h : IsHandler ctx.decoder.handler) (ps : All (IsWaiting IsHandler) ctx.parents)
      (w : Within a b mem ctx.mem) (t' : Option ℕ) (t : ctx.target_ptr ≡ t')
      (rest : OnTarget
        (λ p. IsRest a b p ctx.target_opt ctx.target_len ctx.target_count ctx.fixlen_remaining)
        t') where
    going_on : ltb 0 ctx.fixlen_remaining ≡ true → Holds IsHandler a b mem (next ctx)
    going_on q = goes w (record {
      handler = h;
      parents = ps;
      room = payload-Room a b ctx.decoder.state ctx.target_ptr t' _ _ _ _ e t (
          OnTarget-map _ _ t'
            (λ p r. record {
              from = r.from;
              upto = r.upto;
              live = r.live;
              unread = ground (arith, q);
            })
            rest);
    })

    -- The element of a payload that has ended, and the next one.
    abbrev less : Istream H U
    less = record ctx { target_count = size_pred ctx.target_count }

    ended : ltb 0 ctx.fixlen_remaining ≡ false → ctx.fixlen_remaining ≡ 0
    ended q = ground (arith, q)

    value_next :
        b < 2 ^ 64
        → ltb 0 ctx.fixlen_remaining ≡ false
        → (fieldtype ctx.target_opt == type_fixlenarray) ≡ true
        → Holds IsHandler a b mem (
            if ltb 0 (size_pred ctx.target_count)
            then next (record less { fixlen_remaining = ctx.target_len })
            else next (set_state idle less))
    value_next room q k =
        Holds-if IsHandler a b (ltb 0 (size_pred ctx.target_count))
          (next (record less { fixlen_remaining = ctx.target_len })) (next (set_state idle less))
          (λ q'. goes {ctx = record less { fixlen_remaining = ctx.target_len }} w (record {
            handler = h;
            parents = ps;
            room = payload-Room a b ctx.decoder.state ctx.target_ptr t' _ _ _ _ e t (
                OnTarget-map _ _ t'
                  (λ p r.
                    next-IsPayload room
                      (subst (λ n. IsRest a b p ctx.target_opt ctx.target_len ctx.target_count n)
                        (ended q) r)
                      (ground (arith, k)) (ground (arith, q')))
                  rest);
          }))
          (λ q'. idle-Holds IsHandler a b mem less w h ps)

    pub value_end-Holds : b < 2 ^ 64 → Holds IsHandler a b mem (value_end ctx)
    unfolding value_end
    value_end-Holds room =
        Holds-if IsHandler a b (ltb 0 ctx.fixlen_remaining) (next ctx)
          (if fieldtype ctx.target_opt == type_fixlenarray
            then (if ltb 0 less.target_count
                then next (record less { fixlen_remaining = ctx.target_len })
                else next (set_state idle less))
            else next (set_state idle ctx))
          going_on
          (λ q.
            Holds-if IsHandler a b (fieldtype ctx.target_opt == type_fixlenarray)
              (if ltb 0 less.target_count
                then next (record less { fixlen_remaining = ctx.target_len })
                else next (set_state idle less))
              (next (set_state idle ctx)) (value_next room q)
              (λ k. idle-Holds IsHandler a b mem ctx w h ps))

    pub raw_end-Holds : (strict : Bool) → Holds IsHandler a b mem (raw_end strict ctx)
    unfolding raw_end
    raw_end-Holds strict =
        Holds-if IsHandler a b (ltb 0 ctx.fixlen_remaining) (next ctx)
          (if utf8_ok strict ctx then next (set_state idle ctx) else reject ctx) going_on
          (λ q.
            Holds-if IsHandler a b (utf8_ok strict ctx) (next (set_state idle ctx)) (reject ctx)
              (λ k. idle-Holds IsHandler a b mem ctx w h ps) (λ k. fails w))
