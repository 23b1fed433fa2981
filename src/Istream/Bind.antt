-- ===== src/Istream/Bind.antt =====
-- `_bind_array_count` of istream.c and the memory of the destination.
use corelib_c_cpp.Base.{
  ℕ, zero, suc, ◌+◌, ◌-◌, ◌*◌, ◌≤◌, ◌≡◌, refl, ap, ◌∙◌, fun_ext, arith, ◌&&◌, ltb, leb,
  if◌then◌else◌, some, Bool-cases, inl, inr,
}
use corelib_c_cpp.Istream.{Memory, write, Istream, next, reject}
use corelib_c_cpp.Istream.Callback.{clear, bind_array_count}

-- Memory with zeros from `first` up to `end`.
abbrev pub zeroed : Memory → ℕ → ℕ → Memory
zeroed mem first end q = if leb first q && ltb q end then 0 else mem q

clear-zeroed : (mem : Memory) (p n q : ℕ) → clear mem p n q ≡ zeroed mem p (p + n) q
unfolding clear
clear-zeroed mem p zero q = ground arith
clear-zeroed mem p (suc n) q = clear-zeroed (write mem p 0) (p + 1) n q ∙ ground arith

pub tail_end :
    (p wire count len : ℕ) → wire ≤ count → p + wire * len + (count - wire) * len ≡ p + count * len
tail_end p wire count len h =
    let whole : (wire + (count - wire)) * len ≡ count * len = ap (λ n. n * len) (omega arith) in
    omega (arith, whole)

module _ {H U : Type 0} where
  -- With a destination bound, a wire count within the capacity becomes the count of elements, and of all memory exactly the
  -- elements from that count up to the capacity are set to zero. A larger one is refused, and
  -- changes nothing.
  pub bind_array_count-zeroed :
      (ctx : Istream H U) (p wire : ℕ)
      → ctx.target_ptr ≡ some p
      → bind_array_count wire ctx ≡ (
          if ltb ctx.target_count wire
          then reject ctx
          else next (record ctx {
            mem =
                zeroed ctx.mem (p + wire * ctx.target_len) (p + ctx.target_count * ctx.target_len);
            target_count = wire;
          }))
  unfolding bind_array_count
  bind_array_count-zeroed ctx p wire e = elim (Bool-cases (ltb ctx.target_count wire)) [
    | inl l ↦ rw (e, l) refl
    | inr l ↦
        let fits : wire ≤ ctx.target_count = ground arith in
        let same : clear ctx.mem (p + wire * ctx.target_len)
              ((ctx.target_count - wire) * ctx.target_len)
            ≡ zeroed ctx.mem (p + wire * ctx.target_len) (p + ctx.target_count * ctx.target_len) =
          fun_ext (λ q.
            clear-zeroed ctx.mem _ _ q
            ∙ ap (λ end. zeroed ctx.mem (p + wire * ctx.target_len) end q)
                (tail_end p wire ctx.target_count ctx.target_len fits)) in
        rw (e, l, same) refl
  ]
