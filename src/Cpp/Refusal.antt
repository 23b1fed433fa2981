-- ===== src/Cpp/Refusal.antt =====
-- `IStreamImpl` of sofab.hpp: the latch of its refusals, the checks that set it, `feed`, and what
-- it tells of the delivered field. A `long` bound is `none` where the source has a negative one.
use corelib_c_cpp.Base.{
  ℕ, ◌+◌, ◌*◌, ◌/◌, ◌^◌, ◌%◌, Bool, true, false, Option, none, some, List, ltb, ◌==◌, if◌then◌else◌,
  bit_and, bit_or, bit_xor,
}
use corelib_c_cpp.Wire.{
  Ret, ret_ok, ret_incomplete, e_argument, e_buffer_full, e_invalid_msg, e_limit_exceeded,
}
use corelib_c_cpp.Istream.{Istream, invalidate}
use corelib_c_cpp.Istream.Callback.{Callbacks}
use corelib_c_cpp.Istream.Feed.{feed}

-- `refusal_`, beside the state of the program that the callbacks serve.
pub record Latch (U : Type 0) : Type 0 where
  pub refusal : Ret
  pub usr : U

abbrev pub IstreamImpl : Type 0 → Type 0 → Type 0
IstreamImpl H U = Istream H (Latch U)

-- `DynCap`: a receiver's ceiling, stated or not.
pub data DynCap : Type 0 where
  unstated : DynCap
  at_most : ℕ → DynCap

-- `ret == SOFAB_RET_OK`
abbrev pub is_ok : Ret → Bool
is_ok ret_ok = true
is_ok ret_incomplete = false
is_ok e_argument = false
is_ok e_buffer_full = false
is_ok e_invalid_msg = false
is_ok e_limit_exceeded = false

module _ {H U : Type 0} where
  abbrev pub refusal_of : IstreamImpl H U → Ret
  refusal_of is = Latch.refusal is.usr

  unfoldable pub latch_refusal : Ret → IstreamImpl H U → IstreamImpl H U
  latch_refusal category is = invalidate (record is {
    usr = record {
      refusal = if is_ok (refusal_of is) then category else refusal_of is;
      usr = Latch.usr is.usr;
    };
  })

  unfoldable pub reset_refusal : IstreamImpl H U → IstreamImpl H U
  reset_refusal is = record is { usr = record { refusal = ret_ok; usr = Latch.usr is.usr } }

  unfoldable pub reject_malformed : IstreamImpl H U → IstreamImpl H U
  reject_malformed is = latch_refusal e_invalid_msg is

  unfoldable pub exceed_limit : IstreamImpl H U → IstreamImpl H U
  exceed_limit is = latch_refusal e_limit_exceeded is

  unfoldable pub refuse_argument : IstreamImpl H U → IstreamImpl H U
  refuse_argument is = latch_refusal e_argument is

  -- The destination's room.
  unfoldable pub refuse : ℕ → Option ℕ → IstreamImpl H U → Bool × IstreamImpl H U
  refuse n none is = (false, is)
  refuse n (some room) is = if ltb room n then (true, refuse_argument is) else (false, is)

  -- The schema's bound.
  unfoldable pub refuse_schema : ℕ → Option ℕ → IstreamImpl H U → Bool × IstreamImpl H U
  refuse_schema n none is = (false, is)
  refuse_schema n (some bound) is = if ltb bound n then (true, reject_malformed is) else (false, is)

  -- The receiver's ceiling.
  unfoldable pub refuse_cap : ℕ → ℕ → IstreamImpl H U → Bool × IstreamImpl H U
  refuse_cap n dyn_cap is = if ltb dyn_cap n then (true, exceed_limit is) else (false, is)

  -- A field that nothing bounds.
  unfoldable pub refuse_unbounded : Option ℕ → Option ℕ → IstreamImpl H U → Bool × IstreamImpl H U
  refuse_unbounded none none is = (true, refuse_argument is)
  refuse_unbounded (some bound) room is = (false, is)
  refuse_unbounded none (some room) is = (false, is)

  unfoldable pub refuse_bound : ℕ → Option ℕ → DynCap → IstreamImpl H U → Bool × IstreamImpl H U
  refuse_bound n (some bound) dyn_cap is = refuse_schema n (some bound) is
  refuse_bound n none unstated is = (true, refuse_argument is)
  refuse_bound n none (at_most cap) is = refuse_cap n cap is

  -- `a || b`, of two checks.
  unfoldable pub or_else :
      Bool × IstreamImpl H U → (IstreamImpl H U → Bool × IstreamImpl H U) → Bool × IstreamImpl H U
  or_else r check = if r.0 then (true, r.1) else check r.1

  unfoldable pub wire : IstreamImpl H U → ℕ
  wire is = bit_and is.target_opt 0x07

  unfoldable pub fix_type : IstreamImpl H U → ℕ
  fix_type is = bit_and (is.target_opt / 2 ^ 3) 0x07

  -- `delivered` on a wire type alone, and with a fixlen subtype.
  unfoldable pub delivered : ℕ → IstreamImpl H U → Bool
  delivered w is = bit_and is.target_opt 0x3f == w

  unfoldable pub delivered_fix : ℕ → ℕ → IstreamImpl H U → Bool
  delivered_fix w f is = bit_and is.target_opt 0x3f == bit_or w (f * 2 ^ 3)

  unfoldable pub note_skip : IstreamImpl H U → IstreamImpl H U
  note_skip is = record is { skipped = if ltb is.skipped 255 then is.skipped + 1 else is.skipped }

  -- `readMatch` binds with this; the 32-bit word of the comparison is cut by `2 ^ 32`.
  unfoldable pub bind_match : ℕ → ℕ → ℕ → IstreamImpl H U → Bool × IstreamImpl H U
  bind_match var len opt is = (
    (bit_xor is.target_opt opt * 2 ^ 26) % 2 ^ 32 == 0,
    record is { target_ptr = some var; target_len = len; target_opt = opt },
  )

  -- `feed`: a latched refusal is the answer.
  unfoldable pub impl_feed :
      Callbacks H (Latch U) → Bool → List ℕ → IstreamImpl H U → Ret × IstreamImpl H U
  impl_feed call strict buffer is =
      let (ret, is') = feed call strict buffer is in
      (if is_ok (refusal_of is') then ret else refusal_of is', is')
