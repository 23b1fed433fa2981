-- ===== src/Cpp/Verdict.antt =====
-- What the checks of `IStreamImpl` latch, and what `feed` answers then.
use corelib_c_cpp.Base.{
  ℕ, Bool, true, false, Option, none, some, List, [], ◌∷◌, ltb, ◌≡◌, refl, sym, ap, ◌∙◌, Bool-cases,
  inl, inr, if◌then◌else◌, arith,
}
use corelib_c_cpp.Wire.{
  Ret, ret_ok, ret_incomplete, e_argument, e_buffer_full, e_invalid_msg, e_limit_exceeded,
}
use corelib_c_cpp.Istream.{Istream, invalidate}
use corelib_c_cpp.Istream.Callback.{Callbacks}
use corelib_c_cpp.Istream.Feed.{feed}
use corelib_c_cpp.Cpp.Refusal.{
  Latch, IstreamImpl, DynCap, unstated, at_most, is_ok, refusal_of, latch_refusal, reject_malformed,
  exceed_limit, refuse_argument, refuse, refuse_schema, refuse_cap, refuse_unbounded, refuse_bound,
  impl_feed,
}

-- The checks with their arguments, the size first.
pub data Check : Type 0 where
  check_room : ℕ → Option ℕ → Check
  check_schema : ℕ → Option ℕ → Check
  check_cap : ℕ → ℕ → Check
  check_unbounded : Option ℕ → Option ℕ → Check
  check_bound : ℕ → Option ℕ → DynCap → Check

-- The category that a size over a limit has, if it is over.
abbrev pub over : Ret → ℕ → ℕ → Ret
over category n limit = if ltb limit n then category else ret_ok

-- What a check means for the message: `ret_ok`, or the category of the refusal.
abbrev pub verdict : Check → Ret
verdict (check_room n none) = ret_ok
verdict (check_room n (some limit)) = over e_argument n limit
verdict (check_schema n none) = ret_ok
verdict (check_schema n (some limit)) = over e_invalid_msg n limit
verdict (check_cap n limit) = over e_limit_exceeded n limit
verdict (check_unbounded none none) = e_argument
verdict (check_unbounded none (some limit)) = ret_ok
verdict (check_unbounded (some limit) r) = ret_ok
verdict (check_bound n (some limit) dyn) = over e_invalid_msg n limit
verdict (check_bound n none unstated) = e_argument
verdict (check_bound n none (at_most limit)) = over e_limit_exceeded n limit

abbrev pub or_ret : Ret → Ret → Ret
or_ret r s = if is_ok r then s else r

-- The first refusal of some checks.
abbrev pub first_refusal : List Check → Ret
first_refusal [] = ret_ok
first_refusal (c ∷ checks) = or_ret (verdict c) (first_refusal checks)

or_ret-ok : (r : Ret) → or_ret r ret_ok ≡ r
or_ret-ok ret_ok = refl
or_ret-ok ret_incomplete = refl
or_ret-ok e_argument = refl
or_ret-ok e_buffer_full = refl
or_ret-ok e_invalid_msg = refl
or_ret-ok e_limit_exceeded = refl

is_ok→ok : (r : Ret) → is_ok r ≡ true → r ≡ ret_ok
is_ok→ok ret_ok e = refl
is_ok→ok ret_incomplete e = ground arith
is_ok→ok e_argument e = ground arith
is_ok→ok e_buffer_full e = ground arith
is_ok→ok e_invalid_msg e = ground arith
is_ok→ok e_limit_exceeded e = ground arith

or_ret_assoc : (r s t : Ret) → or_ret (or_ret r s) t ≡ or_ret r (or_ret s t)
or_ret_assoc r s t = elim (Bool-cases (is_ok r)) [ inl e ↦ rw e refl | inr e ↦ rw (e, e) refl ]

-- With a refusal, or with the flag already, the flag is set.
abbrev pub flagged : Bool → Ret → Bool
flagged invalid r = if is_ok r then invalid else true

flagged-or_ret : (b : Bool) (r s : Ret) → flagged (flagged b r) s ≡ flagged b (or_ret r s)
flagged-or_ret b r s = elim (Bool-cases (is_ok r)) [
  | inl e ↦ rw e refl
  | inr e ↦ elim (Bool-cases (is_ok s)) [ inl f ↦ rw (e, e, f) refl | inr f ↦ rw (e, e, f) refl ]
]

module _ {H U : Type 0} where
  -- A check as it runs, its answer dropped: a callback goes on after a refusal, as the core does.
  abbrev pub run : Check → IstreamImpl H U → IstreamImpl H U
  run (check_room n r) is = (refuse n r is).1
  run (check_schema n b) is = (refuse_schema n b is).1
  run (check_cap n c) is = (refuse_cap n c is).1
  run (check_unbounded b r) is = (refuse_unbounded b r is).1
  run (check_bound n b dyn) is = (refuse_bound n b dyn is).1

  abbrev pub run_all : List Check → IstreamImpl H U → IstreamImpl H U
  run_all [] is = is
  run_all (c ∷ checks) is = run_all checks (run c is)

  -- The stream with a refusal in it.
  abbrev pub with_refusal : Ret → IstreamImpl H U → IstreamImpl H U
  with_refusal category is = if is_ok category then is else latch_refusal category is

  over_lem :
      (category : Ret) (n limit : ℕ) (is refused : IstreamImpl H U)
      → with_refusal category is ≡ refused
      → (if◌then◌else◌ {A = Bool × IstreamImpl H U} (ltb limit n) (true, refused) (false, is)).1
        ≡ with_refusal (over category n limit) is
  over_lem category n limit is refused e = elim (Bool-cases (ltb limit n)) [
    | inl l ↦ rw (l, e) refl
    | inr l ↦ rw l refl
  ]

  run-verdict : (c : Check) (is : IstreamImpl H U) → run c is ≡ with_refusal (verdict c) is
  unfolding refuse refuse_schema refuse_cap refuse_unbounded refuse_bound reject_malformed
      exceed_limit refuse_argument
  run-verdict (check_room n none) is = refl
  run-verdict (check_room n (some limit)) is = over_lem e_argument n limit is _ refl
  run-verdict (check_schema n none) is = refl
  run-verdict (check_schema n (some limit)) is = over_lem e_invalid_msg n limit is _ refl
  run-verdict (check_cap n limit) is = over_lem e_limit_exceeded n limit is _ refl
  run-verdict (check_unbounded none none) is = refl
  run-verdict (check_unbounded none (some limit)) is = refl
  run-verdict (check_unbounded (some limit) r) is = refl
  run-verdict (check_bound n (some limit) dyn) is = over_lem e_invalid_msg n limit is _ refl
  run-verdict (check_bound n none unstated) is = refl
  run-verdict (check_bound n none (at_most limit)) is = over_lem e_limit_exceeded n limit is _ refl

  with_refusal-refusal :
      (r : Ret) (is : IstreamImpl H U) → refusal_of (with_refusal r is) ≡ or_ret (refusal_of is) r
  unfolding latch_refusal invalidate
  with_refusal-refusal r is = elim (Bool-cases (is_ok r)) [
    | inl e ↦ rw (e, is_ok→ok r e) (sym (or_ret-ok (refusal_of is)))
    | inr e ↦ rw e refl
  ]

  run_all-refusal :
      (checks : List Check) (is : IstreamImpl H U)
      → refusal_of (run_all checks is) ≡ or_ret (refusal_of is) (first_refusal checks)
  run_all-refusal [] is = sym (or_ret-ok (refusal_of is))
  run_all-refusal (c ∷ checks) is =
      run_all-refusal checks (run c is)
      ∙ ap (λ r. or_ret r (first_refusal checks))
          (ap refusal_of (run-verdict c is) ∙ with_refusal-refusal (verdict c) is)
      ∙ or_ret_assoc (refusal_of is) (verdict c) (first_refusal checks)

  with_refusal-flagged :
      (r : Ret) (is : IstreamImpl H U) → (with_refusal r is).invalid ≡ flagged is.invalid r
  unfolding latch_refusal invalidate
  with_refusal-flagged r is = elim (Bool-cases (is_ok r)) [ inl e ↦ rw e refl | inr e ↦ rw e refl ]

  run_all-flagged :
      (checks : List Check) (is : IstreamImpl H U)
      → (run_all checks is).invalid ≡ flagged is.invalid (first_refusal checks)
  run_all-flagged [] is = refl
  run_all-flagged (c ∷ checks) is =
      run_all-flagged checks (run c is)
      ∙ ap (λ b. flagged b (first_refusal checks))
          (ap Istream.invalid (run-verdict c is) ∙ with_refusal-flagged (verdict c) is)
      ∙ flagged-or_ret is.invalid (verdict c) (first_refusal checks)

  -- After any checks on a stream without a refusal, of which one at least refuses, `feed` answers
  -- every further chunk with the category of the first that refuses, and leaves the stream as it
  -- is: a later refusal of another category changes nothing.
  pub impl_feed-first_refusal :
      (call : Callbacks H (Latch U)) (strict : Bool) (buffer : List ℕ) (checks : List Check)
      (is : IstreamImpl H U)
      → refusal_of is ≡ ret_ok
      → is_ok (first_refusal checks) ≡ false
      → impl_feed call strict buffer (run_all checks is) ≡ (first_refusal checks, run_all checks is)
  unfolding impl_feed feed
  impl_feed-first_refusal call strict buffer checks is e h =
      let latched : refusal_of (run_all checks is) ≡ first_refusal checks =
        run_all-refusal checks is ∙ ap (λ r. or_ret r (first_refusal checks)) e in
      let flag : (run_all checks is).invalid ≡ true =
        run_all-flagged checks is ∙ ap (λ b. if b then is.invalid else true) h in
      rw (flag, latched, h) refl
