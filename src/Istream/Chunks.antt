-- ===== src/Istream/Chunks.antt =====
-- How `sofab_istream_feed` behaves over a message that arrives in pieces.
use corelib_c_cpp.Base.{
  ℕ, Bool, true, false, List, [], ◌∷◌, ◌++◌, if◌then◌else◌, ◌≡◌, refl, sym, ap, ◌∙◌, fun_ext,
  Bool-cases, inl, inr, ◌≢◌,
}
use corelib_c_cpp.Wire.{
  Ret, ret_ok, ret_incomplete, e_argument, e_buffer_full, e_invalid_msg, e_limit_exceeded,
}
use corelib_c_cpp.Istream.{
  Istream, Outcome, next, reject, bad_argument, then_next, invalidate, at_message_boundary,
}
use corelib_c_cpp.Istream.Callback.{Callbacks}
use corelib_c_cpp.Istream.Rejected.{StaysInvalid}
use corelib_c_cpp.Istream.Rejected.{StaysInvalid, goes_on}
use corelib_c_cpp.Istream.Verdict.{feed_loop-StaysInvalid}
use corelib_c_cpp.Istream.Feed.{step, feed_loop, finish, feed}

-- The outcomes after which a caller may go on.
abbrev pub is_open : Ret → Bool
is_open ret_ok = true
is_open ret_incomplete = true
is_open e_argument = false
is_open e_buffer_full = false
is_open e_invalid_msg = false
is_open e_limit_exceeded = false

then_next_assoc :
    {S : Type 0} (o : Outcome S) (f g : S → Outcome S)
    → then_next (then_next o f) g ≡ then_next o (λ s. then_next (f s) g)
then_next_assoc (next s) f g = refl
then_next_assoc (reject s) f g = refl
then_next_assoc (bad_argument s) f g = refl

module _ {H U : Type 0} (call : Callbacks H U) (strict : Bool) where
  feed_loop-append :
      (xs ys : List ℕ) (ctx : Istream H U)
      → feed_loop call strict (xs ++ ys) ctx
        ≡ then_next (feed_loop call strict xs ctx) (feed_loop call strict ys)
  unfolding feed_loop
  feed_loop-append [] ys ctx = refl
  feed_loop-append (x ∷ xs) ys ctx =
      ap (then_next (step call strict x ctx)) (fun_ext λ c. feed_loop-append xs ys c)
      ∙ sym (
          then_next_assoc (step call strict x ctx) (feed_loop call strict xs)
            (feed_loop call strict ys))

is_open-closed : {A : Type 0} (r : Ret × A) (a : A) → r ≡ (e_invalid_msg, a) → is_open r.0 ≢ true
is_open-closed r a p h = let wrong : false ≡ true = sym (ap (λ q. is_open q.0) p) ∙ h in cc

verdict_open : (b : Bool) → is_open (if b then ret_ok else ret_incomplete) ≡ true
verdict_open true = refl
verdict_open false = refl

verdict_not_invalid : (b : Bool) → (if b then ret_ok else ret_incomplete) ≢ e_invalid_msg
verdict_not_invalid true h = cc
verdict_not_invalid false h = cc

module _ {H U : Type 0} where
  finish-invalid :
      (ctx : Istream H U) → ctx.invalid ≡ true → finish (next ctx) ≡ (e_invalid_msg, invalidate ctx)
  unfolding finish
  finish-invalid ctx e =
      ap
        (λ b.
          if b
          then (e_invalid_msg, invalidate ctx)
          else (if at_message_boundary ctx then ret_ok else ret_incomplete, ctx))
        e

  finish-valid :
      (ctx : Istream H U)
      → ctx.invalid ≡ false
      → finish (next ctx) ≡ (if at_message_boundary ctx then ret_ok else ret_incomplete, ctx)
  unfolding finish
  finish-valid ctx e =
      ap
        (λ b.
          if b
          then (e_invalid_msg, invalidate ctx)
          else (if at_message_boundary ctx then ret_ok else ret_incomplete, ctx))
        e

  finish-open :
      (o : Outcome (Istream H U))
      → is_open ((finish o).0) ≡ true
      → (o ≡ next ((finish o).1)) × ((finish o).1.invalid ≡ false)
  finish-open (next ctx) h = elim (Bool-cases ctx.invalid) [
    | inl e ↦ absurd (is_open-closed (finish (next ctx)) _ (finish-invalid ctx e) h)
    | inr e ↦ (
      sym (ap (λ r. next r.1) (finish-valid ctx e)),
      ap (λ r. r.1.invalid) (finish-valid ctx e) ∙ e,
    )
  ]
  finish-open (reject ctx) h = unfold finish in cc
  finish-open (bad_argument ctx) h = unfold finish in cc

  finish-rejects :
      (o : Outcome (Istream H U)) → (finish o).0 ≡ e_invalid_msg → (finish o).1.invalid ≡ true
  finish-rejects (next ctx) h = elim (Bool-cases ctx.invalid) [
    | inl e ↦ ap (λ r. r.1.invalid) (finish-invalid ctx e) ∙ unfold invalidate in refl
    | inr e ↦ absurd (
        verdict_not_invalid (at_message_boundary ctx)
          (sym (ap (λ r. r.0) (finish-valid ctx e)) ∙ h))
  ]
  finish-rejects (reject ctx) h = unfold finish invalidate in refl
  finish-rejects (bad_argument ctx) h = unfold finish in cc

module _ {H U : Type 0} (call : Callbacks H U) (strict : Bool) where
  pub feed-closed :
      (xs : List ℕ) (ctx : Istream H U)
      → ctx.invalid ≡ true
      → feed call strict xs ctx ≡ (e_invalid_msg, ctx)
  unfolding feed
  feed-closed xs ctx e =
      ap (λ b. if b then (e_invalid_msg, ctx) else finish (feed_loop call strict xs ctx)) e

  pub feed-going :
      (xs : List ℕ) (ctx : Istream H U)
      → ctx.invalid ≡ false
      → feed call strict xs ctx ≡ finish (feed_loop call strict xs ctx)
  unfolding feed
  feed-going xs ctx e =
      ap (λ b. if b then (e_invalid_msg, ctx) else finish (feed_loop call strict xs ctx)) e

module _ {H U : Type 0} (call : Callbacks H U) (strict : Bool) where
  feed-append_valid :
      (xs ys : List ℕ) (ctx : Istream H U)
      → ctx.invalid ≡ false
      → is_open ((finish (feed_loop call strict xs ctx)).0) ≡ true
      → feed call strict (xs ++ ys) ctx
        ≡ feed call strict ys ((finish (feed_loop call strict xs ctx)).1)
  feed-append_valid xs ys ctx e h =
      let ended = finish-open (feed_loop call strict xs ctx) h in
      feed-going call strict (xs ++ ys) ctx e
      ∙ ap finish (feed_loop-append call strict xs ys ctx)
      ∙ ap (λ o. finish (then_next o (feed_loop call strict ys))) ended.0
      ∙ sym (feed-going call strict ys _ ended.1)

  -- If feeding a first part returns SOFAB_RET_OK or SOFAB_RET_INCOMPLETE, feeding the rest then
  -- gives the result and the state that feeding the whole gives.
  pub feed-append :
      (xs ys : List ℕ) (ctx : Istream H U)
      → is_open ((feed call strict xs ctx).0) ≡ true
      → feed call strict (xs ++ ys) ctx ≡ feed call strict ys ((feed call strict xs ctx).1)
  feed-append xs ys ctx h = elim (Bool-cases ctx.invalid) [
    | inl e ↦ absurd (is_open-closed _ ctx (feed-closed call strict xs ctx e) h)
    | inr e ↦
        let going = feed-going call strict xs ctx e in
        feed-append_valid xs ys ctx e (sym (ap (λ r. is_open r.0) going) ∙ h)
        ∙ sym (ap (λ r. feed call strict ys r.1) going)
  ]

  feed_marks :
      (xs : List ℕ) (ctx : Istream H U)
      → (feed call strict xs ctx).0 ≡ e_invalid_msg
      → (feed call strict xs ctx).1.invalid ≡ true
  feed_marks xs ctx h = elim (Bool-cases ctx.invalid) [
    | inl e ↦ ap (λ r. r.1.invalid) (feed-closed call strict xs ctx e) ∙ e
    | inr e ↦
        let going = feed-going call strict xs ctx e in
        ap (λ r. r.1.invalid) going
        ∙ finish-rejects (feed_loop call strict xs ctx) (sym (ap (λ r. r.0) going) ∙ h)
  ]

  -- After SOFAB_RET_E_INVALID_MSG every further feed returns it again and changes nothing.
  pub feed-rejected :
      (xs ys : List ℕ) (ctx : Istream H U)
      → (feed call strict xs ctx).0 ≡ e_invalid_msg
      → feed call strict ys ((feed call strict xs ctx).1)
        ≡ (e_invalid_msg, (feed call strict xs ctx).1)
  feed-rejected xs ys ctx h = feed-closed call strict ys _ (feed_marks xs ctx h)

module _ {H U : Type 0} where
  finish-StaysInvalid : (o : Outcome (Istream H U)) → StaysInvalid o → is_open ((finish o).0) ≢ true
  finish-StaysInvalid (next ctx) (goes_on e) h =
      is_open-closed (finish (next ctx)) _ (finish-invalid ctx e.flag) h
  finish-StaysInvalid (reject ctx) e h = unfold finish in cc
  finish-StaysInvalid (bad_argument ctx) e h = unfold finish in cc

module _ {H U : Type 0} (call : Callbacks H U) (strict : Bool) where
  finish-prefix :
      (o : Outcome (Istream H U)) (ys : List ℕ)
      → is_open ((finish (then_next o (feed_loop call strict ys))).0) ≡ true
      → is_open ((finish o).0) ≡ true
  finish-prefix (next ctx) ys h = elim (Bool-cases ctx.invalid) [
    | inl e ↦ absurd (
        finish-StaysInvalid (feed_loop call strict ys ctx)
          (feed_loop-StaysInvalid call strict ys ctx (record { flag = e })) h)
    | inr e ↦ ap (λ r. is_open r.0) (finish-valid ctx e) ∙ verdict_open (at_message_boundary ctx)
  ]
  finish-prefix (reject ctx) ys h = unfold finish in cc
  finish-prefix (bad_argument ctx) ys h = unfold finish in cc

  feed-prefix :
      (xs ys : List ℕ) (ctx : Istream H U)
      → is_open ((feed call strict (xs ++ ys) ctx).0) ≡ true
      → is_open ((feed call strict xs ctx).0) ≡ true
  feed-prefix xs ys ctx h = elim (Bool-cases ctx.invalid) [
    | inl e ↦ absurd (is_open-closed _ ctx (feed-closed call strict (xs ++ ys) ctx e) h)
    | inr e ↦
        let whole =
          feed-going call strict (xs ++ ys) ctx e
          ∙ ap finish (feed_loop-append call strict xs ys ctx) in
        ap (λ r. is_open r.0) (feed-going call strict xs ctx e)
        ∙ finish-prefix (feed_loop call strict xs ctx) ys (sym (ap (λ r. is_open r.0) whole) ∙ h)
  ]

  -- If feeding a whole returns SOFAB_RET_OK or SOFAB_RET_INCOMPLETE, so does feeding its first
  -- part, wherever it is cut, and feeding the rest then gives the result and the state that
  -- feeding the whole gives.
  pub feed-cut :
      (xs ys : List ℕ) (ctx : Istream H U)
      → is_open ((feed call strict (xs ++ ys) ctx).0) ≡ true
      → (is_open ((feed call strict xs ctx).0) ≡ true)
        × (feed call strict (xs ++ ys) ctx ≡ feed call strict ys ((feed call strict xs ctx).1))
  feed-cut xs ys ctx h =
      let first = feed-prefix xs ys ctx h in (first, feed-append call strict xs ys ctx first)
