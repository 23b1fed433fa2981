-- ===== src/Istream/RegionBind.antt =====
-- A destination that has been bound, and the region it lies in.
use corelib_c_cpp.Base.{
  ℕ, ◌+◌, ◌-◌, ◌*◌, ◌^◌, ◌<◌, ◌≤◌, ◌≡◌, refl, sym, ◌∙◌, true, false, ◌||◌, Option, none, some, All,
  ltb, leb, ◌==◌, if◌then◌else◌, bit_and, inl, inr, Bool-cases, arith,
}
use mathlib.Core.Path.{subst}
use native.Mathlib.Nat.{mul-le-mul_right}
use corelib_c_cpp.Istream.{
  Memory, write, State, Istream, fieldtype, opt_stringterm, size_pred, next, reject,
}
use corelib_c_cpp.Istream.Callback.{bind_array_count, clear}
use corelib_c_cpp.Istream.Safe.{
  Within, Within-then, Within-wider, clear-Within, is_plain, is_array, terminated,
}
use corelib_c_cpp.Istream.Answers.{IsTarget, IsWaiting, Bound, unbound, bound_to, entered}
use corelib_c_cpp.Istream.Bind.{tail_end}
use corelib_c_cpp.Istream.Payload.{check_length}
use corelib_c_cpp.Istream.Region.{
  OnTarget, OnTarget-map, size_pred_pos, Leads, goes, fails, Holds-if, Holds-option,
}

array_clear :
    {a b : ℕ} (p len count wire : ℕ) (mem : Memory)
    → a ≤ p
    → p + count * len ≤ b
    → wire ≤ count
    → Within a b mem (clear mem (p + wire * len) ((count - wire) * len))
array_clear {a} {b} p len count wire mem h k l =
    let whole = tail_end p wire count len l in
    Within-wider a b (omega arith) (omega (arith, whole, k))
      (clear-Within mem (p + wire * len) ((count - wire) * len))

terminated_plain :
    (opt : ℕ)
    → (is_plain opt || is_array opt) ≡ true
    → (is_array opt ≡ true → terminated opt ≡ false)
    → (bit_and opt opt_stringterm == 0) ≡ false
    → is_plain opt ≡ true
terminated_plain opt kind raw k = elim (Bool-cases (is_array opt)) [
  | inl e ↦ let off = raw e in absurd (ground (arith, k, off))
  | inr e ↦ ground (arith, kind, e)
]

module _ {H : Type 0} (IsHandler : H → Type 0) (a b : ℕ) {U : Type 0} where
  -- A stream in a state, between two calls of a step, that has bound nothing or a destination of
  -- the type on the wire, of which `Q` holds.
  pub record Stage (s : State) (type : ℕ) (Q : ℕ → ℕ → Type 0) (ctx : Istream H U) : Type 0 where
    pub state : ctx.decoder.state ≡ s
    pub handler : IsHandler ctx.decoder.handler
    pub parents : All (IsWaiting IsHandler) ctx.parents
    pub target : Option ℕ
    pub here : ctx.target_ptr ≡ target
    pub bound :
        OnTarget
          (λ p.
            IsTarget a b p ctx.target_opt ctx.target_len ctx.target_count
            × (fieldtype ctx.target_opt ≡ type)
            × Q ctx.target_len ctx.target_count)
          target

  pub Stage-of :
      (s : State) (type : ℕ) (before after : Istream H U)
      → Bound IsHandler a b before after
      → before.decoder.state ≡ s
      → All (IsWaiting IsHandler) before.parents
      → fieldtype before.target_opt ≡ type
      → type < 6
      → Stage s type (λ len count. Unit) after
  Stage-of s type before after r e ps f l = elim r [
    | unbound d q h t ↦ record {
      state = d ∙ e;
      handler = h;
      parents = subst (All (IsWaiting IsHandler)) (sym q) ps;
      target = none;
      here = t;
      bound = tt;
    }
    | bound_to d q h p t k g ↦ record {
      state = d ∙ e;
      handler = h;
      parents = subst (All (IsWaiting IsHandler)) (sym q) ps;
      target = some p;
      here = t;
      bound = (k, g ∙ f, tt);
    }
    | entered d q h g ↦ absurd (omega (arith, f, g, l))
  ]

  pub target_at :
      {s : State} {type : ℕ} {Q : ℕ → ℕ → Type 0} {ctx : Istream H U} (p : ℕ)
      → Stage s type Q ctx
      → ctx.target_ptr ≡ some p
      → IsTarget a b p ctx.target_opt ctx.target_len ctx.target_count
        × (fieldtype ctx.target_opt ≡ type)
        × Q ctx.target_len ctx.target_count
  target_at p g q =
      subst (OnTarget (λ p. IsTarget a b p _ _ _ × (fieldtype _ ≡ _) × _)) (sym g.here ∙ q) g.bound

  pub bind_array_count-Stage :
      (s : State) (type wire : ℕ) (mem : Memory) (ctx : Istream H U)
      → ((p : ℕ) → ctx.target_ptr ≡ some p → leb 3 type ≡ true)
      → Within a b mem ctx.mem
      → Stage s type (λ len count. Unit) ctx
      → Leads IsHandler a b
          (Stage s type (λ len count. count ≡ wire))
          mem
          (bind_array_count wire ctx)
  unfolding bind_array_count
  bind_array_count-Stage s type wire mem ctx l w g =
      Holds-option IsHandler a b ctx.target_ptr (next ctx) _
        (λ q. goes w (record {
          state = g.state;
          handler = g.handler;
          parents = g.parents;
          target = none;
          here = q;
          bound = tt;
        }))
        (λ p q.
          let t = target_at p g q in
          let array : is_array ctx.target_opt ≡ true = ground (arith, t.0.kind, t.1, l p q) in
          let whole = t.0.upto in
          let room : p + ctx.target_count * ctx.target_len ≤ b = ground (arith, array, whole) in
          Holds-if IsHandler a b (ltb ctx.target_count wire) (reject ctx) _ (λ k. fails w)
            (λ k.
              let fits : wire ≤ ctx.target_count = ground (arith, k) in
              let less = mul-le-mul_right ctx.target_len fits in
              goes
                (Within-then w
                  (array_clear p ctx.target_len ctx.target_count wire ctx.mem t.0.from room fits))
                (record {
                  state = g.state;
                  handler = g.handler;
                  parents = g.parents;
                  target = some p;
                  here = q;
                  bound = (
                    record {
                      from = t.0.from;
                      upto = ground (arith, array, room, less);
                      kind = t.0.kind;
                      sized = t.0.sized;
                      raw = t.0.raw;
                    },
                    t.1,
                    refl,
                  );
                })))

  pub Stage-any :
      {s : State} {type : ℕ} {Q : ℕ → ℕ → Type 0} (ctx : Istream H U)
      → Stage s type Q ctx
      → Stage s type (λ len count. Unit) ctx
  Stage-any ctx g = record {
    state = g.state;
    handler = g.handler;
    parents = g.parents;
    target = g.target;
    here = g.here;
    bound = OnTarget-map _ _ g.target (λ p t. (t.0, t.1, tt)) g.bound;
  }

  pub Stage-none :
      {s : State} {type : ℕ} {Q R : ℕ → ℕ → Type 0} (ctx : Istream H U)
      → Stage s type Q ctx
      → ctx.target_ptr ≡ none
      → Stage s type R ctx
  Stage-none ctx g q = record {
    state = g.state;
    handler = g.handler;
    parents = g.parents;
    target = none;
    here = q;
    bound = tt;
  }

  Stage-some :
      {s : State} {type : ℕ} {Q R : ℕ → ℕ → Type 0} (ctx : Istream H U) (p : ℕ)
      → Stage s type Q ctx
      → ctx.target_ptr ≡ some p
      → R ctx.target_len ctx.target_count
      → Stage s type R ctx
  Stage-some ctx p g q r =
      let t = target_at p g q in
      record {
        state = g.state;
        handler = g.handler;
        parents = g.parents;
        target = some p;
        here = q;
        bound = (t.0, t.1, r);
      }

  pub check_length-Stage :
      {Q : ℕ → ℕ → Type 0} (s : State) (type length : ℕ) (mem : Memory) (ctx : Istream H U)
      → b < 2 ^ 64
      → Within a b mem ctx.mem
      → Stage s type Q ctx
      → Leads IsHandler a b (Stage s type (λ len count. length ≤ len)) mem (check_length length ctx)
  unfolding check_length
  check_length-Stage {Q} s type length mem ctx room w g =
      Holds-option IsHandler a b ctx.target_ptr (next ctx) _ (λ q. goes w (Stage-none ctx g q))
        (λ p q.
          let t = (target_at p g q).0 in
          Holds-if IsHandler a b (bit_and ctx.target_opt opt_stringterm == 0)
            (if ltb ctx.target_len length then reject ctx else next ctx) _
            (λ k.
              Holds-if IsHandler a b (ltb ctx.target_len length) (reject ctx) (next ctx)
                (λ j. fails w) (λ j. goes w (Stage-some ctx p g q (ground (arith, j)))))
            (λ k.
              let upto = t.upto in
              let from = t.from in
              let plain : is_plain ctx.target_opt ≡ true =
                terminated_plain ctx.target_opt t.kind t.raw k in
              let sized = t.sized plain in
              let inside : p + ctx.target_len ≤ b = ground (arith, plain, upto) in
              let less = size_pred_pos ctx.target_len sized (omega (arith, inside, room)) in
              Holds-if IsHandler a b (ltb (size_pred ctx.target_len) length) (reject ctx) _
                (λ j. fails w)
                (λ j.
                  let short : length < ctx.target_len = ground (arith, j, less, sized) in
                  goes
                    (Within-then w
                      (record { kept = λ i o. ground (arith, inside, short, from, o) }))
                    (Stage-some {Q = Q} (record ctx { mem = write ctx.mem (p + length) 0 }) p
                      (record {
                        state = g.state;
                        handler = g.handler;
                        parents = g.parents;
                        target = g.target;
                        here = g.here;
                        bound = g.bound;
                      })
                      q (omega (arith, short))))))
