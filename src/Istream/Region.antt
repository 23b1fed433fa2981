-- ===== src/Istream/Region.antt =====
-- Streams whose destination keeps to a region of memory.
use corelib_c_cpp.Base.{
  ℕ, ◌+◌, ◌-◌, ◌*◌, ◌^◌, ◌<◌, ◌≤◌, ◌≡◌, refl, sym, ap, ◌∙◌, Bool, true, false, ◌||◌, Option, none,
  some, All, ◌==◌, if◌then◌else◌, ◌⊎◌, inl, inr, Bool-cases, arith,
}
use mathlib.Core.Path.{subst}
use mathlib.Core.Option.{some-injective}
use native.Mathlib.Nat.{le-mul_of_pos_right}
use corelib_c_cpp.Wire.{type_fixlenarray, type_fixlen}
use corelib_c_cpp.Istream.{
  Memory, State, idle, varint_unsigned, varint_signed, fixlen_len, array_count, fixlen_val,
  fixlen_raw, Istream, set_state, fieldtype, size_pred, Outcome, next, reject, bad_argument,
  then_next,
}
use corelib_c_cpp.Istream.Safe.{Within, is_array}
use corelib_c_cpp.Istream.Stores.{store_bytes-beyond}
use corelib_c_cpp.Istream.Answers.{span_of, IsWaiting}
use corelib_c_cpp.Istream.Scalar.{store_bytes, store_scalar}

-- What holds of a target pointer, if there is one.
abbrev pub OnTarget : (ℕ → Type 0) → Option ℕ → Type 0
OnTarget P none = Unit
OnTarget P (some p) = P p

pub OnTarget-map :
    (P Q : ℕ → Type 0) (t : Option ℕ) → ((p : ℕ) → P p → Q p) → OnTarget P t → OnTarget Q t
OnTarget-map P Q none f r = tt
OnTarget-map P Q (some p) f r = f p r

module _ (a b : ℕ) where
  -- What is left to be stored lies from `a` up to `b`.
  pub record IsElement (p opt len count : ℕ) : Type 0 where
    pub from : a ≤ p
    pub upto : p + span_of opt len count ≤ b
    pub live : is_array opt ≡ true → 0 < count

  pub record IsPayload (p opt len count remaining : ℕ) : Type 0 where
    pub from : a ≤ p
    pub upto : p + remaining + (if is_array opt then (count - 1) * len else 0) ≤ b
    pub live : is_array opt ≡ true → (0 < count) × (0 < len)
    pub unread : 0 < remaining

  -- What a state asks of the target pointer, the option word, length, count and the remaining
  -- payload.
  abbrev pub Room : State → Option ℕ → ℕ → ℕ → ℕ → ℕ → Type 0
  Room idle t opt len count remaining = Unit
  Room varint_unsigned t opt len count remaining = OnTarget (λ p. IsElement p opt len count) t
  Room varint_signed t opt len count remaining = OnTarget (λ p. IsElement p opt len count) t
  Room fixlen_len t opt len count remaining =
      (t ≡ none) × ((fieldtype opt ≡ type_fixlen) ⊎ (fieldtype opt ≡ type_fixlenarray))
  Room array_count t opt len count remaining = (t ≡ none) × (is_array opt ≡ true)
  Room fixlen_val t opt len count remaining = OnTarget (λ p. IsPayload p opt len count remaining) t
  Room fixlen_raw t opt len count remaining = OnTarget (λ p. IsPayload p opt len count remaining) t

  -- The end of the region is an address.
  abbrev pub IsAddress : Type 0
  IsAddress = b < 2 ^ 64

  pub Room-at :
      (s s' : State) (t t' : Option ℕ) (opt len count remaining : ℕ)
      → s ≡ s'
      → t ≡ t'
      → Room s' t' opt len count remaining
      → Room s t opt len count remaining
  Room-at s s' t t' opt len count remaining e q r =
      subst (λ x. Room x t opt len count remaining) (sym e)
        (subst (λ x. Room s' x opt len count remaining) (sym q) r)

pub size_pred_pos : (n : ℕ) → 0 < n → n ≤ 2 ^ 64 → size_pred n ≡ n - 1
size_pred_pos n h k = omega arith

pub mul_pred : (count len : ℕ) → 0 < count → count * len ≡ len + (count - 1) * len
mul_pred count len h =
    let whole : count * len ≡ (1 + (count - 1)) * len = ap (λ n. n * len) (omega arith) in
    omega (arith, whole)

module _ {a b p opt len count : ℕ} (room : b < 2 ^ 64) (e : IsElement a b p opt len count)
    (k : is_array opt ≡ true) (l : 0 < len) where
  element_count : (0 < count) × (count < 2 ^ 64)
  element_count =
      let live = e.live k in
      let upto = e.upto in
      let more = le-mul_of_pos_right count l in (live, ground (arith, k, upto, more))

  pub next-IsElement : 0 < size_pred count → IsElement a b (p + len) opt len (size_pred count)
  next-IsElement h =
      let small = element_count in
      let less = size_pred_pos count small.0 (omega (arith, small.1)) in
      let upto = e.upto in
      let split = mul_pred count len small.0 in
      record {
        from = omega (arith, e.from);
        upto = rw less (ground (arith, k, upto, split));
        live = λ q. h;
      }

pub one_element : {a b p opt len count : ℕ} → IsElement a b p opt len count → p + len ≤ b
one_element {opt = opt} {len = len} {count = count} e = elim (Bool-cases (is_array opt)) [
  | inl k ↦
      let upto = e.upto in
      let split = mul_pred count len (e.live k) in ground (arith, k, upto, split)
  | inr k ↦ let upto = e.upto in ground (arith, k, upto)
]

pub stored :
    (mem : Memory) (p len value : ℕ) (mem' : Memory)
    → store_scalar mem p len value ≡ some mem'
    → (0 < len) × Within p (p + len) mem mem'
unfolding store_scalar
stored mem p len value mem' e = elim (Bool-cases (len == 1 || len == 2 || len == 4 || len == 8)) [
  | inl k ↦
      let same : some (store_bytes mem p len value) ≡ some mem' =
        sym (ap (λ t. if t then some (store_bytes mem p len value) else none) k) ∙ e in
      (
        ground (arith, k),
        subst (λ m. Within p (p + len) mem m) (some-injective _ _ same)
            (record { kept = λ q o. store_bytes-beyond mem len p value q o }),
      )
  | inr k ↦
      let none_left : none ≡ some mem' =
        sym (ap (λ t. if t then some (store_bytes mem p len value) else none) k) ∙ e in
      cc
]

module _ {H : Type 0} (IsHandler : H → Type 0) (a b : ℕ) {U : Type 0} where
  pub record Safe (ctx : Istream H U) : Type 0 where
    pub handler : IsHandler ctx.decoder.handler
    pub parents : All (IsWaiting IsHandler) ctx.parents
    pub room :
        Room a b ctx.decoder.state ctx.target_ptr ctx.target_opt ctx.target_len ctx.target_count
          ctx.fixlen_remaining

  -- The outcome of a step on a stream with a memory.
  pub data Leads (P : Istream H U → Type 0) (mem : Memory) : Outcome (Istream H U) → Type 0 where
    goes : {ctx : Istream H U} → Within a b mem ctx.mem → P ctx → Leads P mem (next ctx)
    fails : {ctx : Istream H U} → Within a b mem ctx.mem → Leads P mem (reject ctx)
    stops : {ctx : Istream H U} → Within a b mem ctx.mem → Leads P mem (bad_argument ctx)

  abbrev pub Holds : Memory → Outcome (Istream H U) → Type 0
  Holds mem o = Leads Safe mem o

  pub Holds-if :
      {P : Istream H U → Type 0} {mem : Memory} (test : Bool) (x y : Outcome (Istream H U))
      → (test ≡ true → Leads P mem x)
      → (test ≡ false → Leads P mem y)
      → Leads P mem (if test then x else y)
  Holds-if true x y p q = p refl
  Holds-if false x y p q = q refl

  pub Holds-then :
      {P Q : Istream H U → Type 0} {mem : Memory} (o : Outcome (Istream H U))
      (f : Istream H U → Outcome (Istream H U))
      → Leads P mem o
      → ((c : Istream H U) → Within a b mem c.mem → P c → Leads Q mem (f c))
      → Leads Q mem (then_next o f)
  Holds-then (next ctx) f (goes w p) q = q ctx w p
  Holds-then (reject ctx) f (fails w) q = fails w
  Holds-then (bad_argument ctx) f (stops w) q = stops w

  pub Holds-option :
      {P : Istream H U → Type 0} {mem : Memory} {A : Type 0} (o : Option A)
      (x : Outcome (Istream H U)) (f : A → Outcome (Istream H U))
      → (o ≡ none → Leads P mem x)
      → ((v : A) → o ≡ some v → Leads P mem (f v))
      → Leads P mem (elim o [ none ↦ x | some v ↦ f v ])
  Holds-option none x f p q = p refl
  Holds-option (some v) x f p q = q v refl

  -- Between fields there is nothing to keep.
  pub idle-Holds :
      (mem : Memory) (ctx : Istream H U)
      → Within a b mem ctx.mem
      → IsHandler ctx.decoder.handler
      → All (IsWaiting IsHandler) ctx.parents
      → Holds mem (next (set_state idle ctx))
  idle-Holds mem ctx w h ps = goes w (record { handler = h; parents = ps; room = tt })
