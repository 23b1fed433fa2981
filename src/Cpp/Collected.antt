-- ===== src/Cpp/Collected.antt =====
-- The heap-free collectors against the growable ones.
use corelib_c_cpp.Base.{
  ℕ, zero, suc, ◌+◌, ◌<◌, ◌≡◌, ◌==◌, refl, sym, ap, ◌∙◌, Bool, Bool-cases, inl, inr, true, false,
  List, [], ◌∷◌, ◌++◌, Option, some, ltb, leb, if◌then◌else◌, length, set, get_or, length-append,
  length-set, arith,
}
use corelib_c_cpp.Wire.{type_sequence_start}
use corelib_c_cpp.Cpp.Refusal.{IstreamImpl, DynCap, refuse_schema, refuse_bound, wire}
use corelib_c_cpp.Cpp.InlineVector.{InlineVector, contents}
use corelib_c_cpp.Cpp.Slots.{Holds, Holds-list, copies}
use corelib_c_cpp.Cpp.Resized.{length-copies}
use corelib_c_cpp.Cpp.Bounded.{contents-Holds}
use corelib_c_cpp.Cpp.Collectors.{
  rounds, read_at, read_in, collect_fixed, collect_grown, fixed_message_seq, read_message,
  message_seq,
}
use corelib_c_cpp.Cpp.Grown.{grow-copies, fill-Holds}

module _ {A : Type 0} where
  set-append-left :
      (xs ys : List A) (i : ℕ) (x : A) → i < length xs → set (xs ++ ys) i x ≡ set xs i x ++ ys
  set-append-left [] ys i x h = elim h [ ]
  set-append-left (z ∷ xs) ys zero x h = refl
  set-append-left (z ∷ xs) ys (suc i) x h =
      ap (λ t. z ∷ t) (set-append-left xs ys i x (omega arith))

  get_or-append-left :
      (xs ys : List A) (i : ℕ) (x : A) → i < length xs → get_or (xs ++ ys) i x ≡ get_or xs i x
  get_or-append-left [] ys i x h = elim h [ ]
  get_or-append-left (z ∷ xs) ys zero x h = refl
  get_or-append-left (z ∷ xs) ys (suc i) x h = get_or-append-left xs ys i x (omega arith)

  -- Room for an element at `id`.
  abbrev pub padded : A → ℕ → List A → List A
  padded blank id xs = xs ++ copies (rounds id (length xs)) blank

  padded-above : (blank : A) (id : ℕ) (xs : List A) → id < length (padded blank id xs)
  padded-above blank id xs = omega (
    arith,
    length-append xs (copies (rounds id (length xs)) blank),
    length-copies (rounds id (length xs)) blank,
  )

module _ {H U A : Type 0} (read_elem : ℕ → A → IstreamImpl H U → A × IstreamImpl H U) where
  -- What two collectors have done agrees.
  pub record Agrees (cap : ℕ) (f : InlineVector A × IstreamImpl H U) (g : List A × IstreamImpl H U)
      : Type 0 where
    pub holds : Holds cap f.0 g.0
    pub same : f.1 ≡ g.1

  read_at-Agrees :
      (cap : ℕ) (blank : A) (id : ℕ) (v : InlineVector A) (xs : List A) (is : IstreamImpl H U)
      → Holds cap v xs
      → id < length xs
      → Agrees cap (read_at read_elem blank id (v, is)) (read_in read_elem blank id (xs, is))
  unfolding read_at read_in
  read_at-Agrees cap blank id v xs is r h =
      let found : get_or v.buf id blank ≡ get_or xs id blank =
        ap (λ t. get_or t id blank) r.buf ∙ get_or-append-left xs r.rest id blank h in
      let new = read_elem id (get_or xs id blank) is in
      rw found (record {
        holds = record {
          rest = r.rest;
          buf = ap (λ t. set t id new.0) r.buf ∙ set-append-left xs r.rest id new.0 h;
          len = r.len ∙ sym (length-set xs id new.0);
          size = omega (arith, r.size, length-set xs id new.0);
        };
        same = refl;
      })

  collect_fixed-Agrees :
      (cap : ℕ) (dyn_cap : DynCap) (blank : A) (id : ℕ) (v : InlineVector A) (xs : List A)
      (is : IstreamImpl H U)
      → Holds cap v xs
      → Agrees cap
          (collect_fixed read_elem cap blank id (v, is))
          (collect_grown read_elem (some cap) dyn_cap blank id (xs, is))
  unfolding collect_fixed collect_grown refuse_bound refuse_schema
  collect_fixed-Agrees cap dyn_cap blank id v xs is r = elim (Bool-cases (leb cap id)) [
    | inl e ↦
        let over : ltb cap (id + 1) ≡ true = ground arith in
        rw (e, over) (record { holds = r; same = refl })
    | inr e ↦
        let within : ltb cap (id + 1) ≡ false = ground arith in
        let made =
          fill-Holds cap blank (rounds id v.len) id v xs r (ground arith)
            (ap (rounds id) (sym r.len)) in
        rw (e, within, grow-copies blank (rounds id (length xs)) id xs refl)
          (read_at-Agrees cap blank id _ (padded blank id xs) is
            (Holds-list (ap (λ n. xs ++ copies (rounds id n) blank) r.len) made)
            (padded-above blank id xs))
  ]

  if-Agrees :
      {cap : ℕ} (b : Bool) {f f' : InlineVector A × IstreamImpl H U}
      {g g' : List A × IstreamImpl H U}
      → Agrees cap f g
      → Agrees cap f' g'
      → Agrees cap (if b then f else f') (if b then g else g')
  if-Agrees true p q = p
  if-Agrees false p q = q

  -- An element that a growable collector accepts, within its limits, stands in the list at its id:
  -- the list has grown to hold it with blank elements, and every other place is as it was.
  pub collect_grown-padded :
      (cap : Option ℕ) (dyn_cap : DynCap) (blank : A) (id : ℕ) (xs : List A) (is : IstreamImpl H U)
      → collect_grown read_elem cap dyn_cap blank id (xs, is) ≡ (
          let (refused, is') = refuse_bound (id + 1) cap dyn_cap is in
          let (elem, after) = read_elem id (get_or (padded blank id xs) id blank) is' in
          if refused then (xs, is') else (set (padded blank id xs) id elem, after))
  unfolding collect_grown read_in
  collect_grown-padded cap dyn_cap blank id xs is =
      rw (grow-copies blank (rounds id (length xs)) id xs refl) refl

module _ {H U A : Type 0} (handler : ℕ → H) where
  -- On one element, whatever its tag and its id, the heap-free collector of messages leaves in its
  -- vector the list, and on the stream the state, that the growable collector with the capacity as
  -- the schema's count makes of the list the vector held: no slot beyond the capacity is written.
  pub fixed_message_seq-message_seq :
      (cap : ℕ) (dyn_cap : DynCap) (blank : A) (id : ℕ) (v : InlineVector A) (xs : List A)
      (is : IstreamImpl H U)
      → Holds cap v xs
      → (contents (fixed_message_seq handler cap blank id (v, is)).0
          ≡ (message_seq handler (some cap) dyn_cap blank id (xs, is)).0)
        × ((fixed_message_seq handler cap blank id (v, is)).1
            ≡ (message_seq handler (some cap) dyn_cap blank id (xs, is)).1)
  unfolding fixed_message_seq message_seq
  fixed_message_seq-message_seq cap dyn_cap blank id v xs is r =
      let read = read_message handler in
      let kept : Agrees read cap (v, is) (xs, is) = record { holds = r; same = refl } in
      let done =
        if-Agrees read (wire is == type_sequence_start)
          (collect_fixed-Agrees read cap dyn_cap blank id v xs is r) kept in
      (contents-Holds cap _ _ done.holds, done.same)
