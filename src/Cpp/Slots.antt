-- ===== src/Cpp/Slots.antt =====
-- The slots of an `InlineVector`: the list that is held, and the writes of `push_back` and `assign`.
use corelib_c_cpp.Base.{
  ℕ, zero, suc, ◌+◌, ◌-◌, ◌≤◌, ◌<◌, ◌≡◌, refl, sym, ap, ◌∙◌, Bool, true, false, List, [], ◌∷◌, ◌++◌,
  append_assoc, append-nil, ltb, leb, if◌then◌else◌, length, take, set, length-append,
  take-append-length, arith,
}
use mathlib.Core.Path.{subst}
use corelib_c_cpp.Cpp.InlineVector.{InlineVector, push_back, assign_loop}

module _ {A : Type 0} where
  -- The buffer begins with `xs`, and all of it has the size of the capacity.
  pub record Holds (cap : ℕ) (v : InlineVector A) (xs : List A) : Type 0 where
    pub rest : List A
    pub buf : v.buf ≡ xs ++ rest
    pub len : v.len ≡ length xs
    pub size : length xs + length rest ≡ cap

  abbrev pub copies : ℕ → A → List A
  copies zero x = []
  copies (suc n) x = x ∷ copies n x

  -- The first `n` elements replaced.
  abbrev pub blanked : A → ℕ → List A → List A
  blanked x zero ys = ys
  blanked x (suc n) [] = []
  blanked x (suc n) (y ∷ ys) = x ∷ blanked x n ys

  -- What the operations mean for the list that is held.
  abbrev pub appended : ℕ → List A → List A → List A
  appended cap xs init = take cap (xs ++ init)

  abbrev pub resized : ℕ → A → ℕ → List A → List A
  resized cap blank n xs =
      let n' = if ltb cap n then cap else n in take n' xs ++ copies (n' - length xs) blank

  abbrev pub emplaced : ℕ → A → List A → List A
  emplaced cap blank xs = if ltb (length xs) cap then xs ++ blank ∷ [] else set xs (cap - 1) blank

  pub set-append :
      (xs : List A) (y x : A) (ys : List A)
      → set (xs ++ y ∷ ys) (length xs) x ≡ (xs ++ x ∷ []) ++ ys
  set-append [] y x ys = refl
  set-append (z ∷ xs) y x ys = ap (λ t. z ∷ t) (set-append xs y x ys)

  pub length-snoc : (xs : List A) (x : A) → length (xs ++ x ∷ []) ≡ length xs + 1
  length-snoc xs x = omega (arith, length-append xs (x ∷ []))

  pub take-all : (n : ℕ) (xs : List A) → length xs ≤ n → take n xs ≡ xs
  take-all zero [] h = refl
  take-all zero (x ∷ xs) h = elim h [ ]
  take-all (suc n) [] h = refl
  take-all (suc n) (x ∷ xs) h = ap (λ t. x ∷ t) (take-all n xs (omega arith))

  pub put_before :
      (cap : ℕ) (x : A) (v : InlineVector A) (xs rest : List A)
      → v.buf ≡ xs ++ rest
      → v.len ≡ length xs
      → length xs + length rest ≡ cap
      → length xs < cap
      → Holds cap (record { buf = set v.buf v.len x; len = v.len + 1 }) (xs ++ x ∷ [])
  put_before cap x v xs [] b l s h = ground arith
  put_before cap x v xs (y ∷ rest) b l s h = record {
    rest = rest;
    buf = ap (λ t. set t v.len x) b ∙ ap (λ i. set (xs ++ y ∷ rest) i x) l ∙ set-append xs y x rest;
    len = ap (λ i. i + 1) l ∙ sym (length-snoc xs x);
    size = omega (arith, length-snoc xs x, s);
  }

  pub Holds-list :
      {cap : ℕ} {v : InlineVector A} {xs ys : List A} → xs ≡ ys → Holds cap v xs → Holds cap v ys
  Holds-list {cap} {v} e r = subst (λ t. Holds cap v t) e r

  pub Holds-len :
      {cap m n : ℕ} {buf xs : List A}
      → m ≡ n
      → Holds cap (record { buf = buf; len = m }) xs
      → Holds cap (record { buf = buf; len = n }) xs
  Holds-len {cap} {buf = buf} {xs} e r =
      subst (λ l. Holds cap (record { buf = buf; len = l }) xs) e r

  pub set-full :
      (xs ys : List A) (i : ℕ) (x : A) → length ys ≡ 0 → set (xs ++ ys) i x ≡ set xs i x ++ ys
  set-full xs [] i x e = ap (λ t. set t i x) (append-nil xs) ∙ sym (append-nil (set xs i x))
  set-full xs (y ∷ ys) i x e = ground arith

  -- One more element, at the place that `len` tells.
  pub put-Holds :
      (cap : ℕ) (x : A) (v : InlineVector A) (xs : List A)
      → Holds cap v xs
      → length xs < cap
      → Holds cap (record { buf = set v.buf v.len x; len = v.len + 1 }) (xs ++ x ∷ [])
  put-Holds cap x v xs r h = put_before cap x v xs r.rest r.buf r.len r.size h

  pub take-full : (cap : ℕ) (xs ys : List A) → length xs ≡ cap → take cap (xs ++ ys) ≡ xs
  take-full cap xs ys e = ap (λ n. take n (xs ++ ys)) (sym e) ∙ take-append-length xs ys

  pub if-Holds :
      (cap : ℕ) (b : Bool) (v w : InlineVector A) (xs : List A)
      → (b ≡ true → Holds cap v xs)
      → (b ≡ false → Holds cap w xs)
      → Holds cap (if b then v else w) xs
  if-Holds cap true v w xs p q = p refl
  if-Holds cap false v w xs p q = q refl

  pub assign_loop-Holds :
      (cap : ℕ) (init : List A) (v : InlineVector A) (xs : List A)
      → Holds cap v xs
      → Holds cap (assign_loop cap init v) (appended cap xs init)
  unfolding assign_loop
  assign_loop-Holds cap [] v xs r =
      Holds-list (sym (ap (take cap) (append-nil xs) ∙ take-all cap xs (omega (arith, r.size)))) r
  assign_loop-Holds cap (x ∷ init) v xs r =
      if-Holds cap (leb cap v.len) _ _ _
        (λ full. Holds-list (sym (take-full cap xs (x ∷ init) (ground (arith, r.size, r.len)))) r)
        (λ room. Holds-list (ap (take cap) (append_assoc xs (x ∷ []) init)) (
          assign_loop-Holds cap init _ (xs ++ x ∷ [])
            (put-Holds cap x v xs r (ground (arith, r.size, r.len)))))

  pub cleared-Holds :
      (cap : ℕ) (v : InlineVector A) (xs : List A)
      → Holds cap v xs
      → Holds cap (record v { len = 0 }) []
  cleared-Holds cap v xs r = record {
    rest = xs ++ r.rest;
    buf = r.buf;
    len = refl;
    size = omega (arith, length-append xs r.rest, r.size);
  }

  pub push_back-Holds :
      (cap : ℕ) (x : A) (v : InlineVector A) (xs : List A)
      → Holds cap v xs
      → Holds cap (push_back cap x v) (appended cap xs (x ∷ []))
  unfolding push_back
  push_back-Holds cap x v xs r =
      if-Holds cap (ltb v.len cap) _ _ _
        (λ room.
          Holds-list
            (sym (take-all cap (xs ++ x ∷ []) (ground (arith, r.size, r.len, length-snoc xs x))))
            (put-Holds cap x v xs r (ground (arith, r.size, r.len))))
        (λ full. Holds-list (sym (take-full cap xs (x ∷ []) (ground (arith, r.size, r.len)))) r)
