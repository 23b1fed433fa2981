-- ===== src/Cpp/Resized.antt =====
-- The slots of an `InlineVector` that `resize` and `emplace_back` write.
use corelib_c_cpp.Base.{
  ℕ, zero, suc, ◌<◌, ◌^◌, ◌+◌, ◌-◌, ◌≤◌, ◌≡◌, refl, sym, ap, ◌∙◌, Bool-cases, inl, inr, true, false,
  List, [], ◌∷◌, ◌++◌, append_assoc, append-nil, ltb, leb, if◌then◌else◌, length, take, drop, set,
  length-set, length-append, length-take, length-drop, take-drop, arith,
}
use corelib_c_cpp.Istream.{size_pred}
use corelib_c_cpp.Cpp.InlineVector.{InlineVector, reset, resize, emplace_back}
use corelib_c_cpp.Cpp.Slots.{
  Holds, copies, blanked, resized, emplaced, set-append, length-snoc, take-all, Holds-list,
  Holds-len, set-full, put-Holds,
}

module _ {A : Type 0} where
  pub reset-blanked :
      (blank : A) (n : ℕ) (xs ys : List A)
      → n ≤ length ys
      → reset blank (length xs) n (xs ++ ys) ≡ xs ++ blanked blank n ys
  unfolding reset
  reset-blanked blank zero xs ys h = refl
  reset-blanked blank (suc n) xs [] h = elim h [ ]
  reset-blanked blank (suc n) xs (y ∷ ys) h =
      ap (reset blank (length xs + 1) n) (set-append xs y blank ys)
      ∙ ap (λ i. reset blank i n ((xs ++ blank ∷ []) ++ ys)) (sym (length-snoc xs blank))
      ∙ reset-blanked blank n (xs ++ blank ∷ []) ys (omega arith)
      ∙ append_assoc xs (blank ∷ []) (blanked blank n ys)

  pub blanked-copies :
      (blank : A) (n : ℕ) (ys : List A)
      → n ≤ length ys
      → blanked blank n ys ≡ copies n blank ++ drop n ys
  blanked-copies blank zero ys h = refl
  blanked-copies blank (suc n) [] h = elim h [ ]
  blanked-copies blank (suc n) (y ∷ ys) h =
      ap (λ t. blank ∷ t) (blanked-copies blank n ys (omega arith))

  pub length-blanked : (blank : A) (n : ℕ) (ys : List A) → length (blanked blank n ys) ≡ length ys
  length-blanked blank zero ys = refl
  length-blanked blank (suc n) [] = refl
  length-blanked blank (suc n) (y ∷ ys) = ap suc (length-blanked blank n ys)

  pub length-copies : (n : ℕ) (x : A) → length (copies n x) ≡ n
  length-copies zero x = refl
  length-copies (suc n) x = ap suc (length-copies n x)

  -- The loop that grows, from the length on.
  pub grown-Holds :
      (cap : ℕ) (blank : A) (n : ℕ) (v : InlineVector A) (xs : List A)
      → Holds cap v xs
      → length xs + n ≤ cap
      → Holds cap
          (record { buf = reset blank v.len n v.buf; len = v.len + n })
          (xs ++ copies n blank)
  grown-Holds cap blank n v xs r h = record {
    rest = drop n r.rest;
    buf =
        ap (λ i. reset blank i n v.buf) r.len
        ∙ ap (reset blank (length xs) n) r.buf
        ∙ reset-blanked blank n xs r.rest (omega (arith, r.size))
        ∙ ap (λ t. xs ++ t) (blanked-copies blank n r.rest (omega (arith, r.size)))
        ∙ sym (append_assoc xs (copies n blank) (drop n r.rest));
    len = omega (arith, r.len, length-append xs (copies n blank), length-copies n blank);
    size = omega (
      arith,
      r.size,
      length-append xs (copies n blank),
      length-copies n blank,
      length-drop n r.rest,
    );
  }

  -- The loop that shrinks, from the new length on.
  pub shrunk-Holds :
      (cap : ℕ) (blank : A) (n : ℕ) (v : InlineVector A) (xs : List A)
      → Holds cap v xs
      → n ≤ length xs
      → Holds cap (record { buf = reset blank n (v.len - n) v.buf; len = n }) (take n xs)
  shrunk-Holds cap blank n v xs r h =
      let kept : length (take n xs) ≡ n = omega (arith, length-take n xs) in
      let split : v.buf ≡ take n xs ++ (drop n xs ++ r.rest) =
        r.buf
        ∙ ap (λ t. t ++ r.rest) (sym (take-drop n xs))
        ∙ append_assoc (take n xs) (drop n xs) r.rest in
      let lengths : length (drop n xs ++ r.rest) ≡ length xs - n + length r.rest =
        omega (arith, length-append (drop n xs) r.rest, length-drop n xs) in
      record {
        rest = blanked blank (v.len - n) (drop n xs ++ r.rest);
        buf =
            ap (λ i. reset blank i (v.len - n) v.buf) (sym kept)
            ∙ ap (reset blank (length (take n xs)) (v.len - n)) split
            ∙ reset-blanked blank (v.len - n) (take n xs) (drop n xs ++ r.rest)
                (omega (arith, lengths, r.len));
        len = sym kept;
        size =
            omega (
              arith,
              kept,
              lengths,
              r.size,
              length-blanked blank (v.len - n) (drop n xs ++ r.rest),
            );
      }

  pub resized_to :
      (cap : ℕ) (blank : A) (n : ℕ) (v : InlineVector A) (xs : List A)
      → Holds cap v xs
      → n ≤ cap
      → Holds cap
          (record {
            buf = reset blank v.len (n - v.len) (reset blank n (v.len - n) v.buf);
            len = n;
          })
          (take n xs ++ copies (n - length xs) blank)
  unfolding reset
  resized_to cap blank n v xs r h = elim (Bool-cases (leb n (length xs))) [
    | inl e ↦
        let none_new : n - v.len ≡ 0 = ground (arith, r.len) in
        let none_more : n - length xs ≡ 0 = ground arith in
        rw (none_new, none_more)
          (Holds-list (sym (append-nil (take n xs)))
            (shrunk-Holds cap blank n v xs r (ground arith)))
    | inr e ↦
        let none_old : v.len - n ≡ 0 = ground (arith, r.len) in
        let above : length xs ≤ n = ground arith in
        let to_end : v.len + (n - v.len) ≡ n = omega (arith, above, r.len) in
        let same : xs ++ copies (n - v.len) blank ≡ take n xs ++ copies (n - length xs) blank =
          ap (λ i. xs ++ copies (n - i) blank) r.len
          ∙ ap (λ t. t ++ copies (n - length xs) blank) (sym (take-all n xs above)) in
        rw none_old (
          Holds-list same (
            Holds-len to_end
              (grown-Holds cap blank (n - v.len) v xs r (omega (arith, h, above, r.len)))))
  ]

  pub resize-Holds :
      (cap : ℕ) (blank : A) (n : ℕ) (v : InlineVector A) (xs : List A)
      → Holds cap v xs
      → Holds cap (resize cap blank n v) (resized cap blank n xs)
  unfolding resize
  resize-Holds cap blank n v xs r =
      resized_to cap blank (if ltb cap n then cap else n) v xs r (ground arith)

  pub emplace_back-Holds :
      (cap : ℕ) (blank : A) (v : InlineVector A) (xs : List A)
      → 0 < cap
      → cap < 2 ^ 64
      → Holds cap v xs
      → Holds cap (emplace_back cap blank v) (emplaced cap blank xs)
  unfolding emplace_back
  emplace_back-Holds cap blank v xs k l r = elim (Bool-cases (ltb (length xs) cap)) [
    | inl room ↦
        let free : ltb v.len cap ≡ true = ground (arith, r.len) in
        rw (free, room) (put-Holds cap blank v xs r (ground arith))
    | inr full ↦
        let used : ltb v.len cap ≡ false = ground (arith, r.len) in
        let last : size_pred cap ≡ cap - 1 = omega (arith, k, l) in
        rw (used, full, last)
          (record {
            rest = r.rest;
            buf =
                ap (λ t. set t (cap - 1) blank) r.buf
                ∙ set-full xs r.rest (cap - 1) blank (ground (arith, r.size));
            len = r.len ∙ sym (length-set xs (cap - 1) blank);
            size = omega (arith, length-set xs (cap - 1) blank, r.size);
          })
  ]
