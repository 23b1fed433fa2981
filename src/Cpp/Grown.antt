-- ===== src/Cpp/Grown.antt =====
-- The loops of the collectors that make room for an element.
use corelib_c_cpp.Base.{
  ℕ, zero, suc, ◌<◌, ◌≡◌, sym, ap, ◌∙◌, true, List, [], ◌∷◌, ◌++◌, append_assoc, append-nil, ltb,
  leb, length, arith,
}
use corelib_c_cpp.Cpp.InlineVector.{InlineVector, emplace_back}
use corelib_c_cpp.Cpp.Slots.{Holds, copies, put-Holds, Holds-list, length-snoc}
use corelib_c_cpp.Cpp.Collectors.{fill, grow, rounds}

module _ {A : Type 0} where
  append-copies :
      (xs : List A) (n : ℕ) (x : A) → (xs ++ x ∷ []) ++ copies n x ≡ xs ++ copies (suc n) x
  append-copies xs n x = append_assoc xs (x ∷ []) (copies n x)

  pub grow-copies :
      (blank : A) (fuel id : ℕ) (out : List A)
      → rounds id (length out) ≡ fuel
      → grow fuel blank id out ≡ out ++ copies (rounds id (length out)) blank
  unfolding grow
  grow-copies blank zero id out e = rw e (sym (append-nil out))
  grow-copies blank (suc fuel) id out e =
      let small : leb (length out) id ≡ true = ground arith in
      let one_less : rounds id (length (out ++ blank ∷ [])) ≡ fuel =
        omega (arith, length-snoc out blank, e) in
      rw (small, e)
        (grow-copies blank fuel id (out ++ blank ∷ []) one_less
          ∙ ap (λ n. (out ++ blank ∷ []) ++ copies n blank) one_less
          ∙ append-copies out fuel blank)

  pub fill-Holds :
      (cap : ℕ) (blank : A) (fuel id : ℕ) (out : InlineVector A) (xs : List A)
      → Holds cap out xs
      → id < cap
      → rounds id (length xs) ≡ fuel
      → Holds cap (fill fuel cap blank id out) (xs ++ copies fuel blank)
  unfolding fill emplace_back
  fill-Holds cap blank zero id out xs r h e = Holds-list (sym (append-nil xs)) r
  fill-Holds cap blank (suc fuel) id out xs r h e =
      let small : leb out.len id ≡ true = ground (arith, r.len) in
      let free : ltb out.len cap ≡ true = ground (arith, r.len) in
      rw (small, free)
        (Holds-list (append-copies xs fuel blank) (
          fill-Holds cap blank fuel id _ (xs ++ blank ∷ [])
            (put-Holds cap blank out xs r (omega (arith, e, h))) h
            (omega (arith, length-snoc xs blank, e))))
