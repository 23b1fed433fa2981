-- ===== src/Cpp/Bounded.antt =====
-- `InlineVector` of sofab.hpp as a list of bounded length.
use corelib_c_cpp.Base.{
  ℕ, ◌^◌, ◌<◌, ◌≤◌, ◌≡◌, refl, ap, ◌∙◌, List, [], ◌∷◌, length, take, length-append,
  take-append-length, arith,
}
use corelib_c_cpp.Cpp.InlineVector.{
  InlineVector, push_back, assign, clear, resize, emplace_back, contents,
}
use corelib_c_cpp.Cpp.Slots.{
  Holds, appended, resized, emplaced, assign_loop-Holds, cleared-Holds, push_back-Holds,
}
use corelib_c_cpp.Cpp.Resized.{resize-Holds, emplace_back-Holds}

-- The operations, in the order in which a program calls them.
pub data Op (A : Type 0) : Type 0 where
  push_op : A → Op A
  assign_op : List A → Op A
  clear_op : Op A
  resize_op : ℕ → Op A
  emplace_op : Op A

module _ {A : Type 0} where
  abbrev pub apply_op : ℕ → A → Op A → InlineVector A → InlineVector A
  apply_op cap blank (push_op x) v = push_back cap x v
  apply_op cap blank (assign_op init) v = assign cap init v
  apply_op cap blank clear_op v = clear v
  apply_op cap blank (resize_op n) v = resize cap blank n v
  apply_op cap blank emplace_op v = emplace_back cap blank v

  -- On a list: what does not fit is dropped, but an emplaced element takes the last place.
  abbrev pub list_op : ℕ → A → Op A → List A → List A
  list_op cap blank (push_op x) xs = appended cap xs (x ∷ [])
  list_op cap blank (assign_op init) xs = take cap init
  list_op cap blank clear_op xs = []
  list_op cap blank (resize_op n) xs = resized cap blank n xs
  list_op cap blank emplace_op xs = emplaced cap blank xs

  abbrev pub apply_ops : ℕ → A → List (Op A) → InlineVector A → InlineVector A
  apply_ops cap blank [] v = v
  apply_ops cap blank (op ∷ ops) v = apply_ops cap blank ops (apply_op cap blank op v)

  abbrev pub list_ops : ℕ → A → List (Op A) → List A → List A
  list_ops cap blank [] xs = xs
  list_ops cap blank (op ∷ ops) xs = list_ops cap blank ops (list_op cap blank op xs)

  apply_op-Holds :
      (cap : ℕ) (blank : A) (op : Op A) (v : InlineVector A) (xs : List A)
      → 0 < cap
      → cap < 2 ^ 64
      → Holds cap v xs
      → Holds cap (apply_op cap blank op v) (list_op cap blank op xs)
  unfolding assign clear
  apply_op-Holds cap blank (push_op x) v xs k l r = push_back-Holds cap x v xs r
  apply_op-Holds cap blank (assign_op init) v xs k l r =
      assign_loop-Holds cap init (record v { len = 0 }) [] (cleared-Holds cap v xs r)
  apply_op-Holds cap blank clear_op v xs k l r = cleared-Holds cap v xs r
  apply_op-Holds cap blank (resize_op n) v xs k l r = resize-Holds cap blank n v xs r
  apply_op-Holds cap blank emplace_op v xs k l r = emplace_back-Holds cap blank v xs k l r

  apply_ops-Holds :
      (cap : ℕ) (blank : A) (ops : List (Op A)) (v : InlineVector A) (xs : List A)
      → 0 < cap
      → cap < 2 ^ 64
      → Holds cap v xs
      → Holds cap (apply_ops cap blank ops v) (list_ops cap blank ops xs)
  apply_ops-Holds cap blank [] v xs k l r = r
  apply_ops-Holds cap blank (op ∷ ops) v xs k l r =
      apply_ops-Holds cap blank ops _ _ k l (apply_op-Holds cap blank op v xs k l r)

  pub contents-Holds :
      (cap : ℕ) (v : InlineVector A) (xs : List A) → Holds cap v xs → contents v ≡ xs
  unfolding contents
  contents-Holds cap v xs r =
      ap (λ i. take i v.buf) r.len ∙ ap (take (length xs)) r.buf ∙ take-append-length xs r.rest

  -- After any operations on an empty vector of a capacity that is not 0, whose buffer has the size
  -- of that capacity and fits in the address space, the vector
  -- holds what the same operations make of the empty list, its buffer still has that size, and its
  -- length is within the capacity.
  pub apply_ops-contents :
      (cap : ℕ) (blank : A) (buf : List A) (ops : List (Op A))
      → 0 < cap
      → cap < 2 ^ 64
      → length buf ≡ cap
      → (contents (apply_ops cap blank ops (record { buf = buf; len = 0 }))
          ≡ list_ops cap blank ops [])
        × (length (InlineVector.buf (apply_ops cap blank ops (record { buf = buf; len = 0 })))
            ≡ cap)
        × (InlineVector.len (apply_ops cap blank ops (record { buf = buf; len = 0 })) ≤ cap)
  apply_ops-contents cap blank buf ops k l e =
      let r =
        apply_ops-Holds cap blank ops (record { buf = buf; len = 0 }) [] k l
          (record { rest = buf; buf = refl; len = refl; size = omega (arith, e) }) in
      (
        contents-Holds cap _ _ r,
        ap length r.buf ∙ omega (arith, r.size, length-append (list_ops cap blank ops []) r.rest),
        omega (arith, r.size, r.len),
      )
