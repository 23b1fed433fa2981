-- ===== src/Object/Filled.antt =====
-- Bytes that come from an image, or are zero, as the loops of object.c write and compare them.
use corelib_c_cpp.Base.{
  ℕ, zero, suc, ◌+◌, ◌≤◌, ◌<◌, ◌≡◌, refl, ap, ◌∙◌, true, Option, none, some, inl, arith,
}
use corelib_c_cpp.Istream.{Memory, write}
use corelib_c_cpp.Istream.Callback.{clear}
use corelib_c_cpp.Istream.Safe.{clear-Within}
use corelib_c_cpp.Object.Init.{copy_bytes}
use corelib_c_cpp.Object.Extent.{copy_bytes-Within}
use corelib_c_cpp.Object.Default.{iszero, same_bytes, same_text}

-- The `n` bytes at `p` are those of the image at `q`, or zero.
abbrev pub byte_at : Option Memory → ℕ → ℕ
byte_at none q = 0
byte_at (some image) q = image q

pub record Filled (image : Option Memory) (q : ℕ) (mem : Memory) (p n : ℕ) : Type 0 where
  pub same : (k : ℕ) → k < n → mem (p + k) ≡ byte_at image (q + k)

Filled-rest :
    (image : Option Memory) (q : ℕ) (mem : Memory) (p n : ℕ)
    → Filled image q mem p (suc n)
    → Filled image (q + 1) mem (p + 1) n
Filled-rest image q mem p n h = record {
  same = λ k small.
      let here : p + 1 + k ≡ p + (k + 1) = omega arith in
      let there : q + (k + 1) ≡ q + 1 + k = omega arith in
      ap mem here ∙ h.same (k + 1) (omega arith) ∙ ap (byte_at image) there;
}

Filled-first :
    (image : Option Memory) (q : ℕ) (mem : Memory) (p n : ℕ)
    → Filled image q mem p (suc n)
    → mem p ≡ byte_at image q
Filled-first image q mem p n h =
    let here : p ≡ p + 0 = omega arith in
    let there : q + 0 ≡ q = omega arith in
    ap mem here ∙ h.same 0 (omega arith) ∙ ap (byte_at image) there

pub Filled-less :
    (image : Option Memory) (q : ℕ) (mem : Memory) (p n m : ℕ)
    → m ≤ n
    → Filled image q mem p n
    → Filled image q mem p m
Filled-less image q mem p n m h f = record { same = λ k small. f.same k (omega arith) }

Filled-at :
    (image : Option Memory) (q : ℕ) (mem : Memory) (p n : ℕ)
    → mem p ≡ byte_at image q
    → Filled image (q + 1) mem (p + 1) n
    → (k : ℕ) → k < suc n
    → mem (p + k) ≡ byte_at image (q + k)
Filled-at image q mem p n e h zero small =
    let here : p + 0 ≡ p = omega arith in
    let there : q ≡ q + 0 = omega arith in ap mem here ∙ e ∙ ap (byte_at image) there
Filled-at image q mem p n e h (suc k) small =
    let here : p + suc k ≡ p + 1 + k = omega arith in
    let there : q + 1 + k ≡ q + suc k = omega arith in
    ap mem here ∙ h.same k (omega arith) ∙ ap (byte_at image) there

Filled-cons :
    (image : Option Memory) (q : ℕ) (mem : Memory) (p n : ℕ)
    → mem p ≡ byte_at image q
    → Filled image (q + 1) mem (p + 1) n
    → Filled image q mem p (suc n)
Filled-cons image q mem p n e h = record { same = Filled-at image q mem p n e h }

pub cleared : (mem : Memory) (q p n : ℕ) → Filled none q (clear mem p n) p n
unfolding clear
cleared mem q p zero = record { same = λ k h. omega arith }
cleared mem q p (suc n) =
    let rest = cleared (write mem p 0) (q + 1) (p + 1) n in
    let first = (clear-Within (write mem p 0) (p + 1) n).kept p (inl (omega arith)) in
    Filled-cons none q _ p n (first ∙ ground arith) rest

pub copied :
    (image mem : Memory) (q p n : ℕ) → Filled (some image) q (copy_bytes image q mem p n) p n
unfolding copy_bytes
copied image mem q p zero = record { same = λ k h. omega arith }
copied image mem q p (suc n) =
    let rest = copied image (write mem p (image q)) (q + 1) (p + 1) n in
    let first =
      (copy_bytes-Within image (q + 1) (write mem p (image q)) (p + 1) n).kept p
        (inl (omega arith)) in
    Filled-cons (some image) q _ p n (first ∙ ground arith) rest

pub iszero-Filled : (q : ℕ) (mem : Memory) (p n : ℕ) → Filled none q mem p n → iszero mem p n ≡ true
unfolding iszero
iszero-Filled q mem p zero h = refl
iszero-Filled q mem p (suc n) h =
    let first = Filled-first none q mem p n h in
    rw first (iszero-Filled (q + 1) mem (p + 1) n (Filled-rest none q mem p n h))

pub same_bytes-Filled :
    (image : Memory) (q : ℕ) (mem : Memory) (p n : ℕ)
    → Filled (some image) q mem p n
    → same_bytes image q mem p n ≡ true
unfolding same_bytes
same_bytes-Filled image q mem p zero h = refl
same_bytes-Filled image q mem p (suc n) h =
    let first = Filled-first (some image) q mem p n h in
    let rest =
      same_bytes-Filled image (q + 1) mem (p + 1) n (Filled-rest (some image) q mem p n h) in
    rw (first, rest) (ground arith)

pub same_text-Filled :
    (image : Memory) (q : ℕ) (mem : Memory) (p n : ℕ)
    → Filled (some image) q mem p n
    → same_text image q mem p n ≡ true
unfolding same_text
same_text-Filled image q mem p zero h = refl
same_text-Filled image q mem p (suc n) h =
    let first = Filled-first (some image) q mem p n h in
    let rest =
      same_text-Filled image (q + 1) mem (p + 1) n (Filled-rest (some image) q mem p n h) in
    rw (first, rest) (ground arith)
