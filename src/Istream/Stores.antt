-- ===== src/Istream/Stores.antt =====
-- What `_store_scalar` leaves in memory.
use corelib_c_cpp.Base.{
  ℕ, zero, suc, ◌+◌, ◌*◌, ◌/◌, ◌%◌, ◌^◌, ◌<◌, ◌≤◌, ◌≡◌, ◌⊎◌, refl, ◌∙◌, arith, ltb, leb,
  if◌then◌else◌, fun_ext, Bool-cases, inl, inr, ◌&&◌,
}
use corelib_c_cpp.Istream.{Memory, write}
use corelib_c_cpp.Istream.Scalar.{store_bytes}
use native.Mathlib.Nat.{pow-suc}

-- The number that `n` bytes from `p` on hold, lowest first.
abbrev pub load : Memory → ℕ → ℕ → ℕ
load mem p zero = 0
load mem p (suc n) = mem p + 256 * load mem (p + 1) n

store_bytes-below : (mem : Memory) (n p value q : ℕ) → q < p → store_bytes mem p n value q ≡ mem q
unfolding store_bytes
store_bytes-below mem zero p value q h = refl
store_bytes-below mem (suc n) p value q h =
    store_bytes-below (write mem p (value % 256)) n (p + 1) (value / 256) q (omega arith)
    ∙ ground arith

-- Memory without the `n` bytes at `p`.
abbrev pub outside : ℕ → ℕ → Memory → Memory
outside p n mem q = if leb p q && ltb q (p + n) then 0 else mem q

pub store_bytes-beyond :
    (mem : Memory) (n p value q : ℕ) → (q < p) ⊎ (p + n ≤ q) → store_bytes mem p n value q ≡ mem q
unfolding store_bytes
store_bytes-beyond mem zero p value q h = refl
store_bytes-beyond mem (suc n) p value q h =
    store_bytes-beyond (write mem p (value % 256)) n (p + 1) (value / 256) q (ground arith)
    ∙ ground arith

pub store_bytes-outside :
    (mem : Memory) (n p value : ℕ) → outside p n (store_bytes mem p n value) ≡ outside p n mem
store_bytes-outside mem n p value = fun_ext λ q. elim (Bool-cases (leb p q && ltb q (p + n))) [
  | inl e ↦ rw e refl
  | inr e ↦ rw e (store_bytes-beyond mem n p value q (ground arith))
]

pub load-store_bytes :
    (mem : Memory) (n p value : ℕ) → value < 256 ^ n → load (store_bytes mem p n value) p n ≡ value
unfolding store_bytes
load-store_bytes mem zero p value h = omega arith
load-store_bytes mem (suc n) p value h =
    let first =
      store_bytes-below (write mem p (value % 256)) n (p + 1) (value / 256) p (omega arith) in
    let here : write mem p (value % 256) p ≡ value % 256 = ground arith in
    let rest =
      load-store_bytes (write mem p (value % 256)) n (p + 1) (value / 256)
        (omega (arith, pow-suc 256 n)) in
    rw (first, here, rest) (omega arith)
