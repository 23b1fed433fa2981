-- ===== src/Cpp/InlineVector.antt =====
-- `InlineVector` of sofab.hpp, at capacity `cap`. `blank` is `T{}`.
use corelib_c_cpp.Base.{ℕ, zero, suc, ◌+◌, ◌-◌, List, [], ◌∷◌, ltb, leb, if◌then◌else◌, take, set}
use corelib_c_cpp.Istream.{size_pred}

pub record InlineVector (A : Type 0) : Type 0 where
  pub buf : List A
  pub len : ℕ

module _ {A : Type 0} where
  unfoldable pub push_back : ℕ → A → InlineVector A → InlineVector A
  push_back cap x v =
      if ltb v.len cap then record { buf = set v.buf v.len x; len = v.len + 1 } else v

  -- The loop of `assign`, which stops at the capacity.
  unfoldable pub assign_loop : ℕ → List A → InlineVector A → InlineVector A
  assign_loop cap [] v = v
  assign_loop cap (x ∷ init) v =
      let rest = assign_loop cap init (record { buf = set v.buf v.len x; len = v.len + 1 }) in
      if leb cap v.len then v else rest

  unfoldable pub assign : ℕ → List A → InlineVector A → InlineVector A
  assign cap init v = assign_loop cap init (record v { len = 0 })

  unfoldable pub clear : InlineVector A → InlineVector A
  clear v = record v { len = 0 }

  -- The elements from index `i` on, `n` of them, set to `T{}`.
  unfoldable pub reset : A → ℕ → ℕ → List A → List A
  reset blank i zero buf = buf
  reset blank i (suc n) buf = reset blank (i + 1) n (set buf i blank)

  unfoldable pub resize : ℕ → A → ℕ → InlineVector A → InlineVector A
  resize cap blank n v =
      let n' = if ltb cap n then cap else n in
      record { buf = reset blank v.len (n' - v.len) (reset blank n' (v.len - n') v.buf); len = n' }

  -- Once full, it takes its last slot again. `N - 1` is of type `size_t`.
  unfoldable pub emplace_back : ℕ → A → InlineVector A → InlineVector A
  emplace_back cap blank v =
      if ltb v.len cap
      then record { buf = set v.buf v.len blank; len = v.len + 1 }
      else record v { buf = set v.buf (size_pred cap) blank }

  -- What the container holds.
  unfoldable pub contents : InlineVector A → List A
  contents v = take v.len v.buf
