-- ===== src/Istream/Safe.antt =====
-- Field callbacks that keep to a region of memory.
use corelib_c_cpp.Base.{
  ℕ, zero, suc, ◌+◌, ◌*◌, ◌<◌, ◌≤◌, ◌≡◌, ◌⊎◌, refl, ◌∙◌, Bool, true, ◌&&◌, none, some, List, [],
  ◌∷◌, leb, ltb, not, false, ◌==◌, bit_and, if◌then◌else◌, arith, Bool-cases, inl, inr,
}
use corelib_c_cpp.Istream.{Memory, write, fieldtype, opt_stringterm}
use corelib_c_cpp.Istream.Callback.{
  Call, read_field, read_array, read_sequence, reject_message, Reply, Callbacks, clear,
}

-- A memory that differs from another one from `a` up to `b` only.
pub record Within (a b : ℕ) (mem mem' : Memory) : Type 0 where
  pub kept : (q : ℕ) → (q < a) ⊎ (b ≤ q) → mem' q ≡ mem q

module _ {a b : ℕ} where
  pub Within-nothing : (mem : Memory) → Within a b mem mem
  Within-nothing mem = record { kept = λ q h. refl }

  pub Within-then : {m n k : Memory} → Within a b m n → Within a b n k → Within a b m k
  Within-then p q = record { kept = λ i h. q.kept i h ∙ p.kept i h }

  pub Within-if :
      {mem m n : Memory} (test : Bool)
      → Within a b mem m
      → Within a b mem n
      → Within a b mem (if test then m else n)
  Within-if test p q = elim (Bool-cases test) [ inl e ↦ rw e p | inr e ↦ rw e q ]

pub Within-wider :
    {a b : ℕ} (a' b' : ℕ) {m n : Memory} → a' ≤ a → b ≤ b' → Within a b m n → Within a' b' m n
Within-wider a' b' h k p = record { kept = λ q o. p.kept q (ground arith) }

pub clear-Within : (mem : Memory) (p n : ℕ) → Within p (p + n) mem (clear mem p n)
unfolding clear
clear-Within mem p zero = Within-nothing mem
clear-Within mem p (suc n) =
    Within-then (record { kept = λ q o. ground arith })
      (Within-wider p (p + suc n) (omega arith) (omega arith)
        (clear-Within (write mem p 0) (p + 1) n))

-- The option word of a single value, and of an array.
abbrev pub is_plain : ℕ → Bool
is_plain opt = ltb (fieldtype opt) 3

abbrev pub is_array : ℕ → Bool
is_array opt = leb 3 (fieldtype opt) && ltb (fieldtype opt) 6

abbrev pub terminated : ℕ → Bool
terminated opt = not (bit_and opt opt_stringterm == 0)

-- Calls that bind what lies from `a` up to `b`, and enter sequences with good handlers. What the
-- asserts of the read functions ask for is part of it, and that the option word of a read says
-- whether it is an array's, whose elements are not terminated.
module _ {H : Type 0} (IsHandler : H → Type 0) (a b : ℕ) where
  abbrev pub IsCall : Call H → Type 0
  IsCall (read_field p len opt) = (a ≤ p) × (p + len ≤ b) × (0 < len) × (is_plain opt ≡ true)
  IsCall (read_array none count size opt) = is_array opt ≡ true
  IsCall (read_array (some p) count size opt) =
      (a ≤ p) × (p + count * size ≤ b) × (is_array opt ≡ true) × (terminated opt ≡ false)
  IsCall (read_sequence handler) = IsHandler handler
  IsCall reject_message = Unit

  -- At most one call.
  pub data AreCalls : List (Call H) → Type 0 where
    no_call : AreCalls []
    one_call : {c : Call H} → IsCall c → AreCalls (c ∷ [])

  pub record IsReply {U : Type 0} (mem : Memory) (r : Reply H U) : Type 0 where
    pub safe_calls : AreCalls r.calls
    pub written : Within a b mem r.mem

  -- A callback that replies so to every field, whatever the field is.
  abbrev pub Keeps : {U : Type 0} → Callbacks H U → Type 0
  Keeps call =
      (h : _) (id size count opt : ℕ) (mem : Memory) (usr : _)
      → IsHandler h
      → IsReply mem (call h id size count opt mem usr)
