-- ===== src/Cpp/Collectors.antt =====
-- The collectors of seq.hpp: what the callback of a wrapper array does with each element, which is
-- a message, or a row that the template's `Reader` reads, here `read_elem`. A heap-free container is an `InlineVector`; a growable one, a `std::vector`, is a list.
use corelib_c_cpp.Base.{
  ℕ, zero, suc, ◌+◌, ◌-◌, Option, none, some, List, [], ◌∷◌, ◌++◌, leb, ◌==◌, if◌then◌else◌, length,
  set, get_or,
}
use corelib_c_cpp.Wire.{type_sequence_start}
use corelib_c_cpp.Istream.Callback.{read_sequence, apply_call}
use corelib_c_cpp.Cpp.Refusal.{IstreamImpl, DynCap, reject_malformed, refuse_bound, wire}
use corelib_c_cpp.Cpp.InlineVector.{InlineVector, emplace_back}

-- `while (out->size() <= id) out->emplace_back();` on the two kinds of container.
unfoldable pub fill : {A : Type 0} → ℕ → ℕ → A → ℕ → InlineVector A → InlineVector A
fill zero cap blank id out = out
fill (suc fuel) cap blank id out =
    let rest = fill fuel cap blank id (emplace_back cap blank out) in
    if leb out.len id then rest else out

unfoldable pub grow : {A : Type 0} → ℕ → A → ℕ → List A → List A
grow zero blank id out = out
grow (suc fuel) blank id out =
    let rest = grow fuel blank id (out ++ blank ∷ []) in if leb (length out) id then rest else out

-- Fuel for `fill` and `grow`.
abbrev pub rounds : ℕ → ℕ → ℕ
rounds id size = id + 1 - size

module _ {H U A : Type 0} (read_elem : ℕ → A → IstreamImpl H U → A × IstreamImpl H U) where
  -- The element read on `(*out)[id]`, which `fill` or `grow` has made.
  unfoldable pub read_at :
      A → ℕ → InlineVector A × IstreamImpl H U → InlineVector A × IstreamImpl H U
  read_at blank id s =
      let (elem, is) = read_elem id (get_or (s.0).buf id blank) s.1 in
      (record s.0 { buf = set (s.0).buf id elem }, is)

  unfoldable pub read_in : A → ℕ → List A × IstreamImpl H U → List A × IstreamImpl H U
  read_in blank id s =
      let (elem, is) = read_elem id (get_or s.0 id blank) s.1 in (set s.0 id elem, is)

  -- The body that the heap-free collectors share from the index test on: `bound` is the capacity.
  unfoldable pub collect_fixed :
      ℕ → A → ℕ → InlineVector A × IstreamImpl H U → InlineVector A × IstreamImpl H U
  collect_fixed bound blank id s =
      if leb bound id
      then (s.0, reject_malformed s.1)
      else read_at blank id (fill (rounds id (s.0).len) bound blank id s.0, s.1)

  unfoldable pub collect_grown :
      Option ℕ → DynCap → A → ℕ → List A × IstreamImpl H U → List A × IstreamImpl H U
  collect_grown cap dyn_cap blank id s =
      let (refused, is) = refuse_bound (id + 1) cap dyn_cap s.1 in
      if refused
      then (s.0, is)
      else read_in blank id (grow (rounds id (length s.0)) blank id s.0, is)

  -- `FixedRowSeq::deserialize`
  unfoldable pub fixed_row_seq :
      ℕ → ℕ → A → ℕ → InlineVector A × IstreamImpl H U → InlineVector A × IstreamImpl H U
  fixed_row_seq elem_wire bound blank id s =
      if wire s.1 == elem_wire then collect_fixed bound blank id s else s

  -- `RowSeq::deserialize`, with its `Count`, or `none` for -1.
  unfoldable pub row_seq :
      ℕ → Option ℕ → Option ℕ → DynCap → A → ℕ → List A × IstreamImpl H U → List A × IstreamImpl H U
  row_seq elem_wire none cap dyn_cap blank id s =
      if wire s.1 == elem_wire then collect_grown cap dyn_cap blank id s else s
  row_seq elem_wire (some count) cap dyn_cap blank id s =
      if wire s.1 == elem_wire
      then (if leb count id
          then (s.0, reject_malformed s.1)
          else read_in blank id (grow (rounds id (length s.0)) blank id s.0, s.1))
      else s

module _ {H U A : Type 0} (handler : ℕ → H) where
  -- `is.read(elem)` on a message: `handler` names the decoder of each element. What it holds
  -- arrives with the fields of its sequence.
  unfoldable pub read_message : ℕ → A → IstreamImpl H U → A × IstreamImpl H U
  read_message id elem is = (elem, apply_call (read_sequence (handler id)) is)

  -- `FixedMessageSeq::deserialize` and `MessageSeq::deserialize`, of messages.
  unfoldable pub fixed_message_seq :
      ℕ → A → ℕ → InlineVector A × IstreamImpl H U → InlineVector A × IstreamImpl H U
  fixed_message_seq bound blank id s =
      if wire s.1 == type_sequence_start then collect_fixed read_message bound blank id s else s

  unfoldable pub message_seq :
      Option ℕ → DynCap → A → ℕ → List A × IstreamImpl H U → List A × IstreamImpl H U
  message_seq cap dyn_cap blank id s =
      if wire s.1 == type_sequence_start
      then collect_grown read_message cap dyn_cap blank id s
      else s
