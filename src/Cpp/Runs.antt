-- ===== src/Cpp/Runs.antt =====
-- Concrete runs of the C++ layer.
use corelib_c_cpp.Base.{ℕ, ◌≡◌, ◌≤◌, ◌+◌, refl, true, none, some, List, [], ◌∷◌, length, arith}
use corelib_c_cpp.Wire.{ret_ok}
use corelib_c_cpp.Utf8.{
  valid, valid_loop, round, sequence, lead, continuation, in_range, sequence_tail, checked,
}
use corelib_c_cpp.Istream.{Memory, init}
use corelib_c_cpp.Istream.Callback.{Callbacks}
use corelib_c_cpp.Cpp.FixedString.{FixedString, assign, view}
use corelib_c_cpp.Cpp.InlineVector.{InlineVector, contents}
use corelib_c_cpp.Cpp.Refusal.{Latch, IstreamImpl, unstated, impl_feed}
use corelib_c_cpp.Cpp.Collectors.{fixed_message_seq, message_seq}
use corelib_c_cpp.Cpp.Assigned.{IsCut, assign-IsCut}
use corelib_c_cpp.Cpp.Bounded.{
  push_op, emplace_op, resize_op, Op, apply_ops, list_ops, apply_ops-contents,
}
use corelib_c_cpp.Cpp.Verdict.{
  check_schema, check_cap, Check, first_refusal, run_all, impl_feed-first_refusal,
}
use corelib_c_cpp.Ostream.{Ostream}
use corelib_c_cpp.Ostream.Message.{fields_bytes, depth_fields, IsFields}
use corelib_c_cpp.Ostream.Content.{leaf_bytes}
use corelib_c_cpp.Ostream.Arrays.{from_bytes}
use corelib_c_cpp.Wire.Varint.{groups}
use corelib_c_cpp.Ostream.Room.{Appended}
use corelib_c_cpp.Cpp.Output.{OstreamImpl, unsigned_value, text_value}
use corelib_c_cpp.Cpp.Parts.{
  value, message, lazy_message, Parts, none_left, then_part, as_fields, serialize,
}
use corelib_c_cpp.Cpp.Serialized.{with_ctx, serialize_room}
use corelib_c_cpp.Cpp.Collected.{fixed_message_seq-message_seq}

-- "é€", of two and three bytes.
abbrev sample : List ℕ
sample = 195 ∷ 169 ∷ 226 ∷ 130 ∷ 172 ∷ []

abbrev empty_string : FixedString
empty_string = record { buf = 0 ∷ 0 ∷ 0 ∷ 0 ∷ 0 ∷ []; len = 0 }

sample-valid : valid sample ≡ true
unfolding valid valid_loop round sequence lead continuation in_range sequence_tail checked
sample-valid = refl

assign-IsCut_example : IsCut 4 sample (view (assign 4 sample empty_string))
assign-IsCut_example =
    assign-IsCut 4 sample empty_string
      (omega arith, (omega arith, (omega arith, (omega arith, (omega arith, tt))))) sample-valid
      refl

abbrev ops : List (Op ℕ)
ops = push_op 5 ∷ push_op 6 ∷ emplace_op ∷ resize_op 1 ∷ []

abbrev two_slots : List ℕ
two_slots = 0 ∷ 0 ∷ []

apply_ops-contents_example :
    (contents (apply_ops 2 0 ops (record { buf = two_slots; len = 0 })) ≡ list_ops 2 0 ops [])
    × (length (InlineVector.buf (apply_ops 2 0 ops (record { buf = two_slots; len = 0 }))) ≡ 2)
    × (InlineVector.len (apply_ops 2 0 ops (record { buf = two_slots; len = 0 })) ≤ 2)
apply_ops-contents_example = apply_ops-contents 2 0 two_slots ops (omega arith) (omega arith) refl

abbrev zeros : Memory
zeros q = 0

abbrev stream : IstreamImpl ℕ ℕ
stream = init 0 zeros (record { refusal = ret_ok; usr = 0 })

abbrev no_calls : Callbacks ℕ (Latch ℕ)
no_calls handler id size count opt mem usr = record { calls = []; mem = mem; usr = usr }

-- A schema's bound that is broken, then a ceiling.
abbrev checks : List Check
checks = check_schema 3 (some 2) ∷ check_cap 9 4 ∷ []

impl_feed-first_refusal_example :
    impl_feed no_calls true (8 ∷ 1 ∷ []) (run_all checks stream)
    ≡ (first_refusal checks, run_all checks stream)
unfolding init
impl_feed-first_refusal_example =
    impl_feed-first_refusal no_calls true (8 ∷ 1 ∷ []) checks stream refl refl

-- The handlers of the elements, by their index.
abbrev element_handler : ℕ → ℕ
element_handler id = id + 100

abbrev at_sequence : IstreamImpl ℕ ℕ
at_sequence = record stream { target_opt = 6 }

abbrev empty_vector : InlineVector ℕ
empty_vector = record { buf = two_slots; len = 0 }

fixed_message_seq-message_seq_example :
    (contents (fixed_message_seq {A = ℕ} element_handler 2 0 1 (empty_vector, at_sequence)).0
      ≡ (message_seq {A = ℕ} element_handler (some 2) unstated 0 1 ([], at_sequence)).0)
    × ((fixed_message_seq {A = ℕ} element_handler 2 0 1 (empty_vector, at_sequence)).1
        ≡ (message_seq {A = ℕ} element_handler (some 2) unstated 0 1 ([], at_sequence)).1)
fixed_message_seq-message_seq_example =
    fixed_message_seq-message_seq element_handler 2 unstated 0 1 empty_vector [] at_sequence
      (record { rest = two_slots; buf = refl; len = refl; size = refl })

-- A number, a message with a text in it, and a message that is left out.
abbrev parts : Parts
parts = then_part (value 1 (unsigned_value 300)) (
    then_part (message 2 (then_part (value 1 (text_value (104 ∷ 105 ∷ []))) none_left))
      (then_part (lazy_message 3 none_left) none_left))

abbrev sixteen : List ℕ
sixteen = 0 ∷ 0 ∷ 0 ∷ 0 ∷ 0 ∷ 0 ∷ 0 ∷ 0 ∷ 0 ∷ 0 ∷ 0 ∷ 0 ∷ 0 ∷ 0 ∷ 0 ∷ 0 ∷ []

abbrev output : OstreamImpl ℕ
output = record {
  ctx = record { buffer = sixteen; offset = 0; flush = none; usr = 0; pending = [] };
  failed = ret_ok;
}

parts-IsFields : IsFields true (as_fields parts)
unfolding valid valid_loop round
parts-IsFields = (
  (omega arith, omega arith),
  ((omega arith, ((omega arith, (omega arith, omega arith, refl)), tt)), ((omega arith, tt), tt)),
)

parts_shallow : depth_fields (as_fields parts) ≤ 8
unfolding depth_fields
parts_shallow = omega arith

parts_fit : length (fields_bytes (as_fields parts)) ≤ 16
unfolding fields_bytes leaf_bytes groups from_bytes
parts_fit = omega arith

serialize_room_example :
    (o : Ostream ℕ) × (serialize true parts output ≡ (with_ctx output o, ret_ok))
    × Appended (fields_bytes (as_fields parts)) output.ctx o
serialize_room_example =
    serialize_room true parts output parts-IsFields parts_shallow refl (omega (arith, parts_fit))
