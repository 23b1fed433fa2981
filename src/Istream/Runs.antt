-- ===== src/Istream/Runs.antt =====
-- Concrete runs of the input stream.
use corelib_c_cpp.Base.{ℕ, ◌+◌, ◌-◌, ◌^◌, ◌≡◌, refl, true, [], ◌∷◌, ◌++◌, arith}
use corelib_c_cpp.Wire.{e_invalid_msg}
use corelib_c_cpp.Wire.Varint.{varint}
use corelib_c_cpp.Ostream.Content.{leaf_bytes, unsigned, signed}
use corelib_c_cpp.Istream.{
  Memory, Istream, init, varint_next, varint_decode, at_message_boundary, then_next,
}
use corelib_c_cpp.Istream.Callback.{
  read_field, Callbacks, apply_call, apply_calls, verify_bound, dispatch,
  call_field_callback_masked, call_field_callback,
}
use corelib_c_cpp.Istream.Scalar.{
  varint_unsigned_state, store_value, store_scalar, store_bytes, normalize, fits_unsigned_n,
  element_end,
}
use corelib_c_cpp.Istream.Idle.{begin_field, sequence_pop, sequence_end, field_type, idle_state}
use corelib_c_cpp.Istream.Feed.{finish, on_value, on_decoded, on_byte, step, feed_loop, feed}
use corelib_c_cpp.Istream.Chunks.{is_open, feed-append, feed-cut, feed-rejected}
use corelib_c_cpp.Istream.Rejected.{StaysInvalid}
use corelib_c_cpp.Istream.Verdict.{feed_loop-StaysInvalid}
use corelib_c_cpp.Base.{some, ltb, if◌then◌else◌, ◌*◌}
use corelib_c_cpp.Istream.{reject, next}
use corelib_c_cpp.Istream.Callback.{bind_array_count}
use corelib_c_cpp.Istream.Bind.{zeroed, bind_array_count-zeroed}
use corelib_c_cpp.Istream.Varints.{feed_loop-varint}
use corelib_c_cpp.Istream.Scalars.{Received, feed-unsigned, feed-signed}
use corelib_c_cpp.Istream.Skip.{declined, call_field_callback_masked-contradiction}
use corelib_c_cpp.Istream.Overlong.{feed-overlong}

abbrev zeros : Memory
zeros q = 0

-- A callback that binds eight bytes at 1000 to every field, as its type has it.
abbrev take_eight : Callbacks ℕ ℕ
take_eight handler id size count opt mem usr = record {
  calls = read_field 1000 8 opt ∷ [];
  mem = mem;
  usr = usr;
}

-- A callback that takes every field for a signed one.
abbrev take_signed : Callbacks ℕ ℕ
take_signed handler id size count opt mem usr = record {
  calls = read_field 1000 8 1 ∷ [];
  mem = mem;
  usr = usr + 1;
}

abbrev start : Istream ℕ ℕ
start = init 0 zeros 7

-- The header of field 1 and its value, 300, in two parts.
first_part_open : is_open ((feed take_eight true (8 ∷ 172 ∷ []) start).0) ≡ true
unfolding feed feed_loop step on_byte on_decoded on_value varint_decode varint_next idle_state
    field_type begin_field call_field_callback call_field_callback_masked verify_bound dispatch
    apply_calls apply_call finish at_message_boundary init
first_part_open = refl

feed-append_example :
    feed take_eight true (8 ∷ 172 ∷ [] ++ 2 ∷ []) start
    ≡ feed take_eight true (2 ∷ []) ((feed take_eight true (8 ∷ 172 ∷ []) start).1)
feed-append_example = feed-append take_eight true (8 ∷ 172 ∷ []) (2 ∷ []) start first_part_open

whole_open : is_open ((feed take_eight true (8 ∷ 172 ∷ [] ++ 2 ∷ []) start).0) ≡ true
unfolding feed feed_loop step on_byte on_decoded on_value varint_decode varint_next idle_state
    field_type begin_field call_field_callback call_field_callback_masked verify_bound dispatch
    apply_calls apply_call varint_unsigned_state store_value store_scalar store_bytes normalize
    fits_unsigned_n element_end finish at_message_boundary init
whole_open = refl

feed-cut_example :
    (is_open ((feed take_eight true (8 ∷ 172 ∷ []) start).0) ≡ true)
    × (feed take_eight true (8 ∷ 172 ∷ [] ++ 2 ∷ []) start
        ≡ feed take_eight true (2 ∷ []) ((feed take_eight true (8 ∷ 172 ∷ []) start).1))
feed-cut_example = feed-cut take_eight true (8 ∷ 172 ∷ []) (2 ∷ []) start whole_open

-- A stream that a callback has rejected.
abbrev rejected : Istream ℕ ℕ
rejected = record start { invalid = true }

feed_loop-StaysInvalid_example :
    StaysInvalid (feed_loop take_eight true (8 ∷ 172 ∷ 2 ∷ []) rejected)
feed_loop-StaysInvalid_example =
    feed_loop-StaysInvalid take_eight true (8 ∷ 172 ∷ 2 ∷ []) rejected (record { flag = refl })

-- The end of a sequence that was never opened.
end_refused : (feed take_eight true (7 ∷ []) start).0 ≡ e_invalid_msg
unfolding feed feed_loop step on_byte on_decoded on_value varint_decode varint_next idle_state
    field_type begin_field sequence_end sequence_pop finish init
end_refused = refl

feed-rejected_example :
    feed take_eight true (8 ∷ 2 ∷ []) ((feed take_eight true (7 ∷ []) start).1)
    ≡ (e_invalid_msg, (feed take_eight true (7 ∷ []) start).1)
feed-rejected_example = feed-rejected take_eight true (7 ∷ []) (8 ∷ 2 ∷ []) start end_refused

feed-unsigned_example :
    Received 300 1000 zeros 7 (feed take_eight true (leaf_bytes 5 (unsigned 300)) start)
feed-unsigned_example =
    feed-unsigned take_eight true 0 zeros 7 7 5 1000 300 (omega arith) (omega arith) refl

feed-signed_example :
    Received
      (2 ^ 64 - 3)
      1000
      zeros
      7
      (feed take_eight true (leaf_bytes 5 (signed (2 ^ 64 - 3))) start)
feed-signed_example =
    feed-signed take_eight true 0 zeros 7 7 5 1000 (2 ^ 64 - 3) (omega arith) (omega arith) refl

feed_loop-varint_example :
    feed_loop take_eight true (varint 300 ++ 8 ∷ []) start
    ≡ then_next
        (on_value take_eight true (start.decoder.state) 300 start)
        (feed_loop take_eight true (8 ∷ []))
unfolding init
feed_loop-varint_example =
    feed_loop-varint take_eight true 300 (8 ∷ []) start (omega arith) refl refl refl

feed-overlong_example :
    (feed take_eight true
      (128 ∷ 128 ∷ 128 ∷ 128 ∷ 128 ∷ 255 ∷ 255 ∷ 255 ∷ 255 ∷ 128 ∷ [] ++ 0 ∷ [])
      start).0
    ≡ e_invalid_msg
unfolding init
feed-overlong_example =
    feed-overlong take_eight true (128 ∷ 128 ∷ 128 ∷ 128 ∷ 128 ∷ 255 ∷ 255 ∷ 255 ∷ 255 ∷ 128 ∷ [])
      (0 ∷ []) start refl refl refl refl
      (
        (omega arith, omega arith),
        (
          (omega arith, omega arith),
          (
            (omega arith, omega arith),
            (
              (omega arith, omega arith),
              (
                (omega arith, omega arith),
                (
                  (omega arith, omega arith),
                  (
                    (omega arith, omega arith),
                    (
                      (omega arith, omega arith),
                      ((omega arith, omega arith), ((omega arith, omega arith), tt)),
                    ),
                  ),
                ),
              ),
            ),
          ),
        ),
      )

call_field_callback_masked-contradiction_example :
    call_field_callback_masked take_signed 0x3f (begin_field 1 0 start)
    ≡ declined zeros 8 (begin_field 1 0 start)
unfolding begin_field init
call_field_callback_masked-contradiction_example =
    call_field_callback_masked-contradiction take_signed 0x3f (begin_field 1 0 start)
      (read_field 1000 8 1) zeros 8 refl refl refl refl

-- Three elements of two bytes on the wire, for a destination of five.
abbrev five_bound : Istream ℕ ℕ
five_bound = record start { target_ptr = some 1000; target_count = 5; target_len = 2 }

bind_array_count-zeroed_example : bind_array_count 3 five_bound ≡ (
    if ltb 5 3
    then reject five_bound
    else next
        (record five_bound { mem = zeroed zeros (1000 + 3 * 2) (1000 + 5 * 2); target_count = 3 }))
unfolding init
bind_array_count-zeroed_example = bind_array_count-zeroed five_bound 1000 3 refl
