-- ===== src/Exchange/Runs.antt =====
-- A concrete message, written and fed.
use corelib_c_cpp.Base.{
  ℕ, zero, suc, ◌+◌, ◌≤◌, ◌≡◌, refl, inl, inr, true, none, List, [], ◌∷◌, ◌++◌, length, arith,
}
use corelib_c_cpp.Wire.{ret_ok}
use corelib_c_cpp.Wire.Varint.{groups}
use corelib_c_cpp.Utf8.{valid, valid_loop, round}
use corelib_c_cpp.Ostream.{Ostream}
use corelib_c_cpp.Ostream.Content.{unsigned, fixlen, integers, floats, leaf_bytes}
use corelib_c_cpp.Ostream.Message.{
  Fields, leaf, kept, nil, cons, fields_bytes, write_fields, depth_fields, IsFields,
}
use corelib_c_cpp.Ostream.Room.{written}
use corelib_c_cpp.Ostream.Arrays.{from_bytes}
use corelib_c_cpp.Istream.{Memory, Istream, init}
use corelib_c_cpp.Istream.Callback.{Callbacks}
use corelib_c_cpp.Istream.Feed.{feed, feed_loop}
use corelib_c_cpp.Istream.Amid.{Between, Declines}
use corelib_c_cpp.Istream.Unread.{AreReadable, Level, Passed}
use corelib_c_cpp.Istream.Accept.{feed-declined, feed_loop-Passed}
use corelib_c_cpp.Exchange.{feed-write_fields}

-- A handler that declines every field.
abbrev decline : Callbacks ℕ ℕ
decline h id size count opt mem usr = record { calls = []; mem = mem; usr = usr + 1 }

decline-Declines : Declines decline 5
decline-Declines id size count opt mem usr = (usr + 1, refl)

-- A number, a text in a sequence, an array of two bytes and one of two 32-bit numbers.
abbrev message : Fields
message = cons (leaf 1 (unsigned 300)) (
    cons (kept 2 (cons (leaf 1 (fixlen (65 ∷ 66 ∷ []) 2)) nil)) (
      cons (leaf 3 (integers true (1 ∷ 255 ∷ []) 2 1))
        (cons (leaf 4 (floats (1 ∷ 2 ∷ 3 ∷ 4 ∷ 5 ∷ 6 ∷ 7 ∷ 8 ∷ []) 2 4 0)) nil)))

message-AreReadable : AreReadable message
message-AreReadable = (
  (omega arith, omega arith),
  (
    (omega arith, ((omega arith, (omega arith, inr (inr (inl refl)))), tt)),
    (
      (omega arith, (omega arith, (omega arith, (omega arith, tt)), refl)),
      ((omega arith, (omega arith, omega arith, inl (refl, refl))), tt),
    ),
  ),
)

message-IsFields : IsFields true message
unfolding valid valid_loop round
message-IsFields = (
  (omega arith, omega arith),
  (
    (omega arith, ((omega arith, (omega arith, omega arith, refl)), tt)),
    (
      (omega arith, (omega arith, (omega arith, (omega arith, tt)), refl)),
      ((omega arith, (omega arith, omega arith, omega arith)), tt),
    ),
  ),
)

message_shallow : depth_fields message ≤ 8
unfolding depth_fields
message_shallow = omega arith

abbrev blank : ℕ → List ℕ
blank zero = []
blank (suc n) = 0 ∷ blank n

abbrev empty_buffer : Ostream ℕ
empty_buffer = record { buffer = blank 64; offset = 0; flush = none; usr = 0; pending = [] }

abbrev zeros : Memory
zeros q = 0

message_fits : length (fields_bytes message) ≤ 64
unfolding fields_bytes leaf_bytes groups from_bytes
message_fits = omega arith

abbrev seven : ℕ
seven = 7

feed-declined_example :
    (to : Istream ℕ ℕ) × (feed decline true (fields_bytes message) (init 5 zeros seven)
      ≡ (ret_ok, to))
    × (to.mem ≡ zeros)
    × (to.skipped ≡ 0)
feed-declined_example =
    feed-declined decline true message 5 zeros seven message-AreReadable decline-Declines
      (omega (arith, message_shallow))

start : Istream ℕ ℕ
start = init 5 zeros seven

start-Between : Between start
unfolding start init
start-Between = record { waits = refl; no_value = refl; no_shift = refl; not_invalid = refl }

start-Level : Level (depth_fields message) start
unfolding start init
start-Level = record { skips = omega arith; opens = omega (arith, message_shallow) }

start-Declines : Declines decline start.decoder.handler
unfolding start init
start-Declines = decline-Declines

feed_loop-Passed_example :
    (to : Istream ℕ ℕ) × Passed start to
    × (feed_loop decline true (fields_bytes message ++ 8 ∷ []) start
        ≡ feed_loop decline true (8 ∷ []) to)
feed_loop-Passed_example =
    feed_loop-Passed decline true message start (8 ∷ []) message-AreReadable start-Between
      (inr start-Declines) start-Level

feed-write_fields_example :
    (o : Ostream ℕ) × (to : Istream ℕ ℕ) × (write_fields true message empty_buffer ≡ (o, ret_ok))
    × (feed decline true (written o) (init 5 zeros seven) ≡ (ret_ok, to))
    × (to.mem ≡ zeros)
feed-write_fields_example =
    feed-write_fields decline true message empty_buffer 5 zeros seven message-IsFields
      message-AreReadable message_shallow refl refl message_fits decline-Declines
