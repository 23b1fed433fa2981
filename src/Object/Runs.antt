-- ===== src/Object/Runs.antt =====
-- Concrete runs of the decoder and of the initialiser of objects.
use corelib_c_cpp.Base.{ℕ, ◌+◌, ◌≡◌, ◌≤◌, refl, true, [], ◌∷◌, arith}
use corelib_c_cpp.Istream.{Istream, init, varint_next, varint_decode, at_message_boundary}
use corelib_c_cpp.Istream.Callback.{
  apply_call, apply_calls, verify_bound, dispatch, call_field_callback_masked, call_field_callback,
}
use corelib_c_cpp.Istream.Idle.{begin_field, field_type, idle_state}
use corelib_c_cpp.Istream.Feed.{finish, on_value, on_decoded, on_byte, step, feed_loop, feed}
use corelib_c_cpp.Istream.Chunks.{is_open}
use corelib_c_cpp.Istream.Safe.{Within, IsReply}
use corelib_c_cpp.Istream.Region.{Safe}
use corelib_c_cpp.Istream.RegionFeed.{feed-Within, feed-Safe}
use corelib_c_cpp.Object.{field_count, seq_len_width, sized_width, expected_opt, seq_len_observe}
use corelib_c_cpp.Object.Init.{object_init}
use corelib_c_cpp.Object.Extent.{
  head_width, value_size, field_end, fields_end, extent, extents, AllInFront, AllInFrontDescrs,
  object_init-Within,
}
use corelib_c_cpp.Object.Decode.{
  ObjectDecoder, bind_width, object_field_cb, find_field, bind_object_field, bind_leaf, bind_value,
  observed, store_blob_len,
}
use corelib_c_cpp.Object.Branches.{AllSized, AllSizedDescrs, IsObject}
use corelib_c_cpp.Object.Safe.{object_field_cb-IsReply, object_field_cb-Keeps}
use corelib_c_cpp.Object.Feed.{object_feed-Within}
use corelib_c_cpp.Object.Descent.{Chain-depth, enters, innermost}
use corelib_c_cpp.Istream.Callback.{read_sequence}
use corelib_c_cpp.Object.{nested_at}
use corelib_c_cpp.Object.Decode.{bind_sequence, enter_nested}
use corelib_c_cpp.Object.Samples.{zeros, label, item}

item-AllInFront : AllInFront item
unfolding AllInFront AllInFrontDescrs field_count sized_width
item-AllInFront = ((refl, (refl, tt)), (((refl, tt), tt), tt))

item-AllSized : AllSized item
unfolding AllSized AllSizedDescrs bind_width field_count sized_width
item-AllSized = ((refl, (refl, tt)), (((refl, tt), tt), tt))

item_size : extent item ≡ 16
unfolding extent extents head_width fields_end field_end value_size field_count seq_len_width
    sized_width
item_size = refl

abbrev at : ObjectDecoder
at = record { info = item; dst = 1000; depth = 1 }

-- The state of the program, and a new decoder.
abbrev seven : ℕ
seven = 7

abbrev start : Istream ObjectDecoder ℕ
start = init at zeros 7

at-IsObject : IsObject 1000 1016 at
at-IsObject = record { from = omega arith; upto = omega (arith, item_size); sized = item-AllSized }

object_init-Within_example : Within 1000 (1000 + extent item) zeros (object_init item 1000 zeros)
object_init-Within_example = object_init-Within item 1000 zeros item-AllInFront

object_field_cb-IsReply_example :
    IsReply (IsObject 1000 1016) 1000 1016 zeros (object_field_cb at 1 0 0 0 zeros seven)
object_field_cb-IsReply_example =
    object_field_cb-IsReply 1000 1016 at 1 0 0 0 zeros seven at-IsObject

-- The number 300, and a text that is cut off.
object_feed-Within_example :
    Within 1000
      (1000 + extent item)
      zeros
      (feed object_field_cb true (8 ∷ 172 ∷ 2 ∷ 22 ∷ 10 ∷ 26 ∷ 65 ∷ []) start).1.mem
object_feed-Within_example =
    object_feed-Within true item 1000 1 zeros seven (8 ∷ 172 ∷ 2 ∷ 22 ∷ 10 ∷ 26 ∷ 65 ∷ [])
      item-AllSized (omega (arith, item_size))

start-Safe : Safe (IsObject 1000 1016) 1000 1016 start
unfolding init
start-Safe = record { handler = at-IsObject; parents = tt; room = tt }

feed-Within_example :
    Within 1000 1016 start.mem (feed object_field_cb true (8 ∷ 172 ∷ []) start).1.mem
feed-Within_example =
    feed-Within (IsObject 1000 1016) 1000 1016 object_field_cb (object_field_cb-Keeps 1000 1016)
      (omega arith) true (8 ∷ 172 ∷ []) start start-Safe

part_open : is_open (feed object_field_cb true (8 ∷ 172 ∷ []) start).0 ≡ true
unfolding feed feed_loop step on_byte on_decoded on_value varint_decode varint_next idle_state
    field_type begin_field call_field_callback call_field_callback_masked verify_bound dispatch
    apply_calls apply_call finish at_message_boundary init object_field_cb find_field field_count
    bind_object_field bind_leaf bind_value bind_width expected_opt sized_width observed
    store_blob_len seq_len_observe seq_len_width
part_open = refl

feed-Safe_example :
    Safe (IsObject 1000 1016) 1000 1016 (feed object_field_cb true (8 ∷ 172 ∷ []) start).1
feed-Safe_example =
    feed-Safe (IsObject 1000 1016) 1000 1016 object_field_cb (object_field_cb-Keeps 1000 1016)
      (omega arith) true (8 ∷ 172 ∷ []) start start-Safe part_open

-- The frame of the nested struct.
abbrev at_label : ObjectDecoder
at_label = record { info = label; dst = 1008; depth = 0 }

at_label-entered : (object_field_cb at 2 0 0 6 zeros seven).calls ≡ read_sequence at_label ∷ []
unfolding object_field_cb find_field field_count bind_object_field bind_sequence enter_nested
    nested_at
at_label-entered = refl

Chain-depth_example : 1 ≤ at.depth
Chain-depth_example = Chain-depth at 1 (enters 2 0 0 6 zeros seven at_label-entered innermost)
