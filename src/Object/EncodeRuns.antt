-- ===== src/Object/EncodeRuns.antt =====
-- Concrete runs of the encoder of objects.
use corelib_c_cpp.Base.{
  ℕ, zero, suc, ◌+◌, ◌≡◌, ◌≤◌, refl, true, none, some, List, [], ◌∷◌, ◌++◌, length, if◌then◌else◌,
  ◌==◌, arith,
}
use corelib_c_cpp.Istream.{Memory}
use corelib_c_cpp.Object.{no_more, also, field_count, seq_len_width, sized_width}
use corelib_c_cpp.Wire.Varint.{groups}
use corelib_c_cpp.Ostream.{Ostream, Flush, flush}
use corelib_c_cpp.Utf8.{valid, valid_loop, round}
use corelib_c_cpp.Ostream.Content.{unsigned, fixlen, leaf_bytes}
use corelib_c_cpp.Ostream.Message.{
  Fields, leaf, framed, nil, cons, fields_bytes, depth_fields, IsFields,
}
use corelib_c_cpp.Ostream.Room.{Appended}
use corelib_c_cpp.Ostream.Sink.{Collects, stream, Ready}
use corelib_c_cpp.Istream.Payload.{span}
use corelib_c_cpp.Object.Expected.{
  text_in, number, slots, left_out, same_content, same_value, same_plain, same_list, is_left_out,
  are_left_out, all_left_out, expected, covers, image_of, elements_in_use,
}
use corelib_c_cpp.Object.Default.{
  field_is_default, content_is_default, leaf_is_default, string_is_default, plain_is_default,
  object_is_default, fields_are_default, nested_defaults, iszero,
}
use corelib_c_cpp.Object.Quiet.{object_encode-default}
use corelib_c_cpp.Object.{seq_len, field_default, default_extent}
use corelib_c_cpp.Object.Encode.{object_encode}
use corelib_c_cpp.Object.View.{message, messages, fields_of, field_of, value_of, scalar_of, text_of}
use corelib_c_cpp.Object.Canonical.{object_encode_room, object_encode_sink}
use corelib_c_cpp.Object.Samples.{zeros, label, item_info, item}

-- An object with the number 300 and the text "A".
abbrev filled : Memory
filled q = if q == 1000 then 44 else if q == 1001 then 1 else if q == 1008 then 65 else 0

abbrev note : Fields
note = cons (leaf 1 (unsigned 300)) (cons (framed 2 (cons (leaf 1 (fixlen (65 ∷ []) 2)) nil)) nil)

message-item : message item filled 1000 ≡ some note
unfolding message messages fields_of field_of value_of scalar_of text_of text_in span number slots
    left_out same_content same_value same_plain same_list is_left_out are_left_out all_left_out
    expected covers image_of elements_in_use
message-item = refl

note_fits : 0 + length (fields_bytes note) ≤ 32
unfolding fields_bytes leaf_bytes groups
note_fits = omega arith

note_shallow : depth_fields note ≤ 8
unfolding depth_fields
note_shallow = omega arith

abbrev blank : ℕ → List ℕ
blank zero = []
blank (suc n) = 0 ∷ blank n

abbrev empty_buffer : Ostream (List ℕ)
empty_buffer = record { buffer = blank 32; offset = 0; flush = none; usr = []; pending = [] }

note-IsFields : IsFields true note
unfolding valid valid_loop round
note-IsFields = (
  (omega arith, omega arith),
  ((omega arith, ((omega arith, (omega arith, omega arith, refl)), tt)), tt),
)

object_encode_room_example :
    (o : Ostream (List ℕ)) × (object_encode true item filled 1000 empty_buffer ≡ (o, 0))
    × Appended (fields_bytes note) empty_buffer o
object_encode_room_example =
    object_encode_room true item filled 1000 note empty_buffer message-item note-IsFields
      note_shallow refl note_fits

-- A sink that keeps all that it is given, behind a buffer of two bytes.
abbrev keep : Flush (List ℕ)
keep bytes u = (u ++ bytes, none)

abbrev keep-Collects : Collects keep
keep-Collects = record { log = λ u. u; reserved = λ u. 0; delivers = λ bytes u. (refl, refl) }

abbrev tight : Ostream (List ℕ)
tight = record { buffer = 0 ∷ 0 ∷ []; offset = 0; flush = some keep; usr = []; pending = [] }

tight-Ready : Ready keep-Collects tight
tight-Ready = record {
  has_sink = refl;
  behind_room = omega arith;
  inside = omega arith;
  not_empty = omega arith;
}

object_encode_sink_example :
    (o : Ostream (List ℕ)) × (object_encode true item filled 1000 tight ≡ (o, 0))
    × ((flush o).0.usr ≡ stream keep-Collects tight ++ fields_bytes note)
object_encode_sink_example =
    object_encode_sink keep-Collects true item filled 1000 note tight message-item note-IsFields
      note_shallow refl tight-Ready

-- An object of zeros.
item-default : object_is_default item zeros 1000 ≡ true
unfolding object_is_default fields_are_default nested_defaults field_is_default content_is_default
    leaf_is_default string_is_default plain_is_default iszero field_count seq_len_width sized_width
    field_default default_extent seq_len
item-default = refl

object_encode-default_example : object_encode true item zeros 1000 empty_buffer ≡ (empty_buffer, 0)
unfolding seq_len_width
object_encode-default_example =
    object_encode-default true item_info (also label no_more) zeros 1000 empty_buffer refl
      (omega arith) item-default
