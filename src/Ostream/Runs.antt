-- ===== src/Ostream/Runs.antt =====
-- Concrete messages through the output stream.
use corelib_c_cpp.Base.{
  ℕ, zero, suc, ◌+◌, ◌-◌, ◌^◌, ◌≤◌, ◌≡◌, refl, true, none, some, List, [], ◌∷◌, ◌++◌, length, take,
  arith,
}
use corelib_c_cpp.Wire.{ret_ok, e_buffer_full}
use corelib_c_cpp.Wire.Varint.{varint, groups}
use corelib_c_cpp.Ostream.{Ostream, Flush, write_bytes, varint_encode, flush}
use corelib_c_cpp.Ostream.Content.{
  unsigned, signed, write_leaf, leaf_bytes, IsContent, write_leaf-IsContent,
}
use corelib_c_cpp.Ostream.Message.{
  Fields, leaf, lazy, nil, cons, fields_bytes, write_fields, depth_fields,
}
use corelib_c_cpp.Ostream.Bytes.{varint_encode-varint}
use corelib_c_cpp.Ostream.Room.{Appended, write_bytes_overflow}
use corelib_c_cpp.Ostream.Sink.{Collects, stream, Ready, Streamed, write_bytes-Streamed}
use corelib_c_cpp.Ostream.Canonical.{write_fields_room, write_fields_sink}

abbrev zeros : ℕ → List ℕ
zeros zero = []
zeros (suc n) = 0 ∷ zeros n

-- Field 1 is 300; sequence 2 has no content; sequence 3 holds -3.
abbrev message : Fields
message =
    cons (leaf 1 (unsigned 300))
      (cons (lazy 2 nil) (cons (lazy 3 (cons (leaf 1 (signed (2 ^ 64 - 3))) nil)) nil))

-- A sink that keeps all that it is given.
abbrev keep : Flush (List ℕ)
keep bytes u = (u ++ bytes, none)

abbrev keep-Collects : Collects keep
keep-Collects = record { log = λ u. u; reserved = λ u. 0; delivers = λ bytes u. (refl, refl) }

abbrev roomy : Ostream (List ℕ)
roomy = record { buffer = zeros 32; offset = 0; flush = none; usr = []; pending = [] }

abbrev tight : Ostream (List ℕ)
tight = record { buffer = zeros 2; offset = 0; flush = some keep; usr = []; pending = [] }

tight-Ready : Ready keep-Collects tight
tight-Ready = record {
  has_sink = refl;
  behind_room = omega arith;
  inside = omega arith;
  not_empty = omega arith;
}

message_fits : 0 + length (fields_bytes message) ≤ 32
unfolding fields_bytes leaf_bytes groups
message_fits = omega arith

message_shallow : depth_fields message ≤ 8
unfolding depth_fields
message_shallow = omega arith

write_fields_room_example :
    (o : Ostream (List ℕ)) × (write_fields true message roomy ≡ (o, ret_ok))
    × Appended (fields_bytes message) roomy o
write_fields_room_example =
    write_fields_room true message roomy
      (
        (omega arith, omega arith),
        ((omega arith, tt), ((omega arith, ((omega arith, omega arith), tt)), tt)),
      )
      message_shallow refl message_fits

write_fields_sink_example :
    (o : Ostream (List ℕ)) × (write_fields true message tight ≡ (o, ret_ok))
    × ((flush o).0.usr ≡ stream keep-Collects tight ++ fields_bytes message)
write_fields_sink_example =
    write_fields_sink keep-Collects true message tight
      (
        (omega arith, omega arith),
        ((omega arith, tt), ((omega arith, ((omega arith, omega arith), tt)), tt)),
      )
      message_shallow refl tight-Ready

write_leaf-IsContent_example :
    IsContent {U = List ℕ} (write_leaf true 5 (unsigned 300)) (leaf_bytes 5 (unsigned 300))
write_leaf-IsContent_example =
    write_leaf-IsContent true 5 (unsigned 300) (omega arith) (omega arith)

write_bytes_overflow_example :
    (o : Ostream (List ℕ)) × (write_bytes (zeros 40) roomy ≡ (o, e_buffer_full))
    × Appended (take (length (zeros 32) - 0) (zeros 40)) roomy o
write_bytes_overflow_example =
    write_bytes_overflow (zeros 40) roomy refl (omega arith) (omega arith)

write_bytes-Streamed_example :
    (o : Ostream (List ℕ)) × (write_bytes (zeros 40) tight ≡ (o, ret_ok))
    × Streamed keep-Collects (zeros 40) tight o
write_bytes-Streamed_example = write_bytes-Streamed keep-Collects (zeros 40) tight tight-Ready

varint_encode-varint_example : varint_encode {U = List ℕ} 300 ≡ write_bytes (varint 300)
varint_encode-varint_example = varint_encode-varint 300 (omega arith)
