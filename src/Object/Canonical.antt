-- ===== src/Object/Canonical.antt =====
-- What `sofab_object_encode` puts on the wire, into one buffer and through a sink.
use corelib_c_cpp.Base.{ℕ, ◌+◌, ◌≤◌, ◌≡◌, Bool, some, [], ◌++◌, length}
use corelib_c_cpp.Wire.{lazy_seq_depth}
use corelib_c_cpp.Ostream.{Ostream, Flush, flush}
use corelib_c_cpp.Ostream.Message.{Fields, fields_bytes, depth_fields, IsFields}
use corelib_c_cpp.Ostream.Room.{Appended}
use corelib_c_cpp.Ostream.Sink.{Collects, Ready, stream}
use corelib_c_cpp.Ostream.Canonical.{write_fields_room, write_fields_sink}
use corelib_c_cpp.Istream.{Memory}
use corelib_c_cpp.Object.{Descr}
use corelib_c_cpp.Object.View.{message}
use corelib_c_cpp.Object.Encode.{object_encode}
use corelib_c_cpp.Object.Encoded.{views_ok}

module _ {U : Type 0} where
  -- When every field of an object can be encoded and its descriptor lists as many fields as it says
  -- in 16 bits, so that the object stands for a message (the fields that differ from their defaults,
  -- of a holder the elements in use and the last of them in any case, arrays and blobs with their
  -- length in use, nested objects as framed sequences), when the
  -- message's ids and values lie within the limits and its sequences nest at most eight deep, then
  -- on a stream that holds nothing back and has room, `sofab_object_encode` returns SOFAB_RET_OK
  -- and leaves exactly the message's canonical encoding behind what was there.
  pub object_encode_room :
      (strict : Bool) (d : Descr) (mem : Memory) (src : ℕ) (fs : Fields) (o : Ostream U)
      → message d mem src ≡ some fs
      → IsFields strict fs
      → depth_fields fs ≤ lazy_seq_depth
      → o.pending ≡ []
      → o.offset + length (fields_bytes fs) ≤ length o.buffer
      → (o' : Ostream U) × (object_encode strict d mem src o ≡ (o', 0))
        × Appended (fields_bytes fs) o o'
  object_encode_room strict d mem src fs o m h depth none room =
      let (o', e, a) = write_fields_room strict fs o h depth none room in
      (o', views_ok strict d mem src fs o o' m e, a)

  -- Through a collecting sink, with buffers of any sizes that the sink leaves room in, the same
  -- call under the same limits returns SOFAB_RET_OK, and after `sofab_ostream_flush` the sink has
  -- kept exactly the message's canonical encoding behind all that the stream was given before.
  pub object_encode_sink :
      {f : Flush U} (c : Collects f) (strict : Bool) (d : Descr) (mem : Memory) (src : ℕ)
      (fs : Fields) (o : Ostream U)
      → message d mem src ≡ some fs
      → IsFields strict fs
      → depth_fields fs ≤ lazy_seq_depth
      → o.pending ≡ []
      → Ready c o
      → (o' : Ostream U) × (object_encode strict d mem src o ≡ (o', 0))
        × (c.log (flush o').0.usr ≡ stream c o ++ fields_bytes fs)
  object_encode_sink c strict d mem src fs o m h depth none r =
      let (o', e, log) = write_fields_sink c strict fs o h depth none r in
      (o', views_ok strict d mem src fs o o' m e, log)
