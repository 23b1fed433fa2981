-- ===== src/Object/InitRuns.antt =====
-- A concrete object after its initialisation.
use corelib_c_cpp.Base.{ℕ, zero, suc, ◌≡◌, refl, true, none, some, List, [], ◌∷◌, inr, arith}
use corelib_c_cpp.Istream.{Memory}
use corelib_c_cpp.Ostream.{Ostream}
use corelib_c_cpp.Object.{
  FieldDescr, field_blob, field_string, field_sequence, Info, Descr, descr, no_more, also,
  field_count, seq_len_width, sized_width, field_default, default_extent, load_uint,
}
use corelib_c_cpp.Object.Init.{object_init, default_length}
use corelib_c_cpp.Object.Extent.{head_width, value_size, field_end, fields_end, extent, extents}
use corelib_c_cpp.Object.Default.{object_is_default}
use corelib_c_cpp.Object.Encode.{object_encode}
use corelib_c_cpp.Object.Fresh.{IsLaid}
use corelib_c_cpp.Object.Layout.{Clear, LaidFields, IsLaidOut, AllLaidOut}
use corelib_c_cpp.Object.Initial.{object_init-object_is_default, object_encode-object_init}

-- A blob of up to four bytes behind its length, by default two bytes 2, and a struct of a text.
abbrev twos : Memory
twos q = 2

abbrev dirty : Memory
dirty q = 99

abbrev bytes : FieldDescr
bytes = record { id = 1; offset = 1; size = 4; nested_idx = 1; type = field_blob; element_size = 1 }

abbrev text : FieldDescr
text = record {
  id = 1;
  offset = 0;
  size = 8;
  nested_idx = 0;
  type = field_string;
  element_size = 1;
}

abbrev inner : FieldDescr
inner = record {
  id = 2;
  offset = 8;
  size = 8;
  nested_idx = 0;
  type = field_sequence;
  element_size = 8;
}

abbrev label_info : Info
label_info = record {
  field_list = text ∷ [];
  default_values = none;
  count_extent = 1;
  fixed_seq = 0;
}

abbrev label : Descr
label = descr label_info no_more

abbrev packet_info : Info
packet_info = record {
  field_list = bytes ∷ inner ∷ [];
  default_values = some twos;
  count_extent = 2;
  fixed_seq = 0;
}

abbrev packet : Descr
packet = descr packet_info (also label no_more)

text-IsLaid : IsLaid label_info text
unfolding sized_width field_default default_extent default_length
text-IsLaid = record {
  in_front = omega arith;
  fits = omega arith;
  capacity = omega arith;
  image = tt;
}

bytes-IsLaid : IsLaid packet_info bytes
unfolding sized_width field_default default_extent default_length load_uint
bytes-IsLaid = record {
  in_front = omega arith;
  fits = omega arith;
  capacity = omega arith;
  image = λ q. omega arith;
}

packet-IsLaidOut : IsLaidOut packet
unfolding IsLaidOut AllLaidOut LaidFields Clear extent extents head_width fields_end field_end
    value_size field_count seq_len_width sized_width
packet-IsLaidOut = (
  refl,
  (inr (omega arith), (inr (omega arith), tt)),
  ((λ e. bytes-IsLaid), (inr (omega arith), tt), ((λ e. cc), tt, tt)),
  ((refl, (inr (omega arith), tt), ((λ e. text-IsLaid), tt, tt), tt), tt),
)

blank : ℕ → List ℕ
blank zero = []
blank (suc n) = 0 ∷ blank n

abbrev empty_buffer : Ostream ℕ
empty_buffer = record { buffer = blank 32; offset = 0; flush = none; usr = 0; pending = [] }

object_init-object_is_default_example :
    object_is_default packet (object_init packet 1000 dirty) 1000 ≡ true
object_init-object_is_default_example =
    object_init-object_is_default packet 1000 dirty packet-IsLaidOut

object_encode-object_init_example :
    object_encode true packet (object_init packet 1000 dirty) 1000 empty_buffer ≡ (empty_buffer, 0)
unfolding seq_len_width
object_encode-object_init_example =
    object_encode-object_init true packet_info (also label no_more) 1000 dirty empty_buffer
      packet-IsLaidOut refl (omega arith)
