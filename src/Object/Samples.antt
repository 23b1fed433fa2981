-- ===== src/Object/Samples.antt =====
-- A concrete object, for the runs of the object layer.
use corelib_c_cpp.Base.{none, [], ◌∷◌}
use corelib_c_cpp.Istream.{Memory}
use corelib_c_cpp.Object.{
  FieldDescr, field_unsigned, field_string, field_sequence, Descr, descr, no_more, also,
}
use corelib_c_cpp.Object.{Info}

abbrev pub zeros : Memory
zeros q = 0

-- A struct of a 64-bit number and, nested, a struct of a text of up to seven bytes.
abbrev pub number : FieldDescr
number = record {
  id = 1;
  offset = 0;
  size = 8;
  nested_idx = 0;
  type = field_unsigned;
  element_size = 8;
}

abbrev pub text : FieldDescr
text = record {
  id = 1;
  offset = 0;
  size = 8;
  nested_idx = 0;
  type = field_string;
  element_size = 1;
}

abbrev pub inner : FieldDescr
inner = record {
  id = 2;
  offset = 8;
  size = 8;
  nested_idx = 0;
  type = field_sequence;
  element_size = 8;
}

abbrev pub label : Descr
label =
    descr
      (record { field_list = text ∷ []; default_values = none; count_extent = 1; fixed_seq = 0 })
      no_more

abbrev pub item_info : Info
item_info = record {
  field_list = number ∷ inner ∷ [];
  default_values = none;
  count_extent = 2;
  fixed_seq = 0;
}

abbrev pub item : Descr
item = descr item_info (also label no_more)
