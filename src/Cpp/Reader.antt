-- ===== src/Cpp/Reader.antt =====
-- The reads of `IStreamImpl` in sofab.hpp that check the delivered field before they touch the
-- destination. A destination's bytes stand in the stream's memory. The templates are those for the
-- inline containers, whose capacity is known and which have `set_len`: FixedString for strings,
-- FixedBytes for blobs, InlineVector for arrays. What they do for growable containers is left out.
use corelib_c_cpp.Base.{ℕ, ◌+◌, ◌-◌, ◌*◌, Bool, ◌&&◌, Option, some, ltb, ◌==◌, if◌then◌else◌}
use corelib_c_cpp.Wire.{
  type_fixlen, type_varintarray_unsigned, type_varintarray_signed, type_fixlenarray,
  type_sequence_start, fixlentype_fp32, fixlentype_fp64, fixlentype_string, fixlentype_blob,
}
use corelib_c_cpp.Istream.{write}
use corelib_c_cpp.Istream.Callback.{read_array, read_sequence, apply_call, clear}
use corelib_c_cpp.Istream.Reads.{read_string_noterm, read_blob}
use corelib_c_cpp.Cpp.Refusal.{
  IstreamImpl, refuse, refuse_schema, refuse_cap, refuse_unbounded, or_else, wire, fix_type,
  delivered_fix, note_skip,
}

-- A `FixedString` or a `FixedBytes`: where its buffer begins, its capacity and its length.
pub record Text : Type 0 where
  pub address : ℕ
  pub cap : ℕ
  pub len : ℕ

abbrev pub clamp : ℕ → ℕ → ℕ
clamp cap n = if ltb cap n then cap else n

-- The element types of a native array.
pub data Elem : Type 0 where
  unsigned_elem signed_elem fp32_elem fp64_elem : Elem

-- An `InlineVector` of numbers, of `size` bytes each.
pub record Row : Type 0 where
  pub address : ℕ
  pub cap : ℕ
  pub len : ℕ
  pub elem : Elem
  pub size : ℕ

unfoldable pub bytes_set_len : ℕ → Text → Text
bytes_set_len n value = record value { len = clamp value.cap n }

-- `SOFAB_ISTREAM_OPT_*` of an array.
unfoldable pub array_opt : Elem → ℕ
array_opt unsigned_elem = 0x03
array_opt signed_elem = 0x04
array_opt fp32_elem = 0x05
array_opt fp64_elem = 0x0d

module _ {H U : Type 0} where
  -- `read` of a `FixedString`.
  unfoldable pub read_text : Text → IstreamImpl H U → IstreamImpl H U
  read_text value is = apply_call (read_string_noterm value.address value.len) is

  -- `read(void *, size_t)`.
  unfoldable pub read_bytes : ℕ → ℕ → IstreamImpl H U → IstreamImpl H U
  read_bytes dst maxlen is = if maxlen == 0 then is else apply_call (read_blob dst maxlen) is

  -- `set_len` of a `FixedString`, the terminator included.
  unfoldable pub text_set_len : ℕ → Text → IstreamImpl H U → Text × IstreamImpl H U
  text_set_len n value is =
      let len = clamp value.cap n in
      (record value { len = len }, record is { mem = write is.mem (value.address + len) 0 })

  unfoldable pub bind_string : Text → ℕ → IstreamImpl H U → Text × IstreamImpl H U
  bind_string value size is =
      let (refused, is') = refuse size (some value.cap) is in
      if refused
      then (value, is')
      else (let (value', sized) = text_set_len size value is' in
          (value', if value'.len == 0 then sized else read_text value' sized))

  unfoldable pub bind_blob : Text → ℕ → IstreamImpl H U → Text × IstreamImpl H U
  bind_blob value size is =
      let (refused, is') = refuse size (some value.cap) is in
      let sized = bytes_set_len size value in
      if refused then (value, is') else (sized, read_bytes sized.address sized.len is')

  -- The wire and fixlen type of a string or a blob, as the plain reads test them.
  unfoldable pub fixlen_is : ℕ → IstreamImpl H U → Bool
  fixlen_is subtype is = wire is == type_fixlen && fix_type is == subtype

  unfoldable pub read_string_field : Text → ℕ → Option ℕ → IstreamImpl H U → Text × IstreamImpl H U
  read_string_field value size maxlen is =
      if fixlen_is fixlentype_string is
      then (let (refused, is') =
            or_else (refuse_unbounded maxlen (some value.cap) is) (refuse_schema size maxlen) in
          if refused then (value, is') else bind_string value size is')
      else (value, note_skip is)

  -- `readString` on a selector: `select` is called only when the field is wanted. It answers with
  -- the destination, and may change memory.
  unfoldable pub read_string_select :
      ℕ
      → (IstreamImpl H U → Text × IstreamImpl H U)
      → Text
      → ℕ
      → Option ℕ
      → IstreamImpl H U
      → Text × IstreamImpl H U
  read_string_select cap select before size maxlen is =
      if delivered_fix type_fixlen fixlentype_string is
      then (let (refused, is') =
            or_else (refuse_unbounded maxlen (some cap) is) (refuse_schema size maxlen) in
          let (value, chosen) = select is' in
          if refused then (before, is') else bind_string value size chosen)
      else (before, note_skip is)

  unfoldable pub read_string_capped : Text → ℕ → ℕ → IstreamImpl H U → Text × IstreamImpl H U
  read_string_capped value size dyn_cap is =
      if fixlen_is fixlentype_string is
      then (let (refused, is') = refuse_cap size dyn_cap is in
          if refused then (value, is') else bind_string value size is')
      else (value, note_skip is)

  unfoldable pub read_blob_field : Text → ℕ → Option ℕ → IstreamImpl H U → Text × IstreamImpl H U
  read_blob_field value size maxlen is =
      if fixlen_is fixlentype_blob is
      then (let (refused, is') =
            or_else (refuse_unbounded maxlen (some value.cap) is) (refuse_schema size maxlen) in
          if refused then (value, is') else bind_blob value size is')
      else (value, note_skip is)

  unfoldable pub read_blob_capped : Text → ℕ → ℕ → IstreamImpl H U → Text × IstreamImpl H U
  read_blob_capped value size dyn_cap is =
      if fixlen_is fixlentype_blob is
      then (let (refused, is') = refuse_cap size dyn_cap is in
          if refused then (value, is') else bind_blob value size is')
      else (value, note_skip is)

  unfoldable pub array_tag_ok : Elem → IstreamImpl H U → Bool
  array_tag_ok fp32_elem is = wire is == type_fixlenarray && fix_type is == fixlentype_fp32
  array_tag_ok fp64_elem is = wire is == type_fixlenarray && fix_type is == fixlentype_fp64
  array_tag_ok signed_elem is = wire is == type_varintarray_signed
  array_tag_ok unsigned_elem is = wire is == type_varintarray_unsigned

  -- `InlineVector::resize`: the elements below the old or the new length but not both become zero.
  unfoldable pub row_resize : ℕ → Row → IstreamImpl H U → Row × IstreamImpl H U
  row_resize n row is =
      let len = clamp row.cap n in
      let shrunk = clear is.mem (row.address + len * row.size) ((row.len - len) * row.size) in
      (
        record row { len = len },
        record is {
          mem = clear shrunk (row.address + row.len * row.size) ((len - row.len) * row.size);
        },
      )

  unfoldable pub bind_array : Row → ℕ → Option ℕ → IstreamImpl H U → Row × IstreamImpl H U
  bind_array row wire_count room is =
      let (refused, is') = refuse wire_count room is in
      let (sized, cleared) = row_resize wire_count row is' in
      if refused then (row, is') else (
        sized,
        apply_call (read_array (some sized.address) sized.len sized.size (array_opt sized.elem))
            cleared,
      )

  unfoldable pub read_array_field : Row → ℕ → Option ℕ → IstreamImpl H U → Row × IstreamImpl H U
  read_array_field row wire_count cap is =
      if array_tag_ok row.elem is
      then (let (refused, is') =
            or_else (refuse_unbounded cap (some row.cap) is) (refuse_schema wire_count cap) in
          if refused then (row, is') else bind_array row wire_count (some row.cap) is')
      else (row, note_skip is)

  unfoldable pub read_array_capped : Row → ℕ → ℕ → IstreamImpl H U → Row × IstreamImpl H U
  read_array_capped row wire_count dyn_cap is =
      if array_tag_ok row.elem is
      then (let (refused, is') = refuse_cap wire_count dyn_cap is in
          if refused then (row, is') else bind_array row wire_count (some row.cap) is')
      else (row, note_skip is)

  -- `readSequence`: `handler` is the collector's, and the destination is cleared.
  unfoldable pub read_sequence_field :
      {A : Type 0} → H → (A → A) → A → IstreamImpl H U → A × IstreamImpl H U
  read_sequence_field handler clear_out out is =
      if wire is == type_sequence_start
      then (clear_out out, apply_call (read_sequence handler) is)
      else (out, note_skip is)
