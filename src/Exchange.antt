-- ===== src/Exchange.antt =====
-- What the output stream of src/ostream.c has written, at the input stream of src/istream.c.
mod Runs
use corelib_c_cpp.Base.{ℕ, ◌+◌, ◌≤◌, ◌≡◌, refl, ap, ◌∙◌, Bool, List, [], ◌++◌, length, take, arith}
use mathlib.Core.Path.{subst}
use corelib_c_cpp.Wire.{ret_ok, max_depth, lazy_seq_depth}
use corelib_c_cpp.Ostream.{Ostream}
use corelib_c_cpp.Ostream.Message.{Fields, write_fields, fields_bytes, depth_fields, IsFields}
use corelib_c_cpp.Ostream.Room.{written}
use corelib_c_cpp.Ostream.Canonical.{write_fields_room}
use corelib_c_cpp.Istream.{Memory, Istream, init}
use corelib_c_cpp.Istream.Callback.{Callbacks}
use corelib_c_cpp.Istream.Feed.{feed}
use corelib_c_cpp.Istream.Amid.{Declines}
use corelib_c_cpp.Istream.Unread.{AreReadable}
use corelib_c_cpp.Istream.Accept.{feed-declined}

-- The calls for any fields, made on a stream at the start of a buffer with room and nothing held
-- back, return SOFAB_RET_OK, and a new decoder whose handler declines every field is fed what they
-- have written with SOFAB_RET_OK, and leaves memory as it was. Ids and values are within the
-- limits, floating-point numbers have their widths and arrays their bytes, and the sequences nest at
-- most eight deep.
pub feed-write_fields :
    {H U V : Type 0} (call : Callbacks H U) (strict : Bool) (fs : Fields) (o : Ostream V)
    (handler : H) (mem : Memory) (usr : U)
    → IsFields strict fs
    → AreReadable fs
    → depth_fields fs ≤ lazy_seq_depth
    → o.pending ≡ []
    → o.offset ≡ 0
    → length (fields_bytes fs) ≤ length o.buffer
    → Declines call handler
    → (o' : Ostream V) × (to : Istream H U) × (write_fields strict fs o ≡ (o', ret_ok))
      × (feed call strict (written o') (init handler mem usr) ≡ (ret_ok, to))
      × (to.mem ≡ mem)
feed-write_fields call strict fs o handler mem usr h r d none at_start room q =
    let (o', wrote, appended) = write_fields_room strict fs o h d none (omega arith) in
    let (to, fed, same, counted) = feed-declined call strict fs handler mem usr r q (omega arith) in
    let bytes : written o' ≡ fields_bytes fs =
      appended.grown ∙ ap (λ n. take n o.buffer ++ fields_bytes fs) at_start in
    (o', to, wrote, ap (λ l. feed call strict l (init handler mem usr)) bytes ∙ fed, same)
