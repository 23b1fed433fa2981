-- ===== src/Istream/Accept.antt =====
-- Canonical messages at a decoder whose callback declines them.
use corelib_c_cpp.Base.{
  ℕ, ◌≤◌, ◌≡◌, refl, sym, ap, inr, ◌∙◌, Bool, List, [], ◌++◌, append-nil, arith,
}
use corelib_c_cpp.Wire.{ret_ok, max_depth}
use corelib_c_cpp.Ostream.Message.{Fields, fields_bytes, depth_fields}
use corelib_c_cpp.Istream.{Memory, Istream, init, next, at_message_boundary}
use corelib_c_cpp.Istream.Callback.{Callbacks}
use corelib_c_cpp.Istream.Feed.{feed_loop, finish, feed}
use corelib_c_cpp.Istream.Chunks.{feed-going}
use corelib_c_cpp.Istream.Amid.{Between, Declines, IsUnread}
use corelib_c_cpp.Istream.Unread.{AreReadable, Passed, Level, Passes-fields}

module _ {H U : Type 0} (call : Callbacks H U) (strict : Bool) where
  -- Between two fields, a decoder in a skipped sequence, whatever its handler, and a decoder whose
  -- handler declines every field read over the canonical encoding of any fields and go on with what
  -- follows them as if they had not been there: the decoders, the depth, the skip counter and
  -- memory are what they were. The ids are within the
  -- limits, floating-point numbers have their widths and arrays their bytes, the skipped levels
  -- are among the open ones, and the sequences nest no deeper than the 255 levels allow.
  pub feed_loop-Passed :
      (fs : Fields) (c : Istream H U) (rest : List ℕ)
      → AreReadable fs
      → Between c
      → IsUnread call c.decoder
      → Level (depth_fields fs) c
      → (to : Istream H U) × Passed c to
        × (feed_loop call strict (fields_bytes fs ++ rest) c ≡ feed_loop call strict rest to)
  feed_loop-Passed fs c rest r b q v =
      let (to, p, read) = Passes-fields call strict fs c r b q v in (to, p, read rest)

  nothing_left : (c : Istream H U) → feed_loop call strict [] c ≡ next c
  unfolding feed_loop
  nothing_left c = refl

  finish-Passed :
      (handler : H) (mem : Memory) (usr : U) (to : Istream H U)
      → Passed (init handler mem usr) to
      → finish (next to) ≡ (ret_ok, to)
  unfolding finish at_message_boundary init
  finish-Passed handler mem usr to p =
      rw (p.between.not_invalid, p.between.no_shift, p.same_decoder, p.same_parents) refl

  -- Fed to a new stream whose handler declines every field, the canonical encoding of any fields
  -- ends with SOFAB_RET_OK, with memory as it was and no field counted as contradicting. The ids
  -- are within the limits, floating-point numbers have their widths and arrays their bytes, and the
  -- sequences nest at most 255 deep.
  pub feed-declined :
      (fs : Fields) (handler : H) (mem : Memory) (usr : U)
      → AreReadable fs
      → Declines call handler
      → depth_fields fs ≤ max_depth
      → (to : Istream H U) × (feed call strict (fields_bytes fs) (init handler mem usr)
          ≡ (ret_ok, to))
        × (to.mem ≡ mem)
        × (to.skipped ≡ 0)
  unfolding init
  feed-declined fs handler mem usr r q d =
      let c = init handler mem usr in
      let (to, p, read) =
        feed_loop-Passed fs c [] r
          (record { waits = refl; no_value = refl; no_shift = refl; not_invalid = refl }) (inr q)
          (record { skips = omega arith; opens = omega (arith, d) }) in
      (
        to,
        feed-going call strict (fields_bytes fs) c refl
            ∙ ap (λ l. finish (feed_loop call strict l c)) (sym (append-nil (fields_bytes fs)))
            ∙ ap finish (read ∙ nothing_left to)
            ∙ finish-Passed handler mem usr to p,
        p.same_mem,
        p.same_skipped,
      )
