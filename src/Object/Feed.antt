-- ===== src/Object/Feed.antt =====
-- Decoding of an object: `sofab_istream_feed` with `sofab_object_field_cb`.
use corelib_c_cpp.Base.{ℕ, ◌+◌, ◌^◌, ◌<◌, Bool, List, arith}
use corelib_c_cpp.Istream.{Memory, init}
use corelib_c_cpp.Istream.Feed.{feed}
use corelib_c_cpp.Istream.Safe.{Within}
use corelib_c_cpp.Istream.Region.{Safe}
use corelib_c_cpp.Istream.RegionFeed.{feed-Within}
use corelib_c_cpp.Object.{Descr}
use corelib_c_cpp.Object.Extent.{extent}
use corelib_c_cpp.Object.Decode.{ObjectDecoder, object_field_cb}
use corelib_c_cpp.Object.Branches.{IsObject, AllSized}
use corelib_c_cpp.Object.Safe.{object_field_cb-Keeps}

module _ {U : Type 0} (strict : Bool) (d : Descr) (dst depth : ℕ) (mem : Memory) (usr : U) where
  abbrev handle : ObjectDecoder
  handle = record { info = d; dst = dst; depth = depth }

  started :
      AllSized d → Safe (IsObject dst (dst + extent d)) dst (dst + extent d) (init handle mem usr)
  unfolding init
  started s = record {
    handler = record { from = omega arith; upto = omega arith; sized = s };
    parents = tt;
    room = tt;
  }

  -- Whatever bytes a decoder of an object is fed, valid or not, it writes nothing outside the
  -- object. The leaves of the descriptor have a size and their length members lie inside the object,
  -- and the object lies in the address space.
  pub object_feed-Within :
      (bytes : List ℕ)
      → AllSized d
      → dst + extent d < 2 ^ 64
      → Within dst
          (dst + extent d)
          mem
          (feed object_field_cb strict bytes (init handle mem usr)).1.mem
  unfolding init
  object_feed-Within bytes s h =
      feed-Within (IsObject dst (dst + extent d)) dst (dst + extent d) object_field_cb
        (object_field_cb-Keeps dst (dst + extent d)) h strict bytes (init handle mem usr)
        (started s)
