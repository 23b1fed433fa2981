-- ===== src/Lib.antt =====
-- A verification library for the C core of corelib-c-cpp and for parts of its C++ layer, an
-- encoder and a decoder of the SofaBuffers wire format. A message is a sequence of fields; a
-- field is a varint header (id and wire type) and a payload: a varint, a ZigZag varint, bytes of
-- a fixed length, an array of one of these, or a nested sequence of fields between two markers.
--
-- The parts:
-- Base: the names that the other modules share, Boolean tests and lists on native numbers, and
--   lemmas that read the bit operations as arithmetic.
-- Wire: the vocabulary of src/include/sofab/sofab.h. Wire/Zigzag models `_zigzag_encode`
--   (src/ostream.c) and `_zigzag_decode` (src/istream.c). Wire/Varint is the reference form of a
--   LEB128 varint, which is not code of the repository.
-- Utf8: `sofab_utf8_valid` of src/utf8.c. Utf8/Scalars is the reference form of UTF-8.
-- Ostream: src/ostream.c with src/include/sofab/ostream.h. The state `struct sofab_ostream` is
--   the record Ostream: the bytes of the current buffer, the cursor, the flush callback as a
--   function on the user's state, and the ids of the sequence headers that are held back. Every
--   writer is a function from a stream to a stream and a `sofab_ret_t`. Ostream/Fields, Arrays
--   and Sequences hold the public writers; Bytes, Room, Sink, Commit, Elements, Content,
--   Message, Settled, Lazy and Canonical hold proofs. Message describes the calls for a tree of
--   fields, and the canonical encoding of the tree.
-- Istream: src/istream.c with src/include/sofab/istream.h. The state `struct sofab_istream` is
--   the record Istream, with the chain of decoders as a list and memory as a function from
--   addresses to bytes. A field callback is a function from what it is given to the calls it
--   makes, and to memory and user state as it leaves them (Istream/Callback, with the typed read
--   functions in Istream/Reads). Scalar, Payload and Idle hold the cases of the switch in
--   `sofab_istream_feed`, and Feed its byte loop. Rejected, RejectedPayload, Verdict, Chunks,
--   Groups, Varints, Overlong, Stores, Scalars, Skip, Bind, Unread, Accept and the files from
--   Amid on hold proofs, and so do Safe, Answers and the files from Region on, which follow the
--   destination through every state.
-- Object: src/object.c with src/include/sofab/object.h. A descriptor is the tree Descr, an
--   object is memory from an address on, and a default image is a memory of its own. Init,
--   Default and Encode model `sofab_object_init`, `_field_is_default` and `sofab_object_encode`;
--   Decode models `sofab_object_field_cb` with its handles, which the C code takes from an
--   array, as values. In each, the functions for the nested descriptors are a list that the
--   recursion on the tree provides. Extent is the size of an object, Layout says how its fields
--   lie, Expected which of them have their default values, and View which message it stands for,
--   both on the bytes of the object and apart from the code; Compared, Defaults, Counted,
--   Branches, Safe, Feed, Descent, EncodedLeaf, EncodedField, Encoded, Canonical, Quiet, Filled,
--   Fresh and Initial hold proofs.
-- Cpp: src/include/sofab/sofab.hpp and seq.hpp. FixedString, FixedBytes and InlineVector are the
--   inline containers, at a capacity that is an argument. Refusal is `IStreamImpl` as an Istream
--   with a latch beside the user's state, its checks and its `feed`; Reader holds the reads that
--   test the delivered field first, with Select and Scalars, on destinations whose bytes stand
--   in the stream's memory; Collectors holds `FixedMessageSeq` and `MessageSeq` on elements that
--   are messages, and `FixedRowSeq` and `RowSeq`, with the template's row read as an argument.
--   Output is `OStreamImpl` with its sticky failure, over an Ostream, and Parts describes the
--   messages that `serialize` functions write through it. The other files hold proofs: Cut,
--   Copied and Assigned on strings, Slots, Resized, Bounded and Bytes on vectors, Verdict and
--   Match on reads, Serialized on writes, Grown and Collected on collectors.
-- The encoder and the decoder meet in Wire and in the bytes of Ostream/Content, which the
-- decoder's theorems are fed with; Exchange feeds the decoder what the encoder has written. The
-- object layer stands on both: Encode calls the writers of Ostream, and Decode is a callback of
-- Istream.
--
-- Bounds and fuel: `sofab_unsigned_t` and `size_t` have 64 bits, ids, lengths and counts end at
-- INT32_MAX, and the hold-back window has eight entries, as in the default build; the build has
-- SOFAB_SKIP_COUNTER. SOFAB_STRICT_UTF8 is an argument. The loop of `sofab_utf8_valid` runs on
-- fuel: each round takes a byte, so one more than the length is enough. The loops of the
-- collectors that make room for an element run on the number of elements that are missing.
-- `_varint_encode` recurs on its value, and all other loops on a list or a count. asserts are
-- compiled out; what they demand is a hypothesis where it is needed. Addresses are natural
-- numbers, and there is no memory below 0. The recursion of the object layer is on the tree of
-- descriptors.
--
-- Not modelled: big-endian hosts, builds without one of the optional features, the tests,
-- benchmarks and target support, and of the C++ headers the classes that own a stream or a
-- buffer, the float helpers, the collectors of strings and blobs, the reads into growable
-- containers, and the rows of numbers in `FixedMessageSeq` and `MessageSeq`. A callback's calls
-- are a function of the field and of what the program can see, since the stream itself is opaque
-- to it.
pub mod Base
pub mod Wire
pub mod Utf8
pub mod Ostream
pub mod Istream
pub mod Object
pub mod Exchange
pub mod Cpp
