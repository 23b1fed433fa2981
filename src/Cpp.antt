-- ===== src/Cpp.antt =====
-- The C++ layer of src/include/sofab/sofab.hpp and seq.hpp: its inline containers, the refusals
-- and reads of `IStreamImpl`, the writes of `OStreamImpl`, and the collectors of wrapper arrays.
-- A template argument is an argument here.
pub mod FixedString
pub mod FixedBytes
pub mod InlineVector
pub mod Refusal
pub mod Reader
pub mod Collectors
pub mod Verdict
pub mod Slots
pub mod Resized
pub mod Bounded
pub mod Match
pub mod Grown
pub mod Collected
pub mod Copied
pub mod Cut
pub mod Assigned
pub mod Bytes
mod Runs
pub mod Output
pub mod Parts
pub mod Serialized
pub mod Select
pub mod Scalars
