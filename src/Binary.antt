-- ===== src/Binary.antt =====
-- binary.go: the wire types of Stratum V2, written by a builder and read back by a reader.
pub mod LittleEndian
pub mod Failure
pub mod Outcome
pub mod Builder
pub mod Reader
pub mod Sequence
pub mod Codec
pub mod Contract
pub mod ReaderContract
pub mod Stream
