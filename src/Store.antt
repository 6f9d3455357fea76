-- ===== src/Store.antt =====
-- crates/nocturnal-store/src: the write-ahead log, and what it holds after a crash.
pub mod Bytes
pub mod Codec
pub mod Wal
pub mod Archive
pub mod Joined
pub mod Merging
pub mod Partitions
pub mod Groups
pub mod Kept
pub mod Compaction
pub mod Records
pub mod Lines
pub mod Log
pub mod Recovery
