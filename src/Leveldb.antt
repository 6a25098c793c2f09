-- ===== src/Leveldb.antt =====
-- The parts of leveldb/ that are modelled.
pub mod Consume
pub mod Getter
pub mod Coding
pub mod Hash
pub mod Bloom
pub mod Varint
pub mod FilterBlock
pub mod Comparator
pub mod DbFormat
pub mod VersionEdit
pub mod WriteBatch
pub mod Log
pub mod Compaction
pub mod SkipList
pub mod MemTable
pub mod Recovery
pub mod Arena
pub mod Random
pub mod Logging
pub mod Block
pub mod MemFile
pub mod VersionSet
pub mod TableFormat
pub mod Wormhole
