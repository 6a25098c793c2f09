-- ===== src/Tests.antt =====
-- Runs of the code on small inputs, and the theorems at concrete arguments.
mod Filters
mod Policies
mod Leveldb
mod Database
mod Edits
mod Tables
mod Utilities
mod Log
mod Compaction
mod SkipList
mod MemTable
