-- ===== src/Lib.antt =====
-- Wormhole filters: approximate sets of keys that answer without false negatives.
--
-- The repository has two of them. src/pm_wf/pmwormholefilter.hpp keeps one in persistent memory,
-- which test/evaluation.cpp drives; leveldb/util/wormhole.cc is a filter policy of LevelDB. Both
-- keep an array of buckets of four 16-bit tags. A tag is a fingerprint of 12 bits with the
-- distance of its bucket from the home bucket of its key, and an insertion moves tags until an
-- empty slot is less than 16 buckets from the home of the new key.
--
-- Base: the names of the libraries, Boolean tests, words of 8, 16, 32 and 64 bits, bitwise
--   operations, arrays and bytes in memory, little-endian as on x86.
-- Swar: the macros `haszero16` and `hasvalue16`, which test four tags at once.
-- Probe: the loops of `pmwormholefilter_insert` and `InsertItem`, which agree word for word, over
--   the record `Store` of the accesses in which they differ (`ReadTag`, `WriteTag`,
--   `PMWriteTag`); Probe/Laws has the laws that an implementation fills. The abstract view is
--   Probe/Count: how often a store holds a fingerprint at its distance from a home bucket.
--   Probe/Scan, Kick and Insert follow the loops of an insertion, Probe/Lookup the loop of a
--   lookup.
-- PmFilter: `struct pmwormholefilter` and its root, with `init`, `destroy`, `insert`, `lookup`,
--   `delete` and `bytes` for the functions `pmwormholefilter_...`; PmFilter/Store fills the laws,
--   PmFilter/Words is about the lanes of a word, Delete about the loops of a deletion, Keys about
--   the operations on keys, Ops about a client and Init about a new filter.
-- Evaluation: the two loops of `main` of test/evaluation.cpp.
-- Leveldb: Coding for leveldb/util/coding.h and coding.cc, Hash for leveldb/util/hash.cc and
--   Wormhole for leveldb/util/wormhole.cc; Wormhole/Store fills the laws for the byte array,
--   Wormhole/Power is about `upperpower2`, Wormhole/Size about the number of buckets,
--   Wormhole/Filter about `KeyMayMatch` and Wormhole/Policy about `CreateFilter`.
--   Coding/RoundTrip is about the fixed-width numbers, and Coding/Words about a row of them;
--   Bloom is leveldb/util/bloom.cc, with its proofs in Bloom/Laws, and Varint the variable-length
--   part of coding.cc, with its proofs in Varint/Encode and Varint/RoundTrip. The loops of
--   `EncodeVarint64` and `VarintLength` run on fuel for the ten groups of seven bits that a
--   64-bit number has. FilterBlock is leveldb/table/filter_block.cc over the interface
--   `FilterPolicy` of leveldb/include/leveldb/filter_policy.h, which both policies fill; its
--   reader is the subject of FilterBlock/Reader; Builder, Groups, Started and Calls are about the
--   builder as a list of groups of keys, Bytes and Found about the bytes of a block, and Whole
--   about a block from its builder to its reader.
--   Comparator is leveldb/include/leveldb/slice.h and leveldb/util/comparator.cc:
--   Comparator/Order has the order of strings and Comparator/Separator the laws that the users of
--   a comparator rely on. DbFormat is leveldb/db/dbformat.h and dbformat.cc, with Keys for
--   internal and lookup keys and Order for their comparison. Consume and Getter are the shape of
--   the loops and reads that VersionEdit and WriteBatch share, for leveldb/db/version_edit.h,
--   version_edit.cc and write_batch.cc: each round takes a byte at least, so that the length of
--   the input is enough fuel. Varint/Shrink says that the reads do. VersionEdit/Getters, Decode,
--   Fields and RoundTrip and WriteBatch/Rounds, Strings and Batch are about them. VersionSet is
--   the search in a level of leveldb/db/version_set.cc, with FindFile and Overlap. TableFormat is
--   leveldb/table/format.cc and the mask of leveldb/util/crc32c.h, Block is
--   leveldb/table/block_builder.cc and the reading of entries in block.cc, one entry in
--   Block/Entries, the restart array in Block/Finished, what `Add` appends in Block/Scans, the
--   restart points in Block/Restarts and a block in Block/Built. MemFile is
--   leveldb/helpers/memenv/memenv.cc, its blocks in a row in Contents, the last one in LastBlock
--   and its calls in Refines; the loops of `Read` and `Append` move a byte at least in a round,
--   which bounds their fuel.
--   Random, Logging and Arena are leveldb/util/random.h, the decimal numbers of logging.cc and
--   arena.h with arena.cc, with proofs in Random/Laws, Logging/Decimal and Arena/Fresh.
--   Log is leveldb/db/log_format.h, with Log/Writer for log_writer.cc and Log/Reader for
--   log_reader.cc: Physical reads one physical record, Fragments and Rounds follow a round of the
--   two loops, RoundTrip one record and Whole a log; Progress says that a call of the reader
--   ends, since a round takes a byte of the file or is the last, and TwoRounds that the loop of
--   `ReadPhysicalRecord` goes round twice at most. The writer goes round once for each byte of
--   the record at most, and once more to fill a block.
--   Compaction is the class `Compaction` of leveldb/db/version_set.cc with the rule of db_impl.cc
--   that drops entries, and Compaction/Work is `DoCompactionWork` of db_impl.cc around it;
--   BaseLevel is about `IsBaseLevelForKey`, Reads, Hidden and Kept about the entries that are
--   kept, Emitted, Outputs, Merged and Success about the whole work.
--   SkipList is leveldb/db/skiplist.h, whose searches run on fuel for the nodes and the levels,
--   of which a round passes one: Chains has the lists of the levels, Search the searches, Find
--   the view as a sorted list of nodes, Link and Towers what Insert needs, and Contents the view
--   as a list of keys.
--   MemTable is leveldb/db/memtable.cc, with its entries in Entries, its comparator in Order, and
--   Get for the answer of the function of that name; Newer is about an entry newer than all
--   others, Inserter is `MemTableInserter` and `InsertInto` of leveldb/db/write_batch.cc, Updates
--   the memtable as the list of its updates, and Batches a run of `InsertInto`.
--   VersionSet/Inputs is `GetOverlappingInputs`, with its proofs in Wider, Counts and Closed,
--   whose loop over the files is `pass`; a restart moves one end of the range over an end of a
--   file, so it has fuel for two restarts for each file.
--   Recovery is `RecoverLogFile` of leveldb/db/db_impl.cc: Tables has memtables as parts of the
--   updates, Rounds a round of its loop and Whole the call. A round takes a record, which has a
--   byte of the file at least, so that the length of the file is enough fuel.
-- Tests: runs on small inputs and the theorems at concrete arguments.
--
-- Numbers are natural numbers with the wrap-around of the source's types written out. The two
-- unbounded loops of an insertion run on fuel: the scan for an empty slot visits each bucket
-- once, and each round of the kicks brings the slot at least one bucket nearer, so that
-- `num_buckets_ + 1` rounds are enough for each of them; `none` would be a run out of fuel. `frac
-- > 0.8` and `int(n / 0.8)` are exact in the ranges that the code reaches, as the comments at the
-- two functions `buckets_for` say.
--
-- Not modelled: libpmemobj, of which only the outcome of a transaction and the persisted words
-- appear, `pmwormholefilter_info`, which prints, and the random numbers of the hasher, which no
-- code reads; of the parts of leveldb above `ReadBlock`, the searches inside a block, the locks
-- and the names of files in memory; of the database of db_impl.cc all but the compactions and
-- `RecoverLogFile`, and of the compactions the choice of their inputs; the memory of the skip
-- list and threads that read while it changes; the rest of leveldb; the copies of GoogleTest and
-- Google Benchmark.


pub mod Base
pub mod Probe
pub mod Swar
pub mod PmFilter
pub mod Evaluation
pub mod Leveldb
pub mod Tests
