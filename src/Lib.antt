-- ===== src/Lib.antt =====
-- EquinoxDB, a time-series storage engine in Go: the logic of its storage packages.
--
-- Values (storage/types/value.go, storage/types/values.gen.go): time-stamped values and the slices
-- of them that the memory tables, cursors and compactions sort, deduplicate, search, cut and merge.
-- Arrays (storage/types/arrayvalues.gen.go): the same operations on timestamps and values in two
-- columns, the template of the five array types for any type of values.
-- Entry (storage/types/entry.go): the values of one key in a memory table, all of one type.
-- Planner (storage/compactor/planner.go, storage/compactor/type_generation.go): the compaction
-- planner, which groups SST files by generation, proposes groups to compact and keeps the set of
-- files in use. Planner/System is the planner over time, as the engine
-- (storage/engine_compact_level.go) calls it.
-- Bytes (storage/store/util.go): byte strings in order, which the planner's paths and the keys of
-- the store are.
-- Discard (storage/store/vfile_discard.go): the counts of discarded bytes of the value files, in
-- the slots of a mapped file; Discard/Runs takes runs of updates. A file id stands for itself, a
-- slot for its 16 bytes.
-- Booleans (storage/codec/bool.go) and Block (storage/codec/utils.go): the boolean codec, the
-- zigzag map and the layout of a block, on Varint, the varints of encoding/binary.
-- Integers (storage/codec/int.go): the integer codec, the decoder as calls of Next and Read.
-- Wal (storage/store/wal_file.go, storage/store/wal_reader.go, Truncate of
-- storage/store/mmap_file.go): the entries of the write-ahead log, the mapped file that they are
-- appended to, and the reader that replays it. Its calls are taken one after the other.
-- Tables (storage/memory/memtable.go): a memory table, which writes to its log and then to its skip
-- list; Tables/Reading (storage/memory/memtable_manager.go) is the read of a key over the tables.
-- Tables/Opening is OpenMemTable and restoreFromWAL, which read the log of a table, through a
-- buffered reader of the mapped bytes, while they write its entries to it again.
-- Manager (storage/memory/memtable_manager.go): the current table, the immutable ones and the channel
-- to the goroutine that flushes them (storage/engine_compact_snap.go); Manager/Runs is the manager
-- over time. Tables are shared, so they stand under the ids of their log files.
-- Headers (storage/store/vfile_ptr.go, storage/store/vfile_footer.go): the records of fixed size of
-- the value files. Words is encoding/binary's BigEndian, as these and the log call it.
-- Cache (storage/memory/cache.go): the skip list of a memory table, its nodes at addresses, and
-- (Cache/Table) the ordered table of keys and entries that it stands for. Its writers hold a lock,
-- so every compare-and-swap is one assignment.
-- Cursors (storage/cursor/array_cursor.gen.go): the cursors of both directions, which merge the
-- cached values of a key with the blocks of its SST files, in lists that stand in the direction of
-- travel; Cursors/Reads takes calls in a row.
-- Tombstones (storage/store/tombstone.go): the records of deletions and their file. An int64 is
-- written as its bits.
-- Ranges (storage/store/util.go): the test of a time range against the ranges of tombstones.
-- Base: lists, slices, the bisection loop and other shared helpers. Examples: the theorems at
-- concrete inputs, and tests.
--
-- A method of the source is a function of the same name in snake case from the state to the new
-- state and the result. A run-time panic is `none`, or a constructor
-- of the result where errors are told apart from it. Timestamps are numbers: an int64 is given by
-- its distance from math.MinInt64, which keeps every comparison. Machine arithmetic that can wrap
-- is written out (generation_size). A slice is a list; that slices may share a backing array is not
-- modelled. Locks are taken to make each method one step.
--
-- Loops run on fuel: search_loop and bisect_loop on one more round than the length, since the range
-- shrinks each round; chunk_loop and window_loop on the length, since each round takes an element
-- if the size is not 0; the varint loops on ten groups of seven bits, which a 64-bit word has; the
-- readers of the log on one more round than there are bytes, since each round takes some; the
-- reader of tombstones on one more round than there are bytes, since a round takes twenty of them; the
-- searches of the skip list on one more than its addresses, since no node is passed twice.
--
-- Parameters stand for github.com/golang/snappy (Wal/Log): what it encodes it decodes, and no bytes
-- are not an encoding; for pkg/encoding/simple8b, a copy of github.com/jwilder/encoding (Integers):
-- numbers up to its maximum are packed into words, from which they are unpacked; for compress/gzip
-- (Tombstones): what is compressed can be decompressed; and for the type assertion on a cached value
-- (Cursors), whose failure is a panic. The size of the buffer of a bufio.Reader is an argument
-- (Tables/Opening). The order in which `range` visits a map is that of the list that stands for the
-- map; where a table is restored it is an argument, of which is known that each key is visited once.
-- The heights of the nodes of the skip list, which are random, are arguments.
--
-- Not modelled: the SST files with their index, writer and key cursors, the compactor, the codecs of
-- timestamps, floats and strings, the value file manager and the engine around them; the list of
-- tables that the manager of the memory tables restores when it starts; the system calls on files and
-- memory maps, metrics, the web front end and the benchmarks. Of goroutines, only
-- the orders of steps that Planner/System and Manager/Runs list.
pub mod Base
pub mod Bytes
pub mod Entry
pub mod Examples
pub mod Arrays
pub mod Varint
pub mod Block
pub mod Booleans
pub mod Cache
pub mod Tables
pub mod Manager
pub mod Integers
pub mod Tombstones
pub mod Cursors
pub mod Discard
pub mod Headers
pub mod Planner
pub mod Ranges
pub mod Values
pub mod Wal
pub mod Words
