-- ===== src/Wal.antt =====
-- storage/store/wal_file.go and storage/store/wal_reader.go: the entries of the write-ahead log,
-- the file they are appended to, and the reader that replays it.
pub mod Outcome
pub mod Sizes
pub mod Writes
pub mod Reads
pub mod Fields
pub mod Lengths
pub mod RoundTrip
pub mod Deletes
pub mod DeleteTrips
pub mod Log
pub mod Entries
pub mod Appends
pub mod Replay
pub mod Rewrites
