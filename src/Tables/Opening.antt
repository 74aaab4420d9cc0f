-- ===== src/Tables/Opening.antt =====
-- `OpenMemTable` and `restoreFromWAL` of storage/memory/memtable.go, on `Open` of
-- storage/store/wal_file.go and `OpenMmapFileWithFD` and `Read` of storage/store/mmap_file.go: a
-- table is opened from the bytes of its log. The system calls are taken to succeed, but for the
-- mapping of no bytes.
use equinoxdb.Base.{ℕ, zero, suc, ◌+◌, ◌-◌, ◌%◌, ◌^◌, Bool, true, false, Option, none, some}
use equinoxdb.Base.{List, [], ◌∷◌, ◌++◌, leb, ◌==◌, if◌then◌else◌, length, take, drop}
use equinoxdb.Bytes.{Bytes}
use equinoxdb.Cache.{Cache, new_cache}
use equinoxdb.Tables.{
  MemTable, TableWrite, table_written, wal_failed, cache_failed, cache_panic, wal_panic,
}
use equinoxdb.Tables.{write_table, delete_range, delete_all}
use equinoxdb.Wal.Log.{Snappy, WalEntry, write_entry, delete_entry, delete_range_entry}
use equinoxdb.Wal.Log.{zero_bytes, next_entry}
use equinoxdb.Wal.Outcome.{Outcome, ok, failed, panicked}
use equinoxdb.Wal.Sizes.{KeyValues}
use equinoxdb.Base.{◌*◌}
use equinoxdb.Base.{◌>>=◌}

-- The reader of the log, which buffers: the bytes read ahead, the offset behind them in the mapped
-- bytes, and the bytes that `Next` counted.
pub record LogReader : Type 0 where
  pub buffered : List ℕ
  pub offset : ℕ
  pub count : ℕ

abbrev pub new_log_reader : LogReader
new_log_reader = record { buffered = []; offset = 0; count = 0 }

-- What the reader is about to give: what it has read ahead, and then the mapped bytes as they are.
abbrev pub unread : List ℕ → LogReader → List ℕ
unread mapped r = r.buffered ++ drop r.offset mapped

-- What `OpenMemTable` returns. Once the log is mapped anew the reader's bytes are gone, and the
-- restoring is not followed.
pub data TableOpened : Type 0 where
  table_opened : MemTable → TableOpened
  open_failed : TableOpened
  open_panic : TableOpened
  log_moved : TableOpened

-- `WriteMulti` without life cycles.
abbrev pub no_life_cycles : Bytes → ℕ
no_life_cycles k = 0

abbrev pub if_in_place : Bool → TableOpened → Option TableOpened → Option TableOpened
if_in_place true moved next = next
if_in_place false moved next = some moved

abbrev pub after_write :
    MemTable → (MemTable → Option TableOpened) → TableWrite → Option TableOpened
after_write m more wal_failed = some open_failed
after_write m more (cache_failed w) = some open_failed
after_write m more (cache_panic w) = some open_panic
after_write m more wal_panic = some open_panic
after_write m more (table_written n) =
    if_in_place (length n.wal.bytes == length m.wal.bytes) log_moved (more n)

abbrev pub after_delete :
    MemTable → (MemTable → Option TableOpened) → Option Cache → Option TableOpened
after_delete m more none = some open_panic
after_delete m more (some c) = more (record m { cache = c })

-- The size of the reader's buffer.
module _ (buffer : ℕ) where
  -- A read of bytes that are there: behind the buffered ones a read of the size of the buffer or
  -- more goes to the mapped bytes, and a shorter one fills the buffer first.
  unfoldable pub refill : List ℕ → ℕ → LogReader → LogReader
  refill mapped n r =
      if leb buffer n then record r { buffered = []; offset = r.offset + n } else record r {
        buffered = drop n (take buffer (drop r.offset mapped));
        offset = r.offset + length (take buffer (drop r.offset mapped));
      }

  unfoldable pub read_mapped : List ℕ → ℕ → LogReader → LogReader
  unfolding refill
  read_mapped mapped n r =
      if leb n (length r.buffered)
      then record r { buffered = drop n r.buffered }
      else refill mapped (n - length r.buffered) r

  -- `Next`: the five bytes of the header, then the others of the entry.
  unfoldable pub read_frame : List ℕ → ℕ → LogReader → LogReader
  unfolding read_mapped
  read_frame mapped n r = record (read_mapped mapped (n - 5) (read_mapped mapped 5 r)) {
    count = r.count + n;
  }

  unfoldable pub read_over :
      List ℕ → LogReader → Outcome (WalEntry × List ℕ) → Outcome (WalEntry × LogReader)
  unfolding read_frame
  read_over mapped r failed = failed
  read_over mapped r panicked = panicked
  read_over mapped r (ok (e, rest)) =
      ok (e, read_frame mapped (length (unread mapped r) - length rest) r)

module _ (s : Snappy) (buffer : ℕ) where
  unfoldable pub next_from : List ℕ → LogReader → Outcome (WalEntry × LogReader)
  unfolding next_entry read_over
  next_from mapped r = read_over buffer mapped r (next_entry s (unread mapped r))

-- A table on a new file, which is twice as long as the table may grow.
abbrev pub table_on_new_file : ℕ → MemTable
table_on_new_file max = record {
  cache = new_cache;
  wal = record { pos = 0; size = 0; bytes = zero_bytes (2 * max) };
  max_size = max;
}

-- Further parameters: the order in which the keys of a map are visited, and the heights that `Put`
-- draws for the entry at a count.
module _ (s : Snappy) (buffer : ℕ) (visit : KeyValues → KeyValues) (drawn : ℕ → Bytes → ℕ) where
  -- The switch on the entry in `restoreFromWAL`.
  unfoldable pub replay_entry :
      ℕ → MemTable → (MemTable → Option TableOpened) → WalEntry → Option TableOpened
  unfolding write_table delete_range delete_all
  replay_entry n m more (write_entry values) =
      write_table s m no_life_cycles (drawn n) (visit values) >>= after_write m more
  replay_entry n m more (delete_range_entry ks min max) =
      after_delete m more (delete_range m.cache ks min max)
  replay_entry n m more (delete_entry ks) = after_delete m more (delete_all m.cache ks)

  -- What follows a call of `Next`: the loop ends without an entry or at an error.
  unfoldable pub replay_on :
      MemTable
      → LogReader
      → (MemTable → LogReader → Option TableOpened)
      → Outcome (WalEntry × LogReader)
      → Option TableOpened
  unfolding replay_entry
  replay_on m r more failed =
      some (table_opened (record m { wal = record (m.wal) { pos = r.count % 2 ^ 32 } }))
  replay_on m r more panicked = some open_panic
  replay_on m r more (ok (e, q)) = replay_entry r.count m (λ n. more n q) e

  -- `restoreFromWAL`, on fuel: an entry has five bytes or more.
  unfoldable pub restore_from_wal : ℕ → MemTable → LogReader → Option TableOpened
  unfolding next_from replay_on
  restore_from_wal zero m r = none
  restore_from_wal (suc fuel) m r =
      replay_on m r (restore_from_wal fuel) (next_from s buffer m.wal.bytes r)

  -- `OpenMemTable` on the bytes of the file; one without bytes becomes a new one.
  unfoldable pub open_mem_table : List ℕ → ℕ → Option TableOpened
  unfolding restore_from_wal
  open_mem_table [] zero = some open_failed
  open_mem_table [] (suc n) = some (table_opened (table_on_new_file (suc n)))
  open_mem_table (b ∷ bs) max =
      restore_from_wal (suc (length (b ∷ bs)))
        (record {
          cache = new_cache;
          wal = record { pos = 0; size = length (b ∷ bs) % 2 ^ 32; bytes = b ∷ bs };
          max_size = max;
        })
        new_log_reader
