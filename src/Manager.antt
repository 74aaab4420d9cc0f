-- ===== src/Manager.antt =====
-- storage/memory/memtable_manager.go: the current memory table, the immutable ones, and the channel
-- that hands them to the goroutine that flushes them (storage/engine_compact_snap.go). A table is
-- shared by the manager and the channel: it stands in `tables` under the id of its log file. Methods
-- hold the lock of the manager, so each is one step. The channel has room for at least one table.
pub mod Runs
pub mod Orders
pub mod Waits
pub mod Stuck
use equinoxdb.Base.{ℕ, suc, ◌-◌, ◌*◌, Bool, true, false, not, Option, none, some, List, [], ◌∷◌}
use equinoxdb.Base.{◌++◌, ltb, ◌==◌, if◌then◌else◌, length}
use equinoxdb.Bytes.{Bytes}
use equinoxdb.Cache.{Cache, new_cache}
use equinoxdb.Tables.{
  MemTable, TableWrite, table_written, wal_failed, cache_failed, cache_panic, wal_panic,
}
use equinoxdb.Tables.{write_table, is_full, delete_range}
use equinoxdb.Values.{size}
use equinoxdb.Wal.Log.{Snappy, WalFile, zero_bytes, remove_range}
use equinoxdb.Wal.Outcome.{Outcome, ok, failed, panicked}
use equinoxdb.Wal.Sizes.{KeyValues}
use equinoxdb.Base.{◌>>=◌}

-- `flushing` is the counter of the wait group; `mem` is `none` for nil.
pub record MemManager : Type 0 where
  pub tables : ℕ → MemTable
  pub mem : Option ℕ
  pub imm : List ℕ
  pub next_mem_fid : ℕ
  pub flush_ch : List ℕ
  pub flushing : ℕ
  pub num_mem_tables : ℕ
  pub max_mem_table_size : ℕ

abbrev pub set_table : MemManager → ℕ → MemTable → MemManager
set_table mm fid t = record mm { tables = λ f. if f == fid then t else mm.tables f }

-- `NewMemTable` of a file that is new: a cache without nodes and a mapped log of zeros.
unfoldable pub new_mem_table : ℕ → MemTable
new_mem_table max = record {
  cache = new_cache;
  wal = record { pos = 0; size = 0; bytes = zero_bytes (2 * max) };
  max_size = max;
}

-- `newMemTable` of the manager; `can_create` tells whether the file could be created.
abbrev pub with_new : Bool → MemManager → Option MemManager
with_new false mm = none
with_new true mm =
    some (record (set_table mm mm.next_mem_fid (new_mem_table mm.max_mem_table_size)) {
      mem = some mm.next_mem_fid;
      next_mem_fid = suc mm.next_mem_fid;
    })

-- What `EnsureMemForWrite` returns, with the manager it leaves.
pub data Ensured : Type 0 where
  ensured : MemManager → Ensured
  no_room : Ensured
  not_created : MemManager → Ensured

abbrev pub send_mem : ℕ → MemManager → MemManager
send_mem fid mm = record mm {
  flush_ch = mm.flush_ch ++ (fid ∷ []);
  flushing = suc mm.flushing;
  imm = mm.imm ++ (fid ∷ []);
}

-- The assignment of the result of `newMemTable`, nil with an error.
abbrev pub after_new : MemManager → Option MemManager → Ensured
after_new mm none = not_created (record mm { mem = none })
after_new mm (some m) = ensured m

abbrev pub ensure_mem : Bool → MemManager → Option ℕ → Option Ensured
ensure_mem can_create mm none = none
ensure_mem can_create mm (some fid) = some (
    if not (is_full (mm.tables fid))
    then ensured mm
    else if ltb (length mm.flush_ch) mm.num_mem_tables
    then after_new (send_mem fid mm) (with_new can_create (send_mem fid mm))
    else no_room)

-- `EnsureMemForWrite`; `none` is a nil dereference.
unfoldable pub ensure_mem_for_write : Bool → MemManager → Option Ensured
unfolding new_mem_table
ensure_mem_for_write can_create mm = ensure_mem can_create mm mm.mem

-- `TakeFlushMemTable`; `none` is that it waits.
abbrev pub take_from : MemManager → List ℕ → Option (ℕ × MemManager)
take_from mm [] = none
take_from mm (f ∷ fs) = some (f, record mm { flush_ch = fs })

unfoldable pub take_flush_mem_table : MemManager → Option (ℕ × MemManager)
take_flush_mem_table mm = take_from mm mm.flush_ch

-- `OnMemTableFlushed`; `none` is an index out of range. The reference counts and the log files are
-- not followed.
abbrev pub release_first : MemManager → ℕ → List ℕ → Option MemManager
release_first mm fid [] = none
release_first mm fid (i ∷ is) =
    some (if i == fid then record mm { imm = is; flushing = mm.flushing - 1 } else mm)

unfoldable pub on_mem_table_flushed : MemManager → ℕ → Option MemManager
on_mem_table_flushed mm fid = release_first mm fid mm.imm

module _ (s : Snappy) where
  -- `WriteMulti`: the result of the current table, and the manager where it was written. After an
  -- error or a panic the manager is not followed.
  abbrev pub wrote : MemManager → ℕ → TableWrite → Option MemManager
  wrote mm fid (table_written t) = some (set_table mm fid t)
  wrote mm fid wal_failed = none
  wrote mm fid (cache_failed w) = none
  wrote mm fid (cache_panic w) = none
  wrote mm fid wal_panic = none

  unfoldable pub write_multi_mem :
      MemManager → (Bytes → ℕ) → (Bytes → ℕ) → KeyValues → Option MemManager
  write_multi_mem mm life h values = do
    fid ← mm.mem
    r ← write_table s (mm.tables fid) life h values
    wrote mm fid r

  -- The two calls of `DeleteRange` on a table; the error of the second is dropped, and taken to leave
  -- the log as it was.
  abbrev pub after_remove : MemTable → Cache → Outcome WalFile → Option MemTable
  after_remove t c (ok w) = some (record t { cache = c; wal = w })
  after_remove t c failed = some (record t { cache = c })
  after_remove t c panicked = none

  unfoldable pub delete_in_table : List Bytes → ℕ → ℕ → MemTable → Option MemTable
  delete_in_table keys min max t = do
    c ← delete_range t.cache keys min max
    after_remove t c (remove_range s t.wal keys min max)

  unfoldable pub delete_in_tables : List Bytes → ℕ → ℕ → MemManager → List ℕ → Option MemManager
  unfolding delete_in_table
  delete_in_tables keys min max mm [] = some mm
  delete_in_tables keys min max mm (f ∷ fs) = do
    t ← delete_in_table keys min max (mm.tables f)
    delete_in_tables keys min max (set_table mm f t) fs

  -- `DeleteRange`: the current table, then the immutable ones; `none` is a panic.
  unfoldable pub delete_range_mem : MemManager → List Bytes → ℕ → ℕ → Option MemManager
  unfolding delete_in_tables
  delete_range_mem mm keys min max = do
    fid ← mm.mem
    delete_in_tables keys min max mm (fid ∷ mm.imm)

-- `NewMemManager` in a directory without log files.
unfoldable pub new_mem_manager : Bool → ℕ → ℕ → (ℕ → MemTable) → Option MemManager
unfolding new_mem_table
new_mem_manager can_create num max tables = with_new can_create (record {
  tables = tables;
  mem = none;
  imm = [];
  next_mem_fid = 1;
  flush_ch = [];
  flushing = 0;
  num_mem_tables = num;
  max_mem_table_size = max;
})
