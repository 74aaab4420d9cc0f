-- ===== src/Tables/Writing.antt =====
-- `WriteMulti` of storage/memory/memtable.go: the log and the skip list together.
use equinoxdb.Base.{ℕ, ◌+◌, ◌^◌, ◌<◌, ◌≡◌, sym, ap, subst, Option, some, List, [], ◌∷◌, ◌++◌}
use equinoxdb.Base.{length, All}
use equinoxdb.Base.Bisect.{front}
use equinoxdb.Booleans.{encoded}
use equinoxdb.Bytes.{Bytes}
use equinoxdb.Cache.{Cache, PutResult}
use equinoxdb.Cache.Refinement.{Refines}
use equinoxdb.Cache.Runs.{put_calls, put_rows, put_calls-Refines}
use equinoxdb.Cache.Table.{Table, TablePut, table, type_conflict, no_entry, StandsFor}
use equinoxdb.Tables.{MemTable, calls, TableWrite, table_written, cache_failed, cache_panic}
use equinoxdb.Tables.{after_puts, after_wal, write_table}
use equinoxdb.Wal.Appends.{Holds}
use equinoxdb.Wal.Entries.{framed}
use equinoxdb.Wal.Log.{Snappy, write_entry, encode_entry, WalFile, write_multi}
use equinoxdb.Wal.Outcome.{ok}
use equinoxdb.Wal.Replay.{write_entry_to_wal-Holds}
use equinoxdb.Wal.Sizes.{KeyValues}
use equinoxdb.Wal.Writes.{encode_writes}

-- The results of `WriteMulti` that a result on a table allows, once the log is written.
abbrev pub Accepts : MemTable → WalFile → Option TableWrite → TablePut → Type 0
Accepts m w r (table u) =
    (d : Cache) × (r ≡ some (table_written (record m { cache = d; wal = w }))) × StandsFor d u
Accepts m w r type_conflict = r ≡ some (cache_failed w)
Accepts m w r no_entry = r ≡ some (cache_panic w)

Accepts-Refines :
    (m : MemTable) (w : WalFile) (r : Option PutResult) (t : TablePut)
    → Refines r t
    → Accepts m w (after_puts m w r) t
Accepts-Refines m w r (table u) (d, done, stands) = (d, ap (after_puts m w) done, stands)
Accepts-Refines m w r type_conflict done = ap (after_puts m w) done
Accepts-Refines m w r no_entry done = ap (after_puts m w) done

calls-drawn :
    (life h : Bytes → ℕ) (values : KeyValues)
    → ((k : Bytes) → 0 < h k)
    → All (λ x. 0 < x.drawn) (calls life h values)
calls-drawn life h [] tall = tt
calls-drawn life h ((k, vs) ∷ m) tall = (tall k, calls-drawn life h m tall)

-- Once the log is written, the puts decide.
pub write_table-logged :
    (s : Snappy) (m : MemTable) (t : Table) (w : WalFile) (life h : Bytes → ℕ) (values : KeyValues)
    → StandsFor m.cache t
    → ((k : Bytes) → 0 < h k)
    → write_multi s m.wal values ≡ ok w
    → Accepts m w (write_table s m life h values) (put_rows (calls life h values) t)
unfolding write_table
write_table-logged s m t w life h values stands tall done =
    let puts =
      put_calls-Refines (calls life h values) m.cache t (calls-drawn life h values tall) stands in
    subst (λ (r : Option TableWrite). Accepts m w r (put_rows (calls life h values) t))
      (sym (ap (after_wal m life h values) done))
      (Accepts-Refines m w (put_calls (calls life h values) m.cache) _ puts)

-- A write to a memory table whose log has bytes up to its position and whose skip list stands for a
-- table, if the values can be encoded and the log stays below 2^32 bytes: the log then has the entry
-- behind those bytes, and the skip list stands for the table with the values put in, or the call
-- ends with the error, or the panic, that a put into the table ends with, and leaves the log with the
-- entry.
pub write_table-Accepts :
    (s : Snappy) (m : MemTable) (t : Table) (front b : List ℕ) (life h : Bytes → ℕ)
    (values : KeyValues)
    → StandsFor m.cache t
    → Holds m.wal front
    → encode_writes values ≡ ok b
    → length front + length (framed s (write_entry values) b) < 2 ^ 32
    → ((k : Bytes) → 0 < h k)
    → (w : WalFile) × (write_multi s m.wal values ≡ ok w)
      × Holds w (front ++ framed s (write_entry values) b)
      × Accepts m w (write_table s m life h values) (put_rows (calls life h values) t)
unfolding write_multi encode_entry
write_table-Accepts s m t front b life h values stands held encoded small tall =
    let (w, done, new_held) =
      write_entry_to_wal-Holds s m.wal front (write_entry values) b encoded held small in
    (w, done, new_held, write_table-logged s m t w life h values stands tall done)
