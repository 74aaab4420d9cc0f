-- ===== src/Tables.antt =====
-- storage/memory/memtable.go: a memory table is a skip list with a write-ahead log. Writers hold the
-- lock of the manager (storage/memory/memtable_manager.go).
pub mod Writing
pub mod Reading
pub mod Opening
pub mod Reader
pub mod Replayed
pub mod Rounds
pub mod Restored
pub mod Durable
use equinoxdb.Base.{◌>>=◌}
use equinoxdb.Base.{ℕ, ◌+◌, ◌-◌, ◌%◌, ◌^◌, Bool, ◌&&◌, ◌||◌, Option, none, some, List, [], ◌∷◌}
use equinoxdb.Base.{leb, ◌==◌, if◌then◌else◌}
use equinoxdb.Bytes.{Bytes}
use equinoxdb.Cache.{Cache, by_pointer, PutResult, stored, conflict, nil_entry, set_entry}
use equinoxdb.Cache.{find_greater_or_equal}
use equinoxdb.Cache.Runs.{PutCall, put_calls}
use equinoxdb.Cache.Walks.{decrease_size}
use equinoxdb.Entry.{Entry, filter_entry, size_entry, clean_entry}
use equinoxdb.Values.{size}
use equinoxdb.Wal.Log.{Snappy, WalFile, write_multi}
use equinoxdb.Wal.Outcome.{Outcome, ok, failed, panicked}
use equinoxdb.Wal.Sizes.{KeyValues}

pub record MemTable : Type 0 where
  pub cache : Cache
  pub wal : WalFile
  pub max_size : ℕ

-- The calls of `Put` in `WriteMulti`, with the life cycles and the heights that are drawn.
abbrev pub calls : (Bytes → ℕ) → (Bytes → ℕ) → KeyValues → List PutCall
calls life h [] = []
calls life h ((k, vs) ∷ m) =
    record { key = k; values = vs; life_cycle = life k; drawn = h k } ∷ calls life h m

-- What `WriteMulti` returns. After an error, or a panic of the cache, the log is followed, and the
-- skip list is not.
pub data TableWrite : Type 0 where
  table_written : MemTable → TableWrite
  wal_failed : TableWrite
  cache_failed : WalFile → TableWrite
  cache_panic : WalFile → TableWrite
  wal_panic : TableWrite

abbrev pub after_puts : MemTable → WalFile → Option PutResult → Option TableWrite
after_puts m w none = none
after_puts m w (some (stored c)) = some (table_written (record m { cache = c; wal = w }))
after_puts m w (some conflict) = some (cache_failed w)
after_puts m w (some nil_entry) = some (cache_panic w)

abbrev pub after_wal :
    MemTable → (Bytes → ℕ) → (Bytes → ℕ) → KeyValues → Outcome WalFile → Option TableWrite
after_wal m life h values failed = some wal_failed
after_wal m life h values panicked = some wal_panic
after_wal m life h values (ok w) = after_puts m w (put_calls (calls life h values) m.cache)

-- `WriteMulti`: the log first.
unfoldable pub write_table :
    Snappy → MemTable → (Bytes → ℕ) → (Bytes → ℕ) → KeyValues → Option TableWrite
write_table s m life h values = after_wal m life h values (write_multi s m.wal values)

-- `IsFull`
unfoldable pub is_full : MemTable → Bool
is_full m = leb (m.max_size % 2 ^ 32) m.cache.size || leb (m.max_size % 2 ^ 32) m.wal.pos

-- The entry of a key in `DeleteRange`: cleaned if the range is all times, then filtered; a nil
-- entry is passed over.
unfoldable pub filter_node : Cache → ℕ → ℕ → ℕ → Option Entry → Option Cache
filter_node c p min max none = some c
filter_node c p min max (some e) = do
  f ← filter_entry (if min == 0 && max == 2 ^ 64 - 1 then clean_entry e else e) min max
  some (
      decrease_size (set_entry c p f)
        ((size_entry e % 2 ^ 32 + 2 ^ 32 - size_entry f % 2 ^ 32) % 2 ^ 32))

unfoldable pub delete_key : Cache → ℕ → ℕ → Bytes → Option Cache
unfolding find_greater_or_equal filter_node
delete_key c min max k = do
  r ← find_greater_or_equal c k
  by_pointer r (some c) (λ p. filter_node c p min max (c.nodes p).entry)

-- `DeleteRange` and `Delete`; `none` is a panic.
unfoldable pub delete_range : Cache → List Bytes → ℕ → ℕ → Option Cache
unfolding delete_key
delete_range c [] min max = some c
delete_range c (k ∷ ks) min max = do d ← delete_key c min max k; delete_range d ks min max

unfoldable pub delete_all : Cache → List Bytes → Option Cache
unfolding delete_range
delete_all c ks = delete_range c ks 0 (2 ^ 64 - 1)
