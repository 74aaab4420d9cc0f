-- ===== src/Tables/Reading.antt =====
-- `Values` of storage/memory/memtable_manager.go: the values of a key in the current table and the
-- older ones that wait to be flushed. That the entries are deduplicated in place is not followed.
use equinoxdb.Base.{Option, none, some, List, [], ◌∷◌, ◌++◌}
use equinoxdb.Bytes.{Bytes}
use equinoxdb.Cache.{Cache}
use equinoxdb.Cache.Walks.{get}
use equinoxdb.Entry.{Entry, deduplicate_entry}
use equinoxdb.Values.{Value, deduplicate}
use equinoxdb.Base.{◌>>=◌}

abbrev pub entry_values : Option Entry → List Value
entry_values none = []
entry_values (some e) = (deduplicate_entry e).values

-- The entries of the tables, the current one first.
unfoldable pub gather : List Cache → Bytes → Option (List Value)
unfolding get
gather [] k = some []
gather (c ∷ cs) k = do e ← get c k; r ← gather cs k; some (entry_values e ++ r)

unfoldable pub manager_values : Cache → List Cache → Bytes → Option (List Value)
unfolding gather
manager_values c imm k = do r ← gather (c ∷ imm) k; some (deduplicate r)
