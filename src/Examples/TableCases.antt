-- ===== src/Examples/TableCases.antt =====
-- The memory table: storage/memory/memtable.go.
use equinoxdb.Entry.{deduplicate_entry}
use equinoxdb.Tables.Reading.{gather, manager_values}
use equinoxdb.Values.{Value, deduplicate}
use equinoxdb.Base.{◌>>=◌}
use equinoxdb.Cache.{put}
use equinoxdb.Base.{ℕ, ◌≡◌, refl, Option, none, some, List, [], ◌∷◌, ◌++◌, arith}
use equinoxdb.Bytes.{Bytes, compare_bytes}
use equinoxdb.Cache.{new_cache, get_splices, descend, gap_of, link_levels, PutResult, stored}
use equinoxdb.Cache.{conflict, nil_entry, add_values, put_descended, find_loop}
use equinoxdb.Cache.{find_greater_or_equal}
use equinoxdb.Cache.Runs.{PutCall, go_on, put_calls, put_rows, new_cache-StandsFor}
use equinoxdb.Cache.Walks.{get}
use equinoxdb.Entry.{value_type, Entry, has_conflict, new_entry_values, filter_entry}
use equinoxdb.Examples.WalCases.{marking, two_floats}
use equinoxdb.Tables.{MemTable, calls, write_table, filter_node, delete_key, delete_range}
use equinoxdb.Tables.{delete_all}
use equinoxdb.Tables.Writing.{Accepts, write_table-Accepts}
use equinoxdb.Values.{float_value, find_range, exclude}
use equinoxdb.Wal.Appends.{Holds}
use equinoxdb.Wal.Entries.{framed}
use equinoxdb.Wal.Log.{write_entry, WalFile, frame, write_multi}
use equinoxdb.Wal.Outcome.{ok}
use equinoxdb.Wal.Sizes.{entry_type, payload_size, key_size, marshal_size}
use equinoxdb.Wal.Writes.{payload_bytes, encode_values, encode_key, encode_keys, encode_sized}
use equinoxdb.Wal.Writes.{encode_writes}
use equinoxdb.Words.{be_bytes}

abbrev empty_table : MemTable
empty_table = record {
  cache = new_cache;
  wal = record { pos = 0; size = 0; bytes = 0 ∷ 0 ∷ [] };
  max_size = 100;
}

abbrev no_life : Bytes → ℕ
no_life k = 0

abbrev height_one : Bytes → ℕ
height_one k = 1

abbrev float_bytes : List ℕ
float_bytes =
    1 ∷ 0 ∷ 1 ∷ 97 ∷ 0 ∷ 0 ∷ 0 ∷ 2 ∷ 128 ∷ 0 ∷ 0 ∷ 0 ∷ 0 ∷ 0 ∷ 0 ∷ 3 ∷ 0 ∷ 0 ∷ 0 ∷ 0 ∷ 0 ∷ 0 ∷ 0 ∷ 7
    ∷ 128 ∷ 0 ∷ 0 ∷ 0 ∷ 0 ∷ 0 ∷ 0 ∷ 4 ∷ 0 ∷ 0 ∷ 0 ∷ 0 ∷ 0 ∷ 0 ∷ 0 ∷ 8 ∷ []

encode_writes-float_bytes : encode_writes two_floats ≡ ok float_bytes
unfolding encode_writes encode_sized encode_keys encode_key encode_values marshal_size key_size
    payload_size entry_type payload_bytes be_bytes
encode_writes-float_bytes = refl

write_table-Accepts_example :
    (w : WalFile) × (write_multi marking empty_table.wal two_floats ≡ ok w)
    × Holds w ([] ++ framed marking (write_entry two_floats) float_bytes)
    × Accepts empty_table w
        (write_table marking empty_table no_life height_one two_floats)
        (put_rows (calls no_life height_one two_floats) [])
unfolding frame be_bytes
write_table-Accepts_example =
    write_table-Accepts marking empty_table [] [] float_bytes no_life height_one two_floats
      new_cache-StandsFor (refl, (0 ∷ 0 ∷ [], refl, (refl, (refl, tt)))) encode_writes-float_bytes
      (omega arith) (λ k. omega arith)

-- A test: Delete of the missing key 97 removes the values of the key 98.
abbrev one_key : PutCall
one_key = record { key = 98 ∷ []; values = float_value 3 7 ∷ []; life_cycle = 0; drawn = 1 }

abbrev deleted_then_got : Option PutResult → Option (Option Entry)
deleted_then_got none = none
deleted_then_got (some conflict) = none
deleted_then_got (some nil_entry) = none
deleted_then_got (some (stored d)) = do e ← delete_all d ((97 ∷ []) ∷ []); get e (98 ∷ [])

delete_all_test :
    deleted_then_got (put_calls (one_key ∷ []) new_cache)
    ≡ some (some (record { v_type = 1; values = [] }))
unfolding put_calls go_on put descend get_splices put_descended link_levels gap_of add_values
    new_cache new_entry_values has_conflict value_type get find_greater_or_equal find_loop
    compare_bytes delete_all delete_range delete_key filter_node filter_entry exclude find_range
delete_all_test = refl

abbrev older_key : PutCall
older_key = record { key = 98 ∷ []; values = float_value 3 5 ∷ []; life_cycle = 0; drawn = 1 }

abbrev values_of : Option PutResult → Option PutResult → Option (List Value)
values_of (some (stored c)) (some (stored d)) = manager_values c (d ∷ []) (98 ∷ [])
values_of _ _ = none

-- A test: of two values with one time, the one in the older table is read.
manager_values_test :
    values_of (put_calls (one_key ∷ []) new_cache) (put_calls (older_key ∷ []) new_cache)
    ≡ some (float_value 3 5 ∷ [])
unfolding put_calls go_on put descend get_splices put_descended link_levels gap_of add_values
    new_cache new_entry_values has_conflict value_type get find_greater_or_equal find_loop
    compare_bytes manager_values gather deduplicate_entry deduplicate
manager_values_test = refl
