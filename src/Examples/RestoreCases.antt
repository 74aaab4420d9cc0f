-- ===== src/Examples/RestoreCases.antt =====
-- Opening a memory table from its log: storage/memory/memtable.go.
use equinoxdb.Tables.Restored.{IsReordering, empty_map, kept_first, swapped_first}
use equinoxdb.Wal.Reads.{read_number, read_values, read_sized, read_typed, put_values, read_key}
use equinoxdb.Words.{be_value}
use equinoxdb.Cache.{new_cache, get_splices, descend, gap_of, link_levels, add_values}
use equinoxdb.Cache.{put}
use equinoxdb.Cache.{put_descended, find_loop, find_greater_or_equal}
use equinoxdb.Cache.Runs.{go_on, put_calls}
use equinoxdb.Examples.WalCases.{two_floats-IsEntry}
use equinoxdb.Tables.{write_table, filter_node, delete_key, delete_range, delete_all}
use equinoxdb.Tables.Opening.{refill, read_mapped, read_frame, read_over, next_from}
use equinoxdb.Tables.Opening.{replay_entry, replay_on, restore_from_wal}
use equinoxdb.Wal.Deletes.{split_lines, unmarshal_delete}
use equinoxdb.Wal.Log.{unmarshal_entry, truncate, make_room, copy_in, write_bytes}
use equinoxdb.Wal.Log.{write_entry_to_wal, write_multi, next_entry}
use equinoxdb.Wal.Reads.{unmarshal_loop, unmarshal_writes}
use equinoxdb.Words.{read_word}
use equinoxdb.Base.{ℕ, ◌≡◌, refl, Option, none, some, List, [], ◌∷◌, ◌++◌, arith, length}
use equinoxdb.Base.{get_elem?, drop}
use equinoxdb.Bytes.{Bytes, compare_bytes}
use equinoxdb.Cache.Runs.{rows_on, put_rows}
use equinoxdb.Cache.Table.{Table, table, put_row, StandsFor}
use equinoxdb.Entry.{value_type, has_conflict, new_entry_values, add_locked, add_entry}
use equinoxdb.Examples.WalCases.{marking, two_floats}
use equinoxdb.Tables.{MemTable, table_written}
use equinoxdb.Tables.Durable.{TableCall, write_tables, Reopens, write_tables-Reopens}
use equinoxdb.Tables.Opening.{TableOpened, table_opened, table_on_new_file, open_mem_table}
use equinoxdb.Tables.Replayed.{writes, replay_rows}
use equinoxdb.Tables.Restored.{Restores, open_mem_table-Restores}
use equinoxdb.Values.{float_value}
use equinoxdb.Wal.Log.{type_byte, encode_entry, frame}
use equinoxdb.Wal.Outcome.{ok}
use equinoxdb.Wal.Replay.{log_bytes}
use equinoxdb.Wal.Sizes.{KeyValues, entry_type, payload_size, key_size, marshal_size}
use equinoxdb.Wal.Writes.{payload_bytes, encode_values, encode_key, encode_keys, encode_sized}
use equinoxdb.Wal.Writes.{encode_writes}
use equinoxdb.Words.{be_bytes}

-- An order that is not the one in which the keys stand.
abbrev turned : KeyValues → KeyValues
turned [] = []
turned (x ∷ []) = x ∷ []
turned (x ∷ y ∷ v) = y ∷ x ∷ v

turned-IsReordering : (v : KeyValues) → IsReordering (turned v) v
turned-IsReordering [] = empty_map
turned-IsReordering (x ∷ []) = kept_first x empty_map
turned-IsReordering (x ∷ y ∷ v) = swapped_first y x v

abbrev drawn_one : ℕ → Bytes → ℕ
drawn_one n k = 1

-- The bytes of one write entry, with its compression.
abbrev entry_of_floats : List ℕ
entry_of_floats =
    1 ∷ 0 ∷ 0 ∷ 0 ∷ 41 ∷ 1 ∷ 1 ∷ 0 ∷ 1 ∷ 97 ∷ 0 ∷ 0 ∷ 0 ∷ 2 ∷ 128 ∷ 0 ∷ 0 ∷ 0 ∷ 0 ∷ 0 ∷ 0 ∷ 3 ∷ 0
    ∷ 0 ∷ 0 ∷ 0 ∷ 0 ∷ 0 ∷ 0 ∷ 7 ∷ 128 ∷ 0 ∷ 0 ∷ 0 ∷ 0 ∷ 0 ∷ 0 ∷ 4 ∷ 0 ∷ 0 ∷ 0 ∷ 0 ∷ 0 ∷ 0 ∷ 0 ∷ 8
    ∷ []

log_bytes-twice :
    log_bytes marking (writes (two_floats ∷ two_floats ∷ []))
    ≡ ok (entry_of_floats ++ entry_of_floats)
unfolding log_bytes encode_entry encode_writes encode_sized encode_keys encode_key encode_values
    marshal_size key_size payload_size entry_type payload_bytes frame type_byte be_bytes
log_bytes-twice = refl

abbrev one_row : Table
one_row =
    (
      97 ∷ [],
      some (record {
        v_type = 1;
        values = float_value 3 7 ∷ float_value 4 8 ∷ float_value 3 7 ∷ float_value 4 8 ∷ [];
      }),
    )
    ∷ []

replay_rows-twice : replay_rows (two_floats ∷ two_floats ∷ []) [] ≡ table one_row
unfolding replay_rows rows_on put_rows put_row new_entry_values has_conflict value_type add_entry
    add_locked compare_bytes
replay_rows-twice = refl

open_mem_table-Restores_example :
    Restores
      (entry_of_floats ++ entry_of_floats ++ 0 ∷ [])
      (length (entry_of_floats ++ entry_of_floats))
      20
      (open_mem_table marking 8 turned drawn_one (entry_of_floats ++ entry_of_floats ++ 0 ∷ []) 20)
      (replay_rows (two_floats ∷ two_floats ∷ []) [])
open_mem_table-Restores_example =
    open_mem_table-Restores marking 8 turned drawn_one (two_floats ∷ two_floats ∷ [])
      (entry_of_floats ++ entry_of_floats) (0 ∷ []) 1
      (drop 1 (entry_of_floats ++ entry_of_floats ++ 0 ∷ [])) 20 turned-IsReordering
      ((two_floats-IsEntry, omega arith), ((two_floats-IsEntry, omega arith), tt)) log_bytes-twice
      (refl, tt) refl (omega arith) (λ n k. omega arith)

abbrev two_calls : List TableCall
two_calls =
    record { values = two_floats; life = λ k. 0; heights = λ k. 2 }
    ∷ record { values = two_floats; life = λ k. 5; heights = λ k. 1 }
    ∷ []

write_tables-Reopens_example :
    (m : MemTable) × (write_tables marking two_calls (table_on_new_file 20)
      ≡ some (table_written m))
    × StandsFor m.cache one_row
    × Reopens marking 8 turned drawn_one 20 m one_row
write_tables-Reopens_example =
    write_tables-Reopens marking 8 turned drawn_one two_calls 20 one_row
      (entry_of_floats ++ entry_of_floats) (omega arith) turned-IsReordering
      ((two_floats-IsEntry, omega arith), ((two_floats-IsEntry, omega arith), tt)) log_bytes-twice
      (omega arith) ((λ k. omega arith), ((λ k. omega arith), tt)) (λ n k. omega arith)
      replay_rows-twice

-- A test: on a log with a write, a deletion and a write, the bytes of the deletion, which is not
-- written again, are where the second write is put.
abbrev deletion : List ℕ
deletion = 2 ∷ 0 ∷ 0 ∷ 0 ∷ 2 ∷ 1 ∷ 98 ∷ []

abbrev with_deletion : List ℕ
with_deletion = entry_of_floats ++ deletion ++ entry_of_floats

abbrev restored_type : Option TableOpened → Option ℕ
restored_type (some (table_opened o)) = get_elem? o.wal.bytes 46
restored_type _ = none

restored_type_test :
    restored_type (open_mem_table marking 8 turned drawn_one with_deletion 20) ≡ some 1
unfolding open_mem_table restore_from_wal replay_on replay_entry next_from read_over read_frame
    read_mapped refill next_entry unmarshal_entry unmarshal_writes unmarshal_loop write_table
    write_multi write_entry_to_wal write_bytes make_room truncate copy_in encode_entry encode_writes
    encode_sized encode_keys encode_key encode_values marshal_size key_size payload_size entry_type
    payload_bytes frame type_byte be_bytes put_calls go_on put descend get_splices put_descended
    link_levels gap_of add_values new_cache new_entry_values has_conflict value_type add_entry
    add_locked delete_all delete_range delete_key filter_node find_greater_or_equal find_loop
    compare_bytes read_word be_value unmarshal_delete split_lines read_number read_values read_sized
    read_typed read_key put_values
restored_type_test = refl
