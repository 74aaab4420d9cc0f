-- ===== src/Examples/WalCases.antt =====
-- The write-ahead log: storage/store/wal_file.go and storage/store/wal_reader.go.
use equinoxdb.Wal.Replay.{write_all}
use equinoxdb.Wal.Log.{WalFile}
use equinoxdb.Wal.Replay.{ReadsBack, new_file, write_all-ReadsBack}
use equinoxdb.Base.{◌≢◌, true}
use equinoxdb.Values.{boolean_value, string_value}
use equinoxdb.Wal.Deletes.{key_lines, encode_delete, split_lines, unmarshal_delete, sized_keys}
use equinoxdb.Wal.Log.{WalEntry, write_entry, delete_entry, delete_range_entry, type_byte}
use equinoxdb.Wal.Log.{encode_entry, frame}
use equinoxdb.Wal.Replay.{AreLoggable, log_bytes}
use equinoxdb.Wal.Sizes.{entry_type, strings_size, payload_size, key_size}
use equinoxdb.Wal.Writes.{payload_bytes, encode_values, encode_key, encode_keys, encode_sized}
use equinoxdb.Words.{be_bytes}
use equinoxdb.Base.{ℕ, ◌≡◌, refl, Option, none, some, List, [], ◌∷◌, arith, length}
use equinoxdb.Bytes.{Bytes}
use equinoxdb.Values.{float_value}
use equinoxdb.Wal.DeleteTrips.{AreLines}
use equinoxdb.Wal.Deletes.{encode_delete_range}
use equinoxdb.Wal.Log.{Snappy}
use equinoxdb.Wal.Reads.{unmarshal_writes}
use equinoxdb.Wal.RoundTrip.{IsEntry}
use equinoxdb.Wal.RoundTrip.{unmarshal_writes-encode_writes}
use equinoxdb.Wal.Sizes.{KeyValues, marshal_size}
use equinoxdb.Wal.Writes.{encode_writes}
use equinoxdb.Wal.Outcome.{ok, failed, panicked}

abbrev pub marked : List ℕ → List ℕ
marked b = 1 ∷ b

abbrev pub unmarked : List ℕ → Option (List ℕ)
unmarked [] = none
unmarked (x ∷ b) = some b

-- A compression that only marks what it is given.
abbrev pub marking : Snappy
marking = record {
  encode = marked;
  decode = unmarked;
  decode-encode = λ b. refl;
  decode_nil = refl;
}

abbrev pub two_floats : KeyValues
two_floats = (97 ∷ [], float_value 3 7 ∷ float_value 4 8 ∷ []) ∷ []

pub two_floats-IsEntry : IsEntry two_floats
unfolding entry_type
two_floats-IsEntry = (
  (
    omega arith,
    omega arith,
    ((refl, (omega arith, omega arith)), ((refl, (omega arith, omega arith)), tt)),
  ),
  tt,
  tt,
)

unmarshal_writes-encode_writes_example :
    (b : List ℕ) × (encode_writes two_floats ≡ ok b)
    × (marshal_size two_floats ≡ some (length b))
    × (unmarshal_writes [] b ≡ ok two_floats)
unmarshal_writes-encode_writes_example =
    unmarshal_writes-encode_writes two_floats two_floats-IsEntry

abbrev some_keys : List Bytes
some_keys = (97 ∷ []) ∷ (98 ∷ 99 ∷ []) ∷ []

some_keys-AreLines : AreLines some_keys
some_keys-AreLines = ((omega arith, tt), ((omega arith, (omega arith, tt)), tt))

not_one_empty : some_keys ≢ [] ∷ []
not_one_empty e = cc

-- A test: a key with a line end is read back as two keys.
unmarshal_delete_test :
    (encode_delete ((97 ∷ 10 ∷ 98 ∷ []) ∷ []) ≡ ok (97 ∷ 10 ∷ 98 ∷ []))
    × (unmarshal_delete (97 ∷ 10 ∷ 98 ∷ []) ≡ (97 ∷ []) ∷ (98 ∷ []) ∷ [])
unfolding encode_delete unmarshal_delete key_lines split_lines
unmarshal_delete_test = (refl, refl)

abbrev mixed : KeyValues
mixed = (97 ∷ [], float_value 3 7 ∷ boolean_value 4 true ∷ []) ∷ []

abbrev mixed_strings : KeyValues
mixed_strings = (97 ∷ [], string_value 3 [] ∷ boolean_value 4 true ∷ []) ∷ []

-- A test: `Encode` fails on values of several types, and panics if the first is a string.
encode_writes_test : (encode_writes mixed ≡ failed) × (encode_writes mixed_strings ≡ panicked)
unfolding encode_writes encode_sized encode_keys encode_key encode_values marshal_size key_size
    payload_size strings_size entry_type
encode_writes_test = (refl, refl)

abbrev three_entries : List WalEntry
three_entries =
    write_entry two_floats ∷ delete_entry some_keys ∷ delete_range_entry some_keys 3 9 ∷ []

three_entries-AreLoggable : AreLoggable three_entries
three_entries-AreLoggable = (
  two_floats-IsEntry,
  (
    (some_keys-AreLines, not_one_empty),
    (((omega arith, (omega arith, tt)), omega arith, omega arith), tt),
  ),
)

abbrev written_bytes : List ℕ
written_bytes =
    1 ∷ 0 ∷ 0 ∷ 0 ∷ 41 ∷ 1 ∷ 1 ∷ 0 ∷ 1 ∷ 97 ∷ 0 ∷ 0 ∷ 0 ∷ 2 ∷ 128 ∷ 0 ∷ 0 ∷ 0 ∷ 0 ∷ 0 ∷ 0 ∷ 3 ∷ 0
    ∷ 0 ∷ 0 ∷ 0 ∷ 0 ∷ 0 ∷ 0 ∷ 7 ∷ 128 ∷ 0 ∷ 0 ∷ 0 ∷ 0 ∷ 0 ∷ 0 ∷ 4 ∷ 0 ∷ 0 ∷ 0 ∷ 0 ∷ 0 ∷ 0 ∷ 0 ∷ 8
    ∷ 2 ∷ 0 ∷ 0 ∷ 0 ∷ 5 ∷ 1 ∷ 97 ∷ 10 ∷ 98 ∷ 99 ∷ 3 ∷ 0 ∷ 0 ∷ 0 ∷ 28 ∷ 1 ∷ 128 ∷ 0 ∷ 0 ∷ 0 ∷ 0 ∷ 0
    ∷ 0 ∷ 3 ∷ 128 ∷ 0 ∷ 0 ∷ 0 ∷ 0 ∷ 0 ∷ 0 ∷ 9 ∷ 0 ∷ 0 ∷ 0 ∷ 1 ∷ 97 ∷ 0 ∷ 0 ∷ 0 ∷ 2 ∷ 98 ∷ 99 ∷ []

log_bytes-written_bytes : log_bytes marking three_entries ≡ ok written_bytes
unfolding log_bytes encode_entry encode_writes encode_sized encode_keys encode_key encode_values
    marshal_size key_size payload_size strings_size entry_type payload_bytes encode_delete key_lines
    encode_delete_range sized_keys frame type_byte be_bytes
log_bytes-written_bytes = refl

write_all-ReadsBack_example :
    (g : WalFile) × (write_all marking (new_file marking 5) three_entries ≡ ok g)
    × ReadsBack marking g three_entries
write_all-ReadsBack_example =
    write_all-ReadsBack marking 5 three_entries written_bytes three_entries-AreLoggable
      log_bytes-written_bytes (omega arith)
