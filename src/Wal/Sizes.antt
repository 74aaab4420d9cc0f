-- ===== src/Wal/Sizes.antt =====
-- `MarshalSize` of WriteWALEntry in storage/store/wal_file.go. The map from keys to values is a list
-- of keys with their values, in the order in which `range` visits it.
use equinoxdb.Base.{ℕ, ◌+◌, ◌*◌, Option, none, some, List, [], ◌∷◌, length}
use equinoxdb.Bytes.{Bytes}
use equinoxdb.Values.{Value, boolean_value, float_value, integer_value, string_value}
use equinoxdb.Values.{unsigned_value}
use equinoxdb.Base.{◌>>=◌}

abbrev pub KeyValues : Type 0
KeyValues = List (Bytes × List Value)

-- float64EntryType and the other entry types.
unfoldable pub entry_type : Value → ℕ
entry_type (float_value t v) = 1
entry_type (integer_value t v) = 2
entry_type (boolean_value t v) = 3
entry_type (string_value t v) = 4
entry_type (unsigned_value t v) = 5

-- The sizes of strings in `MarshalSize`; `none` is its return of 0 on a value of another type.
unfoldable pub strings_size : List Value → Option ℕ
strings_size [] = some 0
strings_size (string_value t v ∷ vs) = do n ← strings_size vs; some (4 + length v + n)
strings_size (float_value t v ∷ vs) = none
strings_size (integer_value t v ∷ vs) = none
strings_size (boolean_value t v ∷ vs) = none
strings_size (unsigned_value t v ∷ vs) = none

-- The switch on the type of the first value.
unfoldable pub payload_size : Value → List Value → Option ℕ
unfolding strings_size
payload_size (float_value t v) vs = some (8 * length vs)
payload_size (integer_value t v) vs = some (8 * length vs)
payload_size (unsigned_value t v) vs = some (8 * length vs)
payload_size (boolean_value t v) vs = some (length vs)
payload_size (string_value t v) vs = strings_size vs

unfoldable pub key_size : Bytes → List Value → Option ℕ
unfolding payload_size
key_size k [] = none
key_size k (v ∷ vs) = do n ← payload_size v (v ∷ vs); some (7 + length k + 8 * length (v ∷ vs) + n)

-- `MarshalSize`; `none` is its early return of 0.
unfoldable pub marshal_size : KeyValues → Option ℕ
unfolding key_size
marshal_size [] = some 0
marshal_size ((k, vs) ∷ m) = do n ← key_size k vs; r ← marshal_size m; some (n + r)
