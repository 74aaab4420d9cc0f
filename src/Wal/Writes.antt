-- ===== src/Wal/Writes.antt =====
-- `Encode` of WriteWALEntry in storage/store/wal_file.go.
use equinoxdb.Base.{Option}
use equinoxdb.Wal.Outcome.{panicked}
use equinoxdb.Base.{ℕ, not, none, some, List, [], ◌∷◌, ◌++◌, ◌==◌, if◌then◌else◌, length}
use equinoxdb.Bytes.{Bytes}
use equinoxdb.Values.{Value, boolean_value, float_value, integer_value, string_value}
use equinoxdb.Values.{unsigned_value, unix_nano}
use equinoxdb.Wal.Outcome.{Outcome, ok, guard}
use equinoxdb.Wal.Sizes.{KeyValues, entry_type, marshal_size}
use equinoxdb.Words.{be_bytes, time_bits}
use equinoxdb.Wal.Outcome.{◌>>=◌, ◌>>◌}

-- The bytes of one value behind its time.
unfoldable pub payload_bytes : Value → List ℕ
payload_bytes (float_value t v) = be_bytes 8 v
payload_bytes (integer_value t v) = be_bytes 8 v
payload_bytes (unsigned_value t v) = be_bytes 8 v
payload_bytes (boolean_value t v) = (if v then 1 else 0) ∷ []
payload_bytes (string_value t v) = be_bytes 4 (length v) ++ v

abbrev pub value_bytes : Value → List ℕ
value_bytes v = be_bytes 8 (time_bits (unix_nano v)) ++ payload_bytes v

-- The inner loop of `Encode`; a value of another type than the first is an error.
unfoldable pub encode_values : ℕ → List Value → Outcome (List ℕ)
unfolding payload_bytes entry_type
encode_values typ [] = ok []
encode_values typ (v ∷ vs) = do
  guard (not (entry_type v == typ))
  r ← encode_values typ vs
  ok (value_bytes v ++ r)

-- A round of the outer loop; `v[0]` of no values panics.
unfoldable pub encode_key : Bytes → List Value → Outcome (List ℕ)
unfolding encode_values
encode_key k [] = panicked
encode_key k (v ∷ vs) = do
  r ← encode_values (entry_type v) (v ∷ vs)
  ok (entry_type v ∷ (be_bytes 2 (length k) ++ (k ++ (be_bytes 4 (length (v ∷ vs)) ++ r))))

unfoldable pub encode_keys : KeyValues → Outcome (List ℕ)
unfolding encode_key
encode_keys [] = ok []
encode_keys ((k, vs) ∷ m) = do b ← encode_key k vs; r ← encode_keys m; ok (b ++ r)

-- `Encode` into a buffer of `MarshalSize` bytes: with an early return of 0 there the buffer is
-- empty, and the first write to it panics.
unfoldable pub encode_sized : Option ℕ → KeyValues → Outcome (List ℕ)
unfolding encode_keys
encode_sized none m = panicked
encode_sized (some n) m = encode_keys m

unfoldable pub encode_writes : KeyValues → Outcome (List ℕ)
unfolding marshal_size encode_sized
encode_writes [] = ok []
encode_writes (e ∷ m) = encode_sized (marshal_size (e ∷ m)) (e ∷ m)
