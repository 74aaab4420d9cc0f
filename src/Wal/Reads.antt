-- ===== src/Wal/Reads.antt =====
-- `UnmarshalBinary` of WriteWALEntry in storage/store/wal_file.go. The buffer from the index on is a
-- list; a test of the index against its length is one of the length of that list.
use equinoxdb.Base.{ℕ, zero, suc, ◌*◌, ◌||◌, List, [], ◌∷◌, ltb, ◌==◌, if◌then◌else◌, length}
use equinoxdb.Base.{take, drop}
use equinoxdb.Bytes.{Bytes, equal}
use equinoxdb.Values.{Value, boolean_value, float_value, integer_value, string_value}
use equinoxdb.Values.{unsigned_value, size}
use equinoxdb.Wal.Outcome.{Outcome, ok, failed, panicked, guard, or_fail, slice_of}
use equinoxdb.Wal.Sizes.{KeyValues}
use equinoxdb.Words.{read_word, time_bits}
use equinoxdb.Wal.Outcome.{◌>>=◌, ◌>>◌}

-- One round of the loop for numbers: the room for all of them was tested before the loop.
unfoldable pub read_number : (ℕ → ℕ → Value) → List ℕ → Outcome (Value × List ℕ)
read_number make b = do
  t ← slice_of (read_word 8 b)
  v ← slice_of (read_word 8 t.1)
  ok (make (time_bits t.0) v.0, v.1)

-- A byte other than 1 is false.
unfoldable pub read_boolean : List ℕ → Outcome (Value × List ℕ)
read_boolean b = do
  t ← slice_of (read_word 8 b)
  v ← slice_of (read_word 1 t.1)
  ok (boolean_value (time_bits t.0) (v.0 == 1), v.1)

-- The room for the string is tested both before and after its length is passed over.
unfoldable pub read_string : List ℕ → Outcome (Value × List ℕ)
read_string b = do
  guard (ltb (length b) 12)
  t ← slice_of (read_word 8 b)
  n ← slice_of (read_word 4 t.1)
  guard (ltb (length t.1) n.0)
  guard (ltb (length n.1) n.0)
  ok (string_value (time_bits t.0) (take n.0 n.1), drop n.0 n.1)

unfoldable pub read_values :
    (List ℕ → Outcome (Value × List ℕ)) → ℕ → List ℕ → Outcome (List Value × List ℕ)
read_values read zero b = ok ([], b)
read_values read (suc n) b = do x ← read b; r ← read_values read n x.1; ok (x.0 ∷ r.0, r.1)

-- The test `i+16*nvals > len(b)` before a loop.
unfoldable pub read_sized :
    ℕ → (List ℕ → Outcome (Value × List ℕ)) → ℕ → List ℕ → Outcome (List Value × List ℕ)
unfolding read_values
read_sized size read n b = do guard (ltb (length b) (size * n)); read_values read n b

-- The switch on the type; another type is an error.
unfoldable pub read_typed : ℕ → ℕ → List ℕ → Outcome (List Value × List ℕ)
unfolding read_sized read_number read_boolean read_string
read_typed typ n b =
    if typ == 1
    then read_sized 16 (read_number float_value) n b
    else if typ == 2
    then read_sized 16 (read_number integer_value) n b
    else if typ == 5
    then read_sized 16 (read_number unsigned_value) n b
    else if typ == 3
    then read_sized 9 read_boolean n b
    else if typ == 4
    then read_values read_string n b
    else failed

-- `w.Values[k] = values`
unfoldable pub put_values : Bytes → List Value → KeyValues → KeyValues
put_values k vs [] = (k, vs) ∷ []
put_values k vs ((j, ws) ∷ m) = if equal j k then (k, vs) ∷ m else (j, ws) ∷ put_values k vs m

-- One round of the outer loop behind the type, for a buffer of `len` bytes.
unfoldable pub read_key : ℕ → ℕ → List ℕ → Outcome ((Bytes × List Value) × List ℕ)
unfolding read_typed
read_key len typ b = do
  k ← or_fail (read_word 2 b)
  guard (ltb (length k.1) k.0)
  n ← or_fail (read_word 4 (drop k.0 k.1))
  guard (n.0 == 0 || ltb len n.0)
  r ← read_typed typ n.0 n.1
  ok ((take k.0 k.1, r.0), r.1)

-- The outer loop, on fuel: a round takes seven bytes or more.
unfoldable pub unmarshal_loop : ℕ → ℕ → KeyValues → List ℕ → Outcome KeyValues
unfolding read_key put_values
unmarshal_loop zero len m b = panicked
unmarshal_loop (suc fuel) len m [] = ok m
unmarshal_loop (suc fuel) len m (typ ∷ b) = do
  r ← read_key len typ b
  unmarshal_loop fuel len (put_values r.0.0 r.0.1 m) r.1

unfoldable pub unmarshal_writes : KeyValues → List ℕ → Outcome KeyValues
unfolding unmarshal_loop
unmarshal_writes m b = unmarshal_loop (suc (length b)) (length b) m b
