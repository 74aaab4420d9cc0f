-- ===== src/Wal/Deletes.antt =====
-- DeleteWALEntry and DeleteRangeWALEntry of storage/store/wal_file.go.
use equinoxdb.Base.{ℕ, zero, suc, ◌-◌, List, [], ◌∷◌, ◌++◌, ltb, ◌==◌, if◌then◌else◌, length}
use equinoxdb.Base.{take, drop}
use equinoxdb.Bytes.{Bytes}
use equinoxdb.Wal.Outcome.{Outcome, ok, panicked, guard, or_fail, slice_of}
use equinoxdb.Words.{be_bytes, read_word, time_bits}
use equinoxdb.Wal.Outcome.{◌>>=◌, ◌>>◌}

-- The byte of a line end.
abbrev pub newline : ℕ
newline = 10

unfoldable pub key_lines : List Bytes → List ℕ
key_lines [] = []
key_lines (k ∷ ks) = k ++ (newline ∷ key_lines ks)

-- `Encode` of DeleteWALEntry: `dst[:n-1]` of no keys panics.
unfoldable pub encode_delete : List Bytes → Outcome (List ℕ)
unfolding key_lines
encode_delete [] = panicked
encode_delete (k ∷ ks) = ok (take (length (key_lines (k ∷ ks)) - 1) (key_lines (k ∷ ks)))

-- bytes.Split at line ends, `line` being the bytes since the last one.
unfoldable pub split_lines : List ℕ → List ℕ → List Bytes
split_lines line [] = line ∷ []
split_lines line (b ∷ bs) =
    let closed = split_lines [] bs in
    let longer = split_lines (line ++ (b ∷ [])) bs in if b == newline then line ∷ closed else longer

-- `UnmarshalBinary` of DeleteWALEntry.
unfoldable pub unmarshal_delete : List ℕ → List Bytes
unfolding split_lines
unmarshal_delete [] = []
unmarshal_delete (b ∷ bs) = split_lines [] (b ∷ bs)

unfoldable pub sized_keys : List Bytes → List ℕ
sized_keys [] = []
sized_keys (k ∷ ks) = be_bytes 4 (length k) ++ (k ++ sized_keys ks)

-- `Encode` of DeleteRangeWALEntry, for a buffer of `MarshalSize` bytes.
unfoldable pub encode_delete_range : List Bytes → ℕ → ℕ → List ℕ
unfolding sized_keys
encode_delete_range ks min max =
    be_bytes 8 (time_bits min) ++ (be_bytes 8 (time_bits max) ++ sized_keys ks)

-- The loop of `UnmarshalBinary`, on fuel: a round takes four bytes or more.
unfoldable pub read_keys : ℕ → List ℕ → Outcome (List Bytes)
read_keys zero b = panicked
read_keys (suc fuel) [] = ok []
read_keys (suc fuel) (x ∷ b) = do
  n ← or_fail (read_word 4 (x ∷ b))
  guard (ltb (length n.1) n.0)
  ks ← read_keys fuel (drop n.0 n.1)
  ok (take n.0 n.1 ∷ ks)

-- `UnmarshalBinary` of DeleteRangeWALEntry: the keys and the two times.
unfoldable pub unmarshal_delete_range : List ℕ → Outcome (List Bytes × (ℕ × ℕ))
unfolding read_keys
unmarshal_delete_range b = do
  guard (ltb (length b) 16)
  min ← slice_of (read_word 8 b)
  max ← slice_of (read_word 8 min.1)
  ks ← read_keys (suc (length b)) max.1
  ok (ks, (time_bits min.0, time_bits max.0))
