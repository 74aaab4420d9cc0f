-- ===== src/Wal/Log.antt =====
-- The file of storage/store/wal_file.go, to which entries are appended, and the reader of
-- storage/store/wal_reader.go.
use equinoxdb.Base.{ℕ, zero, suc, ◌+◌, ◌-◌, ◌%◌, ◌^◌, ◌≡◌, Option, none, some, List, [], ◌∷◌}
use equinoxdb.Base.{◌++◌, ltb, leb, ◌==◌, if◌then◌else◌, length, take, drop}
use equinoxdb.Base.Slices.{copy_at}
use equinoxdb.Bytes.{Bytes}
use equinoxdb.Wal.Deletes.{encode_delete, unmarshal_delete, encode_delete_range}
use equinoxdb.Wal.Deletes.{unmarshal_delete_range}
use equinoxdb.Wal.Outcome.{Outcome, ok, failed, panicked, guard, or_fail}
use equinoxdb.Wal.Reads.{unmarshal_writes}
use equinoxdb.Wal.Sizes.{KeyValues}
use equinoxdb.Wal.Writes.{encode_writes}
use equinoxdb.Words.{be_bytes, read_word}
use equinoxdb.Wal.Outcome.{◌>>=◌, ◌>>◌}

-- github.com/golang/snappy: what is encoded can be decoded, and no bytes are not an encoding.
pub record Snappy : Type 0 where
  pub encode : List ℕ → List ℕ
  pub decode : List ℕ → Option (List ℕ)
  pub decode-encode : (b : List ℕ) → decode (encode b) ≡ some b
  pub decode_nil : decode [] ≡ none

-- The entries. A delete-range entry has its smallest and its largest time.
pub data WalEntry : Type 0 where
  write_entry : KeyValues → WalEntry
  delete_entry : List Bytes → WalEntry
  delete_range_entry : List Bytes → ℕ → ℕ → WalEntry

-- `Type`
unfoldable pub type_byte : WalEntry → ℕ
type_byte (write_entry m) = 1
type_byte (delete_entry ks) = 2
type_byte (delete_range_entry ks min max) = 3

unfoldable pub encode_entry : WalEntry → Outcome (List ℕ)
encode_entry (write_entry m) = encode_writes m
encode_entry (delete_entry ks) = encode_delete ks
encode_entry (delete_range_entry ks min max) = ok (encode_delete_range ks min max)

-- The switch on the type in `Next`, and `UnmarshalBinary`.
unfoldable pub unmarshal_entry : ℕ → List ℕ → Outcome WalEntry
unmarshal_entry typ b =
    if typ == 1
    then (do m ← unmarshal_writes [] b; ok (write_entry m))
    else if typ == 2
    then ok (delete_entry (unmarshal_delete b))
    else if typ == 3
    then (do r ← unmarshal_delete_range b; ok (delete_range_entry r.0 r.1.0 r.1.1))
    else failed

-- `Data` is the mapped file; `Pos` and `size` are 32-bit counters.
pub record WalFile : Type 0 where
  pub pos : ℕ
  pub size : ℕ
  pub bytes : List ℕ

abbrev pub zero_bytes : ℕ → List ℕ
zero_bytes zero = []
zero_bytes (suc n) = 0 ∷ zero_bytes n

-- `Truncate`: the file is cut, or grows by zeros. The operating system is taken to succeed.
unfoldable pub truncate : WalFile → ℕ → WalFile
truncate f end =
    if length f.bytes == end
    then f
    else record f { size = end; bytes = take end f.bytes ++ zero_bytes (end - length f.bytes) }

abbrev pub word32 : ℕ
word32 = 2 ^ 32

-- The test of `write` for room behind the position.
unfoldable pub make_room : WalFile → ℕ → WalFile
unfolding truncate
make_room f new = if leb (length f.bytes) new then truncate f new else f

-- The copy of `write` to the end of the new position; a position that wrapped below the length of
-- the bytes makes the slice expression panic.
unfoldable pub copy_in : WalFile → ℕ → List ℕ → Outcome WalFile
copy_in f new b =
    if ltb new (length b)
    then panicked
    else ok (record f {
      pos = new;
      size = (f.size + length b) % word32;
      bytes = copy_at f.bytes (new - length b) b;
    })

-- `write`
unfoldable pub write_bytes : WalFile → List ℕ → Outcome WalFile
unfolding make_room copy_in
write_bytes f b = let new = (f.pos + length b) % word32 in copy_in (make_room f new) new b

module _ (s : Snappy) where
  -- The header of an entry and its compressed bytes.
  unfoldable pub frame : ℕ → List ℕ → List ℕ
  frame typ b = typ ∷ be_bytes 4 (length (s.encode b))

  -- `writeEntryToWal`
  unfoldable pub write_entry_to_wal : WalFile → WalEntry → Outcome WalFile
  unfolding write_bytes encode_entry frame
  write_entry_to_wal f e = do
    b ← encode_entry e
    g ← write_bytes f (frame (type_byte e) b)
    write_bytes g (s.encode b)

  -- `WriteMulti`, `Remove` and `RemoveRange`; no keys are no entry.
  unfoldable pub write_multi : WalFile → KeyValues → Outcome WalFile
  unfolding write_entry_to_wal
  write_multi f m = write_entry_to_wal f (write_entry m)

  unfoldable pub remove_keys : WalFile → List Bytes → Outcome WalFile
  unfolding write_entry_to_wal
  remove_keys f [] = ok f
  remove_keys f (k ∷ ks) = write_entry_to_wal f (delete_entry (k ∷ ks))

  unfoldable pub remove_range : WalFile → List Bytes → ℕ → ℕ → Outcome WalFile
  unfolding write_entry_to_wal
  remove_range f [] min max = ok f
  remove_range f (k ∷ ks) min max = write_entry_to_wal f (delete_range_entry (k ∷ ks) min max)

  -- `Next` and `Read` on the bytes that are left: an entry with the bytes behind it, or none at the
  -- end or on an error, where the caller stops.
  unfoldable pub next_entry : List ℕ → Outcome (WalEntry × List ℕ)
  unfolding unmarshal_entry
  next_entry b = do
    t ← or_fail (read_word 1 b)
    n ← or_fail (read_word 4 t.1)
    guard (ltb (length n.1) n.0)
    d ← or_fail (s.decode (take n.0 n.1))
    e ← unmarshal_entry t.0 d
    ok (e, drop n.0 n.1)

  -- The loop around `Next` goes on behind an entry and ends at the first error.
  unfoldable pub read_on :
      List ℕ
      → (List ℕ → Outcome (List WalEntry × List ℕ))
      → Outcome (WalEntry × List ℕ)
      → Outcome (List WalEntry × List ℕ)
  read_on b more failed = ok ([], b)
  read_on b more panicked = panicked
  read_on b more (ok (e, rest)) = do r ← more rest; ok (e ∷ r.0, r.1)

  -- The entries up to the first error, and the bytes left there: `Count` is the number of bytes
  -- before them. On fuel: an entry has five bytes or more.
  unfoldable pub read_log : ℕ → List ℕ → Outcome (List WalEntry × List ℕ)
  unfolding read_on
  read_log zero b = panicked
  read_log (suc fuel) b = read_on b (read_log fuel) (next_entry b)
