-- ===== src/Tombstones.antt =====
-- storage/store/tombstone.go: the records of deletions beside an SST file. The operating system is
-- taken to succeed, so a commit follows each write at once and no write is pending.
pub mod Walks
use equinoxdb.Base.{ℕ, zero, suc, ◌-◌, ◌^◌, ◌≡◌, Bool, true, false, not, Option, none, some}
use equinoxdb.Base.{List, [], ◌∷◌, ◌++◌, ltb, ◌==◌, if◌then◌else◌, length, take, drop}
use equinoxdb.Bytes.{Bytes}
use equinoxdb.Words.{be_bytes, read_word, time_bits}
use equinoxdb.Base.{◌>>=◌}

-- compress/gzip: what is compressed can be decompressed.
pub record Gzip : Type 0 where
  pub compress : List ℕ → List ℕ
  pub decompress : List ℕ → Option (List ℕ)
  pub decompress-compress : (b : List ℕ) → decompress (compress b) ≡ some b

pub record Tombstone : Type 0 where
  pub key : Bytes
  pub min : ℕ
  pub max : ℕ

-- `has_path` tells whether `Path` is set; `file` is the file at the path of the tombstones.
pub record Tombstoner : Type 0 where
  pub has_path : Bool
  pub filter_fn : Option (Bytes → Bool)
  pub waiting : List Tombstone
  pub file : Option (List ℕ)

-- A test of `FilterFn` that nil passes.
abbrev pub passes : Option (Bytes → Bool) → Bytes → Bool
passes none k = true
passes (some f) k = f k

-- `doWriteTombstone`
unfoldable pub tombstone_bytes : Tombstone → List ℕ
tombstone_bytes t =
    be_bytes 4 (length t.key)
    ++ (t.key ++ (be_bytes 8 (time_bits t.min) ++ be_bytes 8 (time_bits t.max)))

unfoldable pub all_tombstones : List Tombstone → List ℕ
unfolding tombstone_bytes
all_tombstones [] = []
all_tombstones (t ∷ ts) = tombstone_bytes t ++ all_tombstones ts

abbrev pub tomb_header : ℕ
tomb_header = 0x1503

-- The first loop of `AddRange`, and the loop that appends.
unfoldable pub skip_keys : Option (Bytes → Bool) → List Bytes → List Bytes
skip_keys f [] = []
skip_keys f (k ∷ ks) = if passes f k then k ∷ ks else skip_keys f ks

unfoldable pub append_keys :
    Option (Bytes → Bool) → ℕ → ℕ → List Bytes → List Tombstone → List Tombstone
append_keys f min max [] ts = ts
append_keys f min max (k ∷ ks) ts =
    append_keys f min max ks
      (if passes f k then ts ++ (record { key = k; min = min; max = max } ∷ []) else ts)

module _ (g : Gzip) where
  -- `writeTombstone` and `commit`: the new file takes the place of the old one.
  unfoldable pub write_tombstone : Tombstoner → List Tombstone → Tombstoner
  unfolding all_tombstones
  write_tombstone t ts = record t {
    file = some (be_bytes 4 tomb_header ++ g.compress (all_tombstones ts));
    waiting = [];
  }

  abbrev pub add_kept : Tombstoner → ℕ → ℕ → List Bytes → Tombstoner
  add_kept t min max [] = t
  add_kept t min max (k ∷ ks) =
      if t.has_path
      then write_tombstone t (append_keys t.filter_fn min max (k ∷ ks) t.waiting)
      else t

  -- `AddRange`
  unfoldable pub add_range : Tombstoner → List Bytes → ℕ → ℕ → Tombstoner
  unfolding skip_keys append_keys write_tombstone
  add_range t keys min max = add_kept t min max (skip_keys t.filter_fn keys)

  -- `Add`
  unfoldable pub add_all : Tombstoner → List Bytes → Tombstoner
  unfolding add_range
  add_all t keys = add_range t keys 0 (2 ^ 64 - 1)

  -- `Delete`
  unfoldable pub delete_tombstones : Tombstoner → Tombstoner
  delete_tombstones t = record t { file = none }

-- `HasTombstones`
unfoldable pub has_waiting : Tombstoner → Bool
has_waiting t = not (length t.waiting == 0)

-- `io.ReadFull` of some bytes, and what follows them; `none` is its error.
unfoldable pub read_full : ℕ → List ℕ → Option (List ℕ × List ℕ)
read_full n b = if ltb (length b) n then none else some (take n b, drop n b)

-- A round of the loop of `readTombstone`; `none` is an error.
unfoldable pub read_one : List ℕ → Option (Tombstone × List ℕ)
unfolding read_full
read_one b = do
  n ← read_word 4 b
  k ← read_full n.0 n.1
  min ← read_word 8 k.1
  max ← read_word 8 min.1
  some (record { key = k.0; min = time_bits min.0; max = time_bits max.0 }, max.1)

-- The tombstones that `fn` is called with, and whether no error ended the walk. `fn` is taken to
-- return no error.
abbrev pub Visits : Type 0
Visits = List Tombstone × Bool

abbrev pub visit : Option (Tombstone × List ℕ) → (List ℕ → Visits) → Visits
visit none more = ([], false)
visit (some (t, rest)) more = let later = more rest in (t ∷ later.0, later.1)

-- The loop, on fuel: a round takes twenty bytes or more; fewer than four end it.
unfoldable pub read_tombstones : ℕ → List ℕ → Visits
unfolding read_one
read_tombstones zero b = ([], false)
read_tombstones (suc fuel) b =
    if ltb (length b) 4 then ([], true) else visit (read_one b) (read_tombstones fuel)

abbrev pub then_waiting : List Tombstone → Visits → Visits
then_waiting ts (seen, false) = (seen, false)
then_waiting ts (seen, true) = (seen ++ ts, true)

abbrev pub read_unzipped : List Tombstone → Option (List ℕ) → Visits
read_unzipped ts none = ([], false)
read_unzipped ts (some b) = then_waiting ts (read_tombstones (suc (length b)) b)

module _ (g : Gzip) where
  -- `readTombstone` on the bytes of a file, whose header is passed over.
  unfoldable pub read_file : Tombstoner → Option (List ℕ) → Visits
  unfolding read_tombstones
  read_file t none = ([], true)
  read_file t (some b) = read_unzipped t.waiting (g.decompress (drop 4 b))

  -- `Walk`; where there is no file it calls nothing.
  unfoldable pub walk_tombstones : Tombstoner → Visits
  unfolding read_file
  walk_tombstones t = read_file t t.file
