-- ===== src/Tables/Replayed.antt =====
-- `restoreFromWAL` of storage/memory/memtable.go: the rows that the entries of a log put, and one
-- round of its loop.
use equinoxdb.Wal.Log.{frame}
use equinoxdb.Words.{length-be_bytes}
use equinoxdb.Base.{◌≤◌, sym, subst, append_assoc, drop, drop-append}
use equinoxdb.Cache.{Cache}
use equinoxdb.Tables.{write_table}
use equinoxdb.Tables.Reader.{unread-read_frame}
use equinoxdb.Tables.Writing.{Accepts, write_table-logged}
use equinoxdb.Wal.Log.{WalFile, write_multi}
use equinoxdb.Wal.Rewrites.{IsAt, write_entry_to_wal-IsAt}
use equinoxdb.Base.{ℕ, ◌+◌, ◌-◌, ◌^◌, ◌<◌, ◌≡◌, refl, ap, ◌∙◌, List, [], ◌∷◌, ◌++◌}
use equinoxdb.Base.{arith, length, length-append}
use equinoxdb.Base.Bisect.{front}
use equinoxdb.Bytes.{Bytes}
use equinoxdb.Cache.Runs.{rows_on, put_rows}
use equinoxdb.Cache.Table.{Table, TablePut, table, type_conflict, no_entry, put_row, StandsFor}
use equinoxdb.Tables.{MemTable, calls}
use equinoxdb.Tables.Opening.{LogReader, unread, no_life_cycles, read_frame}
use equinoxdb.Tables.Opening.{read_over, next_from}
use equinoxdb.Wal.Appends.{AreZeros, zero_bytes_lem}
use equinoxdb.Wal.Entries.{framed, next_entry-framed, next_entry-zero_bytes}
use equinoxdb.Wal.Log.{Snappy, WalEntry, write_entry, type_byte, encode_entry, unmarshal_entry}
use equinoxdb.Wal.Log.{next_entry}
use equinoxdb.Wal.Outcome.{ok, failed}
use equinoxdb.Wal.Sizes.{KeyValues}

abbrev pub writes : List KeyValues → List WalEntry
writes [] = []
writes (v ∷ vs) = write_entry v ∷ writes vs

abbrev pub one_level : Bytes → ℕ
one_level k = 1

-- The writes one after the other on a table.
unfoldable pub replay_rows : List KeyValues → Table → TablePut
replay_rows [] t = table t
replay_rows (v ∷ vs) t = rows_on (replay_rows vs) (put_rows (calls no_life_cycles one_level v) t)

pub rows_on-same :
    (f g : Table → TablePut)
    → ((t : Table) → f t ≡ g t)
    → (x : TablePut) → rows_on f x ≡ rows_on g x
unfolding rows_on
rows_on-same f g h (table t) = h t
rows_on-same f g h type_conflict = refl
rows_on-same f g h no_entry = refl

-- Neither the life cycles nor the heights matter.
pub put_rows-calls :
    (life h life' h' : Bytes → ℕ) (values : KeyValues) (t : Table)
    → put_rows (calls life h values) t ≡ put_rows (calls life' h' values) t
unfolding put_rows
put_rows-calls life h life' h' [] t = refl
put_rows-calls life h life' h' ((k, vs) ∷ m) t =
    rows_on-same _ _ (put_rows-calls life h life' h' m) (put_row k vs t)

-- The reader on a frame.
pub next_from-framed :
    (s : Snappy) (buffer : ℕ) (mapped : List ℕ) (r : LogReader) (e : WalEntry) (b rest : List ℕ)
    → unread mapped r ≡ framed s e b ++ rest
    → unmarshal_entry (type_byte e) b ≡ ok e
    → length (s.encode b) < 2 ^ 32
    → next_from s buffer mapped r ≡ ok (e, read_frame buffer mapped (length (framed s e b)) r)
unfolding next_from read_over
next_from-framed s buffer mapped r e b rest ahead back small =
    let size : length (unread mapped r) - length rest ≡ length (framed s e b) =
      omega (arith, ap length ahead, length-append (framed s e b) rest) in
    ap (read_over buffer mapped r)
      (ap (next_entry s) ahead ∙ next_entry-framed s e b rest back small)
    ∙ ap (λ (n : ℕ). ok (e, read_frame buffer mapped n r)) size

-- On zeros it ends.
pub next_from-zeros :
    (s : Snappy) (buffer : ℕ) (mapped : List ℕ) (r : LogReader) (z : List ℕ)
    → unread mapped r ≡ z
    → AreZeros z
    → next_from s buffer mapped r ≡ failed
unfolding next_from read_over
next_from-zeros s buffer mapped r z ahead zeros =
    ap (read_over buffer mapped r)
      (ap (next_entry s) (ahead ∙ zero_bytes_lem z zeros) ∙ next_entry-zero_bytes s (length z))

pub framed_long : (s : Snappy) (e : WalEntry) (b : List ℕ) → 5 ≤ length (framed s e b)
unfolding frame
framed_long s e b = omega (
  arith,
  length-append (frame s (type_byte e) b) (s.encode b),
  length-be_bytes 4 (length (s.encode b)),
)

-- A table that is being restored from mapped bytes: those up to the position of its log are
-- replayed, and the reader is about to read the others.
pub record IsRestoring (mapped front rest : List ℕ) (t : Table) (m : MemTable) (r : LogReader)
    : Type 0 where
  pub at_front : m.wal.pos ≡ length front
  pub in_two : mapped ≡ front ++ rest
  pub in_file : m.wal.bytes ≡ mapped
  pub to_read : unread mapped r ≡ rest
  pub counted_to : r.count ≡ length front
  pub on_table : StandsFor m.cache t

module _ (s : Snappy) (buffer : ℕ) (visit : KeyValues → KeyValues) (drawn : ℕ → Bytes → ℕ) where
  -- A write entry is written over itself, and then put.
  pub write_table-again :
      (mapped front rest : List ℕ) (v : KeyValues) (b : List ℕ) (t : Table) (m : MemTable)
      (r : LogReader)
      → IsRestoring mapped front (framed s (write_entry v) b ++ rest) t m r
      → encode_entry (write_entry v) ≡ ok b
      → length front + length (framed s (write_entry v) b) < 2 ^ 32
      → ((n : ℕ) (k : Bytes) → 0 < drawn n k)
      → visit v ≡ v
      → (w : WalFile) × IsAt w (front ++ framed s (write_entry v) b) rest
        × Accepts m w
            (write_table s m no_life_cycles (drawn r.count) (visit v))
            (put_rows (calls no_life_cycles one_level v) t)
  unfolding write_multi
  write_table-again mapped front rest v b t m r i done small tall same =
      let (w, logged, at) =
        write_entry_to_wal-IsAt s m.wal front (write_entry v) b rest done
          (i.at_front, i.in_file ∙ i.in_two) small in
      let accepted =
        write_table-logged s m t w no_life_cycles (drawn r.count) v i.on_table (tall r.count)
          logged in
      (
        w,
        at,
        rw same (
            subst (Accepts m w (write_table s m no_life_cycles (drawn r.count) v))
              (put_rows-calls no_life_cycles (drawn r.count) no_life_cycles one_level v t)
              accepted),
      )

  -- Behind it the table is restored up to its end.
  pub IsRestoring-again :
      (mapped front f rest : List ℕ) (t u : Table) (m : MemTable) (r : LogReader) (w : WalFile)
      (d : Cache)
      → IsRestoring mapped front (f ++ rest) t m r
      → 5 ≤ length f
      → IsAt w (front ++ f) rest
      → StandsFor d u
      → (w.bytes ≡ m.wal.bytes)
        × IsRestoring mapped
            (front ++ f)
            rest
            u
            (record m { cache = d; wal = w })
            (read_frame buffer mapped (length f) r)
  unfolding read_frame
  IsRestoring-again mapped front f rest t u m r w d i head at on_u =
      let in_two : mapped ≡ (front ++ f) ++ rest = i.in_two ∙ sym (append_assoc front f rest) in
      let same : w.bytes ≡ mapped = at.1 ∙ sym in_two in
      let room : length f ≤ length (unread mapped r) =
        rw i.to_read (omega (arith, length-append f rest)) in
      (
        same ∙ sym i.in_file,
        record {
          at_front = at.0;
          in_two = in_two;
          in_file = same;
          to_read =
              unread-read_frame buffer mapped (length f) r head room
              ∙ ap (drop (length f)) i.to_read
              ∙ drop-append f rest;
          counted_to = omega (arith, i.counted_to, length-append front f);
          on_table = on_u;
        },
      )
