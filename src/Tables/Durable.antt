-- ===== src/Tables/Durable.antt =====
-- A memory table of storage/memory/memtable.go over a run of writes, and opened anew from its log.
use equinoxdb.Tables.Restored.{IsReordering}
use equinoxdb.Tables.Restored.{AreOneKey}
use equinoxdb.Base.{List-cases}
use equinoxdb.Cache.Runs.{get-entry_from}
use equinoxdb.Tables.Opening.{table_on_new_file}
use equinoxdb.Tables.Restored.{Restores, open_mem_table-Restores}
use equinoxdb.Base.{◌*◌}
use equinoxdb.Cache.Runs.{new_cache-StandsFor}
use equinoxdb.Cache.Walks.{get}
use equinoxdb.Tables.Opening.{table_opened, open_mem_table}
use equinoxdb.Tables.Replayed.{framed_long}
use equinoxdb.Wal.Appends.{AreZeros-zero_bytes, length-zero_bytes}
use equinoxdb.Wal.Log.{zero_bytes}
use equinoxdb.Base.{◌∙◌, ◌⊎◌, inl, inr, append_assoc}
use equinoxdb.Cache.Runs.{put_rows, TablePut-outcome}
use equinoxdb.Cache.Table.{TablePut, type_conflict, no_entry}
use equinoxdb.Manager.{wrote}
use equinoxdb.Tables.{calls}
use equinoxdb.Tables.Writing.{Accepts}
use equinoxdb.Wal.Log.{encode_entry}
use equinoxdb.Base.{ℕ, ◌+◌, ◌^◌, ◌<◌, ◌≡◌, refl, sym, ap, subst, Option, some, List, [], ◌∷◌}
use equinoxdb.Base.{◌++◌, append-nil, arith, length, All, length-append}
use equinoxdb.Base.Bisect.{front}
use equinoxdb.Bytes.{Bytes}
use equinoxdb.Cache.Runs.{rows_on}
use equinoxdb.Cache.Table.{Table, table, StandsFor}
use equinoxdb.Manager.Runs.{one}
use equinoxdb.Tables.{
  MemTable, TableWrite, table_written, wal_failed, cache_failed, cache_panic, wal_panic,
}
use equinoxdb.Tables.{write_table}
use equinoxdb.Tables.Opening.{no_life_cycles}
use equinoxdb.Tables.Replayed.{writes, one_level, replay_rows, put_rows-calls}
use equinoxdb.Tables.Writing.{write_table-Accepts}
use equinoxdb.Wal.Appends.{Holds}
use equinoxdb.Wal.Entries.{framed}
use equinoxdb.Wal.Log.{Snappy, write_entry}
use equinoxdb.Wal.Outcome.{ok}
use equinoxdb.Wal.Replay.{log_bytes, log_bytes-cons}
use equinoxdb.Wal.Sizes.{KeyValues}
use equinoxdb.Base.{◌>>=◌}

-- A call of `WriteMulti`, with the heights that its puts draw.
pub record TableCall : Type 0 where
  pub values : KeyValues
  pub life : Bytes → ℕ
  pub heights : Bytes → ℕ

abbrev pub values_of : List TableCall → List KeyValues
values_of [] = []
values_of (x ∷ xs) = x.values ∷ values_of xs

abbrev pub then_write : (MemTable → Option TableWrite) → TableWrite → Option TableWrite
then_write more wal_failed = some wal_failed
then_write more (cache_failed w) = some (cache_failed w)
then_write more (cache_panic w) = some (cache_panic w)
then_write more wal_panic = some wal_panic
then_write more (table_written m) = more m

-- Calls one after the other, up to the first that does not succeed.
unfoldable pub write_tables : Snappy → List TableCall → MemTable → Option TableWrite
write_tables s [] m = some (table_written m)
write_tables s (x ∷ xs) m =
    write_table s m x.life x.heights x.values >>= then_write (write_tables s xs)

abbrev pub AreTall : List TableCall → Type 0
AreTall = All (λ x. (k : Bytes) → 0 < x.heights k)

refused :
    (more : Table → TablePut) (x : TablePut) (u : Table)
    → (x ≡ type_conflict) ⊎ (x ≡ no_entry)
    → rows_on more x ≡ table u
    → ⊥
unfolding rows_on
refused more x u (inl e) h =
    let outcome : rows_on more x ≡ type_conflict = ap (rows_on more) e in cc
refused more x u (inr e) h = let outcome : rows_on more x ≡ no_entry = ap (rows_on more) e in cc

-- A run of writes that the ordered table accepts.
write_tables-Holds :
    (s : Snappy) (xs : List TableCall) (m : MemTable) (t u : Table) (front l : List ℕ)
    → StandsFor m.cache t
    → Holds m.wal front
    → log_bytes s (writes (values_of xs)) ≡ ok l
    → length front + length l < 2 ^ 32
    → AreTall xs
    → replay_rows (values_of xs) t ≡ table u
    → (n : MemTable) × (write_tables s xs m ≡ some (table_written n))
      × StandsFor n.cache u
      × Holds n.wal (front ++ l)
unfolding write_tables replay_rows rows_on log_bytes encode_entry
write_tables-Holds s [] m t u front l stands held logged small tall accepted =
    let none_at_all : [] ≡ l = cc in
    let same_table : t ≡ u = cc in
    (
      m,
      refl,
      subst (StandsFor m.cache) same_table stands,
      subst (λ (k : List ℕ). Holds m.wal (front ++ k)) none_at_all
          (subst (Holds m.wal) (sym (append-nil front)) held),
    )
write_tables-Holds s (x ∷ xs) m t u front l stands held logged small tall accepted =
    let (b, rest, done, others, both) =
      log_bytes-cons s (write_entry x.values) (writes (values_of xs)) l logged in
    let f = framed s (write_entry x.values) b in
    let size : length l ≡ length f + length rest =
      omega (arith, ap length both, length-append f rest) in
    let (w, logged_one, held_one, one) =
      write_table-Accepts s m t front b x.life x.heights x.values stands held done
        (omega (arith, small, size)) tall.0 in
    let puts = put_rows (calls no_life_cycles one_level x.values) t in
    let same_rows = put_rows-calls x.life x.heights no_life_cycles one_level x.values t in
    elim (TablePut-outcome puts) [
      | inl (v, e) ↦
          let (d, wrote, on_v) =
            subst (Accepts m w (write_table s m x.life x.heights x.values)) (same_rows ∙ e) one in
          let then_accepted : replay_rows (values_of xs) v ≡ table u =
            sym (ap (rows_on (replay_rows (values_of xs))) e) ∙ accepted in
          let (n, ran, on_u, held_all) =
            write_tables-Holds s xs (record m { cache = d; wal = w }) v u (front ++ f) rest on_v
              held_one others (omega (arith, small, size, length-append front f)) tall.1
              then_accepted in
          let ends : (front ++ f) ++ rest ≡ front ++ l =
            append_assoc front f rest ∙ ap (◌++◌ front) both in
          (
            n,
            ap (λ (r : Option TableWrite). r >>= then_write (write_tables s xs)) wrote ∙ ran,
            on_u,
            subst (Holds n.wal) ends held_all,
          )
      | inr (inl e) ↦ absurd (refused (replay_rows (values_of xs)) puts u (inl e) accepted)
      | inr (inr e) ↦ absurd (refused (replay_rows (values_of xs)) puts u (inr e) accepted)
    ]

some_bytes :
    (s : Snappy) (xs : List TableCall) (max : ℕ) (m : MemTable) (l z : List ℕ)
    → log_bytes s (writes (values_of xs)) ≡ ok l
    → write_tables s xs (table_on_new_file max) ≡ some (table_written m)
    → m.wal.bytes ≡ l ++ z
    → 0 < max
    → 0 < length m.wal.bytes
unfolding write_tables
some_bytes s [] max m l z logged ran parts grows =
    let same : table_on_new_file max ≡ m = cc in
    subst (λ (n : MemTable). 0 < length n.wal.bytes) same
      (omega (arith, length-zero_bytes (2 * max)))
some_bytes s (x ∷ xs) max m l z logged ran parts grows =
    let (b, rest, done, others, both) =
      log_bytes-cons s (write_entry x.values) (writes (values_of xs)) l logged in
    let f = framed s (write_entry x.values) b in
    omega (
      arith,
      framed_long s (write_entry x.values) b,
      length-append f rest,
      ap length both,
      length-append l z,
      ap length parts,
    )

module _ (s : Snappy) (buffer : ℕ) (visit : KeyValues → KeyValues) (drawn : ℕ → Bytes → ℕ) where
  -- A table that is opened anew from the bytes of the log of a table.
  abbrev pub Reopens : ℕ → MemTable → Table → Type 0
  Reopens max m t =
      (o : MemTable) × (open_mem_table s buffer visit drawn m.wal.bytes max ≡ some (table_opened o))
      × StandsFor o.cache t
      × ((k : Bytes) → get o.cache k ≡ get m.cache k)
      × (o.wal.pos ≡ m.wal.pos)
      × (o.wal.bytes ≡ m.wal.bytes)

  -- Any run of `WriteMulti` calls, each with one key at most, on a memory table with a new log, whose
  -- values can be read back and are accepted by the ordered table, where the bytes of the log stay
  -- below 2^32, for any life cycles and heights drawn: all calls succeed, and the skip list stands for
  -- the ordered table; and a table opened anew from the bytes of its log, for a reader's buffer of any
  -- size, any heights drawn and any order of the keys of maps in which each key is visited once,
  -- stands for the same ordered table, which has no life cycles, gives the same entry for
  -- every key, and has the same bytes in its log and the same position.
  pub write_tables-Reopens :
      (xs : List TableCall) (max : ℕ) (t : Table) (l : List ℕ)
      → 0 < max
      → ((v : KeyValues) → IsReordering (visit v) v)
      → AreOneKey (values_of xs)
      → log_bytes s (writes (values_of xs)) ≡ ok l
      → length l < 2 ^ 32
      → AreTall xs
      → ((n : ℕ) (k : Bytes) → 0 < drawn n k)
      → replay_rows (values_of xs) [] ≡ table t
      → (m : MemTable) × (write_tables s xs (table_on_new_file max) ≡ some (table_written m))
        × StandsFor m.cache t
        × Reopens max m t
  write_tables-Reopens xs max t l grows visits able logged small tall tall_again accepted =
      let begin : Holds (table_on_new_file max).wal [] =
        (refl, (zero_bytes (2 * max), refl, AreZeros-zero_bytes (2 * max))) in
      let (m, ran, on_t, held) =
        write_tables-Holds s xs (table_on_new_file max) [] t [] l new_cache-StandsFor begin logged
          (omega (arith, small)) tall accepted in
      let (z, parts, zeros) = held.1 in
      elim (List-cases m.wal.bytes) [
        | inl e ↦
            let some_there = some_bytes s xs max m l z logged ran parts grows in
            absurd (omega (arith, some_there, ap length e))
        | inr (b, bs, e) ↦
            let (o, again, restored) =
              subst
                (Restores (b ∷ bs) (length l) max
                  (open_mem_table s buffer visit drawn (b ∷ bs) max))
                accepted
                (open_mem_table-Restores s buffer visit drawn (values_of xs) l z b bs max visits
                  able logged zeros (sym e ∙ parts) small tall_again) in
            let same_entry : (k : Bytes) → get o.cache k ≡ get m.cache k = λ k.
              (get-entry_from o.cache t k restored.0).0 ∙ sym (get-entry_from m.cache t k on_t).0 in
            let reopened =
              ap (λ (mapped : List ℕ). open_mem_table s buffer visit drawn mapped max) e ∙ again in
            (
              m,
              ran,
              on_t,
              (o, reopened, restored.0, same_entry, restored.1 ∙ sym held.0, restored.2 ∙ sym e),
            )
      ]
