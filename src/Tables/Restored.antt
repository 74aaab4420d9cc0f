-- ===== src/Tables/Restored.antt =====
-- `restoreFromWAL` and `OpenMemTable` of storage/memory/memtable.go on a log of write entries, as
-- `WriteMulti` leaves it.
use equinoxdb.Values.{Value}
use equinoxdb.Base.{◌≤◌}
use equinoxdb.Tables.Rounds.{NextRound, restore_next}
use equinoxdb.Tombstones.{visit}
use equinoxdb.Cache.Runs.{new_cache-StandsFor}
use equinoxdb.Tables.Opening.{new_log_reader, open_mem_table}
use equinoxdb.Base.{inl, inr}
use equinoxdb.Cache.Runs.{put_rows, TablePut-outcome}
use equinoxdb.Tables.{calls}
use equinoxdb.Tables.Replayed.{one_level, framed_long}
use equinoxdb.Base.{sym, subst, append_assoc, length-append}
use equinoxdb.Tables.Opening.{no_life_cycles, read_frame}
use equinoxdb.Wal.Entries.{framed}
use equinoxdb.Base.{ℕ, zero, suc, ◌+◌, ◌%◌, ◌^◌, ◌<◌, ◌≡◌, refl, ap, ◌∙◌, Option, some, List, []}
use equinoxdb.Base.{◌∷◌, ◌++◌, arith, length, All}
use equinoxdb.Base.Bisect.{front}
use equinoxdb.Bytes.{Bytes}
use equinoxdb.Cache.Runs.{rows_on}
use equinoxdb.Cache.Table.{Table, TablePut, table, type_conflict, no_entry, StandsFor}
use equinoxdb.Tables.{MemTable}
use equinoxdb.Tables.Opening.{LogReader, unread, TableOpened, table_opened, open_failed}
use equinoxdb.Tables.Opening.{open_panic, replay_on, restore_from_wal}
use equinoxdb.Tables.Replayed.{writes, replay_rows, next_from-zeros, IsRestoring}
use equinoxdb.Wal.Appends.{AreZeros}
use equinoxdb.Wal.Log.{Snappy, write_entry}
use equinoxdb.Wal.Outcome.{ok}
use equinoxdb.Wal.Replay.{log_bytes, log_bytes-cons}
use equinoxdb.Wal.RoundTrip.{IsEntry}
use equinoxdb.Wal.Sizes.{KeyValues}

-- Values that can be logged, in a map that is visited in the order in which it was written.
abbrev pub AreReplayable : (KeyValues → KeyValues) → List KeyValues → Type 0
AreReplayable visit = All (λ v. IsEntry v × (visit v ≡ v))

-- Values that can be logged, of one key at most.
abbrev pub AreOneKey : List KeyValues → Type 0
AreOneKey = All (λ v. IsEntry v × (length v ≤ 1))

-- What is known of the order in which the keys of a map are visited: each is visited once.
pub data IsReordering : KeyValues → KeyValues → Type 0 where
  empty_map : IsReordering [] []
  kept_first :
      (x : Bytes × List Value) {v w : KeyValues} → IsReordering v w → IsReordering (x ∷ v) (x ∷ w)
  swapped_first : (x y : Bytes × List Value) (v : KeyValues) → IsReordering (x ∷ y ∷ v) (y ∷ x ∷ v)
  reordered_twice : {u v w : KeyValues} → IsReordering u v → IsReordering v w → IsReordering u w

-- One key can be visited in one order only.
same_order : {v w : KeyValues} → IsReordering v w → length w ≤ 1 → v ≡ w
same_order empty_map few = refl
same_order (kept_first x p) few = ap (◌∷◌ x) (same_order p (omega arith))
same_order (swapped_first x y v) few = absurd (omega arith)
same_order (reordered_twice p q) few =
    let second = same_order q few in same_order p (rw second few) ∙ second

pub AreOneKey-AreReplayable :
    (visit : KeyValues → KeyValues)
    → ((v : KeyValues) → IsReordering (visit v) v)
    → (es : List KeyValues) → AreOneKey es
    → AreReplayable visit es
AreOneKey-AreReplayable visit visits [] h = tt
AreOneKey-AreReplayable visit visits (v ∷ es) h =
    ((h.0.0, same_order (visits v) h.0.1), AreOneKey-AreReplayable visit visits es h.1)

-- The table has the bytes of its log as they were, and their entries.
abbrev pub IsRestored : List ℕ → ℕ → ℕ → MemTable → Table → Type 0
IsRestored mapped n max o t =
    StandsFor o.cache t × (o.wal.pos ≡ n) × (o.wal.bytes ≡ mapped) × (o.max_size ≡ max)

-- The results of opening a table that a result on a table allows.
abbrev pub Restores : List ℕ → ℕ → ℕ → Option TableOpened → TablePut → Type 0
Restores mapped n max r (table t) =
    (o : MemTable) × (r ≡ some (table_opened o)) × IsRestored mapped n max o t
Restores mapped n max r type_conflict = r ≡ some open_failed
Restores mapped n max r no_entry = r ≡ some open_panic

module _ (s : Snappy) (buffer : ℕ) (visit : KeyValues → KeyValues) (drawn : ℕ → Bytes → ℕ) where
  restore_end :
      (fuel : ℕ) (mapped front z : List ℕ) (t : Table) (m : MemTable) (r : LogReader)
      → IsRestoring mapped front z t m r
      → AreZeros z
      → length front < 2 ^ 32
      → Restores mapped
          (length front)
          m.max_size
          (restore_from_wal s buffer visit drawn (suc fuel) m r)
          (table t)
  unfolding restore_from_wal replay_on
  restore_end fuel mapped front z t m r i zeros small =
      let at : unread m.wal.bytes r ≡ z = ap (λ (xs : List ℕ). unread xs r) i.in_file ∙ i.to_read in
      (
        record m { wal = record (m.wal) { pos = r.count % 2 ^ 32 } },
        ap (replay_on s buffer visit drawn m r (restore_from_wal s buffer visit drawn fuel))
            (next_from-zeros s buffer m.wal.bytes r z at zeros),
        (i.on_table, omega (arith, i.counted_to, small), i.in_file, refl),
      )

  restore-Restores :
      (fuel : ℕ) (es : List KeyValues) (mapped front l z : List ℕ) (n : ℕ) (t : Table)
      (m : MemTable) (r : LogReader)
      → IsRestoring mapped front (l ++ z) t m r
      → AreReplayable visit es
      → log_bytes s (writes es) ≡ ok l
      → AreZeros z
      → ((k : ℕ) (key : Bytes) → 0 < drawn k key)
      → length front + length l ≡ n
      → n < 2 ^ 32
      → length l < fuel
      → Restores mapped n m.max_size
          (restore_from_wal s buffer visit drawn fuel m r)
          (replay_rows es t)
  unfolding log_bytes replay_rows rows_on
  restore-Restores zero es mapped front l z n t m r i able logged zeros tall ends small fuel_left =
      absurd (omega arith)
  restore-Restores (suc fuel) [] mapped front l z n t m r i able logged zeros tall ends small
        fuel_left =
      let none_at_all : [] ≡ l = cc in
      let j = subst (λ (k : List ℕ). IsRestoring mapped front (k ++ z) t m r) (sym none_at_all) i in
      let at_end : length front ≡ n = omega (arith, ap length none_at_all, ends) in
      subst
        (λ (k : ℕ).
          Restores mapped k m.max_size (restore_from_wal s buffer visit drawn (suc fuel) m r)
            (table t))
        at_end (restore_end fuel mapped front z t m r j zeros (omega (arith, at_end, small)))
  restore-Restores (suc fuel) (v ∷ es) mapped front l z n t m r i able logged zeros tall ends small
        fuel_left =
      let (b, rest, done, others, both) = log_bytes-cons s (write_entry v) (writes es) l logged in
      let f = framed s (write_entry v) b in
      let q = read_frame buffer mapped (length f) r in
      let size : length l ≡ length f + length rest =
        omega (arith, ap length both, length-append f rest) in
      let j : IsRestoring mapped front (f ++ (rest ++ z)) t m r =
        subst (λ (xs : List ℕ). IsRestoring mapped front xs t m r)
          (ap (λ (xs : List ℕ). xs ++ z) (sym both) ∙ append_assoc f rest z) i in
      let next : (x : TablePut)
          → put_rows (calls no_life_cycles one_level v) t ≡ x
          → NextRound s buffer visit drawn fuel mapped (front ++ f) (rest ++ z) m r q x =
        λ x.
          restore_next s buffer visit drawn fuel mapped front b (rest ++ z) v t m r x j able.0 done
            (omega (arith, small, ends, size)) tall in
      elim (TablePut-outcome (put_rows (calls no_life_cycles one_level v) t)) [
        | inl (u, e) ↦
            let (d, w, path, k) = next (table u) e in
            rw (e, path)
              (restore-Restores fuel es mapped (front ++ f) rest z n u _ q k able.1 others zeros
                tall (omega (arith, ends, size, length-append front f)) small
                (omega (arith, size, framed_long s (write_entry v) b)))
        | inr (inl e) ↦ rw e (next type_conflict e)
        | inr (inr e) ↦ rw e (next no_entry e)
      ]

  -- Opening a table from a file with the bytes of a run of write entries that can be read back and
  -- have one key at most, and zeros behind them, where the log stays below 2^32 bytes, for a reader's
  -- buffer of any size, any heights drawn and any order of the keys of maps in which each key is
  -- visited once: the entries are put, in order, into a skip list that stands for the ordered table with the same
  -- puts, the log has the bytes that it had, though every entry was written to it again, and its
  -- position is behind the last one; or, where a put into the ordered table ends with a type
  -- conflict, the table cannot be opened, or with a nil entry, there is a panic.
  pub open_mem_table-Restores :
      (es : List KeyValues) (l z : List ℕ) (b : ℕ) (bs : List ℕ) (max : ℕ)
      → ((v : KeyValues) → IsReordering (visit v) v)
      → AreOneKey es
      → log_bytes s (writes es) ≡ ok l
      → AreZeros z
      → b ∷ bs ≡ l ++ z
      → length l < 2 ^ 32
      → ((n : ℕ) (k : Bytes) → 0 < drawn n k)
      → Restores
          (b ∷ bs)
          (length l)
          max
          (open_mem_table s buffer visit drawn (b ∷ bs) max)
          (replay_rows es [])
  unfolding open_mem_table
  open_mem_table-Restores es l z b bs max visits able logged zeros parts small tall =
      let i : IsRestoring (b ∷ bs) [] (l ++ z) [] _ new_log_reader = record {
        at_front = refl;
        in_two = parts;
        in_file = refl;
        to_read = parts;
        counted_to = refl;
        on_table = new_cache-StandsFor;
      } in
      restore-Restores (suc (length (b ∷ bs))) es (b ∷ bs) [] l z (length l) [] _ new_log_reader i
        (AreOneKey-AreReplayable visit visits es able) logged zeros tall (omega arith)
        (omega (arith, small)) (omega (arith, ap length parts, length-append l z))
