-- ===== src/Tables/Rounds.antt =====
-- A round of `restoreFromWAL` of storage/memory/memtable.go on a write entry.
use equinoxdb.Base.{ℕ, suc, ◌+◌, ◌^◌, ◌≤◌, ◌<◌, ◌≡◌, refl, ap, ◌∙◌, subst, true, Option, some}
use equinoxdb.Base.{List, ◌++◌, arith, ◌==◌, length, length-append}
use equinoxdb.Base.Bisect.{front}
use equinoxdb.Bytes.{Bytes}
use equinoxdb.Cache.{Cache}
use equinoxdb.Cache.Runs.{put_rows}
use equinoxdb.Cache.Table.{Table, TablePut, table, type_conflict, no_entry}
use equinoxdb.Manager.{wrote}
use equinoxdb.Tables.{MemTable, calls, TableWrite, table_written, write_table}
use equinoxdb.Tables.Opening.{LogReader, TableOpened, open_failed, open_panic, no_life_cycles}
use equinoxdb.Tables.Opening.{after_write, read_frame, next_from, replay_entry, replay_on}
use equinoxdb.Tables.Opening.{restore_from_wal}
use equinoxdb.Tables.Replayed.{one_level, next_from-framed, framed_long, IsRestoring}
use equinoxdb.Tables.Replayed.{write_table-again, IsRestoring-again}
use equinoxdb.Tables.Writing.{Accepts}
use equinoxdb.Wal.Entries.{unmarshal_entry-encode_entry, framed}
use equinoxdb.Wal.Log.{Snappy, write_entry, type_byte, encode_entry, unmarshal_entry, WalFile}
use equinoxdb.Wal.Log.{frame}
use equinoxdb.Wal.Outcome.{ok}
use equinoxdb.Wal.Rewrites.{IsAt}
use equinoxdb.Wal.RoundTrip.{IsEntry}
use equinoxdb.Wal.Sizes.{KeyValues}
use equinoxdb.Base.{◌>>=◌}

after_write-written :
    (m n : MemTable) (more : MemTable → Option TableOpened)
    → n.wal.bytes ≡ m.wal.bytes
    → after_write m more (table_written n) ≡ more n
after_write-written m n more same =
    let e : (length n.wal.bytes == length m.wal.bytes) ≡ true = rw same (ground arith) in rw e refl

module _ (s : Snappy) (buffer : ℕ) (visit : KeyValues → KeyValues) (drawn : ℕ → Bytes → ℕ) where
  -- A round on a write entry.
  restore_round :
      (fuel : ℕ) (mapped front b rest : List ℕ) (v : KeyValues) (t : Table) (m : MemTable)
      (r : LogReader)
      → IsRestoring mapped front (framed s (write_entry v) b ++ rest) t m r
      → unmarshal_entry (type_byte (write_entry v)) b ≡ ok (write_entry v)
      → length (framed s (write_entry v) b) < 2 ^ 32
      → restore_from_wal s buffer visit drawn (suc fuel) m r
        ≡ write_table s m no_life_cycles (drawn r.count) (visit v)
          >>= after_write m (λ n.
            restore_from_wal s buffer visit drawn fuel n
              (read_frame buffer mapped (length (framed s (write_entry v) b)) r))
  unfolding restore_from_wal replay_on replay_entry
  restore_round fuel mapped front b rest v t m r i back small =
      let size = length-append (frame s (type_byte (write_entry v)) b) (s.encode b) in
      ap (replay_on s buffer visit drawn m r (restore_from_wal s buffer visit drawn fuel)) (
        ap (λ (xs : List ℕ). next_from s buffer xs r) i.in_file
        ∙ next_from-framed s buffer mapped r (write_entry v) b rest i.to_read back
            (omega (arith, small, size)))

  -- The loop behind the bytes of an entry, by what its puts do to the ordered table.
  abbrev pub NextRound :
      ℕ → List ℕ → List ℕ → List ℕ → MemTable → LogReader → LogReader → TablePut → Type 0
  NextRound fuel mapped front rest m r q (table u) =
      (d : Cache) × (w : WalFile) × (restore_from_wal s buffer visit drawn (suc fuel) m r
        ≡ restore_from_wal s buffer visit drawn fuel (record m { cache = d; wal = w }) q)
      × IsRestoring mapped front rest u (record m { cache = d; wal = w }) q
  NextRound fuel mapped front rest m r q type_conflict =
      restore_from_wal s buffer visit drawn (suc fuel) m r ≡ some open_failed
  NextRound fuel mapped front rest m r q no_entry =
      restore_from_wal s buffer visit drawn (suc fuel) m r ≡ some open_panic

  Accepts-NextRound :
      (fuel : ℕ) (mapped front f rest : List ℕ) (t : Table) (m : MemTable) (r : LogReader)
      (w : WalFile) (result : Option TableWrite) (x : TablePut)
      → IsRestoring mapped front (f ++ rest) t m r
      → 5 ≤ length f
      → IsAt w (front ++ f) rest
      → restore_from_wal s buffer visit drawn (suc fuel) m r
        ≡ result
          >>= after_write m (λ n.
            restore_from_wal s buffer visit drawn fuel n (read_frame buffer mapped (length f) r))
      → Accepts m w result x
      → NextRound fuel mapped (front ++ f) rest m r (read_frame buffer mapped (length f) r) x
  Accepts-NextRound fuel mapped front f rest t m r w result (table u) i head at round
        (d, wrote, on) =
      let more : MemTable → Option TableOpened =
        λ n. restore_from_wal s buffer visit drawn fuel n (read_frame buffer mapped (length f) r) in
      let n = record m { cache = d; wal = w } in
      let (in_place, k) =
        IsRestoring-again s buffer visit drawn mapped front f rest t u m r w d i head at on in
      (
        d,
        w,
        round
            ∙ ap (λ (o : Option TableWrite). o >>= after_write m more) wrote
            ∙ after_write-written m n more in_place,
        k,
      )
  Accepts-NextRound fuel mapped front f rest t m r w result type_conflict i head at round wrong =
      let more : MemTable → Option TableOpened =
        λ n. restore_from_wal s buffer visit drawn fuel n (read_frame buffer mapped (length f) r) in
      round ∙ ap (λ (o : Option TableWrite). o >>= after_write m more) wrong
  Accepts-NextRound fuel mapped front f rest t m r w result no_entry i head at round wrong =
      let more : MemTable → Option TableOpened =
        λ n. restore_from_wal s buffer visit drawn fuel n (read_frame buffer mapped (length f) r) in
      round ∙ ap (λ (o : Option TableWrite). o >>= after_write m more) wrong

  pub restore_next :
      (fuel : ℕ) (mapped front b rest : List ℕ) (v : KeyValues) (t : Table) (m : MemTable)
      (r : LogReader) (x : TablePut)
      → IsRestoring mapped front (framed s (write_entry v) b ++ rest) t m r
      → IsEntry v × (visit v ≡ v)
      → encode_entry (write_entry v) ≡ ok b
      → length front + length (framed s (write_entry v) b) < 2 ^ 32
      → ((n : ℕ) (k : Bytes) → 0 < drawn n k)
      → put_rows (calls no_life_cycles one_level v) t ≡ x
      → NextRound fuel mapped
          (front ++ framed s (write_entry v) b)
          rest
          m
          r
          (read_frame buffer mapped (length (framed s (write_entry v) b)) r)
          x
  restore_next fuel mapped front b rest v t m r x i able done small tall puts =
      let (b', again, back) = unmarshal_entry-encode_entry (write_entry v) able.0 in
      let same_b : b' ≡ b = cc in
      let read_back =
        subst (λ (xs : List ℕ). unmarshal_entry (type_byte (write_entry v)) xs ≡ ok (write_entry v))
          same_b back in
      let (w, at, result) =
        write_table-again s buffer visit drawn mapped front rest v b t m r i done small tall
          able.1 in
      Accepts-NextRound fuel mapped front (framed s (write_entry v) b) rest t m r w _ x i
        (framed_long s (write_entry v) b) at
        (restore_round fuel mapped front b rest v t m r i read_back (omega (arith, small)))
        (subst (Accepts m w (write_table s m no_life_cycles (drawn r.count) (visit v))) puts result)
