-- ===== src/Wal/Replay.antt =====
-- The log of storage/store/wal_file.go, written entry by entry, as storage/store/wal_reader.go reads
-- it back.
use equinoxdb.Base.{zero, refl, sym, ap, ◌∙◌, append-nil}
use equinoxdb.Wal.Appends.{AreZeros-zero_bytes, zero_bytes_lem}
use equinoxdb.Wal.Entries.{unmarshal_entry-encode_entry, next_entry-framed}
use equinoxdb.Wal.Entries.{next_entry-zero_bytes}
use equinoxdb.Wal.Log.{unmarshal_entry, zero_bytes, next_entry, read_on}
use equinoxdb.Wal.Outcome.{>>=-Parts}
use equinoxdb.Words.{length-be_bytes}
use equinoxdb.Base.{ℕ, suc, ◌+◌, ◌^◌, ◌<◌, ◌≡◌, subst, List, [], ◌∷◌, ◌++◌, append_assoc, arith}
use equinoxdb.Base.{length, All, length-append}
use equinoxdb.Base.Bisect.{front}
use equinoxdb.Wal.Appends.{AreZeros, Holds, write_bytes-Holds}
use equinoxdb.Wal.Entries.{IsLoggable, framed}
use equinoxdb.Wal.Log.{Snappy, WalEntry, type_byte, encode_entry, WalFile, frame}
use equinoxdb.Wal.Log.{write_entry_to_wal, read_log}
use equinoxdb.Wal.Outcome.{Outcome, ok}
use equinoxdb.Wal.Outcome.{◌>>=◌}

abbrev pub AreLoggable : List WalEntry → Type 0
AreLoggable = All IsLoggable

module _ (s : Snappy) where
  -- The bytes of a run of entries.
  unfoldable pub log_bytes : List WalEntry → Outcome (List ℕ)
  log_bytes [] = ok []
  log_bytes (e ∷ es) = do b ← encode_entry e; r ← log_bytes es; ok (framed s e b ++ r)

  -- A run of calls that append entries.
  unfoldable pub write_all : WalFile → List WalEntry → Outcome WalFile
  write_all f [] = ok f
  write_all f (e ∷ es) = do g ← write_entry_to_wal s f e; write_all g es

  pub write_entry_to_wal-Holds :
      (f : WalFile) (front : List ℕ) (e : WalEntry) (b : List ℕ)
      → encode_entry e ≡ ok b
      → Holds f front
      → length front + length (framed s e b) < 2 ^ 32
      → (g : WalFile) × (write_entry_to_wal s f e ≡ ok g) × Holds g (front ++ framed s e b)
  unfolding write_entry_to_wal
  write_entry_to_wal-Holds f front e b done h small =
      let head = frame s (type_byte e) b in
      let size = length-append head (s.encode b) in
      let (g, first, held) = write_bytes-Holds f front head h (omega (arith, size)) in
      let (k, second, last) =
        write_bytes-Holds g (front ++ head) (s.encode b) held
          (omega (arith, size, length-append front head)) in
      (k, rw (done, first) second, subst (Holds k) (append_assoc front head (s.encode b)) last)

  -- What reading the log gives: the entries, and zeros from the position on.
  abbrev pub ReadsBack : WalFile → List WalEntry → Type 0
  ReadsBack g es =
      (rest : List ℕ) × (read_log s (suc (length g.bytes)) g.bytes ≡ ok (es, rest))
      × (g.pos + length rest ≡ length g.bytes)
      × AreZeros rest

  pub log_bytes-cons :
      (e : WalEntry) (es : List WalEntry) (l : List ℕ)
      → log_bytes (e ∷ es) ≡ ok l
      → (b : List ℕ) × (r : List ℕ) × (encode_entry e ≡ ok b)
        × (log_bytes es ≡ ok r)
        × (framed s e b ++ r ≡ l)
  unfolding log_bytes
  log_bytes-cons e es l h =
      let (b, first, tail) = >>=-Parts (encode_entry e) _ h in
      let (r, second, last) = >>=-Parts (log_bytes es) _ tail in (b, r, first, second, cc)

  -- A round of the loop around `Next`.
  read_log_round :
      (fuel : ℕ) (e : WalEntry) (es : List WalEntry) (b rest z : List ℕ)
      → next_entry s b ≡ ok (e, rest)
      → read_log s fuel rest ≡ ok (es, z)
      → read_log s (suc fuel) b ≡ ok (e ∷ es, z)
  unfolding read_log
  read_log_round fuel e es b rest z h k = ap (read_on s b (read_log s fuel)) h ∙ rw k refl

  read_log_stop : (fuel : ℕ) (z : List ℕ) → AreZeros z → read_log s (suc fuel) z ≡ ok ([], z)
  unfolding read_log
  read_log_stop fuel z h =
      ap (read_on s z (read_log s fuel))
        (ap (next_entry s) (zero_bytes_lem z h) ∙ next_entry-zero_bytes s (length z))

  read_log-log_bytes :
      (fuel : ℕ) (es : List WalEntry) (l z : List ℕ)
      → AreLoggable es
      → log_bytes es ≡ ok l
      → length l < 2 ^ 32
      → AreZeros z
      → length l < fuel
      → read_log s fuel (l ++ z) ≡ ok (es, z)
  unfolding log_bytes frame
  read_log-log_bytes zero es l z h e small zeros enough = absurd (omega arith)
  read_log-log_bytes (suc fuel) [] l z h e small zeros enough =
      let none_at_all : [] ≡ l = cc in
      subst (λ (t : List ℕ). read_log s (suc fuel) (t ++ z) ≡ ok ([], z)) none_at_all
        (read_log_stop fuel z zeros)
  read_log-log_bytes (suc fuel) (e ∷ es) l z h done small zeros enough =
      let (b, r, first, second, whole) = log_bytes-cons e es l done in
      let (b', again, back) = unmarshal_entry-encode_entry e h.0 in
      let same_bytes : b' ≡ b = cc in
      let read_back : unmarshal_entry (type_byte e) b ≡ ok e =
        subst (λ (t : List ℕ). unmarshal_entry (type_byte e) t ≡ ok e) same_bytes back in
      let head = frame s (type_byte e) b in
      let size : length l ≡ 5 + length (s.encode b) + length r = omega (
        arith,
        ap length whole,
        length-append (framed s e b) r,
        length-append head (s.encode b),
        length-be_bytes 4 (length (s.encode b)),
      ) in
      let rest =
        read_log-log_bytes fuel es r z h.1 second (omega (arith, size)) zeros
          (omega (arith, size)) in
      read_log_round fuel e es (l ++ z) (r ++ z) z
        (ap (λ (t : List ℕ). next_entry s (t ++ z)) (sym whole)
          ∙ ap (next_entry s) (append_assoc (framed s e b) r z)
          ∙ next_entry-framed s e b (r ++ z) read_back (omega (arith, size)))
        rest

  write_all-Holds :
      (es : List WalEntry) (f : WalFile) (front l : List ℕ)
      → log_bytes es ≡ ok l
      → Holds f front
      → length front + length l < 2 ^ 32
      → (g : WalFile) × (write_all f es ≡ ok g) × Holds g (front ++ l)
  unfolding write_all log_bytes
  write_all-Holds [] f front l e h small =
      let none_at_all : [] ≡ l = cc in
      (
        f,
        refl,
        subst (λ (t : List ℕ). Holds f (front ++ t)) none_at_all
            (subst (Holds f) (sym (append-nil front)) h),
      )
  write_all-Holds (e ∷ es) f front l done h small =
      let (b, r, first, second, whole) = log_bytes-cons e es l done in
      let size = length-append (framed s e b) r in
      let both = length-append front (framed s e b) in
      let (g, step, held) =
        write_entry_to_wal-Holds f front e b first h (omega (arith, ap length whole, size)) in
      let (k, rest, last) =
        write_all-Holds es g (front ++ framed s e b) r second held
          (omega (arith, ap length whole, size, both)) in
      (
        k,
        rw step rest,
        subst (Holds k) (append_assoc front (framed s e b) r ∙ ap (◌++◌ front) whole) last,
      )

  abbrev pub new_file : ℕ → WalFile
  new_file n = record { pos = 0; size = 0; bytes = zero_bytes n }

  -- Entries that can be read back, appended one by one to a new file of zeros of any length: as
  -- long as their bytes stay below 2^32, every write returns, and the reader gives the entries in
  -- order, stops behind the last one at the zeros that are left, and has counted exactly the bytes
  -- up to the position of the file.
  pub write_all-ReadsBack :
      (n : ℕ) (es : List WalEntry) (l : List ℕ)
      → AreLoggable es
      → log_bytes es ≡ ok l
      → length l < 2 ^ 32
      → (g : WalFile) × (write_all (new_file n) es ≡ ok g) × ReadsBack g es
  write_all-ReadsBack n es l h done small =
      let start : Holds (new_file n) [] = (refl, (zero_bytes n, refl, AreZeros-zero_bytes n)) in
      let (g, written, held) = write_all-Holds es (new_file n) [] l done start (omega arith) in
      let (z, whole, zeros) = held.1 in
      let size = length-append l z in
      (
        g,
        written,
        (
          z,
          subst (λ (t : List ℕ). read_log s (suc (length t)) t ≡ ok (es, z)) (sym whole)
              (read_log-log_bytes (suc (length (l ++ z))) es l z h done small zeros
                (omega (arith, size))),
          omega (arith, held.0, ap length whole, size),
          zeros,
        ),
      )
