-- ===== src/Wal/Rewrites.antt =====
-- `write` of storage/store/wal_file.go over bytes that are there already, as the restoring of a
-- memory table (storage/memory/memtable.go) writes the entries that it reads.
use equinoxdb.Base.{ℕ, ◌+◌, ◌-◌, ◌%◌, ◌^◌, ◌≤◌, ◌<◌, ◌≡◌, refl, sym, ap, ap₂, ◌∙◌, subst, inl}
use equinoxdb.Base.{inr, true, false, List, ◌++◌, append_assoc, arith, ltb, leb, ◌==◌, le→ltb}
use equinoxdb.Base.{Bool-cases, length, length-append, drop-append}
use equinoxdb.Base.Bisect.{front}
use equinoxdb.Base.Slices.{copy_at}
use equinoxdb.Wal.Appends.{copy_at_behind}
use equinoxdb.Wal.Entries.{framed}
use equinoxdb.Wal.Log.{Snappy, WalEntry, type_byte, encode_entry, WalFile, truncate, word32}
use equinoxdb.Wal.Log.{make_room, copy_in, write_bytes, frame, write_entry_to_wal}
use equinoxdb.Wal.Outcome.{ok}

-- The position of a file stands between two parts of its bytes.
abbrev pub IsAt : WalFile → List ℕ → List ℕ → Type 0
IsAt f front rest = (f.pos ≡ length front) × (f.bytes ≡ front ++ rest)

make_room_in_place : (f : WalFile) (new : ℕ) → new ≤ length f.bytes → make_room f new ≡ f
unfolding make_room truncate
make_room_in_place f new room = elim (Bool-cases (leb (length f.bytes) new)) [
  | inl e ↦ (let full : (length f.bytes == new) ≡ true = ground arith in rw (e, full) refl)
  | inr e ↦ rw e refl
]

-- Bytes written over themselves leave the file as it was, its counters aside.
pub write_bytes-IsAt :
    (f : WalFile) (front b rest : List ℕ)
    → IsAt f front (b ++ rest)
    → length front + length b < 2 ^ 32
    → (g : WalFile) × (write_bytes f b ≡ ok g) × IsAt g (front ++ b) rest
unfolding write_bytes copy_in
write_bytes-IsAt f front b rest h small =
    let new = (f.pos + length b) % word32 in
    let at : new ≡ length front + length b = omega (arith, h.0) in
    let begin : new - length b ≡ length front = omega (arith, at) in
    let size = length-append front (b ++ rest) in
    let inner = length-append b rest in
    let room : new ≤ length f.bytes = rw h.1 (omega (arith, at, size, inner)) in
    let in_range : ltb new (length b) ≡ false = le→ltb _ _ (omega (arith, at)) in
    let copied : copy_at f.bytes (new - length b) b ≡ (front ++ b) ++ rest =
      ap₂ (λ (xs : List ℕ) (i : ℕ). copy_at xs i b) h.1 begin
      ∙ copy_at_behind front (b ++ rest) b (omega (arith, inner))
      ∙ ap (λ (xs : List ℕ). front ++ (b ++ xs)) (drop-append b rest)
      ∙ sym (append_assoc front b rest) in
    (
      record {
        pos = new;
        size = (f.size + length b) % word32;
        bytes = copy_at f.bytes (new - length b) b;
      },
      rw (make_room_in_place f new room, in_range) refl,
      (at ∙ sym (length-append front b), copied),
    )

-- So does an entry, if its bytes are there.
pub write_entry_to_wal-IsAt :
    (s : Snappy) (f : WalFile) (front : List ℕ) (e : WalEntry) (b rest : List ℕ)
    → encode_entry e ≡ ok b
    → IsAt f front (framed s e b ++ rest)
    → length front + length (framed s e b) < 2 ^ 32
    → (g : WalFile) × (write_entry_to_wal s f e ≡ ok g) × IsAt g (front ++ framed s e b) rest
unfolding write_entry_to_wal
write_entry_to_wal-IsAt s f front e b rest done h small =
    let head = frame s (type_byte e) b in
    let size = length-append head (s.encode b) in
    let split = append_assoc head (s.encode b) rest in
    let (g, first, held) =
      write_bytes-IsAt f front head (s.encode b ++ rest) (h.0, h.1 ∙ ap (◌++◌ front) split)
        (omega (arith, size)) in
    let (k, second, last) =
      write_bytes-IsAt g (front ++ head) (s.encode b) rest held
        (omega (arith, size, length-append front head)) in
    (
      k,
      rw (done, first) second,
      subst (λ (xs : List ℕ). IsAt k xs rest) (append_assoc front head (s.encode b)) last,
    )
