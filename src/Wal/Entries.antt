-- ===== src/Wal/Entries.antt =====
-- One entry of the log of storage/store/wal_file.go and storage/store/wal_reader.go: written, then
-- read.
use equinoxdb.Values.{size}
use equinoxdb.Base.{zero, suc}
use equinoxdb.Base.{ℕ, ◌^◌, ◌<◌, ◌≡◌, refl, ap, ◌∙◌, ◌≢◌, false, List, [], ◌∷◌, ◌++◌}
use equinoxdb.Base.{append_assoc, arith, ltb, le→ltb, length, length-append, take-append}
use equinoxdb.Base.{drop-append}
use equinoxdb.Bytes.{Bytes}
use equinoxdb.Wal.DeleteTrips.{AreLines, unmarshal_delete-encode_delete, AllSized}
use equinoxdb.Wal.DeleteTrips.{unmarshal_delete_range-encode_delete_range}
use equinoxdb.Wal.Deletes.{encode_delete_range}
use equinoxdb.Wal.Fields.{checked_then, one_byte}
use equinoxdb.Wal.Log.{Snappy, WalEntry, write_entry, delete_entry, delete_range_entry}
use equinoxdb.Wal.Log.{type_byte, encode_entry, unmarshal_entry, zero_bytes, frame, next_entry}
use equinoxdb.Wal.Outcome.{ok, failed}
use equinoxdb.Wal.RoundTrip.{IsEntry, unmarshal_writes-encode_writes}
use equinoxdb.Words.{be_bytes, read_word}

-- What can be read back: encodable values under distinct keys, lines as keys of a delete entry,
-- and keys of a delete-range entry that are no longer than four bytes can tell.
abbrev pub IsLoggable : WalEntry → Type 0
IsLoggable (write_entry m) = IsEntry m
IsLoggable (delete_entry []) = ⊥
IsLoggable (delete_entry (k ∷ ks)) = AreLines (k ∷ ks) × (k ∷ ks ≢ [] ∷ [])
IsLoggable (delete_range_entry ks min max) = AllSized ks × (min < 2 ^ 64) × (max < 2 ^ 64)

-- An entry of any kind that can be read back is encoded, and the reader's switch on its type byte
-- decodes it.
pub unmarshal_entry-encode_entry :
    (e : WalEntry)
    → IsLoggable e
    → (b : List ℕ) × (encode_entry e ≡ ok b) × (unmarshal_entry (type_byte e) b ≡ ok e)
unfolding encode_entry unmarshal_entry type_byte
unmarshal_entry-encode_entry (write_entry m) h =
    let (b, done, size, back) = unmarshal_writes-encode_writes m h in (b, done, rw back refl)
unmarshal_entry-encode_entry (delete_entry []) h = absurd h
unmarshal_entry-encode_entry (delete_entry (k ∷ ks)) h =
    let (b, done, back) = unmarshal_delete-encode_delete k ks h.0 h.1 in
    (b, done, ap (λ (r : List Bytes). ok (delete_entry r)) back)
unmarshal_entry-encode_entry (delete_range_entry ks min max) h = (
  encode_delete_range ks min max,
  refl,
  rw (unmarshal_delete_range-encode_delete_range ks min max h.0 h.1 h.2) refl,
)

module _ (s : Snappy) where
  -- The bytes of an entry in the file.
  abbrev pub framed : WalEntry → List ℕ → List ℕ
  framed e b = frame s (type_byte e) b ++ s.encode b

  type_byte-lt : (e : WalEntry) → type_byte e < 256
  unfolding type_byte
  type_byte-lt (write_entry m) = omega arith
  type_byte-lt (delete_entry ks) = omega arith
  type_byte-lt (delete_range_entry ks min max) = omega arith

  pub next_entry-framed :
      (e : WalEntry) (b rest : List ℕ)
      → unmarshal_entry (type_byte e) b ≡ ok e
      → length (s.encode b) < 2 ^ 32
      → next_entry s (framed e b ++ rest) ≡ ok (e, rest)
  unfolding frame next_entry
  next_entry-framed e b rest back small =
      let c = s.encode b in
      let whole : framed e b ++ rest
          ≡ be_bytes 1 (type_byte e) ++ (be_bytes 4 (length c) ++ (c ++ rest)) =
        ap (◌∷◌ (type_byte e)) (append_assoc (be_bytes 4 (length c)) c rest)
        ∙ one_byte (type_byte e) (be_bytes 4 (length c) ++ (c ++ rest)) (type_byte-lt e) in
      let room : ltb (length (c ++ rest)) (length c) ≡ false =
        le→ltb _ _ (omega (arith, length-append c rest)) in
      ap (next_entry s) whole
      ∙ checked_then 1 _ _ _ (type_byte-lt e)
      ∙ checked_then 4 _ _ _ small
      ∙ rw (room, take-append c rest, drop-append c rest, s.decode-encode b, back) refl

  next_entry-header :
      (rest : List ℕ) → next_entry s (be_bytes 1 0 ++ (be_bytes 4 0 ++ rest)) ≡ failed
  unfolding next_entry
  next_entry-header rest =
      checked_then 1 0 _ _ (omega arith)
      ∙ checked_then 4 0 rest _ (omega arith)
      ∙ rw (le→ltb (length rest) 0 (omega arith), s.decode_nil) refl

  -- On zeros, or no bytes, the reader stops.
  pub next_entry-zero_bytes : (n : ℕ) → next_entry s (zero_bytes n) ≡ failed
  unfolding be_bytes
  next_entry-zero_bytes zero = unfold next_entry read_word in refl
  next_entry-zero_bytes (suc zero) = unfold next_entry read_word in refl
  next_entry-zero_bytes (suc (suc zero)) = unfold next_entry read_word in refl
  next_entry-zero_bytes (suc (suc (suc zero))) = unfold next_entry read_word in refl
  next_entry-zero_bytes (suc (suc (suc (suc zero)))) = unfold next_entry read_word in refl
  next_entry-zero_bytes (suc (suc (suc (suc (suc n))))) = next_entry-header (zero_bytes n)
