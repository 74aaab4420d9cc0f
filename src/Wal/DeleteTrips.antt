-- ===== src/Wal/DeleteTrips.antt =====
-- Round trips of the delete entries of storage/store/wal_file.go.
use equinoxdb.Base.{drop, drop-append}
use equinoxdb.Wal.Fields.{checked_then}
use equinoxdb.Wal.Outcome.{guard, or_fail}
use equinoxdb.Words.{read_word}
use equinoxdb.Base.{zero, suc, ◌+◌, ◌≤◌, ltb, le→ltb}
use equinoxdb.Wal.Deletes.{sized_keys, encode_delete_range, read_keys, unmarshal_delete_range}
use equinoxdb.Wal.Fields.{slice_then}
use equinoxdb.Words.{be_bytes, length-be_bytes, time_bits_twice, time_bits-lt}
use equinoxdb.Base.{ℕ, ◌-◌, ◌^◌, ◌<◌, ◌≡◌, refl, sym, ap, ◌∙◌, ◌≢◌, false, List, [], ◌∷◌, ◌++◌}
use equinoxdb.Base.{append-nil, append_assoc, arith, ◌==◌, length, take, All, length-append}
use equinoxdb.Base.{take-append}
use equinoxdb.Bytes.{Bytes}
use equinoxdb.Wal.Deletes.{newline, key_lines, encode_delete, split_lines, unmarshal_delete}
use equinoxdb.Wal.Outcome.{ok}
use equinoxdb.Wal.Outcome.{◌>>=◌, ◌>>◌}

-- No key holds a line end.
abbrev pub IsLine : Bytes → Type 0
IsLine = All (λ b. b ≢ newline)

abbrev pub AreLines : List Bytes → Type 0
AreLines = All IsLine

split_lines-append :
    (line k rest : List ℕ)
    → IsLine k
    → split_lines line (k ++ (newline ∷ rest)) ≡ (line ++ k) ∷ split_lines [] rest
unfolding split_lines
split_lines-append line [] rest h =
    ap (λ (l : List ℕ). l ∷ split_lines [] rest) (sym (append-nil line))
split_lines-append line (b ∷ k) rest h =
    let apart : (b == newline) ≡ false = let ne = h.0 in ground arith in
    rw apart (
      split_lines-append (line ++ (b ∷ [])) k rest h.1
      ∙ ap (λ (l : List ℕ). l ∷ split_lines [] rest) (append_assoc line (b ∷ []) k))

split_lines-end : (line k : List ℕ) → IsLine k → split_lines line k ≡ (line ++ k) ∷ []
unfolding split_lines
split_lines-end line [] h = ap (λ (l : List ℕ). l ∷ []) (sym (append-nil line))
split_lines-end line (b ∷ k) h =
    let apart : (b == newline) ≡ false = let ne = h.0 in ground arith in
    rw apart (
      split_lines-end (line ++ (b ∷ [])) k h.1
      ∙ ap (λ (l : List ℕ). l ∷ []) (append_assoc line (b ∷ []) k))

-- The keys with a line end between them.
abbrev joined : Bytes → List Bytes → List ℕ
joined k [] = k
joined k (j ∷ ks) = k ++ (newline ∷ joined j ks)

key_lines-joined :
    (k : Bytes) (ks : List Bytes) → key_lines (k ∷ ks) ≡ joined k ks ++ (newline ∷ [])
unfolding key_lines
key_lines-joined k [] = refl
key_lines-joined k (j ∷ ks) =
    ap (λ (r : List ℕ). k ++ (newline ∷ r)) (key_lines-joined j ks)
    ∙ sym (append_assoc k (newline ∷ joined j ks) (newline ∷ []))

encode_delete-joined : (k : Bytes) (ks : List Bytes) → encode_delete (k ∷ ks) ≡ ok (joined k ks)
unfolding encode_delete
encode_delete-joined k ks =
    let whole = key_lines-joined k ks in
    let size : length (key_lines (k ∷ ks)) - 1 ≡ length (joined k ks) =
      omega (arith, ap length whole, length-append (joined k ks) (newline ∷ [])) in
    rw size
      (ap ok (ap (take (length (joined k ks))) whole ∙ take-append (joined k ks) (newline ∷ [])))

split_lines-joined :
    (k : Bytes) (ks : List Bytes) → AreLines (k ∷ ks) → split_lines [] (joined k ks) ≡ k ∷ ks
split_lines-joined k [] h = split_lines-end [] k h.0
split_lines-joined k (j ∷ ks) h =
    split_lines-append [] k (joined j ks) h.0 ∙ ap (◌∷◌ k) (split_lines-joined j ks h.1)

joined-nil : (k : Bytes) (ks : List Bytes) → k ∷ ks ≢ [] ∷ [] → joined k ks ≢ []
joined-nil [] [] n e = n refl
joined-nil [] (j ∷ ks) n e = cc
joined-nil (x ∷ k) [] n e = cc
joined-nil (x ∷ k) (j ∷ ks) n e = cc

unmarshal_delete-split_lines : (b : List ℕ) → b ≢ [] → unmarshal_delete b ≡ split_lines [] b
unfolding unmarshal_delete
unmarshal_delete-split_lines [] n = absurd (n refl)
unmarshal_delete-split_lines (x ∷ b) n = refl

-- Keys without line ends are read back from a delete entry, unless the only key is empty.
pub unmarshal_delete-encode_delete :
    (k : Bytes) (ks : List Bytes)
    → AreLines (k ∷ ks)
    → k ∷ ks ≢ [] ∷ []
    → (b : List ℕ) × (encode_delete (k ∷ ks) ≡ ok b) × (unmarshal_delete b ≡ k ∷ ks)
unmarshal_delete-encode_delete k ks h n = (
  joined k ks,
  encode_delete-joined k ks,
  unmarshal_delete-split_lines (joined k ks) (joined-nil k ks n) ∙ split_lines-joined k ks h,
)

abbrev pub AllSized : List Bytes → Type 0
AllSized = All (λ k. length k < 2 ^ 32)

length-sized_keys :
    (k : Bytes) (ks : List Bytes) → length (sized_keys ks) + 4 ≤ length (sized_keys (k ∷ ks))
unfolding sized_keys
length-sized_keys k ks = omega (arith, length-append {0}, length-be_bytes)

read_keys_body :
    (fuel : ℕ) (b : List ℕ)
    → b ≢ []
    → read_keys (suc fuel) b ≡ (
        or_fail (read_word 4 b) >>= λ n.
        guard (ltb (length n.1) n.0)
        >> (read_keys fuel (drop n.0 n.1) >>= λ ks. ok (take n.0 n.1 ∷ ks)))
unfolding read_keys
read_keys_body fuel [] h = absurd (h refl)
read_keys_body fuel (x ∷ b) h = refl

-- A round of the loop on keys.
read_keys_round :
    (fuel : ℕ) (k : Bytes) (rest : List ℕ) (ks : List Bytes)
    → length k < 2 ^ 32
    → read_keys fuel rest ≡ ok ks
    → read_keys (suc fuel) (be_bytes 4 (length k) ++ (k ++ rest)) ≡ ok (k ∷ ks)
read_keys_round fuel k rest ks h e =
    let b = be_bytes 4 (length k) ++ (k ++ rest) in
    let size : length b ≡ 4 + length (k ++ rest) =
      omega (arith, length-append {0}, length-be_bytes) in
    let some_bytes : b ≢ [] = λ gone. absurd (omega (arith, size, ap length gone)) in
    read_keys_body fuel b some_bytes
    ∙ checked_then 4 (length k) (k ++ rest) _ h
    ∙ rw
        (
          le→ltb (length (k ++ rest)) (length k) (omega (arith, length-append k rest)),
          take-append k rest,
          drop-append k rest,
          e,
        )
        refl

read_keys-sized_keys :
    (fuel : ℕ) (ks : List Bytes)
    → AllSized ks
    → length (sized_keys ks) < fuel
    → read_keys fuel (sized_keys ks) ≡ ok ks
unfolding sized_keys
read_keys-sized_keys zero ks h f = absurd (omega arith)
read_keys-sized_keys (suc fuel) [] h f = unfold read_keys in refl
read_keys-sized_keys (suc fuel) (k ∷ ks) h f =
    read_keys_round fuel k (sized_keys ks) ks h.0
      (read_keys-sized_keys fuel ks h.1 (omega (arith, length-sized_keys k ks)))

-- The keys and times of a delete-range entry are read back, for keys of any bytes, as long as
-- their lengths fit four bytes.
pub unmarshal_delete_range-encode_delete_range :
    (ks : List Bytes) (min max : ℕ)
    → AllSized ks
    → min < 2 ^ 64
    → max < 2 ^ 64
    → unmarshal_delete_range (encode_delete_range ks min max) ≡ ok (ks, (min, max))
unfolding unmarshal_delete_range encode_delete_range
unmarshal_delete_range-encode_delete_range ks min max h lo hi =
    let b = encode_delete_range ks min max in
    let room : ltb (length b) 16 ≡ false =
      le→ltb _ _ (omega (arith, length-append {0}, length-be_bytes)) in
    let few : length (sized_keys ks) < suc (length b) =
      omega (arith, length-append {0}, length-be_bytes) in
    rw room (
      slice_then 8 _ _ _ (time_bits-lt min)
      ∙ slice_then 8 _ _ _ (time_bits-lt max)
      ∙ rw
          (
            read_keys-sized_keys (suc (length b)) ks h few,
            time_bits_twice min lo,
            time_bits_twice max hi,
          )
          refl)
