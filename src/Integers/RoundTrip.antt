-- ===== src/Integers/RoundTrip.antt =====
-- `Write`, `Bytes`, `SetBytes`, `Next` and `Read` of storage/codec/int.go together.
use equinoxdb.Base.{drop}
use equinoxdb.Base.{ℕ, suc, ◌-◌, ◌^◌, ◌≤◌, ◌<◌, ◌≡◌, refl, sym, ap, ◌∙◌, subst, inl, inr, Bool}
use equinoxdb.Base.{true, false, ◌&&◌, Option, some, List, [], ◌∷◌, ◌++◌, arith, ltb, Bool-cases}
use equinoxdb.Base.{length, All}
use equinoxdb.Integers.{Packed, Simple8b, IntegerEncoder, new_integer_encoder, write_integers}
use equinoxdb.Integers.{words, encode_rle, encode_uncompressed, any_above, set_fields}
use equinoxdb.Integers.{encode_packed, encoded_integers}
use equinoxdb.Integers.Blocks.{AreParts, part_words, part_numbers}
use equinoxdb.Integers.Deltas.{deltas, sums, sums-deltas, length-deltas, deltas-words}
use equinoxdb.Integers.Deltas.{write_integers-deltas, IsRun, write_integers-IsRun}
use equinoxdb.Integers.Loops.{Reads, read_parts}
use equinoxdb.Integers.Runs.{run_bytes, Reads-run}
use equinoxdb.Words.{be_bytes}
use equinoxdb.Integers.{set_bytes}

abbrev plain_parts : List ℕ → List Packed
plain_parts [] = []
plain_parts (x ∷ xs) = record { word = x; numbers = x ∷ [] } ∷ plain_parts xs

module _ (s : Simple8b) where
  plain_words : (xs : List ℕ) → part_words s (plain_parts xs) ≡ words xs
  unfolding words
  plain_words [] = refl
  plain_words (x ∷ xs) = ap (λ (bs : List ℕ). be_bytes 8 x ++ bs) (plain_words xs)

  plain_numbers : (xs : List ℕ) → part_numbers s (plain_parts xs) ≡ xs
  plain_numbers [] = refl
  plain_numbers (x ∷ xs) = ap (◌∷◌ x) (plain_numbers xs)

  plain-AreParts :
      (first : Bool) (xs : List ℕ) → All (λ x. x < 2 ^ 64) xs → AreParts s 0 first (plain_parts xs)
  plain-AreParts first [] h = tt
  plain-AreParts first (x ∷ xs) h = ((h.0, omega arith, refl), plain-AreParts first xs h.1)

  packed-AreParts :
      (ps : List Packed)
      → All
          (λ p. (p.word < 2 ^ 64) × (0 < length p.numbers) × (s.decode p.word ≡ some p.numbers))
          ps
      → AreParts s 1 false ps
  packed-AreParts [] h = tt
  packed-AreParts (p ∷ ps) h = (h.0, packed-AreParts ps h.1)

  below-any_above : (m : ℕ) (xs : List ℕ) → any_above m xs ≡ false → All (λ x. x ≤ m) xs
  below-any_above m [] e = tt
  below-any_above m (x ∷ xs) e =
      let here : ltb m x ≡ false = ground arith in
      let behind : any_above m xs ≡ false = ground arith in
      (ground arith, below-any_above m xs behind)

  behind_first : (P : ℕ → Type 0) (xs : List ℕ) → All P xs → All P (drop 1 xs)
  behind_first P [] h = tt
  behind_first P (x ∷ xs) h = h.1

  -- Bytes from which the loop reads the values that some numbers stand for.
  abbrev pub ReadsFrom : Option (List ℕ) → List ℕ → Type 0
  ReadsFrom r xs = (b : List ℕ) × (r ≡ some b) × Reads s (suc (length xs)) (set_bytes b) (sums 0 xs)

  pub ReadsFrom-plain :
      (xs : List ℕ) → All (λ x. x < 2 ^ 64) xs → ReadsFrom (some (encode_uncompressed xs)) xs
  unfolding encode_uncompressed set_bytes
  ReadsFrom-plain [] h = (
    [],
    refl,
    read_parts s 1 (set_fields 0 []) [] [] (omega arith) refl refl refl refl tt (omega arith),
  )
  ReadsFrom-plain (x ∷ xs) h =
      let ps = plain_parts (x ∷ xs) in
      (
        0 ∷ words (x ∷ xs),
        refl,
        subst
            (λ (ys : List ℕ).
              Reads s (suc (length (x ∷ xs))) (set_fields 0 (words (x ∷ xs))) (sums 0 ys))
            (plain_numbers (x ∷ xs))
            (read_parts s (suc (length (x ∷ xs))) (set_fields 0 (words (x ∷ xs))) [] ps
              (omega arith) refl refl refl (sym (plain_words (x ∷ xs)))
              (plain-AreParts true (x ∷ xs) h) (omega (arith, ap length (plain_numbers (x ∷ xs))))),
      )

  pub ReadsFrom-packed :
      (xs : List ℕ)
      → All (λ x. x < 2 ^ 64) xs
      → All (λ x. x ≤ s.max_value) (drop 1 xs)
      → ReadsFrom (encode_packed s xs) xs
  unfolding encode_packed set_bytes words
  ReadsFrom-packed [] h g = (
    [],
    refl,
    read_parts s 1 (set_fields 0 []) [] [] (omega arith) refl refl refl refl tt (omega arith),
  )
  ReadsFrom-packed (x ∷ xs) h g =
      let (ps, done, same, packed) = s.decode-encode_all xs g in
      let one : Packed = record { word = x; numbers = x ∷ [] } in
      let bytes = part_words s (one ∷ ps) in
      let numbers : part_numbers s (one ∷ ps) ≡ x ∷ xs = ap (◌∷◌ x) same in
      (
        16 ∷ bytes,
        rw done refl,
        subst (λ (ys : List ℕ). Reads s (suc (length (x ∷ xs))) (set_fields 1 bytes) (sums 0 ys))
            numbers
            (read_parts s (suc (length (x ∷ xs))) (set_fields 1 bytes) [] (one ∷ ps) (omega arith)
              refl refl refl refl ((h.0, omega arith, refl), packed-AreParts ps packed)
              (omega (arith, ap length numbers))),
      )

  pub ReadsFrom-rle :
      (xs : List ℕ)
      → All (λ x. x < 2 ^ 64) xs
      → IsRun xs
      → 2 < length xs
      → length xs < 2 ^ 63
      → ReadsFrom (encode_rle xs) xs
  unfolding encode_rle set_bytes run_bytes
  ReadsFrom-rle [] h g more few = absurd (omega (arith, more))
  ReadsFrom-rle (x ∷ []) h g more few = absurd (omega (arith, more))
  ReadsFrom-rle (x ∷ y ∷ ys) h g more few = (
    32 ∷ run_bytes x y (length (y ∷ ys)),
    ap (λ (c : ℕ). some (32 ∷ run_bytes x y c))
        (let e : length (x ∷ y ∷ ys) - 1 ≡ length (y ∷ ys) = omega arith in e),
    Reads-run s x y ys h.0 h.1.0 g few,
  )

  ReadsFrom-encoded :
      (e : IntegerEncoder)
      → All (λ x. x < 2 ^ 64) e.values
      → (e.rle ≡ true → IsRun e.values)
      → length e.values < 2 ^ 63
      → ReadsFrom (encoded_integers s e) e.values
  unfolding encoded_integers
  ReadsFrom-encoded e h g few = elim (Bool-cases (e.rle && ltb 2 (length e.values))) [
    | inl run ↦
        let is_run : e.rle ≡ true = ground arith in
        let long : 2 < length e.values = ground arith in
        rw run (ReadsFrom-rle e.values h (g is_run) long few)
    | inr no_run ↦ elim (Bool-cases (any_above s.max_value e.values)) [
      | inl large ↦ rw (no_run, large) (ReadsFrom-plain e.values h)
      | inr small ↦
          rw (no_run, small)
            (ReadsFrom-packed e.values h (
              behind_first (λ x. x ≤ s.max_value) e.values
                (below-any_above s.max_value e.values small)))
    ]
  ]

  -- Any int64 values, fewer than 2^63, that are written to a new encoder give bytes from which the
  -- decoder reads the same values in order and then ends without an error, in whichever of its three
  -- forms the encoder keeps them.
  pub read_integers-encoded_integers :
      (vs : List ℕ)
      → All (λ v. v < 2 ^ 64) vs
      → length vs < 2 ^ 63
      → (b : List ℕ) × (encoded_integers s (write_integers new_integer_encoder vs) ≡ some b)
        × Reads s (suc (length vs)) (set_bytes b) vs
  read_integers-encoded_integers vs h few =
      let e = write_integers new_integer_encoder vs in
      let same : e.values ≡ deltas 0 vs = write_integers-deltas new_integer_encoder vs in
      let size : length e.values ≡ length vs = ap length same ∙ length-deltas 0 vs in
      let (b, done, reads) =
        ReadsFrom-encoded e (subst (All (λ x. x < 2 ^ 64)) (sym same) (deltas-words 0 vs))
          (write_integers-IsRun new_integer_encoder vs (λ r. tt)) (omega (arith, size, few)) in
      (
        b,
        done,
        subst (λ (ws : List ℕ). Reads s (suc (length vs)) (set_bytes b) ws)
            (ap (sums 0) same ∙ sums-deltas 0 vs (omega arith) h)
            (subst (λ (k : ℕ). Reads s (suc k) (set_bytes b) (sums 0 e.values)) size reads),
      )
