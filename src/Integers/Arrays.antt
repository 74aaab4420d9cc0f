-- ===== src/Integers/Arrays.antt =====
-- `IntegerArrayEncodeAll` of storage/codec/int.go, the encoder of whole arrays. The values are
-- overwritten with their deltas, the last one first.
use equinoxdb.Integers.{set_bytes}
use equinoxdb.Base.{zero, suc, ◌∙◌, subst, map, append-nil, length-append}
use equinoxdb.Integers.{words}
use equinoxdb.Integers.Deltas.{sums, sums-deltas, length-deltas, deltas-words}
use equinoxdb.Integers.Loops.{Reads}
use equinoxdb.Integers.RoundTrip.{ReadsFrom, ReadsFrom-plain, ReadsFrom-packed, ReadsFrom-rle}
use equinoxdb.Words.{be_bytes, length-be_bytes}
use equinoxdb.Base.{ℕ, ◌^◌, ◌≤◌, ◌<◌, ◌≡◌, refl, ap, inl, inr, Bool, true, false, ◌&&◌, Option}
use equinoxdb.Base.{some, List, [], ◌∷◌, ◌++◌, arith, ltb, ◌==◌, if◌then◌else◌, Bool-cases}
use equinoxdb.Base.{length, drop, All}
use equinoxdb.Block.{zig_zag_encode}
use equinoxdb.Integers.{Simple8b, delta, encode_rle, encode_uncompressed, encode_packed}
use equinoxdb.Integers.Deltas.{deltas, IsRun}
use equinoxdb.Base.{◌>>=◌}

abbrev pub array_deltas : List ℕ → List ℕ
array_deltas [] = []
array_deltas (v ∷ vs) = zig_zag_encode v ∷ deltas v vs

-- `max`, over all deltas but the first.
unfoldable pub largest : List ℕ → ℕ
largest [] = 0
largest (x ∷ xs) = let m = largest xs in if ltb m x then x else m

abbrev pub all_same : ℕ → List ℕ → Bool
all_same y [] = true
all_same y (x ∷ xs) = y == x && all_same y xs

abbrev pub is_rle : List ℕ → Bool
is_rle [] = false
is_rle (x ∷ []) = false
is_rle (x ∷ y ∷ ys) = ltb 2 (length (x ∷ y ∷ ys)) && all_same y ys

module _ (s : Simple8b) where
  -- The packed form is returned with what the buffer `b` holds behind it.
  unfoldable pub encode_packed_into : List ℕ → List ℕ → Option (List ℕ)
  unfolding encode_packed
  encode_packed_into b xs = do r ← encode_packed s xs; some (r ++ drop (length r) b)

  unfoldable pub encode_deltas : List ℕ → List ℕ → Option (List ℕ)
  unfolding encode_rle encode_uncompressed encode_packed_into largest
  encode_deltas b [] = some []
  encode_deltas b (x ∷ xs) =
      if is_rle (x ∷ xs)
      then encode_rle (x ∷ xs)
      else if ltb s.max_value (largest xs)
      then some (encode_uncompressed (x ∷ xs))
      else encode_packed_into b (x ∷ xs)

  unfoldable pub integer_array_encode_all : List ℕ → List ℕ → Option (List ℕ)
  unfolding encode_deltas
  integer_array_encode_all src b = encode_deltas b (array_deltas src)

  pub array_deltas-deltas : (vs : List ℕ) → All (λ v. v < 2 ^ 64) vs → array_deltas vs ≡ deltas 0 vs
  unfolding deltas
  array_deltas-deltas [] h = refl
  array_deltas-deltas (v ∷ vs) h =
      let same : v ≡ delta 0 v = omega (arith, h.0) in
      ap (λ (w : ℕ). zig_zag_encode w ∷ deltas v vs) same

  pub largest-below : (m : ℕ) (xs : List ℕ) → largest xs ≤ m → All (λ x. x ≤ m) xs
  unfolding largest
  largest-below m [] h = tt
  largest-below m (x ∷ xs) h = elim (Bool-cases (ltb (largest xs) x)) [
    | inl larger ↦ let less : x ≤ m = rw larger at h in (less, largest-below m xs (ground arith))
    | inr kept ↦ let less : largest xs ≤ m = rw kept at h in (ground arith, largest-below m xs less)
  ]

  all_same-All : (y : ℕ) (xs : List ℕ) → all_same y xs ≡ true → All (λ z. z ≡ y) xs
  all_same-All y [] e = tt
  all_same-All y (x ∷ xs) e =
      let here : x ≡ y = ground arith in
      let behind : all_same y xs ≡ true = ground arith in (here, all_same-All y xs behind)

  pub is_rle-IsRun : (xs : List ℕ) → is_rle xs ≡ true → IsRun xs × (2 < length xs)
  is_rle-IsRun [] e = absurd (cc)
  is_rle-IsRun (x ∷ []) e = absurd (cc)
  is_rle-IsRun (x ∷ y ∷ ys) e =
      let same : all_same y ys ≡ true = ground arith in
      let long : 2 < length (x ∷ y ∷ ys) = ground arith in (all_same-All y ys same, long)

  length-encode_packed :
      (x : ℕ) (xs r : List ℕ)
      → All (λ z. z ≤ s.max_value) xs
      → encode_packed s (x ∷ xs) ≡ some r
      → 9 ≤ length r
  unfolding encode_packed
  length-encode_packed x xs r h e =
      let (ps, done, same_numbers, rest) = s.decode-encode_all xs h in
      let bytes = words (map (λ p. p.word) ps) in
      let whole : some (16 ∷ (be_bytes 8 x ++ bytes)) ≡ some r = rw done at e in
      let same : 16 ∷ (be_bytes 8 x ++ bytes) ≡ r = cc in
      omega (arith, ap length same, length-append (be_bytes 8 x) bytes, length-be_bytes 8 x)

  pub drop_short : (n : ℕ) (b : List ℕ) → length b ≤ n → drop n b ≡ []
  drop_short zero [] h = refl
  drop_short (suc n) [] h = refl
  drop_short zero (x ∷ b) h = absurd (omega (arith, h))
  drop_short (suc n) (x ∷ b) h = drop_short n b (omega (arith, h))

  ReadsFrom-packed_into :
      (b : List ℕ) (x : ℕ) (xs : List ℕ)
      → All (λ z. z < 2 ^ 64) (x ∷ xs)
      → All (λ z. z ≤ s.max_value) xs
      → length b ≤ 9
      → ReadsFrom s (encode_packed_into b (x ∷ xs)) (x ∷ xs)
  unfolding encode_packed_into
  ReadsFrom-packed_into b x xs h g short =
      let (r, done, reads) = ReadsFrom-packed s (x ∷ xs) h g in
      let long = length-encode_packed x xs r g done in
      let nothing : drop (length r) b ≡ [] = drop_short (length r) b (omega (arith, long, short)) in
      (r, rw (done, nothing) (ap some (append-nil r)), reads)

  ReadsFrom-deltas :
      (b xs : List ℕ)
      → All (λ z. z < 2 ^ 64) xs
      → length xs < 2 ^ 63
      → length b ≤ 9
      → ReadsFrom s (encode_deltas b xs) xs
  unfolding encode_deltas encode_uncompressed
  ReadsFrom-deltas b [] h few short = ReadsFrom-plain s [] h
  ReadsFrom-deltas b (x ∷ xs) h few short = elim (Bool-cases (is_rle (x ∷ xs))) [
    | inl run ↦
        let (same, long) = is_rle-IsRun (x ∷ xs) run in
        rw run (ReadsFrom-rle s (x ∷ xs) h same long few)
    | inr no_run ↦ elim (Bool-cases (ltb s.max_value (largest xs))) [
      | inl large ↦ rw (no_run, large) (ReadsFrom-plain s (x ∷ xs) h)
      | inr small ↦
          rw (no_run, small)
            (ReadsFrom-packed_into b x xs h (largest-below s.max_value xs (ground arith)) short)
    ]
  ]

  -- Any int64 values, fewer than 2^63, in an array that is encoded at once, into a buffer of at most
  -- nine bytes, give bytes from which the decoder of single values reads the same values in order and
  -- then ends without an error.
  pub integer_array_encode_all-Reads :
      (vs b : List ℕ)
      → All (λ v. v < 2 ^ 64) vs
      → length vs < 2 ^ 63
      → length b ≤ 9
      → (r : List ℕ) × (integer_array_encode_all vs b ≡ some r)
        × Reads s (suc (length vs)) (set_bytes r) vs
  unfolding integer_array_encode_all
  integer_array_encode_all-Reads vs b h few short =
      let same = array_deltas-deltas vs h in
      let (r, done, reads) =
        ReadsFrom-deltas b (deltas 0 vs) (deltas-words 0 vs)
          (omega (arith, few, length-deltas 0 vs)) short in
      (
        r,
        ap (encode_deltas b) same ∙ done,
        subst (λ (ws : List ℕ). Reads s (suc (length vs)) (set_bytes r) ws)
            (sums-deltas 0 vs (omega arith) h)
            (subst (λ (k : ℕ). Reads s (suc k) (set_bytes r) (sums 0 (deltas 0 vs)))
              (length-deltas 0 vs) reads),
      )
