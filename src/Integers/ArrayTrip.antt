-- ===== src/Integers/ArrayTrip.antt =====
-- `IntegerArrayEncodeAll` and `IntegerArrayDecodeAll` of storage/codec/int.go together.
use equinoxdb.Base.{suc, Option, ==_refl, drop, length-append}
use equinoxdb.Integers.Arrays.{largest, is_rle, encode_deltas, integer_array_encode_all}
use equinoxdb.Integers.Arrays.{array_deltas-deltas, largest-below, is_rle-IsRun, drop_short}
use equinoxdb.Integers.Arrays.{integer_array_encode_all-Reads}
use equinoxdb.Integers.Blocks.{part_words, part_numbers}
use equinoxdb.Integers.Decodes.{add_up, fill_all-add_delta}
use equinoxdb.Integers.Deltas.{deltas, sums-deltas, length-deltas, deltas-words}
use equinoxdb.Integers.Loops.{Reads}
use equinoxdb.Words.{be_bytes, length-be_bytes}
use equinoxdb.Base.{ℕ, ◌+◌, ◌-◌, ◌%◌, ◌^◌, ◌≤◌, ◌<◌, ◌≡◌, refl, sym, ap, ◌∙◌, inl, inr, true}
use equinoxdb.Base.{some, List, [], ◌∷◌, ◌++◌, append-nil, arith, ltb, ◌==◌, Bool-cases, length}
use equinoxdb.Base.{All}
use equinoxdb.Block.{zig_zag_decode, zig_zag_lem}
use equinoxdb.Integers.{Simple8b, encode_rle, encode_uncompressed, encode_packed}
use equinoxdb.Integers.Arrays.{encode_packed_into}
use equinoxdb.Integers.Decodes.{BulkSimple8b, add_delta, filled, decode_all_rle}
use equinoxdb.Integers.Decodes.{decode_all_simple, integer_array_decode_all}
use equinoxdb.Integers.Deltas.{sums, IsRun}
use equinoxdb.Varint.{put_uvarint, uvarint, uvarint-put_uvarint}
use equinoxdb.Words.{read_then}
use equinoxdb.Base.{◌>>=◌}
use equinoxdb.Integers.{set_bytes}
use equinoxdb.Integers.Decodes.{decode_all_uncompressed-words, sums-add_delta, add_up-sums}

module _ (s : Simple8b) (t : BulkSimple8b s) where
  first_value : (x : ℕ) → x < 2 ^ 64 → (zig_zag_decode x + 0) % 2 ^ 64 ≡ zig_zag_decode x
  first_value x h = let word = (zig_zag_lem x h).3 in omega (arith, word)

  plain_trip :
      (xs : List ℕ)
      → All (λ x. x < 2 ^ 64) xs
      → integer_array_decode_all s t (encode_uncompressed xs) ≡ some (sums 0 xs)
  unfolding encode_uncompressed integer_array_decode_all sums
  plain_trip [] h = refl
  plain_trip (x ∷ xs) h = decode_all_uncompressed-words (x ∷ xs) h

  sums_front :
      (x : ℕ) (xs : List ℕ)
      → x < 2 ^ 64
      → sums 0 (x ∷ xs) ≡ zig_zag_decode x ∷ sums (zig_zag_decode x) xs
  unfolding sums
  sums_front x xs h = ap (λ (v : ℕ). v ∷ sums v xs) (first_value x h)

  filled-sums :
      (x y : ℕ) (ys : List ℕ)
      → x < 2 ^ 64
      → All (λ z. z ≡ y) ys
      → length (x ∷ ys) < 2 ^ 63
      → filled x y (length (x ∷ ys)) ≡ some (sums 0 (x ∷ ys))
  unfolding add_delta
  filled-sums x y ys h same few =
      let small : ltb (length (x ∷ ys)) (2 ^ 63) ≡ true = ground arith in
      let steps : sums 0 (x ∷ ys)
          ≡ add_delta (length (x ∷ ys)) (zig_zag_decode x) (zig_zag_decode y) =
        sums_front x ys h
        ∙ ap (◌∷◌ (zig_zag_decode x)) (sums-add_delta (zig_zag_decode x) y ys same) in
      elim (Bool-cases (zig_zag_decode y == 0)) [
        | inl still ↦
            let no_delta : zig_zag_decode y ≡ 0 = ground arith in
            rw (small, still)
              (ap some (
                sym (fill_all-add_delta (length (x ∷ ys)) (zig_zag_decode x) ((zig_zag_lem x h).3))
                ∙ sym (ap (add_delta (length (x ∷ ys)) (zig_zag_decode x)) no_delta)
                ∙ sym steps))
        | inr moving ↦ rw (small, moving) (ap some (sym steps))
      ]

  rle_trip :
      (xs : List ℕ)
      → All (λ x. x < 2 ^ 64) xs
      → IsRun xs
      → 2 < length xs
      → length xs < 2 ^ 63
      → (encode_rle xs >>= integer_array_decode_all s t) ≡ some (sums 0 xs)
  unfolding encode_rle integer_array_decode_all decode_all_rle
  rle_trip [] h same long few = absurd (omega (arith, long))
  rle_trip (x ∷ []) h same long few = absurd (omega (arith, long))
  rle_trip (x ∷ y ∷ ys) h same long few =
      let c = length (x ∷ y ∷ ys) - 1 in
      let count : c + 1 ≡ length (x ∷ y ∷ ys) = omega arith in
      let last : uvarint (put_uvarint c) ≡ some (c, []) =
        ap uvarint (sym (append-nil (put_uvarint c)))
        ∙ uvarint-put_uvarint c [] (omega (arith, few)) in
      read_then 8 x (put_uvarint y ++ put_uvarint c)
        (λ w. uvarint w.1 >>= λ v. uvarint v.1 >>= λ u. filled w.0 v.0 (u.0 + 1)) (h.0)
      ∙ rw (uvarint-put_uvarint y (put_uvarint c) h.1.0, last) (ap (filled x y) count)
      ∙ filled-sums x y (y ∷ ys) h.0 (refl, same) few

  packed_trip :
      (b : List ℕ) (x : ℕ) (xs : List ℕ)
      → x < 2 ^ 64
      → All (λ z. z ≤ s.max_value) xs
      → length b ≤ 9
      → (encode_packed_into s b (x ∷ xs) >>= integer_array_decode_all s t) ≡ some (sums 0 (x ∷ xs))
  unfolding encode_packed_into encode_packed integer_array_decode_all decode_all_simple
  packed_trip b x xs h g short =
      let (ps, done, numbers, packed) = s.decode-encode_all xs g in
      let bytes = part_words s ps in
      let r : List ℕ = 16 ∷ (be_bytes 8 x ++ bytes) in
      let long : length b ≤ length r =
        omega (arith, short, length-append (be_bytes 8 x) bytes, length-be_bytes 8 x) in
      let nothing : drop (length r) b ≡ [] = drop_short s (length r) b long in
      let encoded : encode_packed_into s b (x ∷ xs) ≡ some r =
        rw (done, nothing) (ap some (append-nil r)) in
      let (counted, unpacked_all) = t.decode_bytes-words ps packed in
      let all_there : (length (part_numbers s ps) == length (part_numbers s ps)) ≡ true =
        ==_refl (length (part_numbers s ps)) in
      ap (λ (o : Option (List ℕ)). o >>= integer_array_decode_all s t) encoded
      ∙ read_then 8 x bytes _ h
      ∙ rw (counted, unpacked_all, all_there)
          (ap (λ (ys : List ℕ). some (zig_zag_decode x ∷ add_up (zig_zag_decode x) ys)) numbers
            ∙ ap (λ (ys : List ℕ). some (zig_zag_decode x ∷ ys)) (add_up-sums (zig_zag_decode x) xs)
            ∙ ap some (sym (sums_front x xs h)))

  deltas_trip :
      (b xs : List ℕ)
      → All (λ z. z < 2 ^ 64) xs
      → length xs < 2 ^ 63
      → length b ≤ 9
      → (encode_deltas s b xs >>= integer_array_decode_all s t) ≡ some (sums 0 xs)
  unfolding encode_deltas encode_uncompressed
  deltas_trip b [] h few short = plain_trip [] h
  deltas_trip b (x ∷ xs) h few short = elim (Bool-cases (is_rle (x ∷ xs))) [
    | inl run ↦
        let (same_deltas, long) = is_rle-IsRun s (x ∷ xs) run in
        rw run (rle_trip (x ∷ xs) h same_deltas long few)
    | inr no_run ↦ elim (Bool-cases (ltb s.max_value (largest xs))) [
      | inl large ↦ rw (no_run, large) (plain_trip (x ∷ xs) h)
      | inr small ↦
          rw (no_run, small)
            (packed_trip b x xs h.0 (largest-below s s.max_value xs (ground arith)) short)
    ]
  ]

  -- Any int64 values, fewer than 2^63, that `IntegerArrayEncodeAll` encodes into a buffer of at most
  -- nine bytes are read back in order from the result, by `IntegerArrayDecodeAll` and by the decoder
  -- of single values, which then ends without an error.
  pub integer_array_decode_all-integer_array_encode_all :
      (vs b : List ℕ)
      → All (λ v. v < 2 ^ 64) vs
      → length vs < 2 ^ 63
      → length b ≤ 9
      → ((integer_array_encode_all s vs b >>= integer_array_decode_all s t) ≡ some vs)
        × ((r : List ℕ) × (integer_array_encode_all s vs b ≡ some r)
            × Reads s (suc (length vs)) (set_bytes r) vs)
  unfolding integer_array_encode_all
  integer_array_decode_all-integer_array_encode_all vs b h few short =
      let same_deltas = array_deltas-deltas s vs h in
      (
        ap (λ (xs : List ℕ). encode_deltas s b xs >>= integer_array_decode_all s t) same_deltas
            ∙ deltas_trip b (deltas 0 vs) (deltas-words 0 vs)
                (omega (arith, few, length-deltas 0 vs)) short
            ∙ ap some (sums-deltas 0 vs (omega arith) h),
        integer_array_encode_all-Reads s vs b h few short,
      )
