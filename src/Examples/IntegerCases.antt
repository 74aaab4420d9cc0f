-- ===== src/Examples/IntegerCases.antt =====
-- The integer codec: storage/codec/int.go.
use equinoxdb.Base.{◌>>=◌}
use equinoxdb.Base.{zero, suc, ◌/◌, ◌∙◌, ◌++◌}
use equinoxdb.Integers.{words}
use equinoxdb.Integers.ArrayTrip.{integer_array_decode_all-integer_array_encode_all}
use equinoxdb.Integers.Blocks.{part_words, part_numbers}
use equinoxdb.Integers.Decodes.{BulkSimple8b, integer_array_decode_all, length-words}
use equinoxdb.Words.{read_word, read_then}
use equinoxdb.Integers.Deltas.{deltas}
use equinoxdb.Integers.Arrays.{integer_array_encode_all}
use equinoxdb.Base.{ℕ, ◌-◌, ◌^◌, ◌≤◌, ◌<◌, ◌≡◌, refl, sym, ap, Option, some, List, [], ◌∷◌, map}
use equinoxdb.Base.{arith, length, All, flatten}
use equinoxdb.Block.{zig_zag_encode}
use equinoxdb.Integers.{Packed, Simple8b, new_integer_encoder, write_integers, encoded_integers}
use equinoxdb.Integers.Loops.{Reads}
use equinoxdb.Integers.RoundTrip.{read_integers-encoded_integers}
use equinoxdb.Varint.{put_uvarint}
use equinoxdb.Words.{be_bytes}
use equinoxdb.Integers.{set_bytes}

abbrev singles : List ℕ → List Packed
singles [] = []
singles (x ∷ xs) = record { word = x; numbers = x ∷ [] } ∷ singles xs

abbrev singled : List ℕ → Option (List ℕ)
singled xs = some xs

abbrev single : ℕ → Option (List ℕ)
single w = some (w ∷ [])

singles-words : (xs : List ℕ) → map (λ p. p.word) (singles xs) ≡ xs
singles-words [] = refl
singles-words (x ∷ xs) = ap (◌∷◌ x) (singles-words xs)

singles-numbers : (xs : List ℕ) → flatten (map (λ p. p.numbers) (singles xs)) ≡ xs
singles-numbers [] = refl
singles-numbers (x ∷ xs) = ap (◌∷◌ x) (singles-numbers xs)

singles-All :
    (xs : List ℕ)
    → All (λ x. x ≤ 2 ^ 60 - 1) xs
    → All
        (λ p. (p.word < 2 ^ 64) × (0 < length p.numbers) × (single p.word ≡ some p.numbers))
        (singles xs)
singles-All [] h = tt
singles-All (x ∷ xs) h = ((omega (arith, h.0), omega arith, refl), singles-All xs h.1)

-- A packing with one number in each word.
abbrev one_each : Simple8b
one_each = record {
  max_value = 2 ^ 60 - 1;
  encode_all = singled;
  decode = single;
  decode-encode_all =
      λ xs h. (singles xs, ap some (sym (singles-words xs)), singles-numbers xs, singles-All xs h);
}

-- 7, -1 and 5: the deltas are 7, -8 and 6.
abbrev three_integers : List ℕ
three_integers = 7 ∷ (2 ^ 64 - 1) ∷ 5 ∷ []

read_integers-encoded_integers_example :
    (b : List ℕ) × (encoded_integers one_each (write_integers new_integer_encoder three_integers)
      ≡ some b)
    × Reads one_each 4 (set_bytes b) three_integers
read_integers-encoded_integers_example =
    read_integers-encoded_integers one_each three_integers
      (omega arith, (omega arith, (omega arith, tt))) (omega arith)

-- Tests: the numbers of the encoder, and the bytes of a run of 3, 5, 7 and 9.
three_integers_test : (write_integers new_integer_encoder three_integers).values ≡ 14 ∷ 15 ∷ 12 ∷ []
unfolding write_integers zig_zag_encode
three_integers_test = refl

run_test :
    encoded_integers one_each (write_integers new_integer_encoder (3 ∷ 5 ∷ 7 ∷ 9 ∷ []))
    ≡ some (32 ∷ 0 ∷ 0 ∷ 0 ∷ 0 ∷ 0 ∷ 0 ∷ 0 ∷ 6 ∷ 4 ∷ 3 ∷ [])
unfolding encoded_integers write_integers zig_zag_encode be_bytes put_uvarint
run_test = refl

all_words : ℕ → List ℕ → Option (List ℕ)
all_words zero b = some []
all_words (suc n) b = do w ← read_word 8 b; ws ← all_words n w.1; some (w.0 ∷ ws)

all_words-words :
    (ws : List ℕ) → All (λ w. w < 2 ^ 64) ws → all_words (length ws) (words ws) ≡ some ws
unfolding all_words words
all_words-words [] h = refl
all_words-words (w ∷ ws) h = read_then 8 w (words ws) _ (h.0) ∙ rw (all_words-words ws h.1) refl

abbrev number_count : List ℕ → Option ℕ
number_count b = some (length b / 8)

abbrev unpack_all : List ℕ → Option (List ℕ)
unpack_all b = all_words (length b / 8) b

abbrev AreSingle : List Packed → Type 0
AreSingle = All (λ p. (p.word < 2 ^ 64) × (0 < length p.numbers) × (single p.word ≡ some p.numbers))

numbers-words :
    (ps : List Packed)
    → AreSingle ps
    → (part_numbers one_each ps ≡ map (λ p. p.word) ps)
      × All (λ w. w < 2 ^ 64) (map (λ p. p.word) ps)
numbers-words [] h = (refl, tt)
numbers-words (p ∷ ps) h =
    let (same_numbers, small) = numbers-words ps h.1 in
    let only : p.numbers ≡ p.word ∷ [] =
      (let e : some (p.word ∷ []) ≡ some p.numbers = h.0.2 in cc) in
    (
      ap (λ (xs : List ℕ). xs ++ part_numbers one_each ps) only ∙ ap (◌∷◌ p.word) same_numbers,
      (h.0.0, small),
    )

unpack_all-words :
    (ps : List Packed)
    → AreSingle ps
    → (number_count (part_words one_each ps) ≡ some (length (part_numbers one_each ps)))
      × (unpack_all (part_words one_each ps) ≡ some (part_numbers one_each ps))
unpack_all-words ps h =
    let (same_numbers, small) = numbers-words ps h in
    let size : length (part_words one_each ps) / 8 ≡ length (map (λ p. p.word) ps) =
      omega (arith, length-words (map (λ p. p.word) ps)) in
    (
      ap some (size ∙ ap length (sym same_numbers)),
      ap (λ (n : ℕ). all_words n (part_words one_each ps)) size
          ∙ all_words-words (map (λ p. p.word) ps) small
          ∙ ap some (sym same_numbers),
    )

abbrev one_each_bulk : BulkSimple8b one_each
one_each_bulk = record {
  count_bytes = number_count;
  decode_bytes = unpack_all;
  decode_bytes-words = unpack_all-words;
}

integer_array_decode_all-integer_array_encode_all_example :
    ((integer_array_encode_all one_each three_integers (1 ∷ 2 ∷ [])
        >>= integer_array_decode_all one_each one_each_bulk)
      ≡ some three_integers)
    × ((r : List ℕ) × (integer_array_encode_all one_each three_integers (1 ∷ 2 ∷ []) ≡ some r)
        × Reads one_each 4 (set_bytes r) three_integers)
integer_array_decode_all-integer_array_encode_all_example =
    integer_array_decode_all-integer_array_encode_all one_each one_each_bulk three_integers
      (1 ∷ 2 ∷ []) (omega arith, (omega arith, (omega arith, tt))) (omega arith) (omega arith)

-- A test: a longer buffer shows behind the bytes.
long_buffer_test :
    integer_array_encode_all one_each (5 ∷ []) (1 ∷ 1 ∷ 1 ∷ 1 ∷ 1 ∷ 1 ∷ 1 ∷ 1 ∷ 1 ∷ 8 ∷ 9 ∷ [])
    ≡ some (16 ∷ 0 ∷ 0 ∷ 0 ∷ 0 ∷ 0 ∷ 0 ∷ 0 ∷ 10 ∷ 8 ∷ 9 ∷ [])
unfolding integer_array_encode_all zig_zag_encode be_bytes deltas
long_buffer_test = refl
