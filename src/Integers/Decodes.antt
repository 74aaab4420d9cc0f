-- ===== src/Integers/Decodes.antt =====
-- `IntegerArrayDecodeAll` of storage/codec/int.go, the decoder of whole arrays.
use equinoxdb.Base.{ℕ, zero, suc, ◌+◌, ◌*◌, ◌/◌, ◌%◌, ◌^◌, ◌<◌, ◌≡◌, refl, ap, ◌∙◌, true, Option}
use equinoxdb.Base.{none, some, List, [], ◌∷◌, arith, ltb, ◌==◌, if◌then◌else◌, length, All}
use equinoxdb.Base.{length-append}
use equinoxdb.Block.{zig_zag_decode}
use equinoxdb.Integers.{Packed, Simple8b, words}
use equinoxdb.Integers.Blocks.{part_words, part_numbers}
use equinoxdb.Integers.Deltas.{sums}
use equinoxdb.Varint.{uvarint}
use equinoxdb.Words.{be_bytes, read_word, length-be_bytes, read_then}
use equinoxdb.Base.{◌>>=◌}

-- pkg/encoding/simple8b: `CountBytes` and `DecodeBytesBigEndian` count and unpack the numbers of several
-- words.
pub record BulkSimple8b (s : Simple8b) : Type 0 where
  pub count_bytes : List ℕ → Option ℕ
  pub decode_bytes : List ℕ → Option (List ℕ)
  pub decode_bytes-words :
      (ps : List Packed)
      → All
          (λ p. (p.word < 2 ^ 64) × (0 < length p.numbers) × (s.decode p.word ≡ some p.numbers))
          ps
      → (count_bytes (part_words s ps) ≡ some (length (part_numbers s ps)))
        × (decode_bytes (part_words s ps) ≡ some (part_numbers s ps))

-- `integerBatchDecodeAllUncompressed`: the loop over the words, and the test before it.
unfoldable pub sum_words : ℕ → ℕ → List ℕ → Option (List ℕ)
sum_words zero prev b = some []
sum_words (suc n) prev b = do
  w ← read_word 8 b
  let v : ℕ = (prev + zig_zag_decode w.0) % 2 ^ 64
  vs ← sum_words n v w.1
  some (v ∷ vs)

unfoldable pub decode_all_uncompressed : List ℕ → Option (List ℕ)
unfolding sum_words
decode_all_uncompressed b = if length b % 8 == 0 then sum_words (length b / 8) 0 b else none

-- The prefix sum of `integerBatchDecodeAllSimple`.
unfoldable pub add_up : ℕ → List ℕ → List ℕ
add_up prev [] = []
add_up prev (x ∷ xs) =
    (prev + zig_zag_decode x) % 2 ^ 64 ∷ add_up ((prev + zig_zag_decode x) % 2 ^ 64) xs

-- The loops of `integerBatchDecodeAllRLE`.
unfoldable pub fill_all : ℕ → ℕ → List ℕ
fill_all zero v = []
fill_all (suc n) v = v ∷ fill_all n v

unfoldable pub add_delta : ℕ → ℕ → ℕ → List ℕ
add_delta zero acc d = []
add_delta (suc n) acc d = acc ∷ add_delta n ((acc + d) % 2 ^ 64) d

abbrev pub filled : ℕ → ℕ → ℕ → Option (List ℕ)
filled x y count =
    if ltb count (2 ^ 63)
    then some (
        if zig_zag_decode y == 0
        then fill_all count (zig_zag_decode x)
        else add_delta count (zig_zag_decode x) (zig_zag_decode y))
    else none

-- `integerBatchDecodeAllRLE`; a count that is no int panics.
unfoldable pub decode_all_rle : List ℕ → Option (List ℕ)
unfolding fill_all add_delta
decode_all_rle b = do x ← read_word 8 b; y ← uvarint x.1; c ← uvarint y.1; filled x.0 y.0 (c.0 + 1)

module _ (s : Simple8b) (t : BulkSimple8b s) where
  -- `integerBatchDecodeAllSimple`
  unfoldable pub decode_all_simple : List ℕ → Option (List ℕ)
  unfolding add_up
  decode_all_simple b = do
    x ← read_word 8 b
    count ← t.count_bytes x.1
    xs ← t.decode_bytes x.1
    if length xs == count then some (zig_zag_decode x.0 ∷ add_up (zig_zag_decode x.0) xs) else none

  -- `IntegerArrayDecodeAll`; `none` is an error or a panic.
  unfoldable pub integer_array_decode_all : List ℕ → Option (List ℕ)
  unfolding decode_all_uncompressed decode_all_simple decode_all_rle
  integer_array_decode_all [] = some []
  integer_array_decode_all (e ∷ b) =
      if ltb 2 (e / 16)
      then none
      else if e / 16 == 0
      then decode_all_uncompressed b
      else if e / 16 == 1
      then decode_all_simple b
      else decode_all_rle b

sum_words-words :
    (prev : ℕ) (xs : List ℕ)
    → All (λ x. x < 2 ^ 64) xs
    → sum_words (length xs) prev (words xs) ≡ some (sums prev xs)
unfolding sum_words words sums
sum_words-words prev [] h = refl
sum_words-words prev (x ∷ xs) h =
    let swap : (prev + zig_zag_decode x) % 2 ^ 64 ≡ (zig_zag_decode x + prev) % 2 ^ 64 =
      omega arith in
    read_then 8 x (words xs) _ (h.0)
    ∙ rw (swap, sum_words-words ((zig_zag_decode x + prev) % 2 ^ 64) xs h.1) refl

pub length-words : (xs : List ℕ) → length (words xs) ≡ length xs * 8
unfolding words
length-words [] = refl
length-words (x ∷ xs) =
    omega (arith, length-append (be_bytes 8 x) (words xs), length-be_bytes 8 x, length-words xs)

pub decode_all_uncompressed-words :
    (xs : List ℕ) → All (λ x. x < 2 ^ 64) xs → decode_all_uncompressed (words xs) ≡ some (sums 0 xs)
unfolding decode_all_uncompressed
decode_all_uncompressed-words xs h =
    let whole : (length (words xs) % 8 == 0) ≡ true = ground (arith, length-words xs) in
    let size : length (words xs) / 8 ≡ length xs = omega (arith, length-words xs) in
    rw (whole, size) (sum_words-words 0 xs h)

pub add_up-sums : (prev : ℕ) (xs : List ℕ) → add_up prev xs ≡ sums prev xs
unfolding add_up sums
add_up-sums prev [] = refl
add_up-sums prev (x ∷ xs) =
    let swap : (prev + zig_zag_decode x) % 2 ^ 64 ≡ (zig_zag_decode x + prev) % 2 ^ 64 =
      omega arith in
    ap (λ (v : ℕ). v ∷ add_up v xs) swap
    ∙ ap (◌∷◌ ((zig_zag_decode x + prev) % 2 ^ 64))
        (add_up-sums ((zig_zag_decode x + prev) % 2 ^ 64) xs)

pub sums-add_delta :
    (prev y : ℕ) (ys : List ℕ)
    → All (λ z. z ≡ y) ys
    → sums prev ys ≡ add_delta (length ys) ((prev + zig_zag_decode y) % 2 ^ 64) (zig_zag_decode y)
unfolding sums add_delta
sums-add_delta prev y [] h = refl
sums-add_delta prev y (z ∷ ys) h =
    let swap : (zig_zag_decode z + prev) % 2 ^ 64 ≡ (prev + zig_zag_decode y) % 2 ^ 64 =
      ap (λ (w : ℕ). (zig_zag_decode w + prev) % 2 ^ 64) h.0 ∙ omega arith in
    ap (λ (v : ℕ). v ∷ sums v ys) swap
    ∙ ap (◌∷◌ ((prev + zig_zag_decode y) % 2 ^ 64))
        (sums-add_delta ((prev + zig_zag_decode y) % 2 ^ 64) y ys h.1)

pub fill_all-add_delta : (n v : ℕ) → v < 2 ^ 64 → add_delta n v 0 ≡ fill_all n v
unfolding fill_all add_delta
fill_all-add_delta zero v h = refl
fill_all-add_delta (suc n) v h =
    let same : (v + 0) % 2 ^ 64 ≡ v = omega (arith, h) in
    ap (◌∷◌ v) (ap (λ (w : ℕ). add_delta n w 0) same ∙ fill_all-add_delta n v h)
