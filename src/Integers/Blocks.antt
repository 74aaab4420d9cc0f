-- ===== src/Integers/Blocks.antt =====
-- The loop of `Next` and `Read` in storage/codec/int.go over words: the packed form and the one that
-- keeps the numbers as they are.
use equinoxdb.Base.{refl, ap, ◌∙◌, inl, inr, true, false, arith, ltb, Bool-cases, length-append}
use equinoxdb.Words.{read_word, length-be_bytes, read_word-be_bytes}
use equinoxdb.Base.{ℕ, ◌^◌, ◌<◌, ◌≡◌, Bool, ◌&&◌, ◌||◌, some, List, [], ◌∷◌, ◌++◌, map, ◌==◌}
use equinoxdb.Base.{if◌then◌else◌, length, flatten}
use equinoxdb.Integers.{Packed, Simple8b, words, IntegerDecoder, decode_uncompressed}
use equinoxdb.Integers.{decode_packed, decode_next}
use equinoxdb.Words.{be_bytes}

some_same : {A : Type 0} {x y : A} → some x ≡ some y → x ≡ y
some_same e = cc

abbrev with_numbers : IntegerDecoder → List ℕ → Bool → List ℕ → IntegerDecoder
with_numbers d xs first bs = record d {
  values = xs;
  n = length xs;
  i = 0;
  bytes = bs;
  first = first;
}

module _ (s : Simple8b) where
  -- What a word stands for in the next round of the decoder.
  abbrev pub IsPart : ℕ → Bool → Packed → Type 0
  IsPart encoding first p =
      (p.word < 2 ^ 64)
      × (0 < length p.numbers)
      × ((if encoding == 0 || first then some (p.word ∷ []) else s.decode p.word) ≡ some p.numbers)

  abbrev pub AreParts : ℕ → Bool → List Packed → Type 0
  AreParts encoding first [] = Unit
  AreParts encoding first (p ∷ ps) =
      IsPart encoding first p × AreParts encoding (encoding == 0 && first) ps

  abbrev pub part_words : List Packed → List ℕ
  part_words ps = words (map (λ p. p.word) ps)

  abbrev pub part_numbers : List Packed → List ℕ
  part_numbers ps = flatten (map (λ p. p.numbers) ps)

  -- The decoder after a word.
  abbrev pub at_part : IntegerDecoder → Packed → List ℕ → IntegerDecoder
  at_part d p bs = record d {
    values = p.numbers;
    n = length p.numbers;
    i = 0;
    bytes = bs;
    first = d.encoding == 0 && d.first;
  }

  pub decode_next-part :
      (d : IntegerDecoder) (p : Packed) (bs : List ℕ)
      → d.encoding < 2
      → IsPart d.encoding d.first p
      → d.bytes ≡ be_bytes 8 p.word ++ bs
      → decode_next s d ≡ at_part d p bs
  unfolding decode_next decode_uncompressed decode_packed
  decode_next-part d p bs small part at =
      let w = p.word in
      let read : read_word 8 d.bytes ≡ some (w, bs) =
        ap (read_word 8) at ∙ read_word-be_bytes 8 w bs (part.0) in
      let known : ltb 2 d.encoding ≡ false = ground arith in
      let more : (length d.bytes == 0) ≡ false =
        ground (arith, ap length at, length-append (be_bytes 8 w) bs, length-be_bytes 8 w) in
      elim (Bool-cases (d.encoding == 0)) [
        | inl plain ↦
            let kept : some (w ∷ []) ≡ some p.numbers = rw plain at part.2 in
            rw (known, more, plain, read)
              (ap (λ (xs : List ℕ). with_numbers d xs d.first bs) (some_same kept))
        | inr other ↦
            let simple : (d.encoding == 1) ≡ true = ground arith in
            elim (Bool-cases d.first) [
              | inl e ↦
                  let kept : some (w ∷ []) ≡ some p.numbers = rw (other, e) at part.2 in
                  rw (known, more, other, simple, read, e)
                    (ap (λ (xs : List ℕ). with_numbers d xs false bs) (some_same kept))
              | inr e ↦
                  let unpacked_word : s.decode w ≡ some p.numbers = rw (other, e) at part.2 in
                  rw (known, more, other, simple, read, e, unpacked_word) refl
            ]
      ]
