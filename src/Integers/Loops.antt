-- ===== src/Integers/Loops.antt =====
-- Calls of `Next` and `Read` of storage/codec/int.go up to the end.
use equinoxdb.Base.{sym, ◌∙◌, subst}
use equinoxdb.Integers.{and_more}
use equinoxdb.Base.{ℕ, zero, suc, ◌+◌, ◌%◌, ◌^◌, ◌≤◌, ◌<◌, ◌≡◌, refl, ap, inl, inr, true, false}
use equinoxdb.Base.{some, List, [], ◌∷◌, ◌++◌, arith, ltb, leb, ◌==◌, Bool-cases, length}
use equinoxdb.Base.{get_elem?, drop, length-append}
use equinoxdb.Block.{zig_zag_decode}
use equinoxdb.Integers.{Packed, Simple8b, words, IntegerDecoder, decode_next, next_integer}
use equinoxdb.Integers.{read_integer, read_integers}
use equinoxdb.Integers.Blocks.{IsPart, AreParts, part_words, part_numbers, at_part}
use equinoxdb.Integers.Blocks.{decode_next-part}
use equinoxdb.Integers.Deltas.{sums}
use equinoxdb.Words.{be_bytes, length-be_bytes}

drop_split :
    (k : ℕ) (vs : List ℕ) (x : ℕ) (xs : List ℕ)
    → drop k vs ≡ x ∷ xs
    → (get_elem? vs k ≡ some x) × (drop (suc k) vs ≡ xs) × (k < length vs)
drop_split zero [] x xs e = absurd (cc)
drop_split (suc k) [] x xs e = absurd (cc)
drop_split zero (v ∷ vs) x xs e = (cc, cc, omega arith)
drop_split (suc k) (v ∷ vs) x xs e =
    let (found_at, behind, less) = drop_split k vs x xs e in (found_at, behind, omega (arith, less))

drop_empty : (k : ℕ) (vs : List ℕ) → drop k vs ≡ [] → length vs ≤ k
drop_empty zero [] e = omega arith
drop_empty (suc k) [] e = omega arith
drop_empty zero (v ∷ vs) e = absurd (cc)
drop_empty (suc k) (v ∷ vs) e = omega (arith, drop_empty k vs e)

module _ (s : Simple8b) where
  pub next_inside :
      (d : IntegerDecoder)
      → suc d.i < d.n
      → d.err ≡ false
      → next_integer s d ≡ (record d { i = suc d.i }, true)
  unfolding next_integer
  next_inside d h e =
      let inside : leb d.n d.i ≡ false = ground arith in
      let within : leb d.n (suc d.i) ≡ false = ground arith in
      let less : ltb (suc d.i) d.n ≡ true = ground arith in rw (inside, within, less, e) refl

  pub next_end :
      (d : IntegerDecoder)
      → d.n ≤ suc d.i
      → d.encoding ≤ 2
      → d.bytes ≡ []
      → d.err ≡ false
      → (e : IntegerDecoder) × (next_integer s d ≡ (e, false)) × (e.err ≡ false)
  unfolding next_integer decode_next
  next_end d h known at e = elim (Bool-cases (leb d.n d.i)) [
    | inl done ↦ (d, rw (done, at) refl, e)
    | inr not_done ↦
        let within : leb d.n (suc d.i) ≡ true = ground arith in
        let more : ltb (suc d.i) d.n ≡ false = ground arith in
        let fine : ltb 2 d.encoding ≡ false = ground arith in
        (record d { i = suc d.i }, rw (not_done, within, fine, at, more, e) refl, e)
  ]

  pub next_decodes :
      (d : IntegerDecoder)
      → d.n ≤ suc d.i
      → (length d.bytes == 0) ≡ false
      → next_integer s d ≡ and_more s (decode_next s (record d { i = suc d.i }))
  unfolding next_integer
  next_decodes d h more =
      let within : leb d.n (suc d.i) ≡ true = ground arith in
      elim (Bool-cases (leb d.n d.i)) [
        | inl done ↦ rw (within, done, more) refl
        | inr not_done ↦ rw (within, not_done) refl
      ]

  next_part :
      (d : IntegerDecoder) (p : Packed) (bs : List ℕ)
      → d.n ≤ suc d.i
      → d.encoding < 2
      → IsPart s d.encoding d.first p
      → d.bytes ≡ be_bytes 8 p.word ++ bs
      → d.err ≡ false
      → next_integer s d ≡ (at_part s (record d { i = suc d.i }) p bs, true)
  next_part d p bs h small part at e =
      let more : (length d.bytes == 0) ≡ false =
        ground
          (arith, ap length at, length-append (be_bytes 8 p.word) bs, length-be_bytes 8 p.word) in
      let full : ltb 0 (length p.numbers) ≡ true = ground (arith, part.1) in
      next_decodes d h more
      ∙ ap (and_more s) (decode_next-part s (record d { i = suc d.i }) p bs small part at)
      ∙ rw (e, full) refl

  -- The values that the loop reads, without an error.
  abbrev pub Reads : ℕ → IntegerDecoder → List ℕ → Type 0
  Reads fuel d vs = (e : IntegerDecoder) × (read_integers s fuel d ≡ some (vs, e)) × (e.err ≡ false)

  pub Reads-end :
      (fuel : ℕ) (d e : IntegerDecoder)
      → next_integer s d ≡ (e, false)
      → e.err ≡ false
      → Reads (suc fuel) d []
  unfolding read_integers
  Reads-end fuel d e h fine = (e, rw h refl, fine)

  pub Reads-more :
      (fuel : ℕ) (d e f : IntegerDecoder) (v : ℕ) (vs : List ℕ)
      → next_integer s d ≡ (e, true)
      → read_integer e ≡ some (v, f)
      → Reads fuel f vs
      → Reads (suc fuel) d (v ∷ vs)
  unfolding read_integers
  Reads-more fuel d e f v vs h g r = (r.0, rw (h, g, r.1) refl, r.2)

  read_integer_at :
      (d : IntegerDecoder) (x : ℕ)
      → d.encoding < 2
      → get_elem? d.values d.i ≡ some x
      → read_integer d
        ≡ some (
          (zig_zag_decode x + d.prev) % 2 ^ 64,
          record d { prev = (zig_zag_decode x + d.prev) % 2 ^ 64 },
        )
  unfolding read_integer
  read_integer_at d x small at =
      let other : (d.encoding == 2) ≡ false = ground arith in rw (other, at) refl

  pub read_parts :
      (fuel : ℕ) (d : IntegerDecoder) (xs : List ℕ) (ps : List Packed)
      → d.encoding < 2
      → d.err ≡ false
      → drop (suc d.i) d.values ≡ xs
      → d.n ≡ length d.values
      → d.bytes ≡ part_words s ps
      → AreParts s d.encoding d.first ps
      → length (xs ++ part_numbers s ps) < fuel
      → Reads fuel d (sums d.prev (xs ++ part_numbers s ps))
  unfolding sums words
  read_parts zero d xs ps small fine here count at parts fuelled = absurd (omega (arith, fuelled))
  read_parts (suc fuel) d (x ∷ xs) ps small fine here count at parts fuelled =
      let (at_x, behind, less) = drop_split (suc d.i) d.values x xs here in
      let v = (zig_zag_decode x + d.prev) % 2 ^ 64 in
      let moved : IntegerDecoder = record d { i = suc d.i } in
      Reads-more fuel d moved (record moved { prev = v }) v (sums v (xs ++ part_numbers s ps))
        (next_inside d (omega (arith, less, count)) fine) (read_integer_at moved x small at_x)
        (read_parts fuel (record moved { prev = v }) xs ps small fine behind count at parts
          (omega (arith, fuelled)))
  read_parts (suc fuel) d [] [] small fine here count at parts fuelled =
      let short = drop_empty (suc d.i) d.values here in
      let (e, ends, still_fine) =
        next_end d (omega (arith, short, count)) (omega (arith, small)) at fine in
      Reads-end fuel d e ends still_fine
  read_parts (suc fuel) d [] (p ∷ ps) small fine here count at parts fuelled =
      let short = drop_empty (suc d.i) d.values here in
      let (y, ys, full) = nonempty p.numbers parts.0.1 in
      let split : part_numbers s (p ∷ ps) ≡ y ∷ (ys ++ part_numbers s ps) =
        ap (λ (zs : List ℕ). zs ++ part_numbers s ps) full in
      let now : IntegerDecoder = at_part s (record d { i = suc d.i }) p (part_words s ps) in
      let v = (zig_zag_decode y + d.prev) % 2 ^ 64 in
      let rest =
        read_parts fuel (record now { prev = v }) ys ps small fine (ap (drop 1) full) refl refl
          parts.1 (omega (arith, fuelled, ap length split)) in
      subst (λ (zs : List ℕ). Reads (suc fuel) d (sums d.prev zs)) (sym split)
        (Reads-more fuel d now (record now { prev = v }) v (sums v (ys ++ part_numbers s ps))
          (next_part d p (part_words s ps) (omega (arith, short, count)) small parts.0 at fine)
          (read_integer_at now y small (ap (λ (zs : List ℕ). get_elem? zs 0) full)) rest)
    where
      nonempty : (xs : List ℕ) → 0 < length xs → (y : ℕ) × (ys : List ℕ) × (xs ≡ y ∷ ys)
      nonempty [] h = absurd (omega (arith, h))
      nonempty (y ∷ ys) h = (y, ys, refl)
