-- ===== src/Integers/Runs.antt =====
-- The run-length form of storage/codec/int.go.
use equinoxdb.Words.{read_word}
use equinoxdb.Base.{◌≤◌, subst, length-append}
use equinoxdb.Integers.{decode_next, and_more, next_integer}
use equinoxdb.Integers.Loops.{next_decodes}
use equinoxdb.Words.{length-be_bytes}
use equinoxdb.Base.{ℕ, zero, suc, ◌+◌, ◌*◌, ◌%◌, ◌^◌, ◌<◌, ◌≡◌, refl, sym, ap, ap₂, ◌∙◌, true}
use equinoxdb.Base.{false, some, List, [], ◌∷◌, ◌++◌, append-nil, arith, ltb, ◌==◌, length, All}
use equinoxdb.Block.{zig_zag_decode}
use equinoxdb.Integers.{Simple8b, IntegerDecoder, set_fields, start_run, decode_rle}
use equinoxdb.Integers.{read_integer}
use equinoxdb.Integers.Deltas.{sums}
use equinoxdb.Integers.Loops.{next_inside, next_end, Reads, Reads-end, Reads-more}
use equinoxdb.Varint.{put_uvarint, uvarint, uvarint-put_uvarint}
use equinoxdb.Words.{be_bytes, read_then}
use equinoxdb.Base.{◌>>=◌}

unfoldable pub run_values : ℕ → ℕ → ℕ → ℕ → List ℕ
run_values a b j zero = []
run_values a b j (suc k) = (a + j * b) % 2 ^ 64 ∷ run_values a b (suc j) k

run_sum : (a b j : ℕ) → (b + (a + j * b) % 2 ^ 64) % 2 ^ 64 ≡ (a + suc j * b) % 2 ^ 64
run_sum a b j = let more : suc j * b ≡ b + j * b = ground arith in omega (arith, more)

pub sums-run_values :
    (x y j : ℕ) (ys : List ℕ)
    → All (λ z. z ≡ y) ys
    → sums ((x + j * zig_zag_decode y) % 2 ^ 64) ys
      ≡ run_values x (zig_zag_decode y) (suc j) (length ys)
unfolding sums run_values
sums-run_values x y j [] h = refl
sums-run_values x y j (z ∷ ys) h =
    let same : (zig_zag_decode z + (x + j * zig_zag_decode y) % 2 ^ 64) % 2 ^ 64
        ≡ (x + suc j * zig_zag_decode y) % 2 ^ 64 =
      ap (λ (w : ℕ). (zig_zag_decode w + (x + j * zig_zag_decode y) % 2 ^ 64) % 2 ^ 64) h.0
      ∙ run_sum x (zig_zag_decode y) j in
    ap₂ (λ (w : ℕ) (ws : List ℕ). w ∷ ws) same
      (ap (λ (w : ℕ). sums w ys) same ∙ sums-run_values x y (suc j) ys h.1)

unfoldable pub run_bytes : ℕ → ℕ → ℕ → List ℕ
run_bytes x y c = be_bytes 8 x ++ (put_uvarint y ++ put_uvarint c)

module _ (s : Simple8b) where
  read_integer_run :
      (d : IntegerDecoder)
      → d.encoding ≡ 2
      → read_integer d
        ≡ some ((zig_zag_decode d.rle_first + d.i * zig_zag_decode d.rle_delta) % 2 ^ 64, d)
  unfolding read_integer
  read_integer_run d e = let run : (d.encoding == 2) ≡ true = ground arith in rw run refl

  read_run :
      (fuel k : ℕ) (d : IntegerDecoder)
      → d.encoding ≡ 2
      → d.err ≡ false
      → d.bytes ≡ []
      → suc d.i + k ≡ d.n
      → k < fuel
      → Reads s fuel d
          (run_values (zig_zag_decode d.rle_first) (zig_zag_decode d.rle_delta) (suc d.i) k)
  unfolding run_values
  read_run zero k d run fine at count less = absurd (omega (arith, less))
  read_run (suc fuel) zero d run fine at count less =
      let (e, ends, still_fine) =
        next_end s d (omega (arith, count)) (omega (arith, run)) at fine in
      Reads-end s fuel d e ends still_fine
  read_run (suc fuel) (suc k) d run fine at count less =
      let moved : IntegerDecoder = record d { i = suc d.i } in
      Reads-more s fuel d moved moved _ _ (next_inside s d (omega (arith, count)) fine)
        (read_integer_run moved run)
        (read_run fuel k moved run fine at (omega (arith, count)) (omega (arith, less)))

  -- The decoder behind the bytes of a run.
  abbrev at_run : ℕ → ℕ → ℕ → IntegerDecoder
  at_run x y c = record (set_fields 2 []) { rle_first = x; rle_delta = y; n = c + 1 }

  decode_rle_lem :
      (d : IntegerDecoder) (x y c : ℕ)
      → x < 2 ^ 64
      → y < 2 ^ 64
      → c + 1 < 2 ^ 63
      → decode_rle (record d { bytes = run_bytes x y c })
        ≡ record d { rle_first = x; rle_delta = y; n = c + 1; i = 0; bytes = [] }
  unfolding decode_rle run_bytes
  decode_rle_lem d x y c hx hy hc =
      let small : ltb (c + 1) (2 ^ 63) ≡ true = ground arith in
      let last : uvarint (put_uvarint c) ≡ some (c, []) =
        ap uvarint (sym (append-nil (put_uvarint c)))
        ∙ uvarint-put_uvarint c [] (omega (arith, hc)) in
      let rest = put_uvarint y ++ put_uvarint c in
      let read : (read_word 8 (run_bytes x y c) >>= λ w.
      uvarint w.1 >>= λ v. uvarint v.1 >>= λ u. some ((w.0, v.0), u.0))
          ≡ some ((x, y), c) =
        read_then 8 x rest (λ w. uvarint w.1 >>= λ v. uvarint v.1 >>= λ u. some ((w.0, v.0), u.0))
          hx
        ∙ rw (uvarint-put_uvarint y (put_uvarint c) hy, last) refl in
      ap (start_run (record d { bytes = run_bytes x y c })) read ∙ rw small refl

  length-run_bytes : (x y c : ℕ) → 8 ≤ length (run_bytes x y c)
  unfolding run_bytes
  length-run_bytes x y c = omega (arith, length-append {0}, length-be_bytes 8 x)

  -- All values of a run, from its bytes on.
  pub Reads-run :
      (x y : ℕ) (ys : List ℕ)
      → x < 2 ^ 64
      → y < 2 ^ 64
      → All (λ z. z ≡ y) ys
      → length (x ∷ y ∷ ys) < 2 ^ 63
      → Reads s
          (suc (length (x ∷ y ∷ ys)))
          (set_fields 2 (run_bytes x y (length (y ∷ ys))))
          (sums 0 (x ∷ y ∷ ys))
  unfolding sums decode_next
  Reads-run x y ys hx hy same few =
      let c = length (y ∷ ys) in
      let d : IntegerDecoder = set_fields 2 (run_bytes x y c) in
      let more : (length (run_bytes x y c) == 0) ≡ false = ground (arith, length-run_bytes x y c) in
      let decoded : decode_next s (record d { i = 1 }) ≡ at_run x y c =
        rw more
          (decode_rle_lem (record (set_fields 2 []) { i = 1 }) x y c hx hy (omega (arith, few))) in
      let some_values : ltb 0 (c + 1) ≡ true = ground arith in
      let begins : next_integer s d ≡ (at_run x y c, true) =
        next_decodes s d (omega arith) more ∙ ap (and_more s) decoded ∙ rw some_values refl in
      let a = zig_zag_decode x in
      let first : (a + 0 * zig_zag_decode y) % 2 ^ 64 ≡ (a + 0) % 2 ^ 64 = omega arith in
      let later_values : sums ((a + 0) % 2 ^ 64) (y ∷ ys) ≡ run_values a (zig_zag_decode y) 1 c =
        ap (λ (w : ℕ). sums w (y ∷ ys)) (sym first) ∙ sums-run_values a y 0 (y ∷ ys) (refl, same) in
      Reads-more s (suc c) d (at_run x y c) (at_run x y c) ((a + 0) % 2 ^ 64)
        (sums ((a + 0) % 2 ^ 64) (y ∷ ys)) begins
        (read_integer_run (at_run x y c) refl ∙ ap (λ (w : ℕ). some (w, at_run x y c)) first)
        (subst (λ (ws : List ℕ). Reads s (suc c) (at_run x y c) ws) (sym later_values)
          (read_run (suc c) c (at_run x y c) refl refl refl (omega arith) (omega arith)))
