-- ===== src/Tables/Reader.antt =====
-- The buffered reader of the log, of storage/store/wal_reader.go, over the bytes mapped by
-- storage/store/mmap_file.go.
use equinoxdb.Tables.Opening.{read_mapped}
use equinoxdb.Base.{ℕ, zero, suc, ◌+◌, ◌-◌, ◌≤◌, ◌≡◌, sym, ap, ◌∙◌, inl, inr, List, [], ◌∷◌}
use equinoxdb.Base.{◌++◌, arith, leb, Bool-cases, length, take, drop, length-append, length-drop}
use equinoxdb.Tables.Opening.{LogReader, unread, refill, read_frame}
use equinoxdb.Base.{drop-drop, take-drop-length, drop-append_within, drop-append_beyond}

module _ (buffer : ℕ) where
  length-taken : (n : ℕ) (xs : List ℕ) (k : ℕ) → k ≤ n → k ≤ length xs → k ≤ length (take n xs)
  length-taken zero xs k h l = omega arith
  length-taken (suc n) [] k h l = l
  length-taken (suc n) (x ∷ xs) zero h l = omega arith
  length-taken (suc n) (x ∷ xs) (suc k) h l =
      let rest = length-taken n xs k (omega arith) (omega arith) in omega (arith, rest)

  unread-filled :
      (mapped : List ℕ) (n : ℕ) (r : LogReader)
      → n ≤ buffer
      → n ≤ length (drop r.offset mapped)
      → drop n (take buffer (drop r.offset mapped))
          ++ drop (r.offset + length (take buffer (drop r.offset mapped))) mapped
        ≡ drop n (drop r.offset mapped)
  unread-filled mapped n r small enough_left =
      let ahead = take buffer (drop r.offset mapped) in
      ap (◌++◌ (drop n ahead)) (drop-drop r.offset (length ahead) mapped)
      ∙ sym (
          drop-append_within n ahead _
            (length-taken buffer (drop r.offset mapped) n small enough_left))
      ∙ ap (drop n) (take-drop-length buffer (drop r.offset mapped))

  unread-refill :
      (mapped : List ℕ) (n : ℕ) (r : LogReader)
      → n ≤ length (drop r.offset mapped)
      → unread mapped (refill buffer mapped n r) ≡ drop n (drop r.offset mapped)
  unfolding refill
  unread-refill mapped n r enough_left = elim (Bool-cases (leb buffer n)) [
    | inl e ↦ rw e (drop-drop r.offset n mapped)
    | inr e ↦ rw e (unread-filled mapped n r (ground arith) enough_left)
  ]

  unread-read_mapped :
      (mapped : List ℕ) (n : ℕ) (r : LogReader)
      → n ≤ length (unread mapped r)
      → unread mapped (read_mapped buffer mapped n r) ≡ drop n (unread mapped r)
  unfolding read_mapped
  unread-read_mapped mapped n r enough_left =
      let rest = drop r.offset mapped in
      let size = length-append r.buffered rest in
      elim (Bool-cases (leb n (length r.buffered))) [
        | inl e ↦ rw e (sym (drop-append_within n r.buffered rest (ground arith)))
        | inr e ↦
            let less : length r.buffered ≤ n = ground arith in
            rw e (
              unread-refill mapped (n - length r.buffered) r
                (omega (arith, enough_left, size, less))
              ∙ sym (drop-append_beyond n r.buffered rest less))
      ]

  -- Whatever the size of its buffer, the reader goes on behind the bytes that it has read, as long as
  -- the mapped bytes stay as they are.
  pub unread-read_frame :
      (mapped : List ℕ) (n : ℕ) (r : LogReader)
      → 5 ≤ n
      → n ≤ length (unread mapped r)
      → unread mapped (read_frame buffer mapped n r) ≡ drop n (unread mapped r)
  unfolding read_frame
  unread-read_frame mapped n r head enough_left =
      let q = read_mapped buffer mapped 5 r in
      let first = unread-read_mapped mapped 5 r (omega (arith, head, enough_left)) in
      let size = length-drop 5 (unread mapped r) (omega (arith, head, enough_left)) in
      let left : n - 5 ≤ length (unread mapped q) = rw first (omega (arith, size, enough_left)) in
      let whole : 5 + (n - 5) ≡ n = omega (arith, head) in
      unread-read_mapped mapped (n - 5) q left
      ∙ ap (drop (n - 5)) first
      ∙ sym (drop-drop 5 (n - 5) (unread mapped r))
      ∙ ap (λ (k : ℕ). drop k (unread mapped r)) whole
