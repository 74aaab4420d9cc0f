-- ===== src/Cursors/Reads.antt =====
-- Calls of `Next` of storage/cursor/array_cursor.gen.go in a row.
use equinoxdb.Base.{inl, inr, length-append, List-cases}
use equinoxdb.Base.{ℕ, zero, suc, ◌≤◌, ◌<◌, ◌≡◌, refl, sym, ap, ◌∙◌, subst, Bool, Option, some}
use equinoxdb.Base.{List, [], ◌++◌, arith, ltb, length}
use equinoxdb.Cursors.{Cursor, next_descending}
use equinoxdb.Cursors.Ends.{EndsOnce, EndsOnce-append, in_time, in_time-append, strip-in_time}
use equinoxdb.Cursors.Nexts.{next_descending-Given}
use equinoxdb.Cursors.Streams.{raw_points, overlay, stored_points, IsSettled}
use equinoxdb.Values.{Value}
use equinoxdb.Base.{◌>>=◌}
use equinoxdb.Cursors.Blocks.{no_length}

module _ {A : Type 0} (raw : Value → Option A) (cap end : ℕ) where
  abbrev pub later : ℕ → ℕ → Bool
  later a b = ltb b a

  unfoldable pub reads : ℕ → Cursor A → Option (List (ℕ × A))
  unfolding next_descending
  reads zero c = some []
  reads (suc n) c = do
    (out, d) ← next_descending raw cap end c
    rest ← reads n d
    some (out ++ rest)

  -- A descending cursor with cached values of its type and full blocks, and room in the result: as many
  -- calls of `Next` as there are points in the two merged streams, or more, return, and together give
  -- all of those points that are not before the end time, in order, if those before it come last.
  pub reads-in_time :
      (n : ℕ) (c : Cursor A) (ps : List (ℕ × A))
      → 0 < cap
      → raw_points raw c.cache ≡ some ps
      → IsSettled c
      → EndsOnce (λ t. ltb t end) (overlay later ps (stored_points c))
      → length (overlay later ps (stored_points c)) ≤ n
      → reads n c ≡ some (in_time (λ t. ltb t end) (overlay later ps (stored_points c)))
  unfolding reads
  reads-in_time zero c ps some_room cached settled ends few =
      let none_there : overlay later ps (stored_points c) ≡ [] = no_length _ (omega (arith, few)) in
      rw none_there refl
  reads-in_time (suc n) c ps some_room cached settled ends few =
      let g = next_descending-Given raw cap end some_room c ps cached settled in
      let rest = overlay later g.left (stored_points g.cursor) in
      let both =
        EndsOnce-append (λ t. ltb t end) g.out rest
          (subst (EndsOnce (λ t. ltb t end)) (sym g.whole) ends) in
      let fewer : length rest ≤ n = elim (List-cases g.out) [
        | inl e ↦ omega (arith, length-append {0}, ap length g.whole, ap length (g.progress e))
        | inr (p, ps', e) ↦ omega (arith, length-append {0}, ap length g.whole, ap length e, few)
      ] in
      rw (g.ends, reads-in_time n g.cursor g.left some_room g.cached g.settled both.1 fewer)
        (ap some (
          ap (λ (xs : List (ℕ × A)). xs ++ in_time (λ t. ltb t end) rest)
            (strip-in_time (λ t. ltb t end) g.out both.0)
          ∙ sym (in_time-append (λ t. ltb t end) g.out rest)
          ∙ ap (in_time (λ t. ltb t end)) g.whole))
