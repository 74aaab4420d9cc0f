-- ===== src/Cursors/Walked.antt =====
-- The loop over the blocks in `Next` of a descending cursor of storage/cursor/array_cursor.gen.go, and
-- the rest of `Next` where the result is full.
use equinoxdb.Base.{append-nil}
use equinoxdb.Base.{ℕ, zero, suc, ◌≡◌, refl, sym, ap, ap₂, ◌∙◌, ◌⊎◌, inl, inr, Option, some}
use equinoxdb.Base.{List, [], ◌∷◌, ◌++◌, drop, flatten}
use equinoxdb.Cursors.{Cursor, Phase, settle, skip_points, copy_cache, walk_round, walk_blocks}
use equinoxdb.Cursors.{fill_descending}
use equinoxdb.Cursors.Blocks.{drop_none}
use equinoxdb.Cursors.Streams.{stored_points, IsSettled, settle-IsSettled, settle-cache}
use equinoxdb.Base.{drop-drop}
use equinoxdb.Values.{Value}

module _ {A : Type 0} where
  pub record Walked (room : ℕ) (c : Cursor A) (f : Phase A) : Type 0 where
    pub cached : f.cursor.cache ≡ c.cache
    pub settled : IsSettled f.cursor
    pub whole : f.out ++ stored_points f.cursor ≡ stored_points c
    pub start : f.out ≡ [] → (f.room ≡ room) × ((room ≡ 0) ⊎ (stored_points f.cursor ≡ []))

  walk_round-Walked :
      (room : ℕ) (c : Cursor A) (sp : List (ℕ × A))
      → ((d : Cursor A) → IsSettled d → Walked room d (walk_blocks room d))
      → drop c.passed c.block ≡ sp
      → IsSettled c
      → Walked (suc room) c (walk_round (walk_blocks room) (suc room) c sp)
  walk_round-Walked room c [] works at s = record {
    cached = refl;
    settled = s;
    whole = refl;
    start = λ e. (
      refl,
      inr (
          ap₂ (λ (xs : List (ℕ × A)) (bs : List (List (ℕ × A))). xs ++ flatten bs) at
            (s.1 (drop_none c.passed c.block at))),
    );
  }
  walk_round-Walked room c (p ∷ sp) works at s =
      let (settled, same) = settle-IsSettled (skip_points 1 c) s.0 in
      let h = works (settle (skip_points 1 c)) settled in
      record {
        cached = h.cached ∙ settle-cache (skip_points 1 c);
        settled = h.settled;
        whole =
            ap (◌∷◌ p) (
              h.whole
              ∙ same
              ∙ ap (λ (xs : List (ℕ × A)). xs ++ flatten c.blocks)
                  (drop-drop c.passed 1 c.block ∙ ap (drop 1) at))
            ∙ ap (λ (xs : List (ℕ × A)). xs ++ flatten c.blocks) (sym at);
        start = λ e. absurd (cc);
      }

  pub walk_blocks-Walked :
      (room : ℕ) (c : Cursor A) → IsSettled c → Walked room c (walk_blocks room c)
  unfolding walk_blocks
  walk_blocks-Walked zero c s = record {
    cached = refl;
    settled = s;
    whole = refl;
    start = λ e. (refl, inl refl);
  }
  walk_blocks-Walked (suc room) c s =
      walk_round-Walked room c (drop c.passed c.block) (walk_blocks-Walked room) refl s

module _ {A : Type 0} (raw : Value → Option A) where
  copy_none :
      (c : Cursor A) (vs : List Value)
      → c.cache ≡ vs
      → copy_cache raw 0 c vs ≡ some (record { out = []; room = 0; cursor = c })
  unfolding copy_cache
  copy_none c [] e = rw (sym e) refl
  copy_none c (v ∷ vs) e = rw (sym e) refl

  pub fill_descending_full : (f : Phase A) → f.room ≡ 0 → fill_descending raw f ≡ some f
  unfolding fill_descending walk_blocks
  fill_descending_full f e =
      rw (e, copy_none f.cursor f.cursor.cache refl)
        (ap (λ (xs : List (ℕ × A)). some (record f { out = xs; room = 0 }))
          (append-nil (f.out ++ []) ∙ append-nil f.out))
