-- ===== src/Cursors/Nexts.antt =====
-- `Next` of storage/cursor/array_cursor.gen.go.
use equinoxdb.Cursors.Walked.{walk_blocks-Walked, fill_descending_full}
use equinoxdb.Cursors.{rounds, strip, next_ascending, next_descending}
use equinoxdb.Cursors.Rounds.{rounds-Rounded}
use equinoxdb.Base.{append_assoc, ◌==◌, Bool-cases}
use equinoxdb.Cursors.{put_front, from_block}
use equinoxdb.Cursors.Blocks.{from_block-OneSided}
use equinoxdb.Cursors.Fills.{append_none, OneSided, then_cache-Advanced}
use equinoxdb.Cursors.Streams.{raw_points}
use equinoxdb.Base.{◌<◌, Bool, arith, ltb, length}
use equinoxdb.Cursors.{fill_ascending}
use equinoxdb.Cursors.Blocks.{IsAligned}
use equinoxdb.Cursors.Fills.{Advanced}
use equinoxdb.Cursors.Rounds.{Rounded}
use equinoxdb.Cursors.Streams.{overlay, overlay_none}
use equinoxdb.Base.{ℕ, ◌≡◌, refl, sym, ap, ap₂, ◌∙◌, ◌⊎◌, inl, inr, Option, some}
use equinoxdb.Base.{List, [], ◌∷◌, ◌++◌, drop, flatten}
use equinoxdb.Cursors.{Cursor, Phase, walk_blocks}
use equinoxdb.Cursors.{fill_descending}
use equinoxdb.Cursors.Blocks.{drop_none}
use equinoxdb.Cursors.Streams.{stored_points, IsSettled}
use equinoxdb.Values.{Value}

module _ {A : Type 0} (raw : Value → Option A) where
  -- Where there is no room, the phase is the result.
  Advanced-full :
      (before : ℕ → ℕ → Bool) (cap : ℕ) (c : Cursor A) (ps : List (ℕ × A)) (r : Option (Phase A))
      (h : Rounded raw before cap c ps r)
      → 0 < cap
      → h.phase.room ≡ 0
      → Advanced raw before c ps (some h.phase)
  Advanced-full before cap c ps r h some_room full = record {
    phase = h.phase;
    ends = refl;
    left = h.left;
    cached = h.cached;
    settled = h.settled;
    whole = h.whole;
    progress = λ e. absurd (omega (arith, h.counted, full, some_room, ap length e));
  }

  one_side :
      (before : ℕ → ℕ → Bool) {cap : ℕ} {c : Cursor A} {ps : List (ℕ × A)} {r : Option (Phase A)}
      (h : Rounded raw before cap c ps r)
      → 0 < h.phase.room
      → (drop h.phase.cursor.passed h.phase.cursor.block ≡ []) ⊎ (h.left ≡ [])
  one_side before h room = elim h.stopped [
    | inl full ↦ absurd (omega (arith, full, room))
    | inr one ↦ one
  ]

  -- What `Next` does up to the end time.
  pub fill_ascending-Advanced :
      (cap : ℕ) (c : Cursor A) (ps : List (ℕ × A)) (r : Option (Phase A))
      (h : Rounded raw ltb cap c ps r)
      → 0 < cap
      → IsAligned cap c
      → Advanced raw ltb c ps (fill_ascending raw cap h.phase)
  unfolding fill_ascending
  fill_ascending-Advanced cap c ps r h some_room aligned = elim (Bool-cases (h.phase.room == 0)) [
    | inl e ↦ rw e (Advanced-full ltb cap c ps r h some_room (ground arith))
    | inr e ↦
        let room : 0 < h.phase.room = ground arith in
        let sp = drop h.phase.cursor.passed h.phase.cursor.block in
        rw e (
          then_cache-Advanced raw ltb c ps (from_block cap h.phase sp) (
            from_block-OneSided raw cap some_room c ps r h sp aligned refl (one_side ltb h room)
              room))
  ]

  one_side_walked :
      (before : ℕ → ℕ → Bool) (out left xs ys : List (ℕ × A))
      → out ++ xs ≡ ys
      → (ys ≡ []) ⊎ (left ≡ [])
      → (out ++ overlay before left xs ≡ overlay before left ys) × ((xs ≡ []) ⊎ (left ≡ []))
  one_side_walked before out left xs ys e (inr none_cached) = (
    ap (◌++◌ out) (overlay_none before left xs none_cached)
        ∙ e
        ∙ sym (overlay_none before left ys none_cached),
    inr none_cached,
  )
  one_side_walked before [] left xs ys e (inl none_stored) =
      (ap (overlay before left) e, inl (e ∙ none_stored))
  one_side_walked before (x ∷ out) left xs ys e (inl none_stored) = absurd (cc)

  none_stored_ahead :
      (c : Cursor A) → IsSettled c → drop c.passed c.block ≡ [] → stored_points c ≡ []
  none_stored_ahead c s e =
      ap₂ (λ (xs : List (ℕ × A)) (bs : List (List (ℕ × A))). xs ++ flatten bs) e
        (s.1 (drop_none c.passed c.block e))

  walk-OneSided :
      (before : ℕ → ℕ → Bool) (cap : ℕ) (c : Cursor A) (ps : List (ℕ × A)) (r : Option (Phase A))
      (h : Rounded raw before cap c ps r)
      → (drop h.phase.cursor.passed h.phase.cursor.block ≡ []) ⊎ (h.left ≡ [])
      → 0 < h.phase.room
      → OneSided raw before c ps (put_front h.phase.out (walk_blocks h.phase.room h.phase.cursor))
  walk-OneSided before cap c ps r h one room =
      let d = h.phase.cursor in
      let w = walk_blocks-Walked h.phase.room d h.settled in
      let end = walk_blocks h.phase.room d in
      let ahead : (stored_points d ≡ []) ⊎ (h.left ≡ []) = elim one [
        | inl e ↦ inl (none_stored_ahead d h.settled e)
        | inr e ↦ inr e
      ] in
      let (same, side) =
        one_side_walked before end.out h.left (stored_points end.cursor) (stored_points d) w.whole
          ahead in
      record {
        left = h.left;
        cached = ap (raw_points raw) w.cached ∙ h.cached;
        settled = w.settled;
        whole = append_assoc h.phase.out end.out _ ∙ ap (◌++◌ h.phase.out) same ∙ h.whole;
        one_side = side;
        start = λ nothing.
            let (front, none_walked) = append_none raw h.phase.out end.out nothing in
            let (same_room, no_more) = w.start none_walked in
            (
              omega (arith, same_room, room),
              elim no_more [ inl full ↦ absurd (omega (arith, full, room)) | inr e ↦ e ],
            );
      }

  pub fill_descending-Advanced :
      (before : ℕ → ℕ → Bool) (cap : ℕ) (c : Cursor A) (ps : List (ℕ × A)) (r : Option (Phase A))
      (h : Rounded raw before cap c ps r)
      → 0 < cap
      → Advanced raw before c ps (fill_descending raw h.phase)
  unfolding fill_descending
  fill_descending-Advanced before cap c ps r h some_room = elim (Bool-cases (h.phase.room == 0)) [
    | inl e ↦
        let full : h.phase.room ≡ 0 = ground arith in
        rw (fill_descending_full raw h.phase full)
          (Advanced-full before cap c ps r h some_room full)
    | inr e ↦
        let room : 0 < h.phase.room = ground arith in
        then_cache-Advanced raw before c ps _
          (walk-OneSided before cap c ps r h (one_side before h room) room)
  ]

  module _ (cap end : ℕ) (some_room : 0 < cap) (c : Cursor A) (ps : List (ℕ × A)) where
    -- What a call of `Next` gives before the points past the end are stripped, and what it leaves.
    pub record Given (before : ℕ → ℕ → Bool) (past : ℕ → Bool)
        (r : Option (List (ℕ × A) × Cursor A)) : Type 0 where
      pub out : List (ℕ × A)
      pub cursor : Cursor A
      pub left : List (ℕ × A)
      pub ends : r ≡ some (strip past out, cursor)
      pub cached : raw_points raw cursor.cache ≡ some left
      pub settled : IsSettled cursor
      pub whole :
          out ++ overlay before left (stored_points cursor) ≡ overlay before ps (stored_points c)
      pub progress : out ≡ [] → overlay before ps (stored_points c) ≡ []

    -- A call of an ascending `Next` that has room in the result, on a cursor with cached values of its
    -- type and full blocks that is at the front of its block, has cached values left or is in a block
    -- longer than the result: it returns, the result before it is stripped is the front of the merged
    -- streams, the cursor has the rest of them, and the result is empty only where they are.
    pub next_ascending-Given :
        raw_points raw c.cache ≡ some ps
        → IsSettled c
        → IsAligned cap c
        → Given ltb (λ t. ltb end t) (next_ascending raw cap end c)
    unfolding next_ascending
    next_ascending-Given cached settled aligned =
        let h = rounds-Rounded raw ltb cap c ps cached settled in
        let g = fill_ascending-Advanced cap c ps (rounds raw ltb cap c) h some_room aligned in
        record {
          out = g.phase.out;
          cursor = g.phase.cursor;
          left = g.left;
          ends = rw (h.ends, g.ends) refl;
          cached = g.cached;
          settled = g.settled;
          whole = g.whole;
          progress = g.progress;
        }

    pub next_descending-Given :
        raw_points raw c.cache ≡ some ps
        → IsSettled c
        → Given (λ a b. ltb b a) (λ t. ltb t end) (next_descending raw cap end c)
    unfolding next_descending
    next_descending-Given cached settled =
        let h = rounds-Rounded raw (λ a b. ltb b a) cap c ps cached settled in
        let g =
          fill_descending-Advanced (λ a b. ltb b a) cap c ps (rounds raw (λ a b. ltb b a) cap c) h
            some_room in
        record {
          out = g.phase.out;
          cursor = g.phase.cursor;
          left = g.left;
          ends = rw (h.ends, g.ends) refl;
          cached = g.cached;
          settled = g.settled;
          whole = g.whole;
          progress = g.progress;
        }
