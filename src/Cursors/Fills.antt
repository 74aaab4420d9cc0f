-- ===== src/Cursors/Fills.antt =====
-- The second part of `Next` in storage/cursor/array_cursor.gen.go: one side is at its end.
use equinoxdb.Base.{ap₂, arith}
use equinoxdb.Base.{ℕ, zero, suc, ◌<◌, ◌≡◌, refl, sym, ap, ◌∙◌, subst, ◌⊎◌, inl, inr, Bool, true}
use equinoxdb.Base.{Option, some, List, [], ◌∷◌, ◌++◌, append_assoc}
use equinoxdb.Cursors.{Cursor, Phase, put_front, copy_cache, then_cache}
use equinoxdb.Cursors.Rounds.{both_some}
use equinoxdb.Cursors.Streams.{raw_points, overlay, overlay-nil, stored_points, IsSettled}
use equinoxdb.Values.{Value, unix_nano}

module _ {A : Type 0} (raw : Value → Option A) where
  -- Cached values are copied up to the room there is.
  record Copied (room : ℕ) (c : Cursor A) (qs : List (ℕ × A)) (r : Option (Phase A)) : Type 0 where
    phase : Phase A
    ends : r ≡ some phase
    left : List (ℕ × A)
    cached : raw_points raw phase.cursor.cache ≡ some left
    whole : phase.out ++ left ≡ qs
    same_blocks : phase.cursor ≡ record c { cache = phase.cursor.cache }
    moved : phase.out ≡ [] → (room ≡ 0) ⊎ (qs ≡ [])

  copy_cache-Copied :
      (room : ℕ) (c : Cursor A) (vs : List Value) (qs : List (ℕ × A))
      → raw_points raw vs ≡ some qs
      → Copied room c qs (copy_cache raw room c vs)
  unfolding copy_cache
  copy_cache-Copied room c [] qs e = record {
    phase = record { out = []; room = room; cursor = record c { cache = [] } };
    ends = refl;
    left = [];
    cached = refl;
    whole = cc;
    same_blocks = refl;
    moved = λ f. inr (cc);
  }
  copy_cache-Copied zero c (v ∷ vs) qs e = record {
    phase = record { out = []; room = 0; cursor = record c { cache = v ∷ vs } };
    ends = refl;
    left = qs;
    cached = e;
    whole = refl;
    same_blocks = refl;
    moved = λ f. inl refl;
  }
  copy_cache-Copied (suc room) c (v ∷ vs) qs e =
      let (x, rs, typed, tail, all) =
        both_some raw (λ a b. true) (unix_nano v) (raw v) (raw_points raw vs) qs e in
      let h = copy_cache-Copied room c vs rs tail in
      record {
        phase = put_front ((unix_nano v, x) ∷ []) h.phase;
        ends = rw (typed, h.ends) refl;
        left = h.left;
        cached = h.cached;
        whole = ap (◌∷◌ (unix_nano v, x)) h.whole ∙ sym all;
        same_blocks = h.same_blocks;
        moved = λ f. absurd (cc);
      }

  pub append_none : (xs ys : List (ℕ × A)) → xs ++ ys ≡ [] → (xs ≡ []) × (ys ≡ [])
  append_none [] ys e = (refl, e)
  append_none (x ∷ xs) ys e = absurd (cc)

  module _ (before : ℕ → ℕ → Bool) where
    -- The result is at the front of the streams, the cursor has what follows it, and the result is
    -- empty only where they are.
    pub record Advanced (c : Cursor A) (ps : List (ℕ × A)) (r : Option (Phase A)) : Type 0 where
      pub phase : Phase A
      pub ends : r ≡ some phase
      pub left : List (ℕ × A)
      pub cached : raw_points raw phase.cursor.cache ≡ some left
      pub settled : IsSettled phase.cursor
      pub whole :
          phase.out ++ overlay before left (stored_points phase.cursor)
          ≡ overlay before ps (stored_points c)
      pub progress : phase.out ≡ [] → overlay before ps (stored_points c) ≡ []

    -- A phase after which only one side is left.
    pub record OneSided (c : Cursor A) (ps : List (ℕ × A)) (f : Phase A) : Type 0 where
      pub left : List (ℕ × A)
      pub cached : raw_points raw f.cursor.cache ≡ some left
      pub settled : IsSettled f.cursor
      pub whole :
          f.out ++ overlay before left (stored_points f.cursor)
          ≡ overlay before ps (stored_points c)
      pub one_side : (stored_points f.cursor ≡ []) ⊎ (left ≡ [])
      pub start : f.out ≡ [] → (0 < f.room) × (stored_points f.cursor ≡ [])

    overlay_part :
        (out qs rs ys : List (ℕ × A))
        → out ++ qs ≡ rs
        → (ys ≡ []) ⊎ (rs ≡ [])
        → out ++ overlay before qs ys ≡ overlay before rs ys
    overlay_part out qs rs ys e (inl none_stored) =
        ap (λ (zs : List (ℕ × A)). out ++ overlay before qs zs) none_stored
        ∙ ap (◌++◌ out) (overlay-nil before qs)
        ∙ e
        ∙ sym (overlay-nil before rs)
        ∙ ap (overlay before rs) (sym none_stored)
    overlay_part [] qs rs ys e (inr none_cached) =
        ap (λ (zs : List (ℕ × A)). overlay before zs ys) e
    overlay_part (x ∷ out) qs rs ys e (inr none_cached) = absurd (cc)

    pub then_cache-Advanced :
        (c : Cursor A) (ps : List (ℕ × A)) (f : Phase A)
        → OneSided c ps f
        → Advanced c ps (then_cache raw f)
    then_cache-Advanced c ps f h =
        let g = copy_cache-Copied f.room f.cursor f.cursor.cache h.left h.cached in
        let same_stored : stored_points g.phase.cursor ≡ stored_points f.cursor =
          ap (λ (d : Cursor A). stored_points d) g.same_blocks in
        record {
          phase = put_front f.out g.phase;
          ends = rw g.ends refl;
          left = g.left;
          cached = g.cached;
          settled = subst (λ (d : Cursor A). IsSettled d) (sym g.same_blocks) h.settled;
          whole =
              append_assoc f.out g.phase.out (overlay before g.left (stored_points g.phase.cursor))
              ∙ ap (λ (ys : List (ℕ × A)). f.out ++ (g.phase.out ++ overlay before g.left ys))
                  same_stored
              ∙ ap (◌++◌ f.out) (
                  overlay_part g.phase.out g.left h.left (stored_points f.cursor) g.whole
                    h.one_side)
              ∙ h.whole;
          progress = λ nothing.
              let (front_none, copied_none) = append_none f.out g.phase.out nothing in
              let (room, none_stored) = h.start front_none in
              let none_left : h.left ≡ [] = elim (g.moved copied_none) [
                | inl full ↦ absurd (omega (arith, full, room))
                | inr e ↦ e
              ] in
              sym h.whole
              ∙ ap (λ (xs : List (ℕ × A)). xs ++ overlay before h.left (stored_points f.cursor))
                  front_none
              ∙ ap₂ (overlay before) none_left none_stored
              ∙ overlay-nil before [];
        }
