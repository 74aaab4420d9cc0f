-- ===== src/Cursors/Rounds.antt =====
-- The first loop of `Next` in storage/cursor/array_cursor.gen.go.
use equinoxdb.Base.{zero, sym, ap₂}
use equinoxdb.Cursors.Streams.{overlay_same, overlay_first, overlay_second}
use equinoxdb.Base.{◌>>=◌}
use equinoxdb.Base.{none, ◌==◌, Bool-cases, flatten}
use equinoxdb.Cursors.{settle, skip_points}
use equinoxdb.Cursors.Streams.{overlay, settle-IsSettled, settle-cache}
use equinoxdb.Base.{drop-drop}
use equinoxdb.Cursors.{stop, round}
use equinoxdb.Base.{ℕ, suc, ◌+◌, ◌≡◌, refl, ap, ◌∙◌, ◌⊎◌, inl, inr, Bool, Option, some, List, []}
use equinoxdb.Base.{◌∷◌, ◌++◌, arith, length, drop}
use equinoxdb.Cursors.{Cursor, Phase, put_front, rounds}
use equinoxdb.Cursors.Streams.{raw_points, stored_points, IsSettled}
use equinoxdb.Values.{Value, unix_nano}

module _ {A : Type 0} (raw : Value → Option A) (before : ℕ → ℕ → Bool) where
  -- The loop has moved points from the front of the merged streams to the result, and stopped where
  -- there is no room, or nothing on one of the sides.
  pub record Rounded (room : ℕ) (c : Cursor A) (ps : List (ℕ × A)) (r : Option (Phase A))
      : Type 0 where
    pub phase : Phase A
    pub ends : r ≡ some phase
    pub left : List (ℕ × A)
    pub cached : raw_points raw phase.cursor.cache ≡ some left
    pub settled : IsSettled phase.cursor
    pub whole :
        phase.out ++ overlay before left (stored_points phase.cursor)
        ≡ overlay before ps (stored_points c)
    pub counted : length phase.out + phase.room ≡ room
    pub stopped :
        (phase.room ≡ 0) ⊎ (drop phase.cursor.passed phase.cursor.block ≡ []) ⊎ (left ≡ [])
    pub unmoved : phase.out ≡ [] → phase.cursor ≡ c

  -- A point that is put in front of the rest.
  Rounded-put_front :
      (room : ℕ) (c d : Cursor A) (ps qs : List (ℕ × A)) (p : ℕ × A) (r : Option (Phase A))
      → p ∷ overlay before qs (stored_points d) ≡ overlay before ps (stored_points c)
      → Rounded room d qs r
      → Rounded (suc room) c ps (r >>= λ f. some (put_front (p ∷ []) f))
  Rounded-put_front room c d ps qs p r e h = record {
    phase = put_front (p ∷ []) h.phase;
    ends = rw h.ends refl;
    left = h.left;
    cached = h.cached;
    settled = h.settled;
    whole = ap (◌∷◌ p) h.whole ∙ e;
    counted = omega (arith, h.counted);
    stopped = h.stopped;
    unmoved = λ f. absurd (cc);
  }

  Rounded-stop :
      (room : ℕ) (c : Cursor A) (ps : List (ℕ × A))
      → raw_points raw c.cache ≡ some ps
      → IsSettled c
      → (room ≡ 0) ⊎ (drop c.passed c.block ≡ []) ⊎ (ps ≡ [])
      → Rounded room c ps (stop room c)
  Rounded-stop room c ps e s h = record {
    phase = record { out = []; room = room; cursor = c };
    ends = refl;
    left = ps;
    cached = e;
    settled = s;
    whole = refl;
    counted = omega arith;
    stopped = h;
    unmoved = λ f. refl;
  }

  pub both_some :
      (t : ℕ) (o : Option A) (r : Option (List (ℕ × A))) (ps : List (ℕ × A))
      → (o >>= λ x. r >>= λ qs. some ((t, x) ∷ qs)) ≡ some ps
      → (x : A) × (qs : List (ℕ × A)) × (o ≡ some x) × (r ≡ some qs) × (ps ≡ (t, x) ∷ qs)
  both_some t none r ps e = absurd (cc)
  both_some t (some x) none ps e = absurd (cc)
  both_some t (some x) (some qs) ps e = (x, qs, refl, refl, cc)

  -- What is proved of a loop with less room.
  abbrev Works : ℕ → Type 0
  Works room =
      (c : Cursor A) (ps : List (ℕ × A))
      → raw_points raw c.cache ≡ some ps
      → IsSettled c
      → Rounded room c ps (rounds raw before room c)

  round-Rounded :
      (room : ℕ) (c : Cursor A) (sp : List (ℕ × A)) (vs : List Value) (ps : List (ℕ × A))
      → Works room
      → drop c.passed c.block ≡ sp
      → c.cache ≡ vs
      → raw_points raw vs ≡ some ps
      → IsSettled c
      → Rounded (suc room) c ps (round raw before (rounds raw before room) (suc room) c sp vs)
  round-Rounded room c [] vs ps works at now e s =
      Rounded-stop (suc room) c ps (ap (raw_points raw) now ∙ e) s (inr (inl at))
  round-Rounded room c (p ∷ sp) [] ps works at now e s =
      Rounded-stop (suc room) c ps (ap (raw_points raw) now ∙ e) s (inr (inr (cc)))
  round-Rounded room c (p ∷ sp) (v ∷ vs) ps works at now e s =
      let (x, qs, typed, tail, whole) = both_some (unix_nano v) (raw v) (raw_points raw vs) ps e in
      let here : stored_points c ≡ (p ∷ sp) ++ flatten c.blocks =
        ap (λ (b : List (ℕ × A)). b ++ flatten c.blocks) at in
      let behind : drop (c.passed + 1) c.block ≡ sp =
        drop-drop c.passed 1 c.block ∙ ap (drop 1) at in
      let (next_settled, next_same) = settle-IsSettled (skip_points 1 c) s.0 in
      let next_points : stored_points (settle (skip_points 1 c)) ≡ sp ++ flatten c.blocks =
        next_same ∙ ap (λ (b : List (ℕ × A)). b ++ flatten c.blocks) behind in
      let mine : ℕ × A = (unix_nano v, x) in
      let rest = sp ++ flatten c.blocks in
      let streams : overlay before ps (stored_points c) ≡ overlay before (mine ∷ qs) (p ∷ rest) =
        ap₂ (overlay before) whole here in
      elim (Bool-cases (unix_nano v == p.0)) [
        | inl same_time ↦
            let d : Cursor A = skip_points 1 (record c { cache = vs }) in
            let (settled, same) = settle-IsSettled d s.0 in
            let points : stored_points (settle d) ≡ rest =
              same ∙ ap (λ (b : List (ℕ × A)). b ++ flatten c.blocks) behind in
            rw (same_time, typed)
              (Rounded-put_front room c (settle d) ps qs mine _
                (ap (λ (ys : List (ℕ × A)). mine ∷ overlay before qs ys) points
                  ∙ sym (overlay_same before mine p qs rest same_time)
                  ∙ sym streams)
                (works (settle d) qs (ap (raw_points raw) (settle-cache d) ∙ tail) settled))
        | inr other_time ↦ elim (Bool-cases (before (unix_nano v) p.0)) [
          | inl earlier ↦
              let d : Cursor A = record c { cache = vs } in
              let (settled, same) = settle-IsSettled d s.0 in
              rw (other_time, earlier, typed)
                (Rounded-put_front room c (settle d) ps qs mine _
                  (ap (λ (ys : List (ℕ × A)). mine ∷ overlay before qs ys) (same ∙ here)
                    ∙ sym (overlay_first before mine p qs rest other_time earlier)
                    ∙ sym streams)
                  (works (settle d) qs (ap (raw_points raw) (settle-cache d) ∙ tail) settled))
          | inr later ↦
              rw (other_time, later)
                (Rounded-put_front room c (settle (skip_points 1 c)) ps ps p _
                  (ap₂ (λ (xs ys : List (ℕ × A)). p ∷ overlay before xs ys) whole next_points
                    ∙ sym (overlay_second before mine p qs rest other_time later)
                    ∙ sym streams)
                  (works (settle (skip_points 1 c)) ps
                    (ap (raw_points raw) (settle-cache (skip_points 1 c) ∙ now) ∙ e) next_settled))
        ]
      ]

  pub rounds-Rounded : (room : ℕ) → Works room
  unfolding rounds
  rounds-Rounded zero c ps e s = Rounded-stop 0 c ps e s (inl refl)
  rounds-Rounded (suc room) c ps e s =
      round-Rounded room c (drop c.passed c.block) c.cache ps (rounds-Rounded room) refl refl e s
