-- ===== src/Cursors/Blocks.antt =====
-- The points that `Next` of an ascending cursor in storage/cursor/array_cursor.gen.go copies from its
-- block.
use equinoxdb.Base.{ℕ, zero, suc, ◌+◌, ◌-◌, ◌≤◌, ◌<◌, ◌≡◌, refl, sym, ap, ap₂, ◌∙◌, ◌≢◌, ◌⊎◌}
use equinoxdb.Base.{inl, inr, Bool, ◌&&◌, Option, some, List, [], ◌∷◌, ◌++◌, append_assoc, arith}
use equinoxdb.Base.{ltb, leb, ◌==◌, Bool-cases, length, take, drop, flatten}
use equinoxdb.Cursors.{Cursor, Phase, next_sst, settle, skip_points, from_block}
use equinoxdb.Cursors.Fills.{append_none, OneSided}
use equinoxdb.Cursors.Rounds.{Rounded, both_some}
use equinoxdb.Cursors.Streams.{raw_points, overlay, overlay_none, stored_points, drop_all}
use equinoxdb.Cursors.Streams.{open_block-IsSettled, settle-IsSettled, open_block-cache}
use equinoxdb.Cursors.Streams.{settle-cache}
use equinoxdb.Base.{drop-drop, take-drop-length}
use equinoxdb.Values.{Value, unix_nano}

module _ {A : Type 0} where
  pub drop_none : (n : ℕ) (xs : List (ℕ × A)) → drop n xs ≡ [] → length xs ≤ n
  drop_none n [] e = omega arith
  drop_none zero (x ∷ xs) e = absurd (cc)
  drop_none (suc n) (x ∷ xs) e = omega (arith, drop_none n xs e)

  pub drop_some :
      (n : ℕ) (xs : List (ℕ × A)) (p : ℕ × A) (sp : List (ℕ × A)) → drop n xs ≡ p ∷ sp → xs ≢ []
  drop_some n xs p sp at e =
      let none_left : drop n xs ≡ [] = ap (drop n) e ∙ drop_all n [] (omega arith) in absurd (cc)

  pub no_length : (xs : List (ℕ × A)) → length xs ≡ 0 → xs ≡ []
  no_length [] e = refl
  no_length (x ∷ xs) e = absurd (omega (arith, e))

  taken_first :
      (before : ℕ → ℕ → Bool) (left : List (ℕ × A)) (n : ℕ) (sp : List (ℕ × A))
      (bs : List (List (ℕ × A))) (ys : List (ℕ × A))
      → left ≡ []
      → ys ≡ drop (length (take n sp)) sp ++ flatten bs
      → take n sp ++ overlay before left ys ≡ sp ++ flatten bs
  taken_first before left n sp bs ys e f =
      ap (◌++◌ (take n sp)) (overlay_none before left ys e ∙ f)
      ∙ sym (append_assoc (take n sp) (drop (length (take n sp)) sp) (flatten bs))
      ∙ ap (λ (xs : List (ℕ × A)). xs ++ flatten bs) (take-drop-length n sp)

  take_some : (n : ℕ) (p : ℕ × A) (sp : List (ℕ × A)) → 0 < n → take n (p ∷ sp) ≢ []
  take_some zero p sp h e = absurd (omega (arith, h))
  take_some (suc n) p sp h e = absurd (cc)

  -- Where an ascending cursor may be: at the front of its block, or with cached values to come, or
  -- in a block that does not fit the result.
  abbrev pub IsAligned : ℕ → Cursor A → Type 0
  IsAligned cap c = (c.passed ≡ 0) ⊎ (c.cache ≢ []) ⊎ (cap < length c.block)

  module _ (raw : Value → Option A) where
    no_values : (vs : List Value) → raw_points raw vs ≡ some [] → vs ≡ []
    no_values [] e = refl
    no_values (v ∷ vs) e =
        let (x, qs, typed, tail, whole) =
          both_some raw ltb (unix_nano v) (raw v) (raw_points raw vs) [] e in
        absurd (cc)

    module _ (cap : ℕ) (some_room : 0 < cap) (c : Cursor A) (ps : List (ℕ × A)) where
      -- Nothing is left in the blocks.
      pub OneSided-done :
          (before : ℕ → ℕ → Bool) (r : Option (Phase A)) (h : Rounded raw before cap c ps r)
          → drop h.phase.cursor.passed h.phase.cursor.block ≡ []
          → OneSided raw before c ps h.phase
      OneSided-done before r h e =
          let none_stored : stored_points h.phase.cursor ≡ [] =
            ap₂ (λ (xs : List (ℕ × A)) (bs : List (List (ℕ × A))). xs ++ flatten bs) e
              (h.settled.1 (drop_none h.phase.cursor.passed h.phase.cursor.block e)) in
          record {
            left = h.left;
            cached = h.cached;
            settled = h.settled;
            whole = h.whole;
            one_side = inl none_stored;
            start =
                λ nothing. (omega (arith, h.counted, some_room, ap length nothing), none_stored);
          }

      open_whole :
          (left : List (ℕ × A)) (d : Cursor A)
          → d.passed ≡ 0
          → left ≡ []
          → d.block ++ overlay ltb left (flatten d.blocks) ≡ overlay ltb left (stored_points d)
      open_whole left d at e =
          ap (◌++◌ d.block) (overlay_none ltb left (flatten d.blocks) e)
          ∙ ap (λ (n : ℕ). drop n d.block ++ flatten d.blocks) (sym at)
          ∙ sym (overlay_none ltb left (stored_points d) e)

      -- The whole block.
      OneSided-fast :
          (r : Option (Phase A)) (h : Rounded raw ltb cap c ps r) (p : ℕ × A) (sp : List (ℕ × A))
          → IsAligned cap c
          → drop h.phase.cursor.passed h.phase.cursor.block ≡ p ∷ sp
          → h.left ≡ []
          → h.phase.out ≡ []
          → length h.phase.cursor.block ≤ cap
          → OneSided raw ltb c ps (record {
            out = h.phase.cursor.block;
            room = cap - length h.phase.cursor.block;
            cursor = next_sst h.phase.cursor;
          })
      unfolding next_sst
      OneSided-fast r h p sp aligned at none_cached nothing fits =
          let d = h.phase.cursor in
          let no_cache : d.cache ≡ [] = no_values d.cache (h.cached ∙ ap some none_cached) in
          let front : d.passed ≡ 0 = elim aligned [
            | inl e ↦ ap (λ (x : Cursor A). x.passed) (h.unmoved nothing) ∙ e
            | inr (inl e) ↦
                absurd (e (ap (λ (x : Cursor A). x.cache) (sym (h.unmoved nothing)) ∙ no_cache))
            | inr (inr e) ↦
                let same_block : length d.block ≡ length c.block =
                  ap (λ (x : Cursor A). length x.block) (h.unmoved nothing) in
                absurd (omega (arith, e, fits, same_block))
          ] in
          let (settled, same) = open_block-IsSettled d d.blocks h.settled.0 in
          record {
            left = h.left;
            cached = ap (raw_points raw) (open_block-cache d d.blocks) ∙ h.cached;
            settled = settled;
            whole =
                ap (λ (ys : List (ℕ × A)). d.block ++ overlay ltb h.left ys) same
                ∙ open_whole h.left d front none_cached
                ∙ ap (λ (xs : List (ℕ × A)). xs ++ overlay ltb h.left (stored_points d))
                    (sym nothing)
                ∙ h.whole;
            one_side = inr none_cached;
            start = λ none_read. absurd (drop_some d.passed d.block p sp at none_read);
          }

      OneSided-slow :
          (r : Option (Phase A)) (h : Rounded raw ltb cap c ps r) (p : ℕ × A) (sp : List (ℕ × A))
          → drop h.phase.cursor.passed h.phase.cursor.block ≡ p ∷ sp
          → h.left ≡ []
          → 0 < h.phase.room
          → OneSided raw ltb c ps (record {
            out = h.phase.out ++ take h.phase.room (p ∷ sp);
            room = h.phase.room - length (p ∷ sp);
            cursor = settle (skip_points (length (take h.phase.room (p ∷ sp))) h.phase.cursor);
          })
      OneSided-slow r h p sp at none_cached room =
          let n = length (take h.phase.room (p ∷ sp)) in
          let (settled, same) = settle-IsSettled (skip_points n h.phase.cursor) h.settled.0 in
          let behind : drop (h.phase.cursor.passed + n) h.phase.cursor.block ≡ drop n (p ∷ sp) =
            drop-drop h.phase.cursor.passed n h.phase.cursor.block ∙ ap (drop n) at in
          record {
            left = h.left;
            cached = ap (raw_points raw) (settle-cache (skip_points n h.phase.cursor)) ∙ h.cached;
            settled = settled;
            whole =
                append_assoc h.phase.out (take h.phase.room (p ∷ sp)) _
                ∙ ap (◌++◌ h.phase.out) (
                    taken_first ltb h.left h.phase.room (p ∷ sp) h.phase.cursor.blocks _ none_cached
                      (same ∙ ap (λ (b : List (ℕ × A)). b ++ flatten h.phase.cursor.blocks) behind)
                    ∙ sym (
                        overlay_none ltb h.left _ none_cached
                        ∙ ap (λ (b : List (ℕ × A)). b ++ flatten h.phase.cursor.blocks) at))
                ∙ h.whole;
            one_side = inr none_cached;
            start = λ nothing.
                let (front, taken) =
                  append_none raw h.phase.out (take h.phase.room (p ∷ sp)) nothing in
                absurd (take_some h.phase.room p sp room taken);
          }

      pub from_block-OneSided :
          (r : Option (Phase A)) (h : Rounded raw ltb cap c ps r) (sp : List (ℕ × A))
          → IsAligned cap c
          → drop h.phase.cursor.passed h.phase.cursor.block ≡ sp
          → (drop h.phase.cursor.passed h.phase.cursor.block ≡ []) ⊎ (h.left ≡ [])
          → 0 < h.phase.room
          → OneSided raw ltb c ps (from_block cap h.phase sp)
      from_block-OneSided r h [] aligned at stopped room = OneSided-done ltb r h at
      from_block-OneSided r h (p ∷ sp) aligned at (inl done) room = absurd (cc)
      from_block-OneSided r h (p ∷ sp) aligned at (inr none_cached) room =
          elim (Bool-cases (length h.phase.out == 0 && leb (length h.phase.cursor.block) cap)) [
            | inl e ↦
                let nothing : h.phase.out ≡ [] = no_length h.phase.out (ground arith) in
                let fits : length h.phase.cursor.block ≤ cap = ground arith in
                rw e (OneSided-fast r h p sp aligned at none_cached nothing fits)
            | inr e ↦ rw e (OneSided-slow r h p sp at none_cached room)
          ]
