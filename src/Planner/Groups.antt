-- ===== src/Planner/Groups.antt =====
-- What the candidates of a plan are made of: generations in their order, none twice.
use equinoxdb.Planner.Plans.{young_next}
use equinoxdb.Base.{ℕ, zero, suc, ◌<◌, false, ◌&&◌, ◌||◌, append_assoc, arith, ltb}
use equinoxdb.Base.{leb, ◌==◌, if◌then◌else◌, length, take, drop, any, take-append-drop}
use equinoxdb.Base.{flatten-append}
use equinoxdb.Base.Picks.{Picks, none_left, kept, omitted, Picks-nil, Picks-append, Picks-trans}
use equinoxdb.Base.Picks.{Picks-filter, Picks-flatten-filter, Picks-drop, Picks-take}
use equinoxdb.Planner.{files, level, group_level, has_tombstones, any_tombstones, chunk}
use equinoxdb.Planner.Chunks.{flatten-chunk}
use equinoxdb.Planner.Plans.{level_chunks, min_generations, level_candidates, maxed_out}
use equinoxdb.Planner.Plans.{optimize_candidates, full_kept, old_count, start_loop, skip_count}
use equinoxdb.Planner.Plans.{window_loop, plan_candidates}
use equinoxdb.Values.{size}
use equinoxdb.Base.{◌≡◌, refl, inl, inr, Bool, not, List, [], ◌∷◌, ◌++◌, Bool-cases, flatten}
use equinoxdb.Base.{filter}
use equinoxdb.Planner.{FileStore, Generation}
use equinoxdb.Planner.Plans.{group_loop}

module _ (fs : FileStore) where
  group_loop-flatten :
      (skip : Generation → Bool) (current gs : List Generation)
      → flatten (group_loop fs skip current gs) ≡ current ++ filter (λ g. not (skip g)) gs
  unfolding group_loop
  group_loop-flatten skip [] [] = refl
  group_loop-flatten skip (c ∷ cs) [] = refl
  group_loop-flatten skip [] (g ∷ gs) = elim (Bool-cases (skip g)) [
    | inl skipped ↦ rw skipped (group_loop-flatten skip [] gs)
    | inr taken ↦ rw taken (ground (arith, group_loop-flatten skip (g ∷ []) gs))
  ]
  group_loop-flatten skip (c ∷ cs) (g ∷ gs) = elim (Bool-cases (skip g)) [
    | inl skipped ↦ rw skipped (group_loop-flatten skip (c ∷ cs) gs)
    | inr taken ↦ rw taken (
        ground (
          arith,
          group_loop-flatten skip (g ∷ []) gs,
          group_loop-flatten skip ((c ∷ cs) ++ (g ∷ [])) gs,
          append_assoc (c ∷ cs) (g ∷ []) (filter (λ h. not (skip h)) gs),
        ))
  ]

  group_loop-Picks :
      (skip : Generation → Bool) (gs : List Generation)
      → Picks (flatten (group_loop fs skip [] gs)) gs
  group_loop-Picks skip gs =
      rw (group_loop-flatten skip [] gs) (Picks-filter (λ g. not (skip g)) gs)

  level_chunks-Picks :
      (size : ℕ) (gss : List (List Generation))
      → 0 < size
      → Picks (flatten (level_chunks fs size gss)) (flatten gss)
  unfolding level_chunks
  level_chunks-Picks size [] h = none_left
  level_chunks-Picks size (g ∷ gss) h =
      let worth = λ (c : List Generation). not (ltb (length c) size && not (any_tombstones c)) in
      let these = rw (flatten-chunk size g h) at (Picks-flatten-filter worth (chunk size g)) in
      rw (flatten-append (filter worth (chunk size g)) (level_chunks fs size gss))
        (Picks-append these (level_chunks-Picks size gss h))

  min_generations-pos : (l : ℕ) → 0 < min_generations fs l
  min_generations-pos l = ground arith

  -- The groups of `PlanLevel`, one behind the other, are the generations that it was given with
  -- some left out: each generation is in one group at most, and their order is kept.
  pub level_candidates-Picks :
      (l : ℕ) (gs : List Generation) → Picks (flatten (level_candidates fs l gs)) gs
  unfolding level_candidates
  level_candidates-Picks l gs =
      let loop = group_loop fs (λ _. false) [] gs in
      Picks-trans (group_loop-Picks (λ _. false) gs) (
        Picks-trans (Picks-flatten-filter (λ g. group_level fs g 0 == l) loop) (
          level_chunks-Picks (min_generations fs l) (filter (λ g. group_level fs g 0 == l) loop)
            (min_generations-pos l)))

  -- So are those of `PlanOptimize`.
  pub optimize_candidates-Picks :
      (gs : List Generation) → Picks (flatten (optimize_candidates fs gs)) gs
  unfolding optimize_candidates
  optimize_candidates-Picks gs =
      let skip =
        λ (g : Generation). ltb 2 (length (files g)) && maxed_out fs g && not (has_tombstones g) in
      let loop = group_loop fs skip [] gs in
      Picks-trans (group_loop-Picks skip gs) (
        Picks-trans (Picks-flatten-filter (λ g. group_level fs g 0 == 4) loop) (
          Picks-flatten-filter (λ g. not (ltb (length g) 4 && not (any_tombstones g)))
            (filter (λ g. group_level fs g 0 == 4) loop)))

  window_loop-Picks :
      (fuel step : ℕ) (gs : List Generation) → Picks (flatten (window_loop fs fuel step gs)) gs
  unfolding window_loop
  window_loop-Picks fuel step [] = none_left
  window_loop-Picks zero step (g ∷ gs) = Picks-nil (g ∷ gs)
  window_loop-Picks (suc fuel) step (g ∷ gs) =
      let window = take step (g ∷ gs) in
      let group = drop (skip_count fs window) window in
      let later = window_loop-Picks fuel step (drop step (g ∷ gs)) in
      elim (Bool-cases (any (λ h. leb (level fs h) 3) window || length group == 0)) [
        | inl dropped ↦ rw dropped (Picks-trans (Picks-drop step (g ∷ gs)) later)
        | inr made ↦ rw made (
            rw (take-append-drop step (g ∷ gs)) at
              (Picks-append (Picks-drop (skip_count fs window) window) later))
      ]

  -- The groups of `Plan` where no full compaction is due, one behind the other and before their
  -- paths are sorted, are the generations that it was given with some left out: each generation is
  -- in one group at most, and their order is kept.
  pub plan_candidates-Picks : (gs : List Generation) → Picks (flatten (plan_candidates fs gs)) gs
  unfolding plan_candidates
  plan_candidates-Picks gs =
      let end = old_count fs gs in
      let start = start_loop fs 0 0 false 0 (take end gs) in
      let step = if ltb end 4 then end else 4 in
      let old = drop start (take end gs) in
      Picks-trans (Picks-take end gs) (
        Picks-trans (Picks-drop start (take end gs)) (
          Picks-trans (window_loop-Picks (length old) step old) (
            Picks-flatten-filter (λ g. not (ltb (length g) 4 && not (any_tombstones g)))
              (window_loop fs (length old) step old))))

  -- The groups of `PlanLevel`, of `PlanOptimize` and, before their paths are sorted, of `Plan` where no
  -- full compaction is due, one behind the other, are the generations that they were given with some
  -- left out: each generation is in one group at most, and their order is kept.
  pub candidates_lem :
      (l : ℕ) (gs : List Generation)
      → Picks (flatten (level_candidates fs l gs)) gs
        × Picks (flatten (optimize_candidates fs gs)) gs
        × Picks (flatten (plan_candidates fs gs)) gs
  candidates_lem l gs =
      (level_candidates-Picks l gs, optimize_candidates-Picks gs, plan_candidates-Picks gs)

  -- And so is what a full compaction takes.
  pub full_kept-Picks : (n : ℕ) (gs : List Generation) → Picks (full_kept fs n gs) gs
  unfolding full_kept
  full_kept-Picks n [] = none_left
  full_kept-Picks n (g ∷ gs) =
      elim (Bool-cases
        (ltb 2 n && maxed_out fs g && not (has_tombstones g) && not (young_next fs gs))) [
          | inl left ↦ rw left (omitted g (full_kept-Picks n gs))
          | inr taken ↦ rw taken (kept g (full_kept-Picks n gs))
        ]
