-- ===== src/Planner/Levels.antt =====
-- `PlanLevel` of storage/compactor/planner.go on generations that all have one level.
use equinoxdb.Base.{suc-ne-zero}
use equinoxdb.Base.{subst, ◌≢◌, ◌⊎◌, true, ◌==◌, All-append}
use equinoxdb.Planner.{chunk}
use equinoxdb.Planner.Limits.{IsWorth, level_candidates-IsWorth}
use equinoxdb.Planner.Plans.{level_chunks, min_generations, level_candidates}
use equinoxdb.Base.{ℕ, zero, suc, ◌≤◌, ◌<◌, ◌≡◌, refl, sym, ap, ◌∙◌, inl, inr, false, ◌&&◌, not}
use equinoxdb.Base.{List, [], ◌∷◌, ◌++◌, append-nil, append_assoc, arith, ltb, leb}
use equinoxdb.Base.{if◌then◌else◌, le→ltb, Bool-cases, length, take, drop, All, take-append-drop}
use equinoxdb.Base.{length-take, length-drop, flatten, filter}
use equinoxdb.Planner.{FileStore, Generation, level, group_level, any_tombstones, chunk_loop}
use equinoxdb.Planner.Plans.{orphan, group_loop}
use equinoxdb.Values.{size}

-- How many generations a group is to have.
abbrev pub least : ℕ → ℕ
least zero = 4
least (suc zero) = 8
least (suc (suc l)) = 4

abbrev whole : List Generation → List (List Generation)
whole [] = []
whole (g ∷ gs) = (g ∷ gs) ∷ []

-- The generations behind the last group that is proposed.
abbrev LeavesFew : ℕ → List Generation → List (List Generation) → Type 0
LeavesFew size gs groups =
    (left : List Generation) × (gs ≡ flatten groups ++ left)
    × (length left < size)
    × (any_tombstones left ≡ false)

chunk_loop-LeavesFew :
    (fuel size : ℕ) (gs : List Generation)
    → 0 < size
    → length gs ≤ fuel
    → LeavesFew size gs (
        filter (λ c. not (ltb (length c) size && not (any_tombstones c))) (chunk_loop fuel size gs))
unfolding chunk_loop any_tombstones
chunk_loop-LeavesFew fuel size [] some_size few = ([], refl, some_size, refl)
chunk_loop-LeavesFew zero size (g ∷ gs) some_size few = absurd (omega arith)
chunk_loop-LeavesFew (suc fuel) size (g ∷ gs) some_size few =
    elim (Bool-cases (leb size (length (g ∷ gs)))) [
      | inl full ↦
          let le : size ≤ length (g ∷ gs) = ground arith in
          let shorter = length-drop size (g ∷ gs) le in
          let taken = length-take size (g ∷ gs) le in
          let long : ltb (length (take size (g ∷ gs))) size ≡ false =
            le→ltb _ _ (omega (arith, taken)) in
          let (left, parts, short, no_dead) =
            chunk_loop-LeavesFew fuel size (drop size (g ∷ gs)) some_size
              (omega (arith, shorter, few)) in
          rw (full, long)
            (
              left,
              sym (take-append-drop size (g ∷ gs))
                  ∙ ap (◌++◌ (take size (g ∷ gs))) parts
                  ∙ sym (append_assoc (take size (g ∷ gs)) _ left),
              short,
              no_dead,
            )
      | inr less ↦
          rw less
            (elim (Bool-cases (not (ltb (length (g ∷ gs)) size && not (any_tombstones (g ∷ gs))))) [
              | inl worth ↦
                  rw worth
                    ([], sym (append-nil ((g ∷ gs) ++ []) ∙ append-nil (g ∷ gs)), some_size, refl)
              | inr kept_back ↦ rw kept_back (g ∷ gs, refl, ground arith, ground arith)
            ])
    ]

module _ (fs : FileStore) (m : ℕ) where
  abbrev pub AreLevel : List Generation → Type 0
  AreLevel = All (λ g. level fs g ≡ m)

  group_level_same : (gs : List Generation) → AreLevel gs → group_level fs gs m ≡ m
  unfolding group_level
  group_level_same [] h = refl
  group_level_same (g ∷ gs) h =
      let same : (if ltb m (level fs g) then level fs g else m) ≡ m = ground arith in
      rw same (group_level_same gs h.1)

  group_level-AreLevel :
      (g : Generation) (gs : List Generation) → AreLevel (g ∷ gs) → group_level fs (g ∷ gs) 0 ≡ m
  unfolding group_level
  group_level-AreLevel g gs h =
      let same : (if ltb 0 (level fs g) then level fs g else 0) ≡ m = ground arith in
      rw same (group_level_same gs h.1)

  orphan_none : (g : Generation) (gs : List Generation) → AreLevel (g ∷ gs) → orphan fs g gs ≡ false
  orphan_none g [] h = refl
  orphan_none g (k ∷ gs) h = le→ltb _ _ (omega (arith, h.0, h.1.0))

  group_loop-AreLevel :
      (current gs : List Generation)
      → AreLevel current
      → AreLevel gs
      → group_loop fs (λ _. false) current gs ≡ whole (current ++ gs)
  unfolding group_loop
  group_loop-AreLevel [] [] h k = refl
  group_loop-AreLevel (c ∷ cs) [] h k = ap whole (sym (append-nil (c ∷ cs)))
  group_loop-AreLevel [] (g ∷ gs) h k =
      rw (orphan_none g gs k) (group_loop-AreLevel (g ∷ []) gs (k.0, tt) k.1)
  group_loop-AreLevel (c ∷ cs) (g ∷ gs) h k =
      let top = group_level-AreLevel c cs h in
      let same : (group_level fs (c ∷ cs) 0 == level fs g) ≡ true = ground (arith, top, k.0) in
      rw (orphan_none g gs k, same, suc-ne-zero (length cs))
        (group_loop-AreLevel ((c ∷ cs) ++ (g ∷ [])) gs
            (All-append (λ x. level fs x ≡ m) (c ∷ cs) (g ∷ []) h (k.0, tt)) k.1
          ∙ ap whole (append_assoc (c ∷ cs) (g ∷ []) gs))

  -- The groups of one level, made of all generations.
  of_level :
      (l : ℕ) (gs : List Generation)
      → AreLevel gs
      → m ≡ l
      → filter (λ g. group_level fs g 0 == l) (whole gs) ≡ whole gs
  of_level l [] h e = refl
  of_level l (g ∷ gs) h e =
      let same : (group_level fs (g ∷ gs) 0 == l) ≡ true =
        ground (arith, group_level-AreLevel g gs h, e) in
      rw same refl

  of_no_level :
      (l : ℕ) (gs : List Generation)
      → AreLevel gs
      → m ≢ l
      → filter (λ g. group_level fs g 0 == l) (whole gs) ≡ []
  of_no_level l [] h e = refl
  of_no_level l (g ∷ gs) h e =
      let other : (group_level fs (g ∷ gs) 0 == l) ≡ false =
        ground (arith, group_level-AreLevel g gs h, e) in
      rw other refl

  least_lem : (l : ℕ) → min_generations fs l ≡ least l
  least_lem zero = refl
  least_lem (suc zero) = refl
  least_lem (suc (suc l)) = let e : (suc (suc l) == 1) ≡ false = ground arith in rw e refl

  some_least : (l : ℕ) → 0 < least l
  some_least zero = omega arith
  some_least (suc zero) = omega arith
  some_least (suc (suc l)) = omega arith

  level_chunks-whole :
      (size : ℕ) (gs : List Generation)
      → 0 < size
      → LeavesFew size gs (level_chunks fs size (whole gs))
  unfolding level_chunks chunk
  level_chunks-whole size [] some_size = ([], refl, some_size, refl)
  level_chunks-whole size (g ∷ gs) some_size =
      let kept_chunks =
        filter (λ c. not (ltb (length c) size && not (any_tombstones c))) (chunk size (g ∷ gs)) in
      subst (LeavesFew size (g ∷ gs)) (sym (append-nil kept_chunks))
        (chunk_loop-LeavesFew (length (g ∷ gs)) size (g ∷ gs) some_size (omega arith))

  -- What `PlanLevel` proposes for a level.
  abbrev pub Proposes : ℕ → List Generation → List (List Generation) → Type 0
  Proposes l gs groups =
      ((m ≢ l) × (groups ≡ []))
      ⊎ ((m ≡ l) × All (IsWorth (least l)) groups × LeavesFew (least l) gs groups)

  -- On generations that all have one level: for another level `PlanLevel` proposes no group; for
  -- this one each group has exactly 8 generations for level 1 and 4 for the others, or fewer and a
  -- tombstone among them, and the groups, one behind the other, are the generations in order but for
  -- some at the end, which are fewer than that and have no tombstone.
  pub level_candidates-Proposes :
      (l : ℕ) (gs : List Generation) → AreLevel gs → Proposes l gs (level_candidates fs l gs)
  unfolding level_candidates level_chunks
  level_candidates-Proposes l gs h =
      let one_group = group_loop-AreLevel [] gs tt h in
      let worth =
        subst (λ (k : ℕ). All (IsWorth k) (level_candidates fs l gs)) (least_lem l)
          (level_candidates-IsWorth fs l gs) in
      elim (Bool-cases (m == l)) [
        | inl e ↦
            let same : m ≡ l = ground arith in
            inr (
              same,
              worth,
              rw (one_group, of_level l gs h same, least_lem l)
                  (level_chunks-whole (least l) gs (some_least l)),
            )
        | inr e ↦
            let other : m ≢ l = λ f. absurd (ground arith) in
            inl (other, rw (one_group, of_no_level l gs h other) refl)
      ]
