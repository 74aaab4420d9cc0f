-- ===== src/Planner/Plans.antt =====
-- The three kinds of plan: `PlanLevel`, `PlanOptimize` and `Plan`.
use equinoxdb.Values.{size}
use equinoxdb.Base.{ℕ, zero, suc, ◌+◌, ◌-◌, ◌*◌, ◌%◌, ◌^◌, Bool, true, false, ◌&&◌, ◌||◌, not}
use equinoxdb.Base.{List, [], ◌∷◌, ◌++◌, map, ltb, leb, ◌==◌, if◌then◌else◌, length, take, drop}
use equinoxdb.Base.{any, filter}
use equinoxdb.Bytes.{Bytes, sort_bytes}
use equinoxdb.Planner.{FileStore, Generation}
use equinoxdb.Planner.{files, generation_size, level, group_level, has_tombstones}
use equinoxdb.Planner.{any_tombstones, chunk, DefaultPlanner}
use equinoxdb.Planner.{find_generations, CompactionGroup, acquire}

-- maxSSTFileSize and config.DefaultMaxPointsPerBlock.
abbrev pub max_sst_file_size : ℕ
max_sst_file_size = 2147483648

abbrev pub default_max_points_per_block : ℕ
default_max_points_per_block = 2000

abbrev pub paths : List Generation → List Bytes
paths [] = []
paths (g ∷ gs) = map (λ f. f.path) (files g) ++ paths gs

-- What a plan returns: the planner afterwards, the groups, and how many there would be.
pub record Planned : Type 0 where
  pub planner : DefaultPlanner
  pub groups : List CompactionGroup
  pub count : ℕ

-- Nothing to do.
abbrev pub no_plan : DefaultPlanner → Planned
no_plan c = record { planner = c; groups = []; count = 0 }

-- The ends of the plans: the groups if all their files could be acquired.
unfoldable pub hand_out : DefaultPlanner → List CompactionGroup → Planned
unfolding acquire
hand_out c groups =
    let (c', ok) = acquire c groups in
    record { planner = c'; groups = if ok then groups else []; count = length groups }

module _ (fs : FileStore) where
  -- `cur.level() < generations[i+1].level()`
  abbrev pub orphan : Generation → List Generation → Bool
  orphan g [] = false
  orphan g (next ∷ _) = ltb (level fs g) (level fs next)

  -- The loop that makes groups of adjacent generations. It is written out in `PlanLevel`, which
  -- skips none, and in `PlanOptimize`. `current` is `currentGen`, the result starts with it.
  unfoldable pub group_loop :
      (Generation → Bool) → List Generation → List Generation → List (List Generation)
  unfolding level group_level
  group_loop skip [] [] = []
  group_loop skip (c ∷ cs) [] = (c ∷ cs) ∷ []
  group_loop skip current (g ∷ gs) =
      let skipped = group_loop skip current gs in
      let joined = group_loop skip (current ++ (g ∷ [])) gs in
      let fresh = current ∷ group_loop skip (g ∷ []) gs in
      if skip g
      then skipped
      else if orphan g gs || length current == 0 || group_level fs current 0 == level fs g
      then joined
      else fresh

  -- The chunks of the groups that `PlanLevel` keeps.
  unfoldable pub level_chunks : ℕ → List (List Generation) → List (List Generation)
  unfolding chunk any_tombstones
  level_chunks size [] = []
  level_chunks size (g ∷ gs) =
      filter (λ c. not (ltb (length c) size && not (any_tombstones c))) (chunk size g)
      ++ level_chunks size gs

  abbrev pub min_generations : ℕ → ℕ
  min_generations l = if l == 1 then 8 else 4

  -- The generations of each group that `PlanLevel` proposes.
  unfoldable pub level_candidates : ℕ → List Generation → List (List Generation)
  unfolding group_loop level_chunks
  level_candidates l generations =
      level_chunks (min_generations l)
        (filter (λ g. group_level fs g 0 == l) (group_loop (λ _. false) [] generations))

  unfoldable pub plan_level : DefaultPlanner → ℕ → Planned
  unfolding find_generations level_candidates hand_out
  plan_level c l =
      let (c', generations) = find_generations c fs true in
      let candidates = map paths (level_candidates l generations) in
      if c.force_full
      then no_plan c
      else if leb (length generations) 1 && not (any_tombstones generations)
      then no_plan c'
      else hand_out c' candidates

  -- `size() > maxSSTFileSize`, and a first block that is full.
  unfoldable pub maxed_out : Generation → Bool
  unfolding generation_size
  maxed_out g =
      ltb max_sst_file_size (generation_size g)
      && fs.block_count g.first_file.path 1 == default_max_points_per_block

  unfoldable pub optimize_candidates : List Generation → List (List Generation)
  unfolding group_loop maxed_out any_tombstones has_tombstones
  optimize_candidates generations =
      let skip =
        λ (g : Generation). ltb 2 (length (files g)) && maxed_out g && not (has_tombstones g) in
      filter (λ g. not (ltb (length g) 4 && not (any_tombstones g)))
        (filter (λ g. group_level fs g 0 == 4) (group_loop skip [] generations))

  unfoldable pub plan_optimize : DefaultPlanner → Planned
  unfolding find_generations optimize_candidates hand_out
  plan_optimize c =
      let (c', generations) = find_generations c fs true in
      let candidates = map paths (optimize_candidates generations) in
      if c.force_full
      then no_plan c
      else if leb (length generations) 1 && not (any_tombstones generations)
      then no_plan c'
      else hand_out c' candidates

  -- `generations[i+1].level() <= 3`
  abbrev pub young_next : List Generation → Bool
  young_next [] = false
  young_next (next ∷ _) = leb (level fs next) 3

  -- The generations that a full compaction takes, `n` being how many there are.
  unfoldable pub full_kept : ℕ → List Generation → List Generation
  unfolding level maxed_out has_tombstones
  full_kept n [] = []
  full_kept n (g ∷ gs) =
      let rest = full_kept n gs in
      if ltb 2 n && maxed_out g && not (has_tombstones g) && not (young_next gs)
      then rest
      else g ∷ rest

  -- The branch of `Plan` for a full compaction.
  unfoldable pub plan_full : DefaultPlanner → List Generation → Planned
  unfolding full_kept hand_out
  plan_full c generations =
      let kept = full_kept (length generations) generations in
      let sst_files = sort_bytes (paths kept) in
      let c' = record c { force_full = false } in
      if leb (length sst_files) 1 || leb (length kept) 1
      then no_plan c'
      else hand_out c' (sst_files ∷ [])

  -- `end`: how many generations at the front are of level 4.
  unfoldable pub old_count : List Generation → ℕ
  unfolding level
  old_count [] = 0
  old_count (g ∷ gs) = let rest = old_count gs in if leb (level fs g) 3 then 0 else suc rest

  -- `start`: the loop over `generations[:end]`, with the index, the size of the generation before,
  -- and whether a tombstone was seen.
  unfoldable pub start_loop : ℕ → ℕ → Bool → ℕ → List Generation → ℕ
  unfolding maxed_out has_tombstones generation_size
  start_loop i before seen start [] = start
  start_loop i before seen start (g ∷ gs) =
      let seen' = seen || has_tombstones g in
      let start' = if not seen' && maxed_out g then i + 1 else start in
      let rest = start_loop (suc i) (generation_size g) seen' start' gs in
      if not seen' && ltb 0 i && ltb (generation_size g * 2 % 2 ^ 64) before then i else rest

  -- `startIndex - i`: one for each generation of the window that is to be skipped.
  unfoldable pub skip_count : List Generation → ℕ
  unfolding generation_size has_tombstones
  skip_count [] = 0
  skip_count (g ∷ gs) =
      let rest = skip_count gs in
      if leb max_sst_file_size (generation_size g)
        && fs.block_count g.first_file.path 1 == default_max_points_per_block
        && not (has_tombstones g)
      then suc rest
      else rest

  -- The loop over windows of `step` generations, on fuel; a window with a lower level is skipped.
  unfoldable pub window_loop : ℕ → ℕ → List Generation → List (List Generation)
  unfolding level skip_count
  window_loop fuel step [] = []
  window_loop zero step (g ∷ gs) = []
  window_loop (suc fuel) step (g ∷ gs) =
      let window = take step (g ∷ gs) in
      let group = drop (skip_count window) window in
      let rest = window_loop fuel step (drop step (g ∷ gs)) in
      if any (λ h. leb (level fs h) 3) window || length group == 0 then rest else group ∷ rest

  -- The generations of each group that `Plan` proposes if no full compaction is due.
  unfoldable pub plan_candidates : List Generation → List (List Generation)
  unfolding old_count start_loop window_loop any_tombstones
  plan_candidates generations =
      let end = old_count generations in
      let start = start_loop 0 0 false 0 (take end generations) in
      let step = if ltb end 4 then end else 4 in
      let old = drop start (take end generations) in
      filter (λ g. not (ltb (length g) 4 && not (any_tombstones g)))
        (window_loop (length old) step old)

  -- `Plan`, for the time of the last write and the time now.
  unfoldable pub plan : DefaultPlanner → ℕ → ℕ → Planned
  unfolding find_generations plan_full plan_candidates hand_out
  plan c last_write now =
      let (c', generations) = find_generations c fs true in
      let checked = record c' { last_plan_check = now } in
      let cold =
        ltb 0 c.cold_duration
        && ltb c.cold_duration (now - last_write)
        && ltb 1 (length generations) in
      if c.force_full || cold
      then plan_full c' generations
      else if ltb fs.last_modified c.last_plan_check && not (any_tombstones generations)
      then no_plan c'
      else if leb (length generations) 1 && not (any_tombstones generations)
      then no_plan checked
      else hand_out checked (map (λ g. sort_bytes (paths g)) (plan_candidates generations))
