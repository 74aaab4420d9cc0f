-- ===== src/Examples/PlannerCases.antt =====
-- The compaction planner: storage/compactor/planner.go.
use equinoxdb.Planner.{level}
use equinoxdb.Planner.Levels.{AreLevel, Proposes, level_candidates-Proposes}
use equinoxdb.Planner.Plans.{optimize_candidates}
use equinoxdb.Base.{ℕ, ◌≡◌, refl, Bool, true, false, ◌&&◌, not, List, [], ◌∷◌, arith}
use equinoxdb.Base.{flatten}
use equinoxdb.Base.Picks.{Picks}
use equinoxdb.Bytes.{Bytes, equal}
use equinoxdb.Bytes.Sets.{contains}
use equinoxdb.Planner.{FileStat, FileStore, Generation, DefaultPlanner}
use equinoxdb.Planner.{new_default_planner, find_generations, set_force_full}
use equinoxdb.Planner.Found.{path_list}
use equinoxdb.Planner.Groups.{candidates_lem}
use equinoxdb.Planner.Ids.{HasRisingIds, IsMiss, find_generations-miss, find_generations-stale}
use equinoxdb.Planner.Forced.{set_force_full_lem}
use equinoxdb.Planner.Plans.{paths, no_plan, level_candidates, plan_level}
use equinoxdb.Planner.Plans.{plan_optimize, plan_candidates, plan}
use equinoxdb.Planner.System.{System, after, HasDistinctPaths, level_plan, Reach, start, next}
use equinoxdb.Planner.System.{initial, IsExclusive, Reach-initial-IsExclusive}

-- A path here is its generation and its sequence number.
abbrev parse : Bytes → ℕ × ℕ
parse [] = (0, 0)
parse (g ∷ []) = (g, 0)
parse (g ∷ s ∷ r) = (g, s)

abbrev file : ℕ → ℕ → Bool → FileStat
file g s dead = record {
  path = g ∷ s ∷ [];
  has_tombstone = dead;
  file_size = 100;
  file_modified = 0;
  min_time = 0;
  max_time = 9;
  min_key = [];
  max_key = [];
}

-- Two generations of level 2 and one of level 1, listed out of order; one has a tombstone.
abbrev store : FileStore
store = record {
  stats = file 2 2 false ∷ file 1 2 true ∷ file 3 1 false ∷ [];
  last_modified = 7;
  block_count = λ p i. 10;
  parse_file_name = parse;
}

abbrev fresh_planner : DefaultPlanner
fresh_planner = new_default_planner 50

store-HasDistinctPaths : HasDistinctPaths store
unfolding equal
store-HasDistinctPaths = (refl, (refl, (refl, tt)))

abbrev planned_once : System
planned_once = after (initial 50) (plan_level store fresh_planner 2)

planned_once-Reach : Reach (initial 50) planned_once
planned_once-Reach = next start (level_plan store 2 store-HasDistinctPaths)

Reach-initial-IsExclusive_example : IsExclusive planned_once
Reach-initial-IsExclusive_example = Reach-initial-IsExclusive 50 planned_once-Reach

-- The two generations of level 2 are planned, the older one first.
plan_level_test :
    (plan_level store fresh_planner 2).groups ≡ ((1 ∷ 2 ∷ []) ∷ (2 ∷ 2 ∷ []) ∷ []) ∷ []
unfolding plan_level new_default_planner equal
plan_level_test = refl

fresh-IsMiss : IsMiss fresh_planner store
unfolding new_default_planner
fresh-IsMiss = refl

find_generations-miss_example :
    HasRisingIds (find_generations fresh_planner store true).1
    × ((k : Bytes)
        → contains k (paths (find_generations fresh_planner store true).1) ≡ (
            contains k (path_list store.stats)
            && not (true && contains k fresh_planner.files_in_use)))
find_generations-miss_example = find_generations-miss fresh_planner store true fresh-IsMiss

abbrev taken : List Bytes
taken = (1 ∷ 2 ∷ []) ∷ []

find_generations-stale_example :
    (find_generations
      (record (find_generations fresh_planner store true).0 { files_in_use = taken })
      store
      true).1
    ≡ (find_generations fresh_planner store true).1
find_generations-stale_example =
    find_generations-stale fresh_planner store true true taken (omega arith)

abbrev generation : ℕ → ℕ → Bool → Generation
generation g s dead = record { id = g; first_file = file g s dead; more_files = [] }

abbrev pair : List Generation
pair = generation 1 2 true ∷ generation 2 2 false ∷ []

candidates_lem_example :
    Picks (flatten (level_candidates store 2 pair)) pair
    × Picks (flatten (optimize_candidates store pair)) pair
    × Picks (flatten (plan_candidates store pair)) pair
candidates_lem_example = candidates_lem store 2 pair

pair-AreLevel : AreLevel store 2 pair
unfolding level
pair-AreLevel = (refl, (refl, tt))

level_candidates-Proposes_example : Proposes store 2 2 pair (level_candidates store 2 pair)
level_candidates-Proposes_example = level_candidates-Proposes store 2 2 pair pair-AreLevel

-- `PlanLevel` between `ForceFull` and the next `Plan`.
abbrev idle : System
idle = record { planner = fresh_planner; outstanding = [] }

abbrev asked : System
asked = record idle { planner = set_force_full fresh_planner }

asked_once : Reach asked (after asked (plan_level store asked.planner 2))
asked_once = next start (level_plan store 2 store-HasDistinctPaths)

set_force_full_lem_example :
    (plan_level store (plan_level store asked.planner 2).planner 2
      ≡ no_plan (plan_level store asked.planner 2).planner)
    × (plan_optimize store (plan_level store asked.planner 2).planner
        ≡ no_plan (plan_level store asked.planner 2).planner)
    × (((plan store (plan_level store asked.planner 2).planner 3 4).planner).force_full ≡ false)
unfolding asked_once
set_force_full_lem_example = set_force_full_lem idle asked_once store 2 3 4 tt
