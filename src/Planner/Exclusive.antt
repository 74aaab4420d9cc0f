-- ===== src/Planner/Exclusive.antt =====
-- The planner with the groups it has handed out and that were not released: a step relation over
-- every call that the engine makes of it.
use equinoxdb.Base.{ℕ, true, false, ◌∷◌, map, append-nil, arith, length, flatten}
use equinoxdb.Base.Picks.{Picks}
use equinoxdb.Bytes.{sort_bytes}
use equinoxdb.Bytes.Distinct.{Distinct-sort_bytes}
use equinoxdb.Planner.{CompactionGroup, acquire}
use equinoxdb.Planner.Acquire.{no_plan-IsGrant, hand_out-IsGrant, Distinct-flatten_sorted}
use equinoxdb.Planner.Groups.{level_candidates-Picks, optimize_candidates-Picks}
use equinoxdb.Planner.Groups.{plan_candidates-Picks, full_kept-Picks}
use equinoxdb.Planner.Lists.{flatten-paths, Distinct-Picks}
use equinoxdb.Planner.Plans.{no_plan, hand_out, level_candidates, plan_level}
use equinoxdb.Planner.Plans.{optimize_candidates, plan_optimize, full_kept, plan_full}
use equinoxdb.Planner.Plans.{plan_candidates, plan}
use equinoxdb.Base.{◌≡◌, refl, inl, inr, Bool, ◌&&◌, not, List, [], ◌==◌, if◌then◌else◌}
use equinoxdb.Base.{Bool-cases}
use equinoxdb.Bytes.Distinct.{Distinct}
use equinoxdb.Planner.{FileStore, Generation, is_sorted, sort_generations, DefaultPlanner}
use equinoxdb.Planner.{collect, find_generations}
use equinoxdb.Planner.Acquire.{IsGrant}
use equinoxdb.Planner.Found.{path_list, Distinct-collect, Distinct-sort_generations}
use equinoxdb.Planner.Plans.{paths, Planned}

pub record IsFind (c c' : DefaultPlanner) (gs : List Generation) : Type 0 where
  pub same_use : c'.files_in_use ≡ c.files_in_use
  pub cached : Distinct (paths c'.last_generations)
  pub found : Distinct (paths gs)

module _ (c : DefaultPlanner) (fs : FileStore) (cached : Distinct (paths c.last_generations))
    (stats : Distinct (path_list fs.stats)) where
  ordered_Distinct :
      (skip : Bool) (gs : List Generation)
      → gs ≡ collect fs c.files_in_use skip [] fs.stats
      → Distinct (paths (if is_sorted gs then gs else sort_generations gs))
  ordered_Distinct skip gs e =
      let d : Distinct (paths gs) =
        rw e (Distinct-collect fs c.files_in_use skip [] fs.stats tt stats (λ k m. refl)) in
      elim (Bool-cases (is_sorted gs)) [
        | inl yes_sorted ↦ rw yes_sorted d
        | inr not_sorted ↦ rw not_sorted (Distinct-sort_generations gs d)
      ]

  pub find_generations-IsFind :
      (skip : Bool) → IsFind c (find_generations c fs skip).0 (find_generations c fs skip).1
  unfolding find_generations
  find_generations-IsFind skip =
      elim (Bool-cases
        (not (c.last_find_generations == 0) && fs.last_modified == c.last_find_generations)) [
          | inl hit ↦ rw hit (record { same_use = refl; cached = cached; found = cached })
          | inr miss ↦
              let d = ordered_Distinct skip (collect fs c.files_in_use skip [] fs.stats) refl in
              rw miss (record { same_use = refl; cached = d; found = d })
        ]

IsGrant-same_use :
    (c : DefaultPlanner) {c' : DefaultPlanner} {r : Planned}
    → c'.files_in_use ≡ c.files_in_use
    → IsGrant c' r
    → IsGrant c r
IsGrant-same_use c {c'} {r} e g = record {
  fresh = rw e at g.fresh;
  grown = rw e at g.grown;
  distinct = g.distinct;
}

-- What each plan keeps: it grants files, and its cache still has no path twice.
pub record IsSafe (c : DefaultPlanner) (r : Planned) : Type 0 where
  pub grant : IsGrant c r
  pub still_cached : Distinct (paths (r.planner).last_generations)

if-IsSafe :
    (c : DefaultPlanner) (b : Bool) (x y : Planned)
    → IsSafe c x
    → IsSafe c y
    → IsSafe c (if b then x else y)
if-IsSafe c true x y h k = h
if-IsSafe c false x y h k = k

hand_out-last_generations :
    (c : DefaultPlanner) (groups : List CompactionGroup)
    → ((hand_out c groups).planner).last_generations ≡ c.last_generations
unfolding hand_out acquire
hand_out-last_generations c groups = ground arith

-- A planner that differs from `c` in other fields than the files in use.
module _ (c c' : DefaultPlanner) (e : c'.files_in_use ≡ c.files_in_use) where
  same-IsSafe :
      (groups : List CompactionGroup)
      → Distinct (flatten groups)
      → Distinct (paths c'.last_generations)
      → IsSafe c (hand_out c' groups)
  same-IsSafe groups d k = record {
    grant = IsGrant-same_use c e (hand_out-IsGrant c' groups d);
    still_cached = rw (hand_out-last_generations c' groups) k;
  }

  none-IsSafe : Distinct (paths c'.last_generations) → IsSafe c (no_plan c')
  none-IsSafe k = record { grant = IsGrant-same_use c e (no_plan-IsGrant c'); still_cached = k }

module _ (c : DefaultPlanner) (fs : FileStore) (cached : Distinct (paths c.last_generations))
    (stats : Distinct (path_list fs.stats)) where
  picked_Distinct :
      (picked : List (List Generation)) {gs : List Generation}
      → Picks (flatten picked) gs
      → Distinct (paths gs)
      → Distinct (flatten (map paths picked))
  picked_Distinct picked p d = rw (flatten-paths picked) (Distinct-Picks p d)

  pub plan_level-IsSafe : (l : ℕ) → IsSafe c (plan_level fs c l)
  unfolding plan_level
  plan_level-IsSafe l =
      let f = find_generations-IsFind c fs cached stats true in
      let (c', gs) = find_generations c fs true in
      if-IsSafe c c.force_full _ _ (none-IsSafe c c refl cached) (
        if-IsSafe c _ _ _ (none-IsSafe c c' f.same_use f.cached) (
          same-IsSafe c c' f.same_use (map paths (level_candidates fs l gs))
            (picked_Distinct (level_candidates fs l gs) (level_candidates-Picks fs l gs) f.found)
            f.cached))

  pub plan_optimize-IsSafe : IsSafe c (plan_optimize fs c)
  unfolding plan_optimize
  plan_optimize-IsSafe =
      let f = find_generations-IsFind c fs cached stats true in
      let (c', gs) = find_generations c fs true in
      if-IsSafe c c.force_full _ _ (none-IsSafe c c refl cached) (
        if-IsSafe c _ _ _ (none-IsSafe c c' f.same_use f.cached) (
          same-IsSafe c c' f.same_use (map paths (optimize_candidates fs gs))
            (picked_Distinct (optimize_candidates fs gs) (optimize_candidates-Picks fs gs) f.found)
            f.cached))

  plan_full-IsSafe :
      (c' : DefaultPlanner) (gs : List Generation) → IsFind c c' gs → IsSafe c (plan_full fs c' gs)
  unfolding plan_full
  plan_full-IsSafe c' gs f =
      let kept_gs = full_kept fs (length gs) gs in
      let reset = record c' { force_full = false } in
      let d =
        Distinct-sort_bytes (paths kept_gs)
          (Distinct-Picks (full_kept-Picks fs (length gs) gs) f.found) in
      if-IsSafe c _ _ _ (none-IsSafe c reset f.same_use f.cached) (
        same-IsSafe c reset f.same_use (sort_bytes (paths kept_gs) ∷ []) (rw append-nil d) f.cached)

  pub plan-IsSafe : (last_write now : ℕ) → IsSafe c (plan fs c last_write now)
  unfolding plan
  plan-IsSafe last_write now =
      let f = find_generations-IsFind c fs cached stats true in
      let (c', gs) = find_generations c fs true in
      let checked = record c' { last_plan_check = now } in
      if-IsSafe c _ _ _ (plan_full-IsSafe c' gs f) (
        if-IsSafe c _ _ _ (none-IsSafe c c' f.same_use f.cached) (
          if-IsSafe c _ _ _ (none-IsSafe c checked f.same_use f.cached) (
            same-IsSafe c checked f.same_use
              (map (λ g. sort_bytes (paths g)) (plan_candidates fs gs))
              (Distinct-flatten_sorted (plan_candidates fs gs)
                (picked_Distinct (plan_candidates fs gs) (plan_candidates-Picks fs gs) f.found))
              f.cached)))
