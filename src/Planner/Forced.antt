-- ===== src/Planner/Forced.antt =====
-- `ForceFull` of storage/compactor/planner.go, over the calls that come behind it.
use equinoxdb.Base.{ℕ, ◌≡◌, refl, inl, inr, true, false, ◌&&◌, not, arith, ◌==◌, Bool-cases}
use equinoxdb.Planner.{FileStore, DefaultPlanner, find_generations, fully_compacted}
use equinoxdb.Planner.{set_force_full, acquire, release}
use equinoxdb.Planner.Plans.{no_plan, hand_out, plan_level, plan_optimize, plan_full, plan}
use equinoxdb.Planner.System.{level_plan, optimize_plan, full_plan, idle_check, force}
use equinoxdb.Planner.System.{release_group}
use equinoxdb.Planner.System.{Reach, start, next, System}

plan_level_forced :
    (fs : FileStore) (c : DefaultPlanner) (l : ℕ)
    → c.force_full ≡ true
    → plan_level fs c l ≡ no_plan c
unfolding plan_level
plan_level_forced fs c l h = rw h refl

plan_optimize_forced :
    (fs : FileStore) (c : DefaultPlanner) → c.force_full ≡ true → plan_optimize fs c ≡ no_plan c
unfolding plan_optimize
plan_optimize_forced fs c h = rw h refl

fully_compacted_forced :
    (fs : FileStore) (c : DefaultPlanner)
    → c.force_full ≡ true
    → ((fully_compacted c fs).0).force_full ≡ true
unfolding fully_compacted find_generations
fully_compacted_forced fs c h =
    elim (Bool-cases
      (not (c.last_find_generations == 0) && fs.last_modified == c.last_find_generations)) [
        | inl e ↦ rw e h
        | inr e ↦ rw e h
      ]

-- No call of `Plan` is in the run.
abbrev pub IsPlanless : {s t : System} → Reach s t → Type 0
IsPlanless start = Unit {0}
IsPlanless (next r (level_plan fs l d)) = IsPlanless r
IsPlanless (next r (optimize_plan fs d)) = IsPlanless r
IsPlanless (next r (full_plan fs last_write now d)) = ⊥
IsPlanless (next r (idle_check fs d)) = IsPlanless r
IsPlanless (next r force) = IsPlanless r
IsPlanless (next r (release_group g o)) = IsPlanless r

Reach_forced :
    {s t : System} (r : Reach s t)
    → IsPlanless r
    → (s.planner).force_full ≡ true
    → (t.planner).force_full ≡ true
unfolding set_force_full release
Reach_forced start p h = h
Reach_forced (next {t} r (level_plan fs l d)) p h =
    let same = Reach_forced r p h in rw (plan_level_forced fs t.planner l same) same
Reach_forced (next {t} r (optimize_plan fs d)) p h =
    let same = Reach_forced r p h in rw (plan_optimize_forced fs t.planner same) same
Reach_forced (next r (full_plan fs last_write now d)) p h = absurd p
Reach_forced (next {t} r (idle_check fs d)) p h =
    fully_compacted_forced fs t.planner (Reach_forced r p h)
Reach_forced (next r force) p h = refl
Reach_forced (next r (release_group g o)) p h = Reach_forced r p h

plan_unforced :
    (fs : FileStore) (c : DefaultPlanner) (last_write now : ℕ)
    → c.force_full ≡ true
    → ((plan fs c last_write now).planner).force_full ≡ false
unfolding plan plan_full hand_out acquire
plan_unforced fs c last_write now h = ground arith

-- After `ForceFull`, and any run of calls of `PlanLevel`, `PlanOptimize`, `FullyCompacted` and
-- `ForceFull` and of releases, with any contents of the file store, but without a call of `Plan`:
-- neither `PlanLevel` nor `PlanOptimize` plans anything or changes the planner, and the next `Plan`
-- ends that at once, whether or not it returns a group.
pub set_force_full_lem :
    (s : System) {t : System} (r : Reach (record s { planner = set_force_full s.planner }) t)
    (fs : FileStore) (l last_write now : ℕ)
    → IsPlanless r
    → (plan_level fs t.planner l ≡ no_plan t.planner)
      × (plan_optimize fs t.planner ≡ no_plan t.planner)
      × (((plan fs t.planner last_write now).planner).force_full ≡ false)
unfolding set_force_full
set_force_full_lem s {t} r fs l last_write now p =
    let forced = Reach_forced r p refl in
    (
      plan_level_forced fs t.planner l forced,
      plan_optimize_forced fs t.planner forced,
      plan_unforced fs t.planner last_write now forced,
    )
