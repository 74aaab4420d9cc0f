-- ===== src/Planner/System.antt =====
-- The planner over time: the calls that the engine makes (storage/engine_compact_level.go), in any
-- order and with any state of the file store, and the groups that are being compacted.
use equinoxdb.Base.{ℕ, ◌≡◌, refl, sym, ap, ◌∙◌, true, false, ◌||◌, List, [], ◌∷◌, ◌++◌, arith}
use equinoxdb.Base.{flatten, flatten-append}
use equinoxdb.Bytes.{Bytes}
use equinoxdb.Bytes.Distinct.{Distinct, Apart, Distinct-append, Distinct-right, Distinct-Apart}
use equinoxdb.Bytes.Distinct.{Distinct-left}
use equinoxdb.Bytes.Sets.{contains, contains-append}
use equinoxdb.Planner.{FileStore, DefaultPlanner, new_default_planner, fully_compacted}
use equinoxdb.Planner.{set_force_full, CompactionGroup, release}
use equinoxdb.Planner.Acquire.{contains-release}
use equinoxdb.Planner.Exclusive.{find_generations-IsFind, IsSafe, plan_level-IsSafe}
use equinoxdb.Planner.Exclusive.{plan_optimize-IsSafe, plan-IsSafe}
use equinoxdb.Planner.Found.{path_list}
use equinoxdb.Planner.Plans.{paths, Planned, plan_level, plan_optimize, plan}

-- The groups that were handed out and not released.
pub record System : Type 0 where
  pub planner : DefaultPlanner
  pub outstanding : List CompactionGroup

-- Taking one group out of the outstanding ones.
pub data Out (g : CompactionGroup) : List CompactionGroup → List CompactionGroup → Type 0 where
  here : (gs : List CompactionGroup) → Out g (g ∷ gs) gs
  there :
      (h : CompactionGroup) {gs rest : List CompactionGroup}
      → Out g gs rest
      → Out g (h ∷ gs) (h ∷ rest)

abbrev pub after : System → Planned → System
after s r = record { planner = r.planner; outstanding = r.groups ++ s.outstanding }

abbrev pub HasDistinctPaths : FileStore → Type 0
HasDistinctPaths fs = Distinct (path_list fs.stats)

-- The file store lists each file once. The engine releases the groups one at a time.
pub data Step (s : System) : System → Type 0 where
  level_plan :
      (fs : FileStore) (l : ℕ) → HasDistinctPaths fs → Step s (after s (plan_level fs s.planner l))
  optimize_plan :
      (fs : FileStore) → HasDistinctPaths fs → Step s (after s (plan_optimize fs s.planner))
  full_plan :
      (fs : FileStore) (last_write now : ℕ)
      → HasDistinctPaths fs
      → Step s (after s (plan fs s.planner last_write now))
  idle_check :
      (fs : FileStore)
      → HasDistinctPaths fs
      → Step s (record s { planner = (fully_compacted s.planner fs).0 })
  force : Step s (record s { planner = set_force_full s.planner })
  release_group :
      (g : CompactionGroup) {rest : List CompactionGroup}
      → Out g s.outstanding rest
      → Step s (record { planner = release s.planner (g ∷ []); outstanding = rest })

pub data Reach (s : System) : System → Type 0 where
  start : Reach s s
  next : {t u : System} → Reach s t → Step t u → Reach s u

abbrev pub initial : ℕ → System
initial cold = record { planner = new_default_planner cold; outstanding = [] }

-- The files in use are those of the outstanding groups, and no file is in two of them.
pub record IsExclusive (s : System) : Type 0 where
  pub distinct : Distinct (flatten s.outstanding)
  pub held : (k : Bytes) → contains k (s.planner).files_in_use ≡ contains k (flatten s.outstanding)
  pub cached : Distinct (paths (s.planner).last_generations)

after-IsExclusive :
    (s : System) (r : Planned) → IsExclusive s → IsSafe s.planner r → IsExclusive (after s r)
after-IsExclusive s r v g = record {
  distinct = rw (flatten-append r.groups s.outstanding) (
      Distinct-append (flatten r.groups) (flatten s.outstanding) ((g.grant).distinct) v.distinct
        (λ k m. sym (v.held k) ∙ (g.grant).fresh k m));
  held = λ k. ground (
    arith,
    flatten-append r.groups s.outstanding,
    contains-append k (flatten r.groups) (flatten s.outstanding),
    (g.grant).grown k,
    v.held k,
  );
  cached = g.still_cached;
}

Out-contains :
    (k : Bytes) {g : CompactionGroup} {gs rest : List CompactionGroup}
    → Out g gs rest
    → contains k (flatten gs) ≡ (contains k g || contains k (flatten rest))
Out-contains k {g} (here gs) = contains-append k g (flatten gs)
Out-contains k {g} (there h {gs = gs} {rest = rest} o) =
    ground (
      arith,
      contains-append k h (flatten gs),
      contains-append k h (flatten rest),
      Out-contains k o,
    )

-- The groups that stay are distinct still, and apart from the one that goes.
Out-Distinct :
    {g : CompactionGroup} {gs rest : List CompactionGroup}
    → Out g gs rest
    → Distinct (flatten gs)
    → Distinct (flatten rest) × Apart g (flatten rest)
Out-Distinct {g} (here gs) d = (Distinct-right g (flatten gs) d, Distinct-Apart g (flatten gs) d)
Out-Distinct {g} (there h {gs = gs} {rest = rest} o) d =
    let (dr, ar) = Out-Distinct o (Distinct-right h (flatten gs) d) in
    let apart = Distinct-Apart h (flatten gs) d in
    (
      Distinct-append h (flatten rest) (Distinct-left h (flatten gs) d) dr
          (λ k m. ground (arith, apart k m, Out-contains k o)),
      λ k m. ground (
        arith,
        contains-append k h (flatten rest),
        ar k m,
        Out-contains k o,
        λ (n : contains k h ≡ true). apart k n,
      ),
    )

release-last_generations :
    (c : DefaultPlanner) (gs : List CompactionGroup)
    → (release c gs).last_generations ≡ c.last_generations
unfolding release
release-last_generations c gs = refl

release-IsExclusive :
    (s : System) (g : CompactionGroup) {rest : List CompactionGroup}
    → Out g s.outstanding rest
    → IsExclusive s
    → IsExclusive (record { planner = release s.planner (g ∷ []); outstanding = rest })
release-IsExclusive s g {rest} o v =
    let (d, apart) = Out-Distinct o v.distinct in
    record {
      distinct = d;
      held = λ k. ground (
        arith,
        contains-release k s.planner (g ∷ []),
        contains-append k g [],
        v.held k,
        Out-contains k o,
        λ (n : contains k g ≡ true). apart k n,
      );
      cached = rw (release-last_generations s.planner (g ∷ [])) v.cached;
    }

idle-IsExclusive :
    (s : System) (fs : FileStore)
    → HasDistinctPaths fs
    → IsExclusive s
    → IsExclusive (record s { planner = (fully_compacted s.planner fs).0 })
unfolding fully_compacted
idle-IsExclusive s fs u v =
    let f = find_generations-IsFind s.planner fs v.cached u false in
    record {
      distinct = v.distinct;
      held = λ k. ap (contains k) f.same_use ∙ v.held k;
      cached = f.cached;
    }

Step-IsExclusive : {s t : System} → Step s t → IsExclusive s → IsExclusive t
unfolding set_force_full
Step-IsExclusive {s} (level_plan fs l u) v =
    after-IsExclusive s (plan_level fs s.planner l) v (plan_level-IsSafe s.planner fs v.cached u l)
Step-IsExclusive {s} (optimize_plan fs u) v =
    after-IsExclusive s (plan_optimize fs s.planner) v
      (plan_optimize-IsSafe s.planner fs v.cached u)
Step-IsExclusive {s} (full_plan fs w now u) v =
    after-IsExclusive s (plan fs s.planner w now) v (plan-IsSafe s.planner fs v.cached u w now)
Step-IsExclusive {s} (idle_check fs u) v = idle-IsExclusive s fs u v
Step-IsExclusive {s} force v = record { distinct = v.distinct; held = v.held; cached = v.cached }
Step-IsExclusive {s} (release_group g o) v = release-IsExclusive s g o v

Reach-IsExclusive : {s t : System} → IsExclusive s → Reach s t → IsExclusive t
Reach-IsExclusive v start = v
Reach-IsExclusive v (next r st) = Step-IsExclusive st (Reach-IsExclusive v r)

initial-IsExclusive : (cold : ℕ) → IsExclusive (initial cold)
unfolding new_default_planner
initial-IsExclusive cold = record { distinct = tt; held = λ k. refl; cached = tt }

-- From a new planner, after any calls of `PlanLevel`, `PlanOptimize`, `Plan`, `FullyCompacted` and
-- `ForceFull` and any releases of single groups, in any order and with any contents of the file
-- store (no path listed twice), no file is in two outstanding groups or twice in one, and the
-- files in use are exactly those of the outstanding groups.
pub Reach-initial-IsExclusive : (cold : ℕ) {s : System} → Reach (initial cold) s → IsExclusive s
Reach-initial-IsExclusive cold r = Reach-IsExclusive (initial-IsExclusive cold) r
