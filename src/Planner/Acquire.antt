-- ===== src/Planner/Acquire.antt =====
-- `acquire` and `Release`, and what a plan does to the files in use.
use equinoxdb.Base.{◌≡◌, refl, sym, ◌∙◌, inl, inr, true, false, ◌&&◌, ◌||◌, not, List, [], ◌∷◌}
use equinoxdb.Base.{map, arith, Bool-cases, any, flatten}
use equinoxdb.Bytes.{Bytes, sort_bytes}
use equinoxdb.Bytes.Dedup.{contains-sort_bytes}
use equinoxdb.Bytes.Distinct.{Distinct, Apart, Distinct-append, Distinct-right, Distinct-Apart}
use equinoxdb.Bytes.Distinct.{Distinct-sort_bytes, Distinct-left}
use equinoxdb.Bytes.Order.{equal→eq}
use equinoxdb.Bytes.Sets.{contains, remove, contains-append, contains-remove}
use equinoxdb.Planner.{Generation, DefaultPlanner, CompactionGroup, acquire, remove_all, release}
use equinoxdb.Planner.Plans.{paths, Planned, no_plan, hand_out}

-- A plan grants files: those of its groups, which nobody had, are in use afterwards, and nothing
-- else changes there. The files of the groups are distinct.
pub record IsGrant (c : DefaultPlanner) (r : Planned) : Type 0 where
  pub fresh : Apart (flatten r.groups) c.files_in_use
  pub grown :
      (k : Bytes)
      → contains k (r.planner).files_in_use
        ≡ (contains k (flatten r.groups) || contains k c.files_in_use)
  pub distinct : Distinct (flatten r.groups)

pub no_plan-IsGrant : (c : DefaultPlanner) → IsGrant c (no_plan c)
no_plan-IsGrant c = record { fresh = λ k m. cc; grown = λ k. refl; distinct = tt }

-- The nested loops of `acquire` look at each file of the groups.
any-flatten :
    (in_use : List Bytes) (g : List Bytes) → any (λ f. contains f in_use) g ≡ false → Apart g in_use
any-flatten in_use [] h k m = cc
any-flatten in_use (f ∷ g) h k m =
    ground
      (arith, equal→eq k f, λ (n : contains k g ≡ true). any-flatten in_use g (ground arith) k n)

any-any-Apart :
    (in_use : List Bytes) (groups : List CompactionGroup)
    → any (any (λ f. contains f in_use)) groups ≡ false
    → Apart (flatten groups) in_use
any-any-Apart in_use [] h k m = cc
any-any-Apart in_use (g ∷ gs) h k m = ground (
  arith,
  contains-append k g (flatten gs),
  λ (n : contains k g ≡ true). any-flatten in_use g (ground arith) k n,
  λ (n : contains k (flatten gs) ≡ true). any-any-Apart in_use gs (ground arith) k n,
)

pub hand_out-IsGrant :
    (c : DefaultPlanner) (groups : List CompactionGroup)
    → Distinct (flatten groups)
    → IsGrant c (hand_out c groups)
unfolding hand_out acquire
hand_out-IsGrant c groups d =
    elim (Bool-cases (any (any (λ f. contains f c.files_in_use)) groups)) [
      | inl taken ↦ rw taken (record { fresh = λ k m. cc; grown = λ k. refl; distinct = tt })
      | inr free ↦ rw free (record {
        fresh = any-any-Apart c.files_in_use groups free;
        grown = λ k. contains-append k (flatten groups) c.files_in_use;
        distinct = d;
      })
    ]

pub contains-remove_all :
    (k : Bytes) (fs in_use : List Bytes)
    → contains k (remove_all fs in_use) ≡ (not (contains k fs) && contains k in_use)
unfolding remove_all
contains-remove_all k [] in_use = refl
contains-remove_all k (f ∷ fs) in_use =
    ground (arith, contains-remove_all k fs (remove f in_use), contains-remove k f in_use)

-- A release makes exactly the files of its groups available again.
pub contains-release :
    (k : Bytes) (c : DefaultPlanner) (groups : List CompactionGroup)
    → contains k (release c groups).files_in_use
      ≡ (not (contains k (flatten groups)) && contains k c.files_in_use)
unfolding release
contains-release k c groups = contains-remove_all k (flatten groups) c.files_in_use

-- Sorting the files of each group keeps the files.
contains-flatten_sorted :
    (k : Bytes) (gs : List (List Generation))
    → contains k (flatten (map (λ g. sort_bytes (paths g)) gs))
      ≡ contains k (flatten (map paths gs))
contains-flatten_sorted k [] = refl
contains-flatten_sorted k (g ∷ gs) = ground (
  arith,
  contains-append k (sort_bytes (paths g)) (flatten (map (λ h. sort_bytes (paths h)) gs)),
  contains-append k (paths g) (flatten (map paths gs)),
  contains-sort_bytes k (paths g),
  contains-flatten_sorted k gs,
)

pub Distinct-flatten_sorted :
    (gs : List (List Generation))
    → Distinct (flatten (map paths gs))
    → Distinct (flatten (map (λ g. sort_bytes (paths g)) gs))
Distinct-flatten_sorted [] d = tt
Distinct-flatten_sorted (g ∷ gs) d =
    let rest = flatten (map paths gs) in
    Distinct-append (sort_bytes (paths g)) (flatten (map (λ h. sort_bytes (paths h)) gs))
      (Distinct-sort_bytes (paths g) (Distinct-left (paths g) rest d))
      (Distinct-flatten_sorted gs (Distinct-right (paths g) rest d))
      (λ k m.
        contains-flatten_sorted k gs
        ∙ Distinct-Apart (paths g) rest d k (sym (contains-sort_bytes k (paths g)) ∙ m))
