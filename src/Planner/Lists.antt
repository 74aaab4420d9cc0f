-- ===== src/Planner/Lists.antt =====
-- Paths of lists of generations.
use equinoxdb.Base.Picks.{kept, omitted}
use equinoxdb.Base.{◌≡◌, refl, sym, ap, ◌∙◌, false, List, [], ◌∷◌, ◌++◌, map, append_assoc}
use equinoxdb.Base.{arith, flatten}
use equinoxdb.Base.Picks.{Picks, none_left}
use equinoxdb.Bytes.{Bytes}
use equinoxdb.Bytes.Distinct.{Distinct, Distinct-right}
use equinoxdb.Bytes.Sets.{contains, contains-append}
use equinoxdb.Planner.{Generation, files}
use equinoxdb.Planner.Plans.{paths}

pub paths-append : (a b : List Generation) → paths (a ++ b) ≡ paths a ++ paths b
paths-append [] b = refl
paths-append (g ∷ a) b =
    ap (◌++◌ (map (λ f. f.path) (files g))) (paths-append a b)
    ∙ sym (append_assoc (map (λ f. f.path) (files g)) (paths a) (paths b))

pub flatten-paths : (gs : List (List Generation)) → flatten (map paths gs) ≡ paths (flatten gs)
flatten-paths [] = refl
flatten-paths (g ∷ gs) = ap (◌++◌ (paths g)) (flatten-paths gs) ∙ sym (paths-append g (flatten gs))

-- Leaving generations out leaves paths out.
pub contains-Picks :
    {a b : List Generation}
    → Picks a b
    → (f : Bytes) → contains f (paths b) ≡ false
    → contains f (paths a) ≡ false
contains-Picks none_left f n = n
contains-Picks (kept x {a = a} {b = b} p) f n =
    let ps = map (λ s. s.path) (files x) in
    ground (
      arith,
      contains-append f ps (paths a),
      contains-append f ps (paths b),
      λ (m : contains f (paths b) ≡ false). contains-Picks p f m,
    )
contains-Picks (omitted x {b = b} p) f n =
    let ps = map (λ s. s.path) (files x) in
    contains-Picks p f (ground (arith, contains-append f ps (paths b)))

append-Distinct :
    (ps : List Bytes) (a b : List Generation)
    → ((f : Bytes) → contains f (paths b) ≡ false → contains f (paths a) ≡ false)
    → Distinct (ps ++ paths b)
    → Distinct (paths a)
    → Distinct (ps ++ paths a)
append-Distinct [] a b n d da = da
append-Distinct (p ∷ ps) a b n d da = (
  ground (arith, contains-append p ps (paths b), contains-append p ps (paths a), n p),
  append-Distinct ps a b n d.1 da,
)

pub Distinct-Picks : {a b : List Generation} → Picks a b → Distinct (paths b) → Distinct (paths a)
Distinct-Picks none_left d = d
Distinct-Picks (kept x {a = a} {b = b} p) d =
    let ps = map (λ s. s.path) (files x) in
    append-Distinct ps a b (contains-Picks p) d (Distinct-Picks p (Distinct-right ps (paths b) d))
Distinct-Picks (omitted x {b = b} p) d =
    Distinct-Picks p (Distinct-right (map (λ s. s.path) (files x)) (paths b) d)
