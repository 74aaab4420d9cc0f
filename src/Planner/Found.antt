-- ===== src/Planner/Found.antt =====
-- `findGenerations`: which files it groups, and in which order.
use equinoxdb.Base.{sym, subst}
use equinoxdb.Base.{◌∙◌, Bool, true, false, ◌&&◌, not, append_assoc, ltb}
use equinoxdb.Base.Picks.{kept, omitted, Picks-refl}
use equinoxdb.Bytes.Distinct.{Distinct, Apart, Distinct-append, Distinct-right, Distinct-Apart}
use equinoxdb.Bytes.Distinct.{Distinct-left, Distinct-middle}
use equinoxdb.Bytes.Order.{equal_refl, equal→eq}
use equinoxdb.Planner.{FileStore, insert_generation, sort_generations, collect}
use equinoxdb.Planner.Lists.{Distinct-Picks}
use equinoxdb.Base.{ℕ, ◌≡◌, refl, ap, inl, inr, ◌||◌, List, [], ◌∷◌, ◌++◌, map, arith, ◌==◌}
use equinoxdb.Base.{Bool-cases}
use equinoxdb.Bytes.{Bytes, equal}
use equinoxdb.Bytes.Sets.{contains, contains-append}
use equinoxdb.Planner.{FileStat, Generation, files, add_file}
use equinoxdb.Planner.Plans.{paths}

abbrev pub path_list : List FileStat → List Bytes
path_list fs = map (λ f. f.path) fs

path_list-append : (a b : List FileStat) → path_list (a ++ b) ≡ path_list a ++ path_list b
path_list-append [] b = refl
path_list-append (x ∷ a) b = ap (◌∷◌ x.path) (path_list-append a b)

contains-add_file :
    (k : Bytes) (gen : ℕ) (f : FileStat) (gs : List Generation)
    → contains k (paths (add_file gen f gs)) ≡ (equal k f.path || contains k (paths gs))
unfolding add_file
contains-add_file k gen f [] = ground arith
contains-add_file k gen f (g ∷ gs) = elim (Bool-cases (g.id == gen)) [
  | inl here ↦ rw here (
      ground (
        arith,
        contains-append k (path_list (files g)) (paths gs),
        contains-append k (path_list (files g ++ (f ∷ []))) (paths gs),
        ap (contains k) (path_list-append (files g) (f ∷ [])),
        contains-append k (path_list (files g)) (f.path ∷ []),
      ))
  | inr later ↦ rw later (
      ground (
        arith,
        contains-append k (path_list (files g)) (paths gs),
        contains-append k (path_list (files g)) (paths (add_file gen f gs)),
        contains-add_file k gen f gs,
      ))
]

Distinct-add_file :
    (gen : ℕ) (f : FileStat) (gs : List Generation)
    → Distinct (paths gs)
    → contains f.path (paths gs) ≡ false
    → Distinct (paths (add_file gen f gs))
unfolding add_file
Distinct-add_file gen f [] d n = (refl, tt)
Distinct-add_file gen f (g ∷ gs) d n =
    let ps = path_list (files g) in
    elim (Bool-cases (g.id == gen)) [
      | inl here ↦
          let middle = Distinct-middle f.path ps (paths gs) d n in
          let regroup : path_list (files g ++ (f ∷ [])) ++ paths gs ≡ ps ++ (f.path ∷ paths gs) =
            ap (λ l. l ++ paths gs) (path_list-append (files g) (f ∷ []))
            ∙ append_assoc ps (f.path ∷ []) (paths gs) in
          rw here (subst Distinct (sym regroup) middle)
      | inr later ↦
          let ih =
            Distinct-add_file gen f gs (Distinct-right ps (paths gs) d)
              (ground (arith, contains-append f.path ps (paths gs))) in
          rw later (
            Distinct-append ps (paths (add_file gen f gs)) (Distinct-left ps (paths gs) d) ih
              (λ k m. ground (
                arith,
                contains-add_file k gen f gs,
                Distinct-Apart ps (paths gs) d k m,
                equal→eq k f.path,
                contains-append f.path ps (paths gs),
              )))
    ]

module _ (fs : FileStore) (in_use : List Bytes) (skip : Bool) where
  abbrev gen_of : FileStat → ℕ
  gen_of f = (fs.parse_file_name f.path).0

  abbrev skipped : Bytes → Bool
  skipped k = skip && contains k in_use

  pub contains-collect :
      (k : Bytes) (gs : List Generation) (r : List FileStat)
      → contains k (paths (collect fs in_use skip gs r))
        ≡ (contains k (paths gs) || contains k (path_list r) && not (skipped k))
  unfolding collect
  contains-collect k gs [] = ground arith
  contains-collect k gs (f ∷ r) = elim (Bool-cases (skipped f.path)) [
    | inl out ↦ rw out (ground (arith, contains-collect k gs r, equal→eq k f.path))
    | inr in_it ↦ rw in_it (
        ground (
          arith,
          contains-collect k (add_file (gen_of f) f gs) r,
          contains-add_file k (gen_of f) f gs,
          equal→eq k f.path,
        ))
  ]

  pub Distinct-collect :
      (gs : List Generation) (r : List FileStat)
      → Distinct (paths gs)
      → Distinct (path_list r)
      → Apart (path_list r) (paths gs)
      → Distinct (paths (collect fs in_use skip gs r))
  unfolding collect
  Distinct-collect gs [] d e a = d
  Distinct-collect gs (f ∷ r) d e a = elim (Bool-cases (skipped f.path)) [
    | inl out ↦ rw out (Distinct-collect gs r d e.1 (λ k m. a k (ground (arith, m))))
    | inr in_it ↦ rw in_it (
        Distinct-collect (add_file (gen_of f) f gs) r
          (Distinct-add_file (gen_of f) f gs d (a f.path (rw (equal_refl f.path)))) e.1
          (λ k m. ground (
            arith,
            contains-add_file k (gen_of f) f gs,
            a k (ground (arith, m)),
            equal→eq k f.path,
            e.0,
          )))
  ]

contains-insert_generation :
    (k : Bytes) (g : Generation) (gs : List Generation)
    → contains k (paths (insert_generation g gs)) ≡ contains k (paths (g ∷ gs))
unfolding insert_generation
contains-insert_generation k g [] = refl
contains-insert_generation k g (h ∷ r) = elim (Bool-cases (ltb h.id g.id)) [
  | inl later ↦ rw later (
      ground (
        arith,
        contains-insert_generation k g r,
        contains-append k (path_list (files h)) (paths (insert_generation g r)),
        contains-append k (path_list (files h)) (paths r),
        contains-append k (path_list (files g)) (paths (h ∷ r)),
        contains-append k (path_list (files g)) (paths r),
      ))
  | inr here ↦ rw here
]

pub contains-sort_generations :
    (k : Bytes) (gs : List Generation)
    → contains k (paths (sort_generations gs)) ≡ contains k (paths gs)
unfolding sort_generations
contains-sort_generations k [] = refl
contains-sort_generations k (g ∷ gs) = ground (
  arith,
  contains-insert_generation k g (sort_generations gs),
  contains-append k (path_list (files g)) (paths (sort_generations gs)),
  contains-append k (path_list (files g)) (paths gs),
  contains-sort_generations k gs,
)

Distinct-insert_generation :
    (g : Generation) (gs : List Generation)
    → Distinct (paths (g ∷ gs))
    → Distinct (paths (insert_generation g gs))
unfolding insert_generation
Distinct-insert_generation g [] d = d
Distinct-insert_generation g (h ∷ r) d = elim (Bool-cases (ltb h.id g.id)) [
  | inl later ↦
      let ps = path_list (files h) in
      let without_h = Distinct-Picks (kept g (omitted h (Picks-refl r))) d in
      let rest = Distinct-right (path_list (files g)) (paths (h ∷ r)) d in
      rw later (
        Distinct-append ps (paths (insert_generation g r)) (Distinct-left ps (paths r) rest)
          (Distinct-insert_generation g r without_h)
          (λ k m. ground (
            arith,
            contains-insert_generation k g r,
            contains-append k (path_list (files g)) (paths r),
            contains-append k ps (paths r),
            Distinct-Apart ps (paths r) rest k m,
            λ (n : contains k (path_list (files g)) ≡ true).
                Distinct-Apart (path_list (files g)) (paths (h ∷ r)) d k n,
          )))
  | inr here ↦ rw here d
]

pub Distinct-sort_generations :
    (gs : List Generation) → Distinct (paths gs) → Distinct (paths (sort_generations gs))
unfolding sort_generations
Distinct-sort_generations [] d = tt
Distinct-sort_generations (g ∷ gs) d =
    let ps = path_list (files g) in
    Distinct-insert_generation g (sort_generations gs) (
      Distinct-append ps (paths (sort_generations gs)) (Distinct-left ps (paths gs) d)
        (Distinct-sort_generations gs (Distinct-right ps (paths gs) d))
        (λ k m. contains-sort_generations k gs ∙ Distinct-Apart ps (paths gs) d k m))
