-- ===== src/Planner/Ids.antt =====
-- The generations that `findGenerations` makes when it does not answer from its cache.
use equinoxdb.Base.{==_refl}
use equinoxdb.Base.Bisect.{front}
use equinoxdb.Base.{ℕ, ◌≤◌, ◌<◌, ◌≡◌, refl, ◌∙◌, ◌≢◌, inl, inr, Bool, true, false, ◌&&◌, ◌||◌}
use equinoxdb.Base.{not, List, [], ◌∷◌, arith, ltb, ◌==◌, Bool-cases, All}
use equinoxdb.Bytes.{Bytes}
use equinoxdb.Bytes.Sets.{contains}
use equinoxdb.Planner.{FileStat, FileStore, Generation, is_sorted, insert_generation}
use equinoxdb.Planner.{sort_generations, DefaultPlanner, add_file, collect, find_generations}
use equinoxdb.Planner.Found.{path_list, contains-collect, contains-sort_generations}
use equinoxdb.Planner.Plans.{paths}

abbrev has_id : ℕ → List Generation → Bool
has_id n [] = false
has_id n (g ∷ gs) = g.id == n || has_id n gs

abbrev HasDistinctIds : List Generation → Type 0
HasDistinctIds [] = Unit {0}
HasDistinctIds (g ∷ gs) = (has_id g.id gs ≡ false) × HasDistinctIds gs

-- Every generation of the list has a larger id.
abbrev pub Newer : ℕ → List Generation → Type 0
Newer n = All (λ g. n < g.id)

abbrev pub HasRisingIds : List Generation → Type 0
HasRisingIds [] = Unit {0}
HasRisingIds (g ∷ gs) = Newer g.id gs × HasRisingIds gs

has_id-add_file :
    (n gen : ℕ) (f : FileStat) (gs : List Generation)
    → has_id n (add_file gen f gs) ≡ (gen == n || has_id n gs)
unfolding add_file
has_id-add_file n gen f [] = ground arith
has_id-add_file n gen f (g ∷ gs) = ground (arith, has_id-add_file n gen f gs)

HasDistinctIds-add_file :
    (gen : ℕ) (f : FileStat) (gs : List Generation)
    → HasDistinctIds gs
    → HasDistinctIds (add_file gen f gs)
unfolding add_file
HasDistinctIds-add_file gen f [] d = (refl, tt)
HasDistinctIds-add_file gen f (g ∷ gs) d = elim (Bool-cases (g.id == gen)) [
  | inl found ↦ rw found d
  | inr later ↦
      rw later (ground (arith, has_id-add_file g.id gen f gs), HasDistinctIds-add_file gen f gs d.1)
]

HasDistinctIds-collect :
    (fs : FileStore) (in_use : List Bytes) (skip : Bool) (gs : List Generation) (r : List FileStat)
    → HasDistinctIds gs
    → HasDistinctIds (collect fs in_use skip gs r)
unfolding collect
HasDistinctIds-collect fs in_use skip gs [] d = d
HasDistinctIds-collect fs in_use skip gs (f ∷ r) d =
    elim (Bool-cases (skip && contains f.path in_use)) [
      | inl out ↦ rw out (HasDistinctIds-collect fs in_use skip gs r d)
      | inr in_it ↦
          let gen = (fs.parse_file_name f.path).0 in
          rw in_it (
            HasDistinctIds-collect fs in_use skip (add_file gen f gs) r
              (HasDistinctIds-add_file gen f gs d))
    ]

Newer-mono : (m n : ℕ) (gs : List Generation) → m ≤ n → Newer n gs → Newer m gs
Newer-mono m n [] h a = tt
Newer-mono m n (g ∷ gs) h a = (omega arith, Newer-mono m n gs h a.1)

is_sorted→HasRisingIds :
    (gs : List Generation) → is_sorted gs ≡ true → HasDistinctIds gs → HasRisingIds gs
unfolding is_sorted
is_sorted→HasRisingIds [] s d = tt
is_sorted→HasRisingIds (g ∷ []) s d = (tt, tt)
is_sorted→HasRisingIds (g ∷ h ∷ r) s d =
    let rest : HasRisingIds (h ∷ r) = is_sorted→HasRisingIds (h ∷ r) (ground arith) d.1 in
    let less : g.id < h.id = ground arith in
    ((less, Newer-mono g.id h.id r (omega arith) rest.0), rest)

Newer-insert_generation :
    (n : ℕ) (g : Generation) (gs : List Generation)
    → n < g.id
    → Newer n gs
    → Newer n (insert_generation g gs)
unfolding insert_generation
Newer-insert_generation n g [] h a = (h, tt)
Newer-insert_generation n g (x ∷ r) h a = elim (Bool-cases (ltb x.id g.id)) [
  | inl later ↦ rw later (a.0, Newer-insert_generation n g r h a.1)
  | inr front ↦ rw front (h, a)
]

HasRisingIds-insert_generation :
    (g : Generation) (gs : List Generation)
    → has_id g.id gs ≡ false
    → HasRisingIds gs
    → HasRisingIds (insert_generation g gs)
unfolding insert_generation
HasRisingIds-insert_generation g [] n a = (tt, tt)
HasRisingIds-insert_generation g (x ∷ r) n a = elim (Bool-cases (ltb x.id g.id)) [
  | inl later ↦ rw later (
    Newer-insert_generation x.id g r (ground arith) a.0,
    HasRisingIds-insert_generation g r (ground arith) a.1,
  )
  | inr front ↦
      let less : g.id < x.id = ground arith in
      rw front ((less, Newer-mono g.id x.id r (omega arith) a.0), a)
]

has_id-insert_generation :
    (n : ℕ) (g : Generation) (gs : List Generation)
    → has_id n (insert_generation g gs) ≡ has_id n (g ∷ gs)
unfolding insert_generation
has_id-insert_generation n g [] = refl
has_id-insert_generation n g (x ∷ r) = ground (arith, has_id-insert_generation n g r)

has_id-sort_generations :
    (n : ℕ) (gs : List Generation) → has_id n (sort_generations gs) ≡ has_id n gs
unfolding sort_generations
has_id-sort_generations n [] = refl
has_id-sort_generations n (g ∷ gs) =
    ground (arith, has_id-insert_generation n g (sort_generations gs), has_id-sort_generations n gs)

sort_generations-HasRisingIds :
    (gs : List Generation) → HasDistinctIds gs → HasRisingIds (sort_generations gs)
unfolding sort_generations
sort_generations-HasRisingIds [] d = tt
sort_generations-HasRisingIds (g ∷ gs) d =
    HasRisingIds-insert_generation g (sort_generations gs) (has_id-sort_generations g.id gs ∙ d.0)
      (sort_generations-HasRisingIds gs d.1)

-- The cache does not answer.
abbrev pub IsMiss : DefaultPlanner → FileStore → Type 0
IsMiss c fs =
    (not (c.last_find_generations == 0) && fs.last_modified == c.last_find_generations) ≡ false

-- When its cache does not answer, `findGenerations` returns the generations with strictly
-- ascending ids (the oldest first), and their files are exactly those of the file store, without
-- the files in use if these are to be skipped.
pub find_generations-miss :
    (c : DefaultPlanner) (fs : FileStore) (skip : Bool)
    → IsMiss c fs
    → HasRisingIds (find_generations c fs skip).1
      × ((k : Bytes)
          → contains k (paths (find_generations c fs skip).1)
            ≡ (contains k (path_list fs.stats) && not (skip && contains k c.files_in_use)))
unfolding find_generations
find_generations-miss c fs skip m =
    let gs = collect fs c.files_in_use skip [] fs.stats in
    let ids = HasDistinctIds-collect fs c.files_in_use skip [] fs.stats tt in
    let members = λ (k : Bytes). contains-collect fs c.files_in_use skip k [] fs.stats in
    elim (Bool-cases (is_sorted gs)) [
      | inl in_order ↦ rw (m, in_order) (is_sorted→HasRisingIds gs in_order ids, members)
      | inr jumbled ↦
          rw (m, jumbled)
            (sort_generations-HasRisingIds gs ids, λ k. contains-sort_generations k gs ∙ members k)
    ]

-- While the file store is not modified, `findGenerations` answers a later call from its cache:
-- it returns the same generations again, whatever files were taken into use meanwhile and whether
-- or not those are to be skipped.
pub find_generations-stale :
    (c : DefaultPlanner) (fs : FileStore) (skip again : Bool) (in_use : List Bytes)
    → fs.last_modified ≢ 0
    → (find_generations
        (record (find_generations c fs skip).0 { files_in_use = in_use })
        fs
        again).1
      ≡ (find_generations c fs skip).1
unfolding find_generations
find_generations-stale c fs skip again in_use h =
    let none_before : (fs.last_modified == 0) ≡ false = ground arith in
    elim (Bool-cases
      (not (c.last_find_generations == 0) && fs.last_modified == c.last_find_generations)) [
        | inl hit ↦ rw hit (rw hit)
        | inr miss ↦ rw miss (rw (none_before, ==_refl fs.last_modified))
      ]
