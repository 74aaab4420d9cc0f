-- ===== src/Planner.antt =====
-- storage/compactor/planner.go and type_generation.go: generations of SST files, and the state of
-- the planner that hands files out to compactions. Each method runs under the planner's lock or
-- reads one field under it, so it is one step.
pub mod Plans
pub mod Lists
pub mod Chunks
pub mod Found
pub mod Groups
pub mod Acquire
pub mod Exclusive
pub mod Ids
pub mod System
pub mod Limits
pub mod Levels
pub mod Forced
use equinoxdb.Values.{size, ordered}
use equinoxdb.Base.{ℕ, zero, suc, ◌+◌, ◌%◌, ◌^◌, Bool, true, false, ◌&&◌, not, List, [], ◌∷◌}
use equinoxdb.Base.{◌++◌, ltb, leb, ◌==◌, if◌then◌else◌, length, take, drop, any, flatten}
use equinoxdb.Bytes.{Bytes}
use equinoxdb.Bytes.Sets.{contains, remove}

-- store.FileStat: what the file store tells of one SST file.
pub record FileStat : Type 0 where
  pub path : Bytes
  pub has_tombstone : Bool
  pub file_size : ℕ
  pub file_modified : ℕ
  pub min_time : ℕ
  pub max_time : ℕ
  pub min_key : Bytes
  pub max_key : Bytes

-- The interface `FileStore` as the planner sees it at one moment. A name that does not parse has
-- generation and sequence 0, since the planner drops the error. A time.Time is a number, the zero
-- time 0.
pub record FileStore : Type 0 where
  pub stats : List FileStat
  pub last_modified : ℕ
  pub block_count : Bytes → ℕ → ℕ
  pub parse_file_name : Bytes → ℕ × ℕ

-- A generation is made for its first file, so its list of files is never empty.
pub record Generation : Type 0 where
  pub id : ℕ
  pub first_file : FileStat
  pub more_files : List FileStat

abbrev pub files : Generation → List FileStat
files g = g.first_file ∷ g.more_files

unfoldable pub sum_sizes : List FileStat → ℕ
sum_sizes [] = 0
sum_sizes (f ∷ fs) = (f.file_size + sum_sizes fs) % 2 ^ 64

-- `size`, a uint64.
unfoldable pub generation_size : Generation → ℕ
unfolding sum_sizes
generation_size g = sum_sizes (files g)

module _ (fs : FileStore) where
  unfoldable pub level : Generation → ℕ
  level g = let seq = (fs.parse_file_name (g.first_file.path)).1 in if ltb seq 4 then seq else 4

  -- The level of several generations: the largest of theirs.
  unfoldable pub group_level : List Generation → ℕ → ℕ
  unfolding level
  group_level [] best = best
  group_level (g ∷ gs) best = group_level gs (if ltb best (level g) then level g else best)

unfoldable pub has_tombstones : Generation → Bool
has_tombstones g = any (λ f. f.has_tombstone) (files g)

unfoldable pub any_tombstones : List Generation → Bool
unfolding has_tombstones
any_tombstones gs = any has_tombstones gs

-- `chunk`, with the length for fuel: each round takes at least one generation if `size` is not 0.
unfoldable pub chunk_loop : ℕ → ℕ → List Generation → List (List Generation)
chunk_loop fuel size [] = []
chunk_loop zero size (g ∷ gs) = []
chunk_loop (suc fuel) size (g ∷ gs) =
    let rest = chunk_loop fuel size (drop size (g ∷ gs)) in
    if leb size (length (g ∷ gs)) then take size (g ∷ gs) ∷ rest else (g ∷ gs) ∷ []

unfoldable pub chunk : ℕ → List Generation → List (List Generation)
unfolding chunk_loop
chunk size gs = chunk_loop (length gs) size gs

-- `IsSorted` by ascending id.
unfoldable pub is_sorted : List Generation → Bool
is_sorted [] = true
is_sorted (g ∷ []) = true
is_sorted (g ∷ h ∷ r) = not (ltb h.id g.id) && is_sorted (h ∷ r)

-- `sort.Sort` by `Less`.
unfoldable pub insert_generation : Generation → List Generation → List Generation
insert_generation g [] = g ∷ []
insert_generation g (h ∷ r) =
    let rest = insert_generation g r in if ltb h.id g.id then h ∷ rest else g ∷ h ∷ r

unfoldable pub sort_generations : List Generation → List Generation
unfolding insert_generation
sort_generations [] = []
sort_generations (g ∷ r) = insert_generation g (sort_generations r)

-- DefaultPlanner, without its lock and its file store, which the methods take.
pub record DefaultPlanner : Type 0 where
  pub cold_duration : ℕ
  pub last_plan_check : ℕ
  pub last_find_generations : ℕ
  pub last_generations : List Generation
  pub force_full : Bool
  pub files_in_use : List Bytes

unfoldable pub new_default_planner : ℕ → DefaultPlanner
new_default_planner cold = record {
  cold_duration = cold;
  last_plan_check = 0;
  last_find_generations = 0;
  last_generations = [];
  force_full = false;
  files_in_use = [];
}

-- The map of generations by id, in the order in which they appear.
unfoldable pub add_file : ℕ → FileStat → List Generation → List Generation
add_file gen f [] = record { id = gen; first_file = f; more_files = [] } ∷ []
add_file gen f (g ∷ gs) =
    let rest = add_file gen f gs in
    if g.id == gen then record g { more_files = g.more_files ++ (f ∷ []) } ∷ gs else g ∷ rest

-- The loop over the stats in `findGenerations`.
unfoldable pub collect :
    FileStore → List Bytes → Bool → List Generation → List FileStat → List Generation
collect fs in_use skip gens [] = gens
collect fs in_use skip gens (f ∷ r) =
    collect fs in_use skip
      (if skip && contains f.path in_use
        then gens
        else add_file (fs.parse_file_name f.path).0 f gens)
      r

unfoldable pub find_generations :
    DefaultPlanner → FileStore → Bool → DefaultPlanner × List Generation
unfolding collect add_file is_sorted sort_generations insert_generation
find_generations c fs skip =
    let found = collect fs c.files_in_use skip [] fs.stats in
    let ordered = if is_sorted found then found else sort_generations found in
    if not (c.last_find_generations == 0) && fs.last_modified == c.last_find_generations
    then (c, c.last_generations)
    else (
      record c { last_find_generations = fs.last_modified; last_generations = ordered },
      ordered,
    )

-- `FullyCompacted`, without its message.
unfoldable pub fully_compacted : DefaultPlanner → FileStore → DefaultPlanner × Bool
fully_compacted c fs =
    let (c', gens) = find_generations c fs false in
    (c', not (ltb 1 (length gens)) && not (any_tombstones gens))

unfoldable pub set_force_full : DefaultPlanner → DefaultPlanner
set_force_full c = record c { force_full = true }

-- A CompactionGroup is the paths of the files to compact together.
abbrev pub CompactionGroup : Type 0
CompactionGroup = List Bytes

-- All or nothing: no file is taken if one of them is in use.
unfoldable pub acquire : DefaultPlanner → List CompactionGroup → DefaultPlanner × Bool
acquire c groups =
    if any (any (λ f. contains f c.files_in_use)) groups
    then (c, false)
    else (record c { files_in_use = flatten groups ++ c.files_in_use }, true)

unfoldable pub remove_all : List Bytes → List Bytes → List Bytes
remove_all [] in_use = in_use
remove_all (f ∷ fs) in_use = remove_all fs (remove f in_use)

unfoldable pub release : DefaultPlanner → List CompactionGroup → DefaultPlanner
unfolding remove_all
release c groups = record c { files_in_use = remove_all (flatten groups) c.files_in_use }
