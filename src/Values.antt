-- ===== src/Values.antt =====
-- storage/types/value.go and the `Values` of storage/types/values.gen.go: time-stamped values.
-- An int64 timestamp is given by its distance from math.MinInt64, a number below 2 ^ 64: the code
-- only compares timestamps, and the shift keeps every comparison.
pub mod Order
pub mod Find
pub mod Range
pub mod Dedup
pub mod Merging
pub mod Merge
use equinoxdb.Base.{ℕ, zero, suc, ◌+◌, ◌-◌, ◌/◌, ◌<◌, List, [], ◌∷◌, ◌++◌, length, get_elem?}
use equinoxdb.Base.{Option, none, some, ◌>>=◌, Bool, true, false, ◌&&◌, ◌||◌, not}
use equinoxdb.Base.{ltb, leb, ◌==◌, if◌then◌else◌, take, drop}
use equinoxdb.Base.Slices.{slice, slice_to, slice_from, copy_at}

-- A float64 is its 64 bits, a string its bytes.
pub data Value : Type 0 where
  boolean_value : (unix_nano : ℕ) (value : Bool) → Value
  float_value : (unix_nano : ℕ) (value : ℕ) → Value
  integer_value : (unix_nano : ℕ) (value : ℕ) → Value
  string_value : (unix_nano : ℕ) (value : List ℕ) → Value
  unsigned_value : (unix_nano : ℕ) (value : ℕ) → Value

abbrev pub unix_nano : Value → ℕ
unix_nano (boolean_value t v) = t
unix_nano (float_value t v) = t
unix_nano (integer_value t v) = t
unix_nano (string_value t v) = t
unix_nano (unsigned_value t v) = t

unfoldable pub value_size : Value → ℕ
value_size (boolean_value t v) = 9
value_size (float_value t v) = 16
value_size (integer_value t v) = 16
value_size (string_value t v) = 8 + length v
value_size (unsigned_value t v) = 16

unfoldable pub size : List Value → ℕ
unfolding value_size
size [] = 0
size (v ∷ vs) = value_size v + size vs

-- The loop `for lo < hi` of `search`, on fuel.
unfoldable pub search_loop : ℕ → List Value → ℕ → ℕ → ℕ → Option ℕ
search_loop zero a v lo hi = none
search_loop (suc fuel) a v lo hi =
    let mid = (lo + hi) / 2 in
    let upper = search_loop fuel a v (mid + 1) hi in
    let lower = search_loop fuel a v lo mid in
    let probe = get_elem? a mid >>= λ x. if ltb (unix_nano x) v then upper else lower in
    if ltb lo hi then probe else some lo

-- Each round shrinks the range, so one round more than the length is enough.
unfoldable pub search : List Value → ℕ → Option ℕ
unfolding search_loop
search a v = search_loop (suc (length a)) a v 0 (length a)

-- What `FindRange` returns: `outside` is (-1, -1).
pub data Positions : Type 0 where
  outside : Positions
  between : ℕ → ℕ → Positions

unfoldable pub find_range : List Value → ℕ → ℕ → Option Positions
find_range a min max = if length a == 0 || ltb max min then some outside else (do
  first ← get_elem? a 0
  last ← get_elem? a (length a - 1)
  if ltb (unix_nano last) min || ltb max (unix_nano first)
      then some outside
      else (do rmin ← search a min; rmax ← search a max; some (between rmin rmax)))

-- `rmax < len(a) && a[rmax].UnixNano() == max`, and the position that follows from it.
unfoldable pub past_max : List Value → ℕ → ℕ → ℕ
past_max a rmax max = elim (get_elem? a rmax) [
  | none ↦ rmax
  | some x ↦ if unix_nano x == max then rmax + 1 else rmax
]

-- The tail of `Exclude`, from the positions on.
unfoldable pub cut_out : List Value → ℕ → ℕ → Option (List Value)
cut_out a rmin rmax =
    let rest = length a - rmax in
    if ltb rmax (length a)
    then (do b ← slice_to a (rmin + rest); moved ← slice_from a rmax; some (copy_at b rmin moved))
    else slice_to a rmin

unfoldable pub exclude : List Value → ℕ → ℕ → Option (List Value)
unfolding past_max cut_out
exclude a min max = do
  r ← find_range a min max
  elim r [ outside ↦ some a | between rmin rmax ↦ cut_out a rmin (past_max a rmax max) ]

-- The tail of `Include`: `copy(a[:rmax-rmin], a[rmin:rmax])`.
unfoldable pub cut_to : List Value → ℕ → ℕ → Option (List Value)
cut_to a rmin rmax = do
  b ← slice_to a (rmax - rmin)
  kept ← slice a rmin rmax
  some (copy_at b 0 kept)

unfoldable pub include : List Value → ℕ → ℕ → Option (List Value)
unfolding past_max cut_to
include a min max = do
  r ← find_range a min max
  elim r [ outside ↦ some [] | between rmin rmax ↦ cut_to a rmin (past_max a rmax max) ]

-- The adjacent test of `ordered`.
unfoldable pub ordered : List Value → Bool
ordered [] = true
ordered (x ∷ []) = true
ordered (x ∷ y ∷ r) = not (leb (unix_nano y) (unix_nano x)) && ordered (y ∷ r)

-- `sort.Stable` by time: equal times keep their order.
pub insert : Value → List Value → List Value
insert x [] = x ∷ []
insert x (y ∷ ys) = if ltb (unix_nano y) (unix_nano x) then y ∷ insert x ys else x ∷ y ∷ ys

pub stable_sort : List Value → List Value
unfolding insert
stable_sort [] = []
stable_sort (x ∷ xs) = insert x (stable_sort xs)

-- The compacting loop of `Deduplicate`: `cur` is `a[i]`, the list is `a[j:]`.
pub compact : Value → List Value → List Value
compact cur [] = cur ∷ []
compact cur (v ∷ vs) =
    let same = compact v vs in if unix_nano v == unix_nano cur then same else cur ∷ same

pub compact_all : List Value → List Value
unfolding compact
compact_all [] = []
compact_all (x ∷ xs) = compact x xs

unfoldable pub deduplicate : List Value → List Value
unfolding ordered stable_sort compact_all
deduplicate a = if ordered a then a else compact_all (stable_sort a)

-- The merging loop of `Merge` and the two appends after it.
unfoldable pub merge_loop : List Value → List Value → List Value → List Value
merge_loop out [] b = out ++ b
merge_loop out (x ∷ a) [] = out ++ (x ∷ a)
merge_loop out (x ∷ a) (y ∷ b) =
    let less = merge_loop (out ++ (x ∷ [])) a (y ∷ b) in
    let equal = merge_loop out a (y ∷ b) in
    let more = merge_loop (out ++ (y ∷ [])) (x ∷ a) b in
    if ltb (unix_nano x) (unix_nano y)
    then less
    else if unix_nano x == unix_nano y
    then equal
    else more

-- `MinTime` and `MaxTime`: a panic on no values.
abbrev pub min_time : List Value → Option ℕ
min_time a = get_elem? a 0 >>= λ x. some (unix_nano x)

abbrev pub max_time : List Value → Option ℕ
max_time a = get_elem? a (length a - 1) >>= λ x. some (unix_nano x)

-- The part of `Merge` after the empty cases, on deduplicated values.
unfoldable pub merge_ordered : List Value → List Value → Option (List Value)
unfolding merge_loop
merge_ordered a b = do
  a_min ← min_time a
  a_max ← max_time a
  b_min ← min_time b
  b_max ← max_time b
  some (if ltb a_max b_min then a ++ b else if ltb b_max a_min then b ++ a else merge_loop [] a b)

unfoldable pub merge : List Value → List Value → Option (List Value)
unfolding merge_ordered
merge [] b = some b
merge (x ∷ a) [] = some (x ∷ a)
merge (x ∷ a) (y ∷ b) = merge_ordered (deduplicate (x ∷ a)) (deduplicate (y ∷ b))
