-- ===== src/Arrays.antt =====
-- storage/types/arrayvalues.gen.go: timestamps and values in two columns. FloatArray, IntegerArray,
-- UnsignedArray, StringArray and BooleanArray are one template, here for any type of values.
-- Columns of different lengths, which no operation builds, are a fault where a value is missing.
pub mod Columns
pub mod Cuts
pub mod Equivalence
pub mod Merging
use equinoxdb.Base.{[], ◌∷◌, ◌++◌, ◌>>=◌}
use equinoxdb.Base.{ℕ, ◌+◌, ◌-◌, ◌||◌, Option, none, some, List, ltb, ◌==◌, if◌then◌else◌}
use equinoxdb.Base.{length, get_elem?}
use equinoxdb.Base.Bisect.{bisect}
use equinoxdb.Base.Slices.{slice_to, slice_from, slice, copy_at}
use equinoxdb.Values.{size}

pub record TypedArray (A : Type 0) : Type 0 where
  pub timestamps : List ℕ
  pub values : List A

-- What `FindRange` returns: `missing` is (-1, -1).
pub data Interval : Type 0 where
  missing : Interval
  span : ℕ → ℕ → Interval

-- `rmax < a.Len() && a.Timestamps[rmax] == max`, and the position that follows from it.
unfoldable pub after_max : List ℕ → ℕ → ℕ → ℕ
after_max ts rmax max = elim (get_elem? ts rmax) [
  | none ↦ rmax
  | some t ↦ if t == max then rmax + 1 else rmax
]

-- `search`
unfoldable pub search_times : List ℕ → ℕ → Option ℕ
search_times ts v = bisect (λ t. ltb t v) ts

-- `FindRange`
unfoldable pub find_interval : List ℕ → ℕ → ℕ → Option Interval
unfolding search_times
find_interval ts min max = if length ts == 0 || ltb max min then some missing else (do
  first ← get_elem? ts 0
  last ← get_elem? ts (length ts - 1)
  if ltb last min || ltb max first
      then some missing
      else (do rmin ← search_times ts min; rmax ← search_times ts max; some (span rmin rmax)))

module _ {A : Type 0} where
  -- One column of `Exclude`: `copy(ts[rmin:], a.Timestamps[rmax:])` where `rest > 0`.
  unfoldable pub cut_column : ℕ → ℕ → ℕ → List A → Option (List A)
  cut_column size rmin rmax xs =
      if ltb rmax size
      then (do
        b ← slice_to xs (rmin + (size - rmax))
        moved ← slice_from xs rmax
        some (copy_at b rmin moved))
      else slice_to xs rmin

  -- One column of `Include`.
  unfoldable pub keep_column : ℕ → ℕ → List A → Option (List A)
  keep_column rmin rmax xs = do
    b ← slice_to xs (rmax - rmin)
    moved ← slice xs rmin rmax
    some (copy_at b 0 moved)

module _ {A : Type 0} where
  unfoldable pub exclude_times : TypedArray A → ℕ → ℕ → Option (TypedArray A)
  unfolding after_max cut_column
  exclude_times a min max = do
    r ← find_interval a.timestamps min max
    elim r [
      | missing ↦ some a
      | span rmin rmax ↦ do
        let past = after_max a.timestamps rmax max
        ts ← cut_column (length a.timestamps) rmin past a.timestamps
        vs ← cut_column (length a.timestamps) rmin past a.values
        some (record { timestamps = ts; values = vs })
    ]

  unfoldable pub include_times : TypedArray A → ℕ → ℕ → Option (TypedArray A)
  unfolding after_max keep_column
  include_times a min max = do
    r ← find_interval a.timestamps min max
    elim r [
      | missing ↦ some (record { timestamps = []; values = [] })
      | span rmin rmax ↦ do
        let past = after_max a.timestamps rmax max
        ts ← keep_column rmin past a.timestamps
        vs ← keep_column rmin past a.values
        some (record { timestamps = ts; values = vs })
    ]

  -- `append` of both columns.
  abbrev pub append_columns : TypedArray A → TypedArray A → TypedArray A
  append_columns a b = record {
    timestamps = a.timestamps ++ b.timestamps;
    values = a.values ++ b.values;
  }

  -- One element in front of both columns.
  abbrev pub push_front : ℕ → A → TypedArray A → TypedArray A
  push_front t v a = record { timestamps = t ∷ a.timestamps; values = v ∷ a.values }

  -- The merging loop of `Merge` and the copies after it, from `i` and `j` on.
  unfoldable pub merge_columns : List ℕ → List A → List ℕ → List A → Option (TypedArray A)
  merge_columns [] vs us ws = some (record { timestamps = us; values = ws })
  merge_columns (t ∷ ts) vs [] ws = some (record { timestamps = t ∷ ts; values = vs })
  merge_columns (t ∷ ts) [] (u ∷ us) ws = none
  merge_columns (t ∷ ts) (v ∷ vs) (u ∷ us) [] = none
  merge_columns (t ∷ ts) (v ∷ vs) (u ∷ us) (w ∷ ws) =
      let less = merge_columns ts vs (u ∷ us) (w ∷ ws) in
      let equal = merge_columns ts vs us ws in
      let more = merge_columns (t ∷ ts) (v ∷ vs) us ws in
      if ltb t u
      then (less >>= λ r. some (push_front t v r))
      else if t == u
      then (equal >>= λ r. some (push_front u w r))
      else (more >>= λ r. some (push_front u w r))

  abbrev pub first_time : TypedArray A → Option ℕ
  first_time a = get_elem? a.timestamps 0

  abbrev pub last_time : TypedArray A → Option ℕ
  last_time a = get_elem? a.timestamps (length a.timestamps - 1)

  unfoldable pub merge_arrays : TypedArray A → TypedArray A → Option (TypedArray A)
  unfolding merge_columns
  merge_arrays a b =
      if length a.timestamps == 0 then some b else if length b.timestamps == 0 then some a else (do
        a_max ← last_time a
        b_min ← first_time b
        b_max ← last_time b
        a_min ← first_time a
        if ltb a_max b_min
            then some (append_columns a b)
            else if ltb b_max a_min
            then some (append_columns b a)
            else merge_columns a.timestamps a.values b.timestamps b.values)
