-- ===== src/Examples/ArrayCases.antt =====
-- Columns: storage/types/arrayvalues.gen.go.
use equinoxdb.Arrays.{exclude_times, include_times, merge_columns, merge_arrays}
use equinoxdb.Arrays.Cuts.{columns}
use equinoxdb.Arrays.Equivalence.{cut_times_lem}
use equinoxdb.Arrays.Merging.{merge_arrays-merge}
use equinoxdb.Base.{ℕ, ◌≡◌, refl, some, List, [], ◌∷◌, arith, if◌then◌else◌}
use equinoxdb.Values.{Value, boolean_value, float_value, integer_value, string_value}
use equinoxdb.Values.{unsigned_value, exclude, include, merge}
use mathlib.Core.Option

abbrev raw_value : Value → ℕ
raw_value (boolean_value t v) = if v then 1 else 0
raw_value (float_value t v) = v
raw_value (integer_value t v) = v
raw_value (string_value t v) = 0
raw_value (unsigned_value t v) = v

abbrev early : List Value
early = integer_value 1 10 ∷ integer_value 2 20 ∷ []

abbrev late : List Value
late = integer_value 2 21 ∷ integer_value 3 30 ∷ []

cut_times_lem_example :
    (exclude_times (columns raw_value early) 2 5
      ≡ Option.map (columns raw_value) (exclude early 2 5))
    × (include_times (columns raw_value early) 2 5
        ≡ Option.map (columns raw_value) (include early 2 5))
cut_times_lem_example = cut_times_lem raw_value early 2 5

merge_arrays-merge_example :
    merge_arrays (columns raw_value early) (columns raw_value late)
    ≡ Option.map (columns raw_value) (merge early late)
merge_arrays-merge_example = merge_arrays-merge raw_value early late (omega arith) (omega arith)

merge_arrays_test :
    merge_arrays (columns raw_value early) (columns raw_value late)
    ≡ some (record { timestamps = 1 ∷ 2 ∷ 3 ∷ []; values = 10 ∷ 21 ∷ 30 ∷ [] })
unfolding merge_arrays merge_columns
merge_arrays_test = refl
