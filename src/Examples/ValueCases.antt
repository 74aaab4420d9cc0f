-- ===== src/Examples/ValueCases.antt =====
-- Values: storage/types/values.gen.go.
use equinoxdb.Base.{ℕ}
use equinoxdb.Base.{◌≡◌, refl, some, List, [], ◌∷◌, arith}
use equinoxdb.Values.{Value, integer_value, search, find_range, exclude, include, deduplicate}
use equinoxdb.Values.{merge}
use equinoxdb.Values.Dedup.{deduplicate_lem, latest}
use equinoxdb.Values.Find.{search-rank}
use equinoxdb.Values.Merge.{IsMerge, merge-IsMerge}
use equinoxdb.Values.Order.{Ordered, rank, keep, not_within, within}
use equinoxdb.Values.Range.{exclude-keep, include-keep}

abbrev at_1 : Value
at_1 = integer_value 1 10

abbrev at_2 : Value
at_2 = integer_value 2 20

abbrev at_2_new : Value
at_2_new = integer_value 2 21

abbrev at_3 : Value
at_3 = integer_value 3 30

abbrev three : List Value
three = at_1 ∷ at_2 ∷ at_3 ∷ []

search-rank_example : search three 2 ≡ some (rank 2 three)
search-rank_example = search-rank three 2 (omega arith)

exclude-keep_example : exclude three 2 2 ≡ some (keep (not_within 2 2) three)
exclude-keep_example = exclude-keep three 2 2 (omega arith)

include-keep_example : include three 2 9 ≡ some (keep (within 2 9) three)
include-keep_example = include-keep three 2 9 (omega arith)

deduplicate_lem_example :
    Ordered (deduplicate (at_2 ∷ at_1 ∷ at_2_new ∷ []))
    × ((t : ℕ)
        → latest t (deduplicate (at_2 ∷ at_1 ∷ at_2_new ∷ []))
          ≡ latest t (at_2 ∷ at_1 ∷ at_2_new ∷ []))
deduplicate_lem_example = deduplicate_lem (at_2 ∷ at_1 ∷ at_2_new ∷ [])

merge-IsMerge_example :
    (m : List Value) × (merge (at_1 ∷ at_2 ∷ []) (at_2_new ∷ at_3 ∷ []) ≡ some m)
    × IsMerge (at_1 ∷ at_2 ∷ []) (at_2_new ∷ at_3 ∷ []) m
merge-IsMerge_example = merge-IsMerge at_1 at_2_new (at_2 ∷ []) (at_3 ∷ [])

-- A test: the second operand wins at time 2.
merge_test : merge (at_1 ∷ at_2 ∷ []) (at_2_new ∷ at_3 ∷ []) ≡ some (at_1 ∷ at_2_new ∷ at_3 ∷ [])
unfolding merge deduplicate
merge_test = refl

exclude_test : exclude three 2 2 ≡ some (at_1 ∷ at_3 ∷ [])
unfolding exclude find_range search
exclude_test = refl

deduplicate_test : deduplicate (at_2 ∷ at_1 ∷ at_2_new ∷ []) ≡ at_1 ∷ at_2_new ∷ []
unfolding deduplicate
deduplicate_test = refl
