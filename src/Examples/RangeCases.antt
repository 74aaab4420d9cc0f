-- ===== src/Examples/RangeCases.antt =====
-- Time ranges: storage/store/util.go.
use equinoxdb.Base.{◌≡◌, refl, false, List, [], ◌∷◌, arith, any}
use equinoxdb.Ranges.{TimeRange, is_overlap_any, covers, is_overlap_any-covers}

abbrev two_ranges : List TimeRange
two_ranges = record { min = 1; max = 3 } ∷ record { min = 5; max = 9 } ∷ []

is_overlap_any-covers_example :
    is_overlap_any (record { min = 6; max = 8 }) two_ranges
    ≡ any (covers (record { min = 6; max = 8 })) two_ranges
is_overlap_any-covers_example =
    is_overlap_any-covers (record { min = 6; max = 8 }) two_ranges ((omega arith, tt), (tt, tt))

-- A test: a range that reaches into one without lying within it does not count.
is_overlap_any_test : is_overlap_any (record { min = 2; max = 6 }) two_ranges ≡ false
unfolding is_overlap_any
is_overlap_any_test = refl
