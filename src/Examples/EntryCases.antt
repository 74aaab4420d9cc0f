-- ===== src/Examples/EntryCases.antt =====
-- Entries of the memory tables: storage/types/entry.go.
use equinoxdb.Base.{arith}
use equinoxdb.Base.{◌≡◌, refl, true, none, some, List, [], ◌∷◌}
use equinoxdb.Entry.{value_type, Entry, has_conflict, new_entry_values, add_locked, add_entry}
use equinoxdb.Entry.{filter_entry}
use equinoxdb.Entry.Filter.{filter_entry-keep}
use equinoxdb.Entry.Types.{Added, add_entry-Added}
use equinoxdb.Values.{Value, boolean_value, integer_value, deduplicate}
use equinoxdb.Values.Order.{keep, not_within}

abbrev unsorted : List Value
unsorted = integer_value 5 50 ∷ integer_value 1 10 ∷ integer_value 5 51 ∷ []

abbrev of_integers : Entry
of_integers = record { values = unsorted; v_type = 2 }

add_entry-Added_example :
    Added of_integers
      (integer_value 7 70 ∷ boolean_value 8 true ∷ [])
      (add_entry of_integers (integer_value 7 70 ∷ boolean_value 8 true ∷ []))
unfolding value_type
add_entry-Added_example =
    add_entry-Added of_integers (integer_value 7 70 ∷ boolean_value 8 true ∷ [])
      (refl, (refl, (refl, tt))) (λ e. absurd (omega (arith, e)))

filter_entry-keep_example :
    filter_entry of_integers 5 9
    ≡ some (record of_integers { values = keep (not_within 5 9) (deduplicate of_integers.values) })
filter_entry-keep_example = filter_entry-keep of_integers 5 9

-- A test: an entry without a type takes values of two types.
add_entry_test :
    add_entry (record { values = []; v_type = 0 }) (integer_value 1 10 ∷ boolean_value 2 true ∷ [])
    ≡ some (record { values = integer_value 1 10 ∷ boolean_value 2 true ∷ []; v_type = 2 })
unfolding add_entry add_locked value_type
add_entry_test = refl

new_entry_values_test : new_entry_values (integer_value 1 10 ∷ boolean_value 2 true ∷ []) ≡ none
unfolding new_entry_values has_conflict value_type
new_entry_values_test = refl
