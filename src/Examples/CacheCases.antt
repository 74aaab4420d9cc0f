-- ===== src/Examples/CacheCases.antt =====
-- The skip list: storage/memory/cache.go.
use equinoxdb.Base.{ℕ, true}
use equinoxdb.Cache.Walks.{walk, get_all_nodes, pieces_from, split, dedup_walk}
use equinoxdb.Cache.Walks.{deduplicate_cache, last_loop, find_last, is_empty}
use equinoxdb.Entry.{deduplicate_entry}
use equinoxdb.Base.{◌>>=◌}
use equinoxdb.Bytes.{compare_bytes}
use equinoxdb.Entry.{add_entry}
use equinoxdb.Base.{refl, Option, none}
use equinoxdb.Bytes.{Bytes}
use equinoxdb.Cache.{get_splices, descend, gap_of, link_levels, PutResult, conflict, nil_entry}
use equinoxdb.Cache.{add_values, put_descended, find_loop, find_greater_or_equal}
use equinoxdb.Cache.Runs.{go_on}
use equinoxdb.Entry.{value_type, has_conflict}
use equinoxdb.Cache.Runs.{put_calls}
use equinoxdb.Base.{◌≡◌, some, List, [], ◌∷◌, arith, length}
use equinoxdb.Cache.{Cache, new_cache, stored}
use equinoxdb.Cache.Outcomes.{HasPut, put-HasPut}
use equinoxdb.Cache.Refinement.{Refines}
use equinoxdb.Cache.Runs.{PutCall, rows_on, put_rows, new_cache-IsSkipList, put_calls-new_cache}
use equinoxdb.Cache.Runs.{entry_from, get-entry_from}
use equinoxdb.Cache.Table.{Table, put_row, StandsFor}
use equinoxdb.Cache.Walks.{get, count_nodes}
use equinoxdb.Entry.{Entry, new_entry_values}
use equinoxdb.Values.{float_value}
use equinoxdb.Cache.{put}

abbrev call_b : PutCall
call_b = record { key = 98 ∷ []; values = float_value 3 7 ∷ []; life_cycle = 0; drawn = 2 }

abbrev call_a : PutCall
call_a = record { key = 97 ∷ []; values = float_value 1 5 ∷ []; life_cycle = 0; drawn = 1 }

abbrev call_b_again : PutCall
call_b_again = record { key = 98 ∷ []; values = float_value 4 8 ∷ []; life_cycle = 0; drawn = 1 }

abbrev three_calls : List PutCall
three_calls = call_b ∷ call_a ∷ call_b_again ∷ []

put_calls-new_cache_example : Refines (put_calls three_calls new_cache) (put_rows three_calls [])
put_calls-new_cache_example =
    put_calls-new_cache three_calls (omega arith, (omega arith, (omega arith, tt)))

put-HasPut_example : HasPut new_cache (98 ∷ []) (float_value 3 7 ∷ []) 0 2 (λ i. [])
put-HasPut_example =
    put-HasPut new_cache (98 ∷ []) (float_value 3 7 ∷ []) 0 2 (λ i. []) new_cache-IsSkipList

abbrev float_entry : Entry
float_entry = record { v_type = 1; values = float_value 3 7 ∷ [] }

abbrev one_row : Table
one_row = (98 ∷ [], some float_entry) ∷ []

abbrev one_put :
    (d : Cache) × (put_calls (call_b ∷ []) new_cache ≡ some (stored d)) × StandsFor d one_row
unfolding put_rows put_row rows_on new_entry_values has_conflict value_type
one_put = put_calls-new_cache (call_b ∷ []) (omega arith, tt)

-- The key 97 is missing: what is returned is the entry of 98.
get-entry_from_example :
    (get one_put.0 (97 ∷ []) ≡ some (entry_from (97 ∷ []) one_row))
    × (count_nodes one_put.0 ≡ some (length one_row))
get-entry_from_example = get-entry_from one_put.0 one_row (97 ∷ []) one_put.2

abbrev get_after : Bytes → Option PutResult → Option (Option Entry)
get_after k none = none
get_after k (some (stored d)) = get d k
get_after k (some conflict) = none
get_after k (some nil_entry) = none

abbrev two_values : Entry
two_values = record { v_type = 1; values = float_value 3 7 ∷ float_value 4 8 ∷ [] }

-- A test: the values of the two calls for one key are in its entry.
get_test : get_after (98 ∷ []) (put_calls three_calls new_cache) ≡ some (some two_values)
unfolding put_calls go_on put descend get_splices put_descended link_levels gap_of add_values
    new_cache new_entry_values has_conflict value_type get find_greater_or_equal find_loop
    compare_bytes add_entry
get_test = refl

abbrev split_after : ℕ → Option PutResult → Option (List (List ℕ))
split_after n none = none
split_after n (some (stored d)) = deduplicate_cache d >>= λ e. split e n
split_after n (some conflict) = none
split_after n (some nil_entry) = none

-- A test: of two nodes in three pieces the first piece has none, and a new cache is empty.
split_test :
    (split_after 3 (put_calls three_calls new_cache) ≡ some ([] ∷ (2 ∷ []) ∷ (1 ∷ []) ∷ []))
    × (is_empty new_cache ≡ some true)
unfolding put_calls go_on put descend get_splices put_descended link_levels gap_of add_values
    new_cache new_entry_values has_conflict value_type compare_bytes add_entry split get_all_nodes
    walk pieces_from deduplicate_cache dedup_walk deduplicate_entry is_empty find_last last_loop
split_test = (refl, refl)
