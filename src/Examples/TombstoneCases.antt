-- ===== src/Examples/TombstoneCases.antt =====
-- The records of deletions: storage/store/tombstone.go.
use equinoxdb.Tombstones.{write_tombstone}
use equinoxdb.Base.{◌≡◌, refl, true, none, [], ◌∷◌, arith}
use equinoxdb.Tombstones.{Gzip, Tombstone, Tombstoner, add_range, walk_tombstones}
use equinoxdb.Tombstones.Walks.{walk_tombstones-add_range}
use equinoxdb.Words.{be_bytes, read_word}
use equinoxdb.Examples.WalCases.{marked, unmarked}

abbrev marking_gzip : Gzip
marking_gzip = record { compress = marked; decompress = unmarked; decompress-compress = λ b. refl }

abbrev fresh_tombs : Tombstoner
fresh_tombs = record { has_path = true; filter_fn = none; waiting = []; file = none }

abbrev tomb_a : Tombstone
tomb_a = record { key = 97 ∷ []; min = 1; max = 5 }

abbrev tomb_b : Tombstone
tomb_b = record { key = 98 ∷ []; min = 2; max = 2 }

abbrev after_a : Tombstoner
after_a = add_range marking_gzip fresh_tombs ((97 ∷ []) ∷ []) 1 5

walk_tombstones-add_range_example :
    (walk_tombstones marking_gzip (add_range marking_gzip after_a ((98 ∷ []) ∷ []) 2 2)
      ≡ (tomb_b ∷ [], true))
    × (add_range marking_gzip after_a ((98 ∷ []) ∷ []) 2 2
        ≡ write_tombstone marking_gzip after_a (tomb_b ∷ []))
unfolding add_range
walk_tombstones-add_range_example =
    walk_tombstones-add_range marking_gzip after_a ((98 ∷ []) ∷ []) 2 2
      ((omega arith, omega arith, omega arith), tt)

-- A test: before, the walk saw the tombstone of the first call.
after_a_test : walk_tombstones marking_gzip after_a ≡ (tomb_a ∷ [], true)
unfolding walk_tombstones add_range be_bytes read_word
after_a_test = refl
