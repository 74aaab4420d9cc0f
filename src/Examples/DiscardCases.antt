-- ===== src/Examples/DiscardCases.antt =====
-- The discard file: storage/store/vfile_discard.go.
use equinoxdb.Discard.Leaves.{IsValid, counts}
use equinoxdb.Discard.Update.{update-full}
use equinoxdb.Base.Bisect.{bisect}
use equinoxdb.Base.{ℕ, ◌≡◌, refl, none, some, List, [], ◌∷◌, arith}
use equinoxdb.Discard.{Discard, Change, add, insert_slot, sort_slots, zero_next_entry}
use equinoxdb.Discard.{append_entry, change_found, update_at, update}
use equinoxdb.Discard.Runs.{update_all, LeavesAll, update_all-put_all}

-- Two entries and two free slots.
abbrev two_used : Discard
two_used = record { next = 2; slots = (3, 10) ∷ (7, 20) ∷ (0, 0) ∷ (0, 0) ∷ (0, 0) ∷ [] }

two_used-IsValid : IsValid two_used
two_used-IsValid = (omega arith, ((omega arith, tt), (tt, tt)), λ g n h. ground arith)

abbrev three_updates : List (ℕ × Change)
three_updates = (7, add 5) ∷ (5, add 1) ∷ []

update_all-put_all_example :
    (x : Discard × List ℕ) × (update_all two_used three_updates ≡ some x)
    × LeavesAll (counts two_used) three_updates x
update_all-put_all_example =
    update_all-put_all three_updates two_used two_used-IsValid (omega arith, (omega arith, tt))
      (omega arith)

-- Two entries and one free slot.
abbrev nearly_full : Discard
nearly_full = record { next = 2; slots = (3, 10) ∷ (7, 20) ∷ (0, 0) ∷ [] }

nearly_full-IsValid : IsValid nearly_full
nearly_full-IsValid = (omega arith, ((omega arith, tt), (tt, tt)), λ g n h. ground arith)

update-full_example : update nearly_full 5 (add 1) ≡ none
update-full_example = update-full nearly_full 5 nearly_full-IsValid (add 1) refl refl

update_test :
    update two_used 5 (add 1)
    ≡ some (record { next = 3; slots = (3, 10) ∷ (5, 1) ∷ (7, 20) ∷ (0, 0) ∷ (0, 0) ∷ [] }, 1)
unfolding update update_at change_found append_entry zero_next_entry sort_slots insert_slot bisect
update_test = refl
