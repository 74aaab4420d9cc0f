-- ===== src/Discard/Update.antt =====
-- `_update` of storage/store/vfile_discard.go against a map from file ids to counts.
use equinoxdb.Base.{ℕ, suc, ◌^◌, ◌<◌, ◌≡◌, refl, ap, ◌∙◌, true, false, Option, none, some, arith}
use equinoxdb.Base.{ltb, ◌>>=◌, length, set}
use equinoxdb.Base.Bisect.{front, bisect-front}
use equinoxdb.Discard.{Discard, entries, Change, add, negative, change_entry, new_count}
use equinoxdb.Discard.{zero_next_entry, append_entry, change_found, update_at, update}
use equinoxdb.Discard.Entries.{before_fid, HasRisingFids→Bisected, found_at-lookup}
use equinoxdb.Discard.Leaves.{IsValid, counted, IsWord, counts, Leaves, change_entry-Leaves}
use equinoxdb.Discard.Leaves.{append_entry-Leaves}
use equinoxdb.Discard.Slots.{length-set}

module _ (d : Discard) (f : ℕ) (v : IsValid d) where
  new_count-lt : (change : Change) → IsWord change → new_count change < 2 ^ 64
  new_count-lt negative w = omega arith
  new_count-lt (add c) w = omega arith

  new_count-counted : (change : Change) → new_count change ≡ counted change none
  new_count-counted negative = refl
  new_count-counted (add c) = refl

  change_found-Leaves :
      (change : Change) (old : Option ℕ)
      → IsWord change
      → suc d.next < length d.slots
      → counts d f ≡ old
      → (x : Discard × ℕ) × (change_found d f change (front (before_fid f) (entries d)) old
          ≡ some x)
        × Leaves d f (counted change old) x
  unfolding change_found
  change_found-Leaves change none w room e =
      rw (← new_count-counted change)
        (append_entry-Leaves d f v (new_count change) e (new_count-lt change w) room)
  change_found-Leaves change (some old) w room e = (
    change_entry d (front (before_fid f) (entries d)) f old change,
    refl,
    change_entry-Leaves d f v change old w e,
  )

  -- The search finds the entry, if there is one.
  update-change_found :
      (change : Change)
      → update d f change ≡ change_found d f change (front (before_fid f) (entries d)) (counts d f)
  unfolding update update_at
  update-change_found change =
      ap (λ (i : Option ℕ). i >>= update_at d f change)
        (bisect-front (before_fid f) (entries d) (HasRisingFids→Bisected f (entries d) v.1))
      ∙ ap (change_found d f change (front (before_fid f) (entries d)))
          (found_at-lookup f (entries d) v.1)

  -- On a valid file with two free slots, an update returns. The count that it returns is the
  -- one the map of counts has after the update; the file is valid again, and its counts are the
  -- map with this one count put in.
  pub update-Leaves :
      (change : Change)
      → IsWord change
      → suc d.next < length d.slots
      → (x : Discard × ℕ) × (update d f change ≡ some x)
        × Leaves d f (counted change (counts d f)) x
  update-Leaves change w room =
      rw (update-change_found change) (change_found-Leaves change (counts d f) w room refl)

  -- A file id without an entry, with one free slot left: the update panics, as the file is
  -- enlarged only when the number of entries is above the number of slots.
  pub update-full :
      (change : Change) → counts d f ≡ none → suc d.next ≡ length d.slots → update d f change ≡ none
  unfolding change_found append_entry zero_next_entry
  update-full change e full =
      let written = set d.slots d.next (f, new_count change) in
      let cap : length written ≡ length d.slots = length-set d.slots d.next (f, new_count change) in
      let fits : ltb (length d.slots) (suc d.next) ≡ false = ground arith in
      let free : ltb d.next (length d.slots) ≡ true = ground arith in
      let no_next : ltb (suc d.next) (length written) ≡ false = ground arith in
      update-change_found change
      ∙ ap (change_found d f change (front (before_fid f) (entries d))) e
      ∙ rw (free, fits, no_next) refl
