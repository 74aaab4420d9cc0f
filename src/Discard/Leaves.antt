-- ===== src/Discard/Leaves.antt =====
-- What one entry changed or appended in storage/store/vfile_discard.go leaves.
use equinoxdb.Base.{ℕ, suc, ◌+◌, ◌%◌, ◌^◌, ◌≤◌, ◌<◌, ◌≡◌, refl, sym, ap, ◌∙◌, subst, Bool, true}
use equinoxdb.Base.{false, Option, none, some, List, [], ◌∷◌, ◌++◌, arith, ltb, ◌==◌}
use equinoxdb.Base.{if◌then◌else◌, length, set, take, drop, length-append, length-take}
use equinoxdb.Base.{length-drop}
use equinoxdb.Base.Bisect.{front}
use equinoxdb.Discard.{Slot, Discard, entries, Change, add, negative, sort_slots, change_entry}
use equinoxdb.Discard.{zero_next_entry, append_entry}
use equinoxdb.Discard.Entries.{HasRisingFids, lookup, before_fid, lookup-set, set-HasRisingFids}
use equinoxdb.Discard.Entries.{lookup-sort_slots, sort_slots-HasRisingFids, lookup-appended}
use equinoxdb.Discard.Slots.{length-set, take-set, take-suc-set, take-set_behind}
use equinoxdb.Discard.Slots.{take-length-append, length-sort_slots}

-- The entries are in front of a free slot, in order of file id, and their counts are words.
abbrev pub IsValid : Discard → Type 0
IsValid d =
    (d.next < length d.slots)
    × HasRisingFids (entries d)
    × ((g n : ℕ) → lookup g (entries d) ≡ some n → n < 2 ^ 64)

-- An update of a map from file ids to counts: the new count of the file id.
abbrev pub counted : Change → Option ℕ → ℕ
counted negative old = 0
counted (add c) none = c
counted (add c) (some old) = (old + c) % 2 ^ 64

abbrev pub IsWord : Change → Type 0
IsWord negative = Unit {0}
IsWord (add c) = c < 2 ^ 63

abbrev pub put : (ℕ → Option ℕ) → ℕ → ℕ → ℕ → Option ℕ
put m f r g = if f == g then some r else m g

-- The counts of the file, as a map.
abbrev pub counts : Discard → ℕ → Option ℕ
counts d g = lookup g (entries d)

-- What an update leaves: the count `r` at `f`, everything else as it was.
abbrev pub Leaves : Discard → ℕ → ℕ → Discard × ℕ → Type 0
Leaves d f r (e, result) =
    (result ≡ r)
    × IsValid e
    × ((g : ℕ) → counts e g ≡ put (counts d) f r g)
    × (length e.slots ≡ length d.slots)
    × (e.next ≤ suc d.next)

module _ (d : Discard) (f : ℕ) (v : IsValid d) where
  Leaves-intro :
      (r : ℕ) (e : Discard)
      → r < 2 ^ 64
      → e.next < length e.slots
      → HasRisingFids (entries e)
      → ((g : ℕ) → counts e g ≡ put (counts d) f r g)
      → length e.slots ≡ length d.slots
      → e.next ≤ suc d.next
      → Leaves d f r (e, r)
  Leaves-intro r e small room rising unmoved size step = (
    refl,
    (
      room,
      rising,
      λ g n h.
          let old : put (counts d) f r g ≡ some n = sym (unmoved g) ∙ h in
          let words = v.2 g n in ground arith,
    ),
    unmoved,
    size,
    step,
  )

  -- Overwriting an entry that is there.
  overwrite-Leaves :
      (old r : ℕ)
      → counts d f ≡ some old
      → r < 2 ^ 64
      → Leaves d f r (record d { slots = set d.slots (front (before_fid f) (entries d)) (f, r) }, r)
  overwrite-Leaves old r e small =
      let i = front (before_fid f) (entries d) in
      let kept_front = take-set d.next d.slots i (f, r) in
      let size = length-set d.slots i (f, r) in
      Leaves-intro r (record d { slots = set d.slots i (f, r) }) small (rw size v.0)
        (subst HasRisingFids (sym kept_front) (set-HasRisingFids f r (entries d) old v.1 e))
        (λ g. ap (lookup g) kept_front ∙ lookup-set f g r (entries d) old v.1 e) size (omega arith)

  -- An addition of nothing leaves the file as it is.
  same-Leaves : (old r : ℕ) → counts d f ≡ some old → r ≡ old → Leaves d f r (d, r)
  same-Leaves old r e t =
      let word = v.2 f old e in
      Leaves-intro r d (omega arith) v.0 v.1 (λ g. ground arith) refl (omega arith)

  if-Leaves :
      (b : Bool) (r : ℕ) (x y : Discard × ℕ)
      → (b ≡ true → Leaves d f r x)
      → Leaves d f r y
      → Leaves d f r (if b then x else y)
  if-Leaves true r x y h k = h refl
  if-Leaves false r x y h k = k

  pub change_entry-Leaves :
      (change : Change) (old : ℕ)
      → IsWord change
      → counts d f ≡ some old
      → Leaves d f
          (counted change (some old))
          (change_entry d (front (before_fid f) (entries d)) f old change)
  unfolding change_entry
  change_entry-Leaves negative old w e = overwrite-Leaves old 0 e (omega arith)
  change_entry-Leaves (add c) old w e =
      let total = (old + c) % 2 ^ 64 in
      let written = set d.slots (front (before_fid f) (entries d)) (f, total) in
      if-Leaves (c == 0) total (d, total) (record d { slots = written }, total)
        (λ nothing. same-Leaves old total e (let word = v.2 f old e in ground arith))
        (overwrite-Leaves old total e (omega arith))

  -- The entries behind the last one, sorted, with the rest of the slots.
  module _ (z : List Slot) (r : ℕ) (e : counts d f ≡ none) (room : suc d.next < length d.slots)
      (size : length z ≡ length d.slots)
      (in_front : take (suc d.next) z ≡ entries d ++ ((f, r) ∷ [])) where
    abbrev resorted : Discard
    resorted = record {
      next = suc d.next;
      slots = sort_slots (take (suc d.next) z) ++ drop (suc d.next) z;
    }

    length-resorted : length resorted.slots ≡ length d.slots
    length-resorted = omega (
      arith,
      length-append (sort_slots (take (suc d.next) z)) (drop (suc d.next) z),
      length-sort_slots (take (suc d.next) z),
      length-take (suc d.next) z,
      length-drop (suc d.next) z,
    )

    entries-resorted : entries resorted ≡ sort_slots (entries d ++ ((f, r) ∷ []))
    entries-resorted =
        take-length-append (suc d.next) (sort_slots (take (suc d.next) z)) (drop (suc d.next) z)
          (length-sort_slots (take (suc d.next) z) ∙ length-take (suc d.next) z (omega arith))
        ∙ ap sort_slots in_front

    resorted-Leaves : r < 2 ^ 64 → Leaves d f r (resorted, r)
    resorted-Leaves small =
        Leaves-intro r resorted small (rw length-resorted room)
          (subst HasRisingFids (sym entries-resorted)
            (sort_slots-HasRisingFids (entries d) (f, r) v.1 e))
          (λ g.
            ap (lookup g) entries-resorted
            ∙ lookup-sort_slots g (entries d ++ ((f, r) ∷ []))
            ∙ lookup-appended g (entries d) (f, r) e)
          length-resorted (omega arith)

  pub append_entry-Leaves :
      (r : ℕ)
      → counts d f ≡ none
      → r < 2 ^ 64
      → suc d.next < length d.slots
      → (x : Discard × ℕ) × (append_entry d f r ≡ some x) × Leaves d f r x
  unfolding append_entry zero_next_entry
  append_entry-Leaves r e small room =
      let written = set d.slots d.next (f, r) in
      let z = set written (suc d.next) (0, 0) in
      let cap : length written ≡ length d.slots = length-set d.slots d.next (f, r) in
      let fits : ltb (length d.slots) (suc d.next) ≡ false = ground arith in
      let free : ltb d.next (length d.slots) ≡ true = ground arith in
      let free_next : ltb (suc d.next) (length written) ≡ true = ground arith in
      let in_front : take (suc d.next) z ≡ entries d ++ ((f, r) ∷ []) =
        take-set_behind (suc d.next) written (0, 0)
        ∙ take-suc-set d.next d.slots (f, r) (omega arith) in
      let size : length z ≡ length d.slots = length-set written (suc d.next) (0, 0) ∙ cap in
      rw (free, fits, free_next)
        (
          (resorted z r e room size in_front, r),
          refl,
          resorted-Leaves z r e room size in_front small,
        )
