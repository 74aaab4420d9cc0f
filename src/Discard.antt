-- ===== src/Discard.antt =====
-- storage/store/vfile_discard.go: the file that counts the discarded bytes of each value file.
pub mod Entries
pub mod Slots
pub mod Leaves
pub mod Update
pub mod Runs
use equinoxdb.Base.{ℕ, zero, suc, ◌+◌, ◌%◌, ◌^◌, Option, none, some, List, [], ◌∷◌, ◌++◌, ltb}
use equinoxdb.Base.{◌==◌, if◌then◌else◌, ◌>>=◌, length, get_elem?, set, take, drop}
use equinoxdb.Base.Bisect.{bisect}

-- A slot is the 16 bytes of an entry: the file id and the count, big-endian words.
abbrev pub Slot : Type 0
Slot = ℕ × ℕ

abbrev pub fid : Slot → ℕ
fid s = s.0

-- The mapped file as its slots (`cap` is their number) and the number of entries in front.
pub record Discard : Type 0 where
  pub next : ℕ
  pub slots : List Slot

abbrev pub entries : Discard → List Slot
entries d = take d.next d.slots

-- The third argument of `_update`: `negative` is a count below zero.
pub data Change : Type 0 where
  add : ℕ → Change
  negative : Change

-- `sort.Sort` by `Less`.
unfoldable pub insert_slot : Slot → List Slot → List Slot
insert_slot x [] = x ∷ []
insert_slot x (y ∷ ys) =
    let rest = insert_slot x ys in if ltb (fid y) (fid x) then y ∷ rest else x ∷ y ∷ ys

unfoldable pub sort_slots : List Slot → List Slot
unfolding insert_slot
sort_slots [] = []
sort_slots (x ∷ xs) = insert_slot x (sort_slots xs)

-- `index < d.next && d.get(index*entrySize) == fid`, with the count that is there.
abbrev pub found_at : List Slot → ℕ → ℕ → Option ℕ
found_at es index f = get_elem? es index >>= λ s. if fid s == f then some s.1 else none

unfoldable pub change_entry : Discard → ℕ → ℕ → ℕ → Change → Discard × ℕ
change_entry d index f old negative = (record d { slots = set d.slots index (f, 0) }, 0)
change_entry d index f old (add c) =
    let new = (old + c) % 2 ^ 64 in
    if c == 0 then (d, new) else (record d { slots = set d.slots index (f, new) }, new)

abbrev pub new_count : Change → ℕ
new_count negative = 0
new_count (add c) = c

-- `zeroNextEntry`, a panic behind the last slot.
unfoldable pub zero_next_entry : Discard → Option Discard
zero_next_entry d =
    if ltb d.next (length d.slots)
    then some (record d { slots = set d.slots d.next (0, 0) })
    else none

abbrev zeros : ℕ → List Slot
zeros zero = []
zeros (suc n) = (0, 0) ∷ zeros n

-- The part of `_update` for a file id without an entry: `Truncate` doubles the file.
unfoldable pub append_entry : Discard → ℕ → ℕ → Option (Discard × ℕ)
unfolding zero_next_entry sort_slots
append_entry d f c =
    let cap = length d.slots in
    let written = set d.slots d.next (f, c) in
    let grown = if ltb cap (suc d.next) then written ++ zeros cap else written in
    if ltb d.next cap
    then (do
      z ← zero_next_entry (record { next = suc d.next; slots = grown })
      some (record z { slots = sort_slots (take z.next z.slots) ++ drop z.next z.slots }, c))
    else none

unfoldable pub change_found : Discard → ℕ → Change → ℕ → Option ℕ → Option (Discard × ℕ)
unfolding change_entry append_entry
change_found d f change index (some old) = some (change_entry d index f old change)
change_found d f change index none = append_entry d f (new_count change)

unfoldable pub update_at : Discard → ℕ → Change → ℕ → Option (Discard × ℕ)
unfolding change_found
update_at d f change index = change_found d f change index (found_at (entries d) index f)

-- `_update`
unfoldable pub update : Discard → ℕ → Change → Option (Discard × ℕ)
unfolding update_at
update d f change = bisect (λ s. ltb (fid s) f) (entries d) >>= update_at d f change

-- `Update`, `Get` and `Reset`; a count of 2^63 or more is a negative int64.
unfoldable pub add_count : Discard → ℕ → ℕ → Option (Discard × ℕ)
unfolding update
add_count d f c = update d f (if ltb c (2 ^ 63) then add c else negative)

-- `Max`
unfoldable pub max_from : List Slot → Slot → Slot
max_from [] best = best
max_from (s ∷ r) best = max_from r (if ltb best.1 s.1 then s else best)

unfoldable pub max_entry : Discard → Slot
unfolding max_from
max_entry d = let best = max_from (entries d) (0, 0) in (best.0 % 2 ^ 32, best.1)
