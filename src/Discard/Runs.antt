-- ===== src/Discard/Runs.antt =====
-- Runs of updates of the discard file of storage/store/vfile_discard.go.
use equinoxdb.Discard.Leaves.{IsValid, counted, IsWord, put, counts}
use equinoxdb.Discard.Update.{update-Leaves}
use equinoxdb.Base.{ℕ, ◌+◌, ◌<◌, ◌≡◌, refl, ap, ◌∙◌, Option, some, List, [], ◌∷◌, arith, ◌>>=◌}
use equinoxdb.Base.{length, All}
use equinoxdb.Discard.{Discard, Change, update}
use equinoxdb.Values.{size}

-- A run of updates: the file after it and the counts returned.
abbrev pub update_all : Discard → List (ℕ × Change) → Option (Discard × List ℕ)
update_all d [] = some (d, [])
update_all d ((f, change) ∷ r) =
    update d f change >>= λ x. update_all x.0 r >>= λ y. some (y.0, x.1 ∷ y.1)

abbrev pub put_all : (ℕ → Option ℕ) → List (ℕ × Change) → ℕ → Option ℕ
put_all m [] = m
put_all m ((f, change) ∷ r) = put_all (put m f (counted change (m f))) r

abbrev pub AreWords : List (ℕ × Change) → Type 0
AreWords = All (λ u. IsWord u.1)

-- The counts that a run of updates returns.
abbrev pub returned : (ℕ → Option ℕ) → List (ℕ × Change) → List ℕ
returned m [] = []
returned m ((f, change) ∷ r) = counted change (m f) ∷ returned (put m f (counted change (m f))) r

-- What a run leaves.
abbrev pub LeavesAll : (ℕ → Option ℕ) → List (ℕ × Change) → Discard × List ℕ → Type 0
LeavesAll m us (e, results) = IsValid e × (counts e ≡ put_all m us) × (results ≡ returned m us)

-- A run of updates on a valid file with a free slot for each update and one more returns: the
-- counts of the file are then those of the map after the same updates, and each update returns
-- the count that it puts in the map.
pub update_all-put_all :
    (us : List (ℕ × Change)) (d : Discard)
    → IsValid d
    → AreWords us
    → d.next + length us < length d.slots
    → (x : Discard × List ℕ) × (update_all d us ≡ some x) × LeavesAll (counts d) us x
update_all-put_all [] d v w room = ((d, []), refl, (v, refl, refl))
update_all-put_all ((f, change) ∷ r) d v w room =
    let (x, done, (result, valid, same_map, size, step)) =
      update-Leaves d f v change w.0 (omega arith) in
    let m : counts x.0 ≡ put (counts d) f (counted change (counts d f)) = λ i g. same_map g i in
    let (y, rest, (valid_end, same_end, results)) =
      update_all-put_all r x.0 valid w.1 (omega arith) in
    (
      (y.0, x.1 ∷ y.1),
      rw (done, rest) refl,
      (
        valid_end,
        same_end ∙ ap (λ (t : ℕ → Option ℕ). put_all t r) m,
        ap (λ (t : ℕ). t ∷ y.1) result
            ∙ ap (◌∷◌ (counted change (counts d f)))
                (results ∙ ap (λ (t : ℕ → Option ℕ). returned t r) m),
      ),
    )
