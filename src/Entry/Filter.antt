-- ===== src/Entry/Filter.antt =====
-- `Filter` and `Deduplicate` of storage/types/entry.go against the filters that they stand for.
use equinoxdb.Base.{ℕ, ◌≤◌, ◌≡◌, refl, subst, inl, inr, some, List, [], ◌∷◌, arith, ltb, leb}
use equinoxdb.Base.{Bool-cases, length}
use equinoxdb.Entry.{Entry, deduplicate_entry, filter_entry}
use equinoxdb.Values.{Value, deduplicate}
use equinoxdb.Values.Dedup.{deduplicate-Ordered, deduplicate_self}
use equinoxdb.Values.Order.{Ordered, keep, not_within}
use equinoxdb.Values.Range.{exclude-keep}

deduplicate_few : (vs : List Value) → length vs ≤ 1 → deduplicate vs ≡ vs
deduplicate_few [] h = deduplicate_self [] tt
deduplicate_few (x ∷ []) h = deduplicate_self (x ∷ []) (tt, tt)
deduplicate_few (x ∷ y ∷ r) h = absurd (omega arith)

-- `Filter` never panics, on values in any order: it leaves the deduplicated values outside of
-- [min, max], in ascending time, and the type.
pub filter_entry-keep :
    (e : Entry) (min max : ℕ)
    → filter_entry e min max
      ≡ some (record e { values = keep (not_within min max) (deduplicate e.values) })
unfolding filter_entry
filter_entry-keep e min max = elim (Bool-cases (ltb 1 (length e.values))) [
  | inl many ↦
      rw (many, exclude-keep (deduplicate e.values) min max (deduplicate-Ordered e.values)) refl
  | inr few ↦
      let same_values = deduplicate_few e.values (ground arith) in
      let order : Ordered e.values = subst Ordered same_values (deduplicate-Ordered e.values) in
      rw (few, exclude-keep e.values min max order, same_values) refl
]

-- `Deduplicate` deduplicates the values, as the entries it leaves out have nothing to deduplicate.
pub deduplicate_entry-deduplicate :
    (e : Entry) → deduplicate_entry e ≡ record e { values = deduplicate e.values }
unfolding deduplicate_entry
deduplicate_entry-deduplicate e = elim (Bool-cases (leb (length e.values) 1)) [
  | inl few ↦ rw (few, deduplicate_few e.values (ground arith)) refl
  | inr many ↦ rw many refl
]
