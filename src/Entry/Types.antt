-- ===== src/Entry/Types.antt =====
-- The type of the values of an entry: `NewEntryValues` and `Add` of storage/types/entry.go.
use equinoxdb.Base.{◌≢◌, ◌⊎◌, Option, none, Bool-cases}
use equinoxdb.Base.{append-nil, ◌==◌, suc-ne-zero, length, All-append, List-cases}
use equinoxdb.Base.{ℕ, ◌≡◌, refl, sym, subst, inl, inr, false, some, List, []}
use equinoxdb.Base.{◌∷◌, ◌++◌, arith, All}
use equinoxdb.Entry.{value_type, Entry, has_conflict, add_locked, add_entry}
use equinoxdb.Values.{Value}

abbrev pub AllOf : ℕ → List Value → Type 0
AllOf t = All (λ v. value_type v ≡ t)

-- Every value has the type of the entry.
abbrev pub IsTyped : Entry → Type 0
IsTyped e = AllOf e.v_type e.values

has_conflict-AllOf : (t : ℕ) (vs : List Value) → has_conflict t vs ≡ false → AllOf t vs
unfolding has_conflict
has_conflict-AllOf t [] h = tt
has_conflict-AllOf t (v ∷ vs) h = (ground arith, has_conflict-AllOf t vs (ground arith))

AllOf-has_conflict : (t : ℕ) (vs : List Value) → AllOf t vs → has_conflict t vs ≡ false
unfolding has_conflict
AllOf-has_conflict t [] h = refl
AllOf-has_conflict t (v ∷ vs) h =
    let rest = AllOf-has_conflict t vs h.1 in let head = h.0 in ground arith

-- What `Add` leaves: an entry of the same type with the values behind the others.
abbrev pub Appends : Entry → List Value → Entry → Type 0
Appends e vs f = (f.values ≡ e.values ++ vs) × (f.v_type ≡ e.v_type) × IsTyped f

add_locked-Appends :
    (e : Entry) (x : Value) (xs : List Value)
    → IsTyped e
    → AllOf e.v_type (x ∷ xs)
    → Appends e (x ∷ xs) (add_locked e x xs)
unfolding add_locked
add_locked-Appends e x xs typed h = elim (List-cases e.values) [
  | inl empty ↦ rw empty (refl, h.0, (refl, subst (λ (t : ℕ). AllOf t xs) (sym (h.0)) h.1))
  | inr (y, r, full) ↦
      let used : (length e.values == 0) ≡ false = rw full (suc-ne-zero (length r)) in
      rw used (refl, refl, All-append (λ v. value_type v ≡ e.v_type) e.values (x ∷ xs) typed h)
]

-- Either all values have the type of the entry and stand behind the others in the new one, or there is
-- an error.
abbrev pub Added : Entry → List Value → Option Entry → Type 0
Added e vs r =
    (AllOf e.v_type vs × ((f : Entry) × (r ≡ some f) × Appends e vs f))
    ⊎ ((AllOf e.v_type vs → ⊥) × (r ≡ none))

-- `Add` of any values to an entry that has a type and whose values have it: if all the new values have
-- this type, they are put behind the others, and the entry that results has the type, as have all its
-- values; if not, it fails.
pub add_entry-Added :
    (e : Entry) (vs : List Value) → IsTyped e → e.v_type ≢ 0 → Added e vs (add_entry e vs)
unfolding add_entry
add_entry-Added e [] typed some_type = inl (tt, (e, refl, (sym (append-nil e.values), refl, typed)))
add_entry-Added e (x ∷ xs) typed some_type =
    let has_type : (e.v_type == 0) ≡ false = ground arith in
    elim (Bool-cases (has_conflict e.v_type (x ∷ xs))) [
      | inl bad ↦ inr (
        (λ h. let fine = AllOf-has_conflict e.v_type (x ∷ xs) h in absurd (cc)),
        rw (has_type, bad) refl,
      )
      | inr fine ↦
          let same = has_conflict-AllOf e.v_type (x ∷ xs) fine in
          inl (
            same,
            (add_locked e x xs, rw (has_type, fine) refl, add_locked-Appends e x xs typed same),
          )
    ]
