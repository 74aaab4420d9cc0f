-- ===== src/Discard/Entries.antt =====
-- Entries in ascending order of file id, and what is looked up in them.
use equinoxdb.Base.{ℕ, zero, suc, ◌≤◌, ◌<◌, ◌≡◌, refl, ◌∙◌, inl, inr, Bool, Option, none, some}
use equinoxdb.Base.{List, [], ◌∷◌, ◌++◌, arith, ltb, ◌==◌, if◌then◌else◌, ltb→lt, Bool-cases}
use equinoxdb.Base.{set, All}
use equinoxdb.Base.Bisect.{front, Behind, Bisected}
use equinoxdb.Discard.{Slot, fid, insert_slot, sort_slots, found_at}

abbrev pub Later : ℕ → List Slot → Type 0
Later f = All (λ s. f < fid s)

abbrev pub HasRisingFids : List Slot → Type 0
HasRisingFids [] = Unit {0}
HasRisingFids (s ∷ r) = Later (fid s) r × HasRisingFids r

-- The count of a file id.
abbrev pub lookup : ℕ → List Slot → Option ℕ
lookup f [] = none
lookup f (s ∷ r) = if fid s == f then some s.1 else lookup f r

pub Later-mono : (f g : ℕ) (es : List Slot) → f ≤ g → Later g es → Later f es
Later-mono f g [] h a = tt
Later-mono f g (s ∷ r) h a = (omega arith, Later-mono f g r h a.1)

lookup-Later : (f : ℕ) (es : List Slot) → Later f es → lookup f es ≡ none
lookup-Later f [] a = refl
lookup-Later f (s ∷ r) a = ground (arith, lookup-Later f r a.1)

module _ (f : ℕ) where
  abbrev pub before_fid : Slot → Bool
  before_fid s = ltb (fid s) f

  Behind-fid : (es : List Slot) (g : ℕ) → f ≤ g → Later g es → Behind before_fid es
  Behind-fid [] g h a = tt
  Behind-fid (s ∷ r) g h a = (ground arith, Behind-fid r g h a.1)

  pub HasRisingFids→Bisected : (es : List Slot) → HasRisingFids es → Bisected before_fid es
  HasRisingFids→Bisected [] a = tt
  HasRisingFids→Bisected (s ∷ r) a =
      ((λ h. Behind-fid r (fid s) (ground arith) a.0), HasRisingFids→Bisected r a.1)

  -- Where the search ends, the entry is found if there is one.
  pub found_at-lookup :
      (es : List Slot) → HasRisingFids es → found_at es (front before_fid es) f ≡ lookup f es
  found_at-lookup [] a = refl
  found_at-lookup (s ∷ r) a =
      ground (arith, found_at-lookup r a.1, lookup-Later f r, Later-mono f (fid s) r)

  -- Overwriting the entry that was found.
  pub lookup-set :
      (g n : ℕ) (es : List Slot) (old : ℕ)
      → HasRisingFids es
      → lookup f es ≡ some old
      → lookup g (set es (front before_fid es) (f, n)) ≡ (if f == g then some n else lookup g es)
  lookup-set g n [] old a e = cc
  lookup-set g n (s ∷ r) old a e = elim (Bool-cases (ltb (fid s) f)) [
    | inl more ↦ let rest = lookup-set g n r old a.1 (ground arith) in rw more (ground arith)
    | inr stop ↦ rw stop (ground (arith, lookup-Later f r, Later-mono f (fid s) r))
  ]

  Later-set : (g n : ℕ) (es : List Slot) (i : ℕ) → g < f → Later g es → Later g (set es i (f, n))
  Later-set g n [] i h a = tt
  Later-set g n (s ∷ r) zero h a = (h, a.1)
  Later-set g n (s ∷ r) (suc i) h a = (a.0, Later-set g n r i h a.1)

  pub set-HasRisingFids :
      (n : ℕ) (es : List Slot) (old : ℕ)
      → HasRisingFids es
      → lookup f es ≡ some old
      → HasRisingFids (set es (front before_fid es) (f, n))
  set-HasRisingFids n [] old a e = tt
  set-HasRisingFids n (s ∷ r) old a e = elim (Bool-cases (ltb (fid s) f)) [
    | inl more ↦ rw more (
      Later-set (fid s) n r (front before_fid r) (ltb→lt (fid s) f more) a.0,
      set-HasRisingFids n r old a.1 (ground arith),
    )
    | inr stop ↦
        let same : fid s ≡ f = ground (arith, lookup-Later f r, Later-mono f (fid s) r) in
        rw stop (Later-mono f (fid s) r (omega arith) a.0, a.1)
  ]

pub lookup-insert_slot :
    (f : ℕ) (x : Slot) (es : List Slot) → lookup f (insert_slot x es) ≡ lookup f (x ∷ es)
unfolding insert_slot
lookup-insert_slot f x [] = refl
lookup-insert_slot f x (s ∷ r) = ground (arith, lookup-insert_slot f x r)

pub lookup-sort_slots : (f : ℕ) (es : List Slot) → lookup f (sort_slots es) ≡ lookup f es
unfolding sort_slots
lookup-sort_slots f [] = refl
lookup-sort_slots f (s ∷ r) =
    lookup-insert_slot f s (sort_slots r) ∙ ground (arith, lookup-sort_slots f r)

Later-insert_slot :
    (f : ℕ) (x : Slot) (es : List Slot) → f < fid x → Later f es → Later f (insert_slot x es)
unfolding insert_slot
Later-insert_slot f x [] h a = (h, tt)
Later-insert_slot f x (s ∷ r) h a = elim (Bool-cases (ltb (fid s) (fid x))) [
  | inl more ↦ rw more (a.0, Later-insert_slot f x r h a.1)
  | inr stop ↦ rw stop (h, a)
]

insert_slot-HasRisingFids :
    (x : Slot) (es : List Slot)
    → lookup (fid x) es ≡ none
    → HasRisingFids es
    → HasRisingFids (insert_slot x es)
unfolding insert_slot
insert_slot-HasRisingFids x [] n a = (tt, tt)
insert_slot-HasRisingFids x (s ∷ r) n a = elim (Bool-cases (ltb (fid s) (fid x))) [
  | inl more ↦ rw more (
    Later-insert_slot (fid s) x r (ltb→lt (fid s) (fid x) more) a.0,
    insert_slot-HasRisingFids x r (ground arith) a.1,
  )
  | inr stop ↦
      let less : fid x < fid s = ground arith in
      rw stop ((less, Later-mono (fid x) (fid s) r (omega arith) a.0), a)
]

lookup-append :
    (f : ℕ) (es : List Slot) (x : Slot)
    → lookup f es ≡ none
    → lookup f (es ++ (x ∷ [])) ≡ (if fid x == f then some x.1 else none)
lookup-append f [] x h = refl
lookup-append f (s ∷ r) x h = ground (arith, lookup-append f r x)

-- Sorting the entries with a new one at the end.
pub sort_slots-HasRisingFids :
    (es : List Slot) (x : Slot)
    → HasRisingFids es
    → lookup (fid x) es ≡ none
    → HasRisingFids (sort_slots (es ++ (x ∷ [])))
unfolding sort_slots
sort_slots-HasRisingFids [] x a n = (tt, tt)
sort_slots-HasRisingFids (s ∷ r) x a n =
    insert_slot-HasRisingFids s (sort_slots (r ++ (x ∷ [])))
      (lookup-sort_slots (fid s) (r ++ (x ∷ []))
        ∙ lookup-append (fid s) r x (lookup-Later (fid s) r a.0)
        ∙ ground arith)
      (sort_slots-HasRisingFids r x a.1 (ground arith))

pub lookup-appended :
    (f : ℕ) (es : List Slot) (x : Slot)
    → lookup (fid x) es ≡ none
    → lookup f (es ++ (x ∷ [])) ≡ (if fid x == f then some x.1 else lookup f es)
lookup-appended f [] x h = refl
lookup-appended f (s ∷ r) x h = ground (arith, lookup-appended f r x)
