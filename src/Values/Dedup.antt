-- ===== src/Values/Dedup.antt =====
-- `Deduplicate`: ascending times, and of each time the value that was written last.
use equinoxdb.Base.Bisect.{front}
use equinoxdb.Cursors.Reads.{later}
use equinoxdb.Planner.System.{after}
use equinoxdb.Base.{ℕ, ◌≤◌, ◌<◌, ◌≡◌, refl, ◌∙◌, inl, inr, Option, none, some, List, [], ◌∷◌}
use equinoxdb.Base.{◌++◌, arith, ltb, ◌==◌, if◌then◌else◌, Bool-cases, All}
use equinoxdb.Values.{Value, unix_nano, ordered, insert, stable_sort, compact, compact_all}
use equinoxdb.Values.{deduplicate}
use equinoxdb.Values.Order.{After, Ordered, ordered→Ordered, Ordered→ordered}

-- The last value of the list with time `t`.
abbrev pub latest : ℕ → List Value → Option Value
latest t [] = none
latest t (x ∷ xs) = elim (latest t xs) [
  | some y ↦ some y
  | none ↦ if unix_nano x == t then some x else none
]

-- `latest` of two lists, the second written after the first.
abbrev pub or_else : Option Value → Option Value → Option Value
or_else none d = d
or_else (some x) d = some x

pub latest-append :
    (t : ℕ) (a b : List Value) → latest t (a ++ b) ≡ or_else (latest t b) (latest t a)
latest-append t [] b = elim (latest t b) as (λ o. o ≡ or_else o none) [
  | none ↦ refl
  | some y ↦ refl
]
latest-append t (x ∷ a) b = ground (arith, latest-append t a b)

-- Ascending, with equal times allowed: what the stable sort leaves.
abbrev NotBefore : ℕ → List Value → Type 0
NotBefore t = All (λ x. t ≤ unix_nano x)

abbrev Ascending : List Value → Type 0
Ascending [] = Unit {0}
Ascending (x ∷ xs) = NotBefore (unix_nano x) xs × Ascending xs

NotBefore-mono : (s t : ℕ) (xs : List Value) → s ≤ t → NotBefore t xs → NotBefore s xs
NotBefore-mono s t [] h a = tt
NotBefore-mono s t (x ∷ xs) h a = (omega arith, NotBefore-mono s t xs h a.1)

NotBefore-insert :
    (t : ℕ) (x : Value) (xs : List Value)
    → t ≤ unix_nano x
    → NotBefore t xs
    → NotBefore t (insert x xs)
unfolding insert
NotBefore-insert t x [] h a = (h, tt)
NotBefore-insert t x (y ∷ ys) h a = elim (Bool-cases (ltb (unix_nano y) (unix_nano x))) [
  | inl after ↦ rw after (a.0, NotBefore-insert t x ys h a.1)
  | inr front ↦ rw front (h, a)
]

insert-Ascending : (x : Value) (xs : List Value) → Ascending xs → Ascending (insert x xs)
unfolding insert
insert-Ascending x [] a = (tt, tt)
insert-Ascending x (y ∷ ys) a = elim (Bool-cases (ltb (unix_nano y) (unix_nano x))) [
  | inl after ↦
      rw after (NotBefore-insert (unix_nano y) x ys (ground arith) a.0, insert-Ascending x ys a.1)
  | inr front ↦
      let le : unix_nano x ≤ unix_nano y = ground arith in
      rw front ((le, NotBefore-mono (unix_nano x) (unix_nano y) ys le a.0), a)
]

stable_sort-Ascending : (xs : List Value) → Ascending (stable_sort xs)
unfolding stable_sort
stable_sort-Ascending [] = tt
stable_sort-Ascending (x ∷ xs) = insert-Ascending x (stable_sort xs) (stable_sort-Ascending xs)

-- Inserting at the front of its equals keeps the last value of each time: the sort is stable.
latest-insert : (t : ℕ) (x : Value) (xs : List Value) → latest t (insert x xs) ≡ latest t (x ∷ xs)
unfolding insert
latest-insert t x [] = refl
latest-insert t x (y ∷ ys) = ground (arith, latest-insert t x ys)

latest-stable_sort : (t : ℕ) (xs : List Value) → latest t (stable_sort xs) ≡ latest t xs
unfolding stable_sort
latest-stable_sort t [] = refl
latest-stable_sort t (x ∷ xs) =
    latest-insert t x (stable_sort xs) ∙ ground (arith, latest-stable_sort t xs)

compact-After :
    (t : ℕ) (cur : Value) (xs : List Value)
    → t < unix_nano cur
    → Ascending (cur ∷ xs)
    → After t (compact cur xs)
unfolding compact
compact-After t cur [] h a = (h, tt)
compact-After t cur (x ∷ xs) h a = elim (Bool-cases (unix_nano x == unix_nano cur)) [
  | inl same ↦ rw same (compact-After t x xs (omega arith) a.1)
  | inr later ↦ rw later (h, compact-After t x xs (omega arith) a.1)
]

compact-Ordered : (cur : Value) (xs : List Value) → Ascending (cur ∷ xs) → Ordered (compact cur xs)
unfolding compact
compact-Ordered cur [] a = (tt, tt)
compact-Ordered cur (x ∷ xs) a = elim (Bool-cases (unix_nano x == unix_nano cur)) [
  | inl same ↦ rw same (compact-Ordered x xs a.1)
  | inr later ↦
      rw later (compact-After (unix_nano cur) x xs (ground arith) a.1, compact-Ordered x xs a.1)
]

latest-compact :
    (t : ℕ) (cur : Value) (xs : List Value) → latest t (compact cur xs) ≡ latest t (cur ∷ xs)
unfolding compact
latest-compact t cur [] = refl
latest-compact t cur (x ∷ xs) = ground (arith, latest-compact t x xs)

compact_all-Ordered : (xs : List Value) → Ascending xs → Ordered (compact_all xs)
unfolding compact_all
compact_all-Ordered [] a = tt
compact_all-Ordered (x ∷ xs) a = compact-Ordered x xs a

latest-compact_all : (t : ℕ) (xs : List Value) → latest t (compact_all xs) ≡ latest t xs
unfolding compact_all
latest-compact_all t [] = refl
latest-compact_all t (x ∷ xs) = latest-compact t x xs

-- `Deduplicate` returns values in strictly ascending time, for values in any order.
pub deduplicate-Ordered : (a : List Value) → Ordered (deduplicate a)
unfolding deduplicate
deduplicate-Ordered a = elim (Bool-cases (ordered a)) [
  | inl done ↦ rw done (ordered→Ordered a done)
  | inr work ↦ rw work (compact_all-Ordered (stable_sort a) (stable_sort-Ascending a))
]

-- For every time, the last value with that time is the same before and after `Deduplicate`, and
-- there is none afterwards if there was none before.
pub latest-deduplicate : (t : ℕ) (a : List Value) → latest t (deduplicate a) ≡ latest t a
unfolding deduplicate
latest-deduplicate t a = elim (Bool-cases (ordered a)) [
  | inl done ↦ rw done
  | inr work ↦ rw work (latest-compact_all t (stable_sort a) ∙ latest-stable_sort t a)
]

-- `Deduplicate` of values in any order returns values in strictly ascending time, and for every time
-- the last value with that time is the same before and after it, with none afterwards if there was
-- none before.
pub deduplicate_lem :
    (a : List Value) → Ordered (deduplicate a) × ((t : ℕ) → latest t (deduplicate a) ≡ latest t a)
deduplicate_lem a = (deduplicate-Ordered a, λ t. latest-deduplicate t a)

-- Values that are in order already are returned as they are.
pub deduplicate_self : (a : List Value) → Ordered a → deduplicate a ≡ a
unfolding deduplicate
deduplicate_self a o = rw (Ordered→ordered a o)
