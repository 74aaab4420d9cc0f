-- ===== src/Bytes/Distinct.antt =====
-- Lists of byte strings with no member twice.
use equinoxdb.Base.{◌≡◌, refl, ◌∙◌, inl, inr, true, false, List, [], ◌∷◌, ◌++◌, arith}
use equinoxdb.Base.{Bool-cases}
use equinoxdb.Bytes.{Bytes, compare_bytes, is_lt, insert_bytes, sort_bytes}
use equinoxdb.Bytes.Dedup.{contains-insert_bytes, contains-sort_bytes}
use equinoxdb.Bytes.Order.{equal_refl, equal→eq, equal_sym}
use equinoxdb.Bytes.Sets.{contains, contains-append}

abbrev pub Distinct : List Bytes → Type 0
Distinct [] = Unit {0}
Distinct (x ∷ xs) = (contains x xs ≡ false) × Distinct xs

-- No string is in both lists.
abbrev pub Apart : List Bytes → List Bytes → Type 0
Apart xs ys = (f : Bytes) → contains f xs ≡ true → contains f ys ≡ false

pub Distinct-append :
    (xs ys : List Bytes) → Distinct xs → Distinct ys → Apart xs ys → Distinct (xs ++ ys)
Distinct-append [] ys dx dy a = dy
Distinct-append (x ∷ xs) ys dx dy a = (
  rw (contains-append x xs ys, dx.0) (a x (rw (equal_refl x))),
  Distinct-append xs ys dx.1 dy (λ f m. a f (ground (arith, m))),
)

pub Distinct-right : (xs ys : List Bytes) → Distinct (xs ++ ys) → Distinct ys
Distinct-right [] ys d = d
Distinct-right (x ∷ xs) ys d = Distinct-right xs ys d.1

pub Distinct-Apart : (xs ys : List Bytes) → Distinct (xs ++ ys) → Apart xs ys
Distinct-Apart [] ys d f m = cc
Distinct-Apart (x ∷ xs) ys d f m = ground (
  arith,
  contains-append x xs ys,
  equal→eq f x,
  λ (m' : contains f xs ≡ true). Distinct-Apart xs ys d.1 f m',
)

-- Insertion of a new member, anywhere: the list is given by its members and its tail.
pub Distinct-insert_bytes :
    (x : Bytes) (xs : List Bytes)
    → Distinct xs
    → contains x xs ≡ false
    → Distinct (insert_bytes x xs)
unfolding insert_bytes
Distinct-insert_bytes x [] d n = (refl, tt)
Distinct-insert_bytes x (y ∷ ys) d n = elim (Bool-cases (is_lt (compare_bytes y x))) [
  | inl later ↦ rw later (
    ground (arith, contains-insert_bytes y x ys, equal_sym x y),
    Distinct-insert_bytes x ys d.1 (ground arith),
  )
  | inr here ↦ rw here (n, d)
]

pub Distinct-sort_bytes : (xs : List Bytes) → Distinct xs → Distinct (sort_bytes xs)
unfolding sort_bytes
Distinct-sort_bytes [] d = tt
Distinct-sort_bytes (x ∷ xs) d =
    Distinct-insert_bytes x (sort_bytes xs) (Distinct-sort_bytes xs d.1)
      (contains-sort_bytes x xs ∙ d.0)

pub Distinct-left : (xs ys : List Bytes) → Distinct (xs ++ ys) → Distinct xs
Distinct-left [] ys d = tt
Distinct-left (x ∷ xs) ys d = (ground (arith, contains-append x xs ys), Distinct-left xs ys d.1)

-- One more member in the middle.
pub Distinct-middle :
    (p : Bytes) (xs ys : List Bytes)
    → Distinct (xs ++ ys)
    → contains p (xs ++ ys) ≡ false
    → Distinct (xs ++ (p ∷ ys))
Distinct-middle p [] ys d n = (n, d)
Distinct-middle p (x ∷ xs) ys d n = (
  ground (arith, contains-append x xs ys, contains-append x xs (p ∷ ys), equal_sym x p),
  Distinct-middle p xs ys d.1 (ground arith),
)
