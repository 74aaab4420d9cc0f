-- ===== src/Bytes/Sorted.antt =====
-- Strictly ascending lists of byte strings: `Union`, `Intersect` and `Contains` as set operations.
use equinoxdb.Base.{ℕ, zero, suc, ap, ◌∙◌, ltb, if◌then◌else◌, ◌>>=◌, length}
use Prim.Native.Nat.{Ordering}
use equinoxdb.Base.{◌≡◌, refl, Bool, false, ◌&&◌, ◌||◌, none, some, List, [], ◌∷◌, arith}
use equinoxdb.Base.{get_elem?, All}
use equinoxdb.Base.Bisect.{front, Behind, Bisected, bisect-front}
use equinoxdb.Bytes.{Bytes, compare_bytes, is_lt, equal, search_bytes, contains_bytes, union}
use equinoxdb.Bytes.{intersect}
use equinoxdb.Bytes.Order.{compare_bytes-eq, compare_bytes-swap, compare_bytes_trans, equal_refl}
use equinoxdb.Bytes.Order.{equal→eq, lt-ne, equal_sym}
use equinoxdb.Bytes.Sets.{contains}

-- Every string of the list is above `k`.
abbrev pub Above : Bytes → List Bytes → Type 0
Above k = All (λ y. compare_bytes k y ≡ Ordering.lt)

abbrev pub Rising : List Bytes → Type 0
Rising [] = Unit {0}
Rising (x ∷ xs) = Above x xs × Rising xs

pub Above-trans :
    (j k : Bytes) (xs : List Bytes) → compare_bytes j k ≡ Ordering.lt → Above k xs → Above j xs
Above-trans j k [] h a = tt
Above-trans j k (x ∷ xs) h a = (compare_bytes_trans j k x h a.0, Above-trans j k xs h a.1)

pub contains-Above : (k : Bytes) (xs : List Bytes) → Above k xs → contains k xs ≡ false
contains-Above k [] a = refl
contains-Above k (x ∷ xs) a = rw (lt-ne k x a.0) (contains-Above k xs a.1)

-- The outcome of a comparison.
pub data Compared (x y : Bytes) : Type 0 where
  same : compare_bytes x y ≡ Ordering.eq → x ≡ y → Compared x y
  below : compare_bytes x y ≡ Ordering.lt → Compared x y
  above : compare_bytes x y ≡ Ordering.gt → compare_bytes y x ≡ Ordering.lt → Compared x y

Compared-at : (x y : Bytes) (o : Ordering) → compare_bytes x y ≡ o → Compared x y
Compared-at x y Ordering.eq e = same e (compare_bytes-eq x y e)
Compared-at x y Ordering.lt e = below e
Compared-at x y Ordering.gt e = above e (compare_bytes-swap x y e)

pub compared : (x y : Bytes) → Compared x y
compared x y = Compared-at x y (compare_bytes x y) refl

union_same :
    (x y : Bytes) (a b : List Bytes)
    → compare_bytes x y ≡ Ordering.eq
    → union (x ∷ a) (y ∷ b) ≡ x ∷ union a b
unfolding union
union_same x y a b e = rw (e, union)

union_below :
    (x y : Bytes) (a b : List Bytes)
    → compare_bytes x y ≡ Ordering.lt
    → union (x ∷ a) (y ∷ b) ≡ x ∷ union a (y ∷ b)
unfolding union
union_below x y a b e = rw (e, union)

union_above :
    (x y : Bytes) (a b : List Bytes)
    → compare_bytes x y ≡ Ordering.gt
    → union (x ∷ a) (y ∷ b) ≡ y ∷ union (x ∷ a) b
unfolding union
union_above x y a b e = rw (e, union)

-- `Union` of any two lists has exactly the members of either.
pub contains-union :
    (k : Bytes) (a b : List Bytes) → contains k (union a b) ≡ (contains k a || contains k b)
unfolding union
contains-union k [] b = refl
contains-union k (x ∷ a) [] = ground arith
contains-union k (x ∷ a) (y ∷ b) = elim (compared x y) [
  | same e f ↦ rw (union_same x y a b e) (ground (arith, contains-union k a b, f))
  | below e ↦ rw (union_below x y a b e) (ground (arith, contains-union k a (y ∷ b)))
  | above e f ↦ rw (union_above x y a b e) (ground (arith, contains-union k (x ∷ a) b))
]

Above-union : (k : Bytes) (a b : List Bytes) → Above k a → Above k b → Above k (union a b)
unfolding union
Above-union k [] b h g = g
Above-union k (x ∷ a) [] h g = h
Above-union k (x ∷ a) (y ∷ b) h g = elim (compared x y) [
  | same e f ↦ rw (union_same x y a b e) (h.0, Above-union k a b h.1 g.1)
  | below e ↦ rw (union_below x y a b e) (h.0, Above-union k a (y ∷ b) h.1 g)
  | above e f ↦ rw (union_above x y a b e) (g.0, Above-union k (x ∷ a) b h g.1)
]

-- `Union` of two strictly ascending lists is strictly ascending.
pub union-Rising : (a b : List Bytes) → Rising a → Rising b → Rising (union a b)
unfolding union
union-Rising [] b h g = g
union-Rising (x ∷ a) [] h g = h
union-Rising (x ∷ a) (y ∷ b) h g = elim (compared x y) [
  | same e f ↦
      rw (union_same x y a b e) (Above-union x a b h.0 (rw (← f) at g.0), union-Rising a b h.1 g.1)
  | below e ↦
      rw (union_below x y a b e)
        (Above-union x a (y ∷ b) h.0 (e, Above-trans x y b e g.0), union-Rising a (y ∷ b) h.1 g)
  | above e f ↦
      rw (union_above x y a b e)
        (Above-union y (x ∷ a) b (f, Above-trans y x a f h.0) g.0, union-Rising (x ∷ a) b h g.1)
]

-- `Union` of two strictly ascending lists is strictly ascending and has exactly the members of either.
pub union_lem :
    (a b : List Bytes)
    → Rising a
    → Rising b
    → Rising (union a b) × ((k : Bytes) → contains k (union a b) ≡ (contains k a || contains k b))
union_lem a b h g = (union-Rising a b h g, λ k. contains-union k a b)

intersect_same :
    (x y : Bytes) (a b : List Bytes)
    → compare_bytes x y ≡ Ordering.eq
    → intersect (x ∷ a) (y ∷ b) ≡ x ∷ intersect a b
unfolding intersect
intersect_same x y a b e = rw (e, intersect)

intersect_below :
    (x y : Bytes) (a b : List Bytes)
    → compare_bytes x y ≡ Ordering.lt
    → intersect (x ∷ a) (y ∷ b) ≡ intersect a (y ∷ b)
unfolding intersect
intersect_below x y a b e = rw (e, intersect)

intersect_above :
    (x y : Bytes) (a b : List Bytes)
    → compare_bytes x y ≡ Ordering.gt
    → intersect (x ∷ a) (y ∷ b) ≡ intersect (x ∷ a) b
unfolding intersect
intersect_above x y a b e = rw (e, intersect)

-- `Intersect` of two strictly ascending lists has exactly the members of both.
pub contains-intersect :
    (k : Bytes) (a b : List Bytes)
    → Rising a
    → Rising b
    → contains k (intersect a b) ≡ (contains k a && contains k b)
unfolding intersect
contains-intersect k [] b h g = refl
contains-intersect k (x ∷ a) [] h g = ground arith
contains-intersect k (x ∷ a) (y ∷ b) h g = elim (compared x y) [
  | same e f ↦ rw (intersect_same x y a b e) (ground (arith, contains-intersect k a b h.1 g.1, f))
  | below e ↦
      let apart : contains x (y ∷ b) ≡ false =
        contains-Above x (y ∷ b) (e, Above-trans x y b e g.0) in
      rw (intersect_below x y a b e)
        (ground (arith, contains-intersect k a (y ∷ b) h.1 g, apart, equal→eq k x))
  | above e f ↦
      let apart : contains y (x ∷ a) ≡ false =
        contains-Above y (x ∷ a) (f, Above-trans y x a f h.0) in
      rw (intersect_above x y a b e)
        (ground (arith, contains-intersect k (x ∷ a) b h g.1, apart, equal→eq k y))
]

module _ (k : Bytes) where
  abbrev before_key : Bytes → Bool
  before_key y = is_lt (compare_bytes y k)

  not_before :
      (y : Bytes) (xs : List Bytes) → before_key y ≡ false → Above y xs → Behind before_key xs
  not_before y [] h a = tt
  not_before y (x ∷ xs) h a = (ground (arith, compare_bytes_trans y x k a.0), not_before y xs h a.1)

  Rising→Bisected : (xs : List Bytes) → Rising xs → Bisected before_key xs
  Rising→Bisected [] r = tt
  Rising→Bisected (x ∷ xs) r = ((λ h. not_before x xs h r.0), Rising→Bisected xs r.1)

  abbrev at_front : List Bytes → Bool
  at_front xs = elim (get_elem? xs (front before_key xs)) [ none ↦ false | some y ↦ equal y k ]

  at_front-contains : (xs : List Bytes) → Rising xs → at_front xs ≡ contains k xs
  at_front-contains [] r = refl
  at_front-contains (x ∷ xs) r = elim (compared x k) [
    | same e f ↦ ground (arith, f, equal_refl k)
    | below e ↦ ground (arith, equal_sym k x, lt-ne x k e, at_front-contains xs r.1)
    | above e f ↦
        ground (arith, equal_sym k x, lt-ne k x f, contains-Above k xs (Above-trans k x xs f r.0))
  ]

  -- The guard in front of the index.
  guarded :
      (a : List Bytes) (n : ℕ)
      → (if ltb n (length a) then (get_elem? a n >>= λ y. some (equal y k)) else some false)
        ≡ some (elim (get_elem? a n) [ none ↦ false | some y ↦ equal y k ])
  guarded [] n = ground arith
  guarded (x ∷ a) zero = ground arith
  guarded (x ∷ a) (suc n) = ground (arith, guarded a n)

-- On a strictly ascending list `Contains` reads no index out of range and decides membership.
pub contains_bytes-contains :
    (a : List Bytes) (k : Bytes) → Rising a → contains_bytes a k ≡ some (contains k a)
unfolding contains_bytes search_bytes
contains_bytes-contains a k r =
    rw (bisect-front (before_key k) a (Rising→Bisected k a r))
      (guarded k a (front (before_key k) a) ∙ ap some (at_front-contains k a r))
