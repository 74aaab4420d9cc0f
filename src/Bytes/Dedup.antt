-- ===== src/Bytes/Dedup.antt =====
-- `SortDedup`: the members of the list, strictly ascending.
use equinoxdb.Base.{some}
use equinoxdb.Bytes.{contains_bytes}
use equinoxdb.Bytes.Sorted.{contains_bytes-contains}
use equinoxdb.Cursors.Reads.{later}
use equinoxdb.Bytes.{dedup_all}
use Prim.Native.Nat.{Ordering}
use equinoxdb.Base.{◌≡◌, refl, ap, ◌∙◌, inl, inr, true, false, ◌||◌, List, [], ◌∷◌, arith}
use equinoxdb.Base.{Bool-cases, All}
use equinoxdb.Bytes.{Bytes, compare_bytes, is_lt, equal, insert_bytes, sort_bytes, dedup_from}
use equinoxdb.Bytes.{sort_dedup}
use equinoxdb.Bytes.Order.{compare_bytes_self, compare_bytes_trans, equal_refl, equal→eq}
use equinoxdb.Bytes.Sets.{contains}
use equinoxdb.Bytes.Sorted.{Above, Rising, same, below, above, compared}

-- Ascending, with equal strings allowed.
abbrev AtLeast : Bytes → List Bytes → Type 0
AtLeast k = All (λ y. is_lt (compare_bytes y k) ≡ false)

abbrev Ascending : List Bytes → Type 0
Ascending [] = Unit {0}
Ascending (x ∷ xs) = AtLeast x xs × Ascending xs

not_lt_trans :
    (a b c : Bytes)
    → is_lt (compare_bytes b a) ≡ false
    → is_lt (compare_bytes c b) ≡ false
    → is_lt (compare_bytes c a) ≡ false
not_lt_trans a b c h k = elim (compared a b) [
  | same e f ↦ rw f k
  | below e ↦ elim (compared b c) [
    | same e' f' ↦ rw (← f') h
    | below e' ↦
        let lt = compare_bytes_trans a b c e e' in
        elim (compared c a) [
          | same e'' f'' ↦ rw e''
          | below e'' ↦ ground (arith, compare_bytes_trans a c a lt e'', compare_bytes_self a)
          | above e'' f'' ↦ rw e''
        ]
    | above e' f' ↦ cc
  ]
  | above e f ↦ cc
]

AtLeast-trans :
    (j k : Bytes) (xs : List Bytes)
    → is_lt (compare_bytes k j) ≡ false
    → AtLeast k xs
    → AtLeast j xs
AtLeast-trans j k [] h a = tt
AtLeast-trans j k (x ∷ xs) h a = (not_lt_trans j k x h a.0, AtLeast-trans j k xs h a.1)

AtLeast-insert_bytes :
    (k x : Bytes) (xs : List Bytes)
    → is_lt (compare_bytes x k) ≡ false
    → AtLeast k xs
    → AtLeast k (insert_bytes x xs)
unfolding insert_bytes
AtLeast-insert_bytes k x [] h a = (h, tt)
AtLeast-insert_bytes k x (y ∷ ys) h a = elim (Bool-cases (is_lt (compare_bytes y x))) [
  | inl later ↦ rw later (a.0, AtLeast-insert_bytes k x ys h a.1)
  | inr here ↦ rw here (h, a)
]

-- No two strings are below one another.
lt_irrefl :
    (a b : Bytes)
    → is_lt (compare_bytes a b) ≡ true
    → compare_bytes b a ≡ Ordering.lt
    → is_lt (compare_bytes b a) ≡ false
lt_irrefl a b h e = elim (compared a b) [
  | same e' f ↦ cc
  | below e' ↦ cc (compare_bytes_trans a b a e' e, compare_bytes_self a)
  | above e' f ↦ cc
]

-- A string that is not below another is equal to it or above it.
above_or_eq :
    (p x : Bytes)
    → is_lt (compare_bytes x p) ≡ false
    → equal p x ≡ false
    → compare_bytes p x ≡ Ordering.lt
above_or_eq p x h d = elim (compared p x) [
  | same e f ↦ cc (rw (← f) at d, equal_refl p)
  | below e ↦ e
  | above e f ↦ cc
]

lt_of_not_lt :
    (k p x : Bytes)
    → compare_bytes k p ≡ Ordering.lt
    → is_lt (compare_bytes x p) ≡ false
    → compare_bytes k x ≡ Ordering.lt
lt_of_not_lt k p x h n = elim (compared p x) [
  | same e f ↦ rw (← f) h
  | below e ↦ compare_bytes_trans k p x h e
  | above e f ↦ cc
]

lt-asym : (a b : Bytes) → is_lt (compare_bytes a b) ≡ true → is_lt (compare_bytes b a) ≡ false
lt-asym a b h = elim (compared b a) [
  | same e f ↦ rw e
  | below e ↦ lt_irrefl a b h e
  | above e f ↦ rw e
]

insert_bytes-Ascending :
    (x : Bytes) (xs : List Bytes) → Ascending xs → Ascending (insert_bytes x xs)
unfolding insert_bytes
insert_bytes-Ascending x [] a = (tt, tt)
insert_bytes-Ascending x (y ∷ ys) a = elim (Bool-cases (is_lt (compare_bytes y x))) [
  | inl later ↦
      rw later
        (AtLeast-insert_bytes y x ys (lt-asym y x later) a.0, insert_bytes-Ascending x ys a.1)
  | inr here ↦ rw here ((here, AtLeast-trans x y ys here a.0), a)
]

sort_bytes-Ascending : (xs : List Bytes) → Ascending (sort_bytes xs)
unfolding sort_bytes
sort_bytes-Ascending [] = tt
sort_bytes-Ascending (x ∷ xs) = insert_bytes-Ascending x (sort_bytes xs) (sort_bytes-Ascending xs)

pub contains-insert_bytes :
    (k x : Bytes) (xs : List Bytes) → contains k (insert_bytes x xs) ≡ (equal k x || contains k xs)
unfolding insert_bytes
contains-insert_bytes k x [] = refl
contains-insert_bytes k x (y ∷ ys) = ground (arith, contains-insert_bytes k x ys)

pub contains-sort_bytes : (k : Bytes) (xs : List Bytes) → contains k (sort_bytes xs) ≡ contains k xs
unfolding sort_bytes
contains-sort_bytes k [] = refl
contains-sort_bytes k (x ∷ xs) =
    contains-insert_bytes k x (sort_bytes xs) ∙ ap (◌||◌ (equal k x)) (contains-sort_bytes k xs)

contains-dedup_from :
    (k p : Bytes) (xs : List Bytes) → contains k (dedup_from p xs) ≡ (equal k p || contains k xs)
unfolding dedup_from
contains-dedup_from k p [] = refl
contains-dedup_from k p (x ∷ xs) = ground (arith, contains-dedup_from k x xs, equal→eq p x)

Above-dedup_from :
    (k p : Bytes) (xs : List Bytes)
    → compare_bytes k p ≡ Ordering.lt
    → Ascending (p ∷ xs)
    → Above k (dedup_from p xs)
unfolding dedup_from
Above-dedup_from k p [] h a = (h, tt)
Above-dedup_from k p (x ∷ xs) h a = elim (Bool-cases (equal p x)) [
  | inl twice ↦ rw twice (Above-dedup_from k x xs (rw (equal→eq p x twice) at h) a.1)
  | inr once ↦ rw once (h, Above-dedup_from k x xs (lt_of_not_lt k p x h a.0.0) a.1)
]

dedup_from-Rising : (p : Bytes) (xs : List Bytes) → Ascending (p ∷ xs) → Rising (dedup_from p xs)
unfolding dedup_from
dedup_from-Rising p [] a = (tt, tt)
dedup_from-Rising p (x ∷ xs) a = elim (Bool-cases (equal p x)) [
  | inl twice ↦ rw twice (dedup_from-Rising x xs a.1)
  | inr once ↦
      rw once (Above-dedup_from p x xs (above_or_eq p x a.0.0 once) a.1, dedup_from-Rising x xs a.1)
]

dedup_all-Rising : (xs : List Bytes) → Ascending xs → Rising (dedup_all xs)
unfolding dedup_all
dedup_all-Rising [] a = tt
dedup_all-Rising (x ∷ xs) a = dedup_from-Rising x xs a

contains-dedup_all : (k : Bytes) (xs : List Bytes) → contains k (dedup_all xs) ≡ contains k xs
unfolding dedup_all
contains-dedup_all k [] = refl
contains-dedup_all k (x ∷ xs) = contains-dedup_from k x xs

-- `SortDedup` returns a strictly ascending list with the same members.
pub sort_dedup_lem :
    (a : List Bytes)
    → Rising (sort_dedup a) × ((k : Bytes) → contains k (sort_dedup a) ≡ contains k a)
unfolding sort_dedup
sort_dedup_lem [] = (tt, λ k. refl)
sort_dedup_lem (x ∷ []) = ((tt, tt), λ k. refl)
sort_dedup_lem (x ∷ y ∷ r) =
    let a = x ∷ y ∷ r in
    (
      dedup_all-Rising (sort_bytes a) (sort_bytes-Ascending a),
      λ k. contains-dedup_all k (sort_bytes a) ∙ contains-sort_bytes k a,
    )

-- `SortDedup` of any list returns a strictly ascending list, in which `Contains` finds exactly the
-- members of the given one, without an index out of range.
pub contains_bytes-sort_dedup :
    (a : List Bytes)
    → Rising (sort_dedup a) × ((k : Bytes) → contains_bytes (sort_dedup a) k ≡ some (contains k a))
contains_bytes-sort_dedup a =
    let (rising, members) = sort_dedup_lem a in
    (rising, λ k. contains_bytes-contains (sort_dedup a) k rising ∙ ap some (members k))
