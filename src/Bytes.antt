-- ===== src/Bytes.antt =====
-- Byte slices and lists of them: bytes.Compare and bytes.Equal, and storage/store/util.go.
pub mod Order
pub mod Sets
pub mod Distinct
pub mod Sorted
pub mod Dedup
use Prim.Native.Nat.{Ordering, compare}
use equinoxdb.Base.{ℕ, Bool, true, false, ◌&&◌, Option, some, List, [], ◌∷◌, ltb, ◌==◌}
use equinoxdb.Base.{if◌then◌else◌, ◌>>=◌, length, get_elem?}
use equinoxdb.Base.Bisect.{bisect}

-- A []byte (or the bytes of a string) is a list of numbers.
abbrev pub Bytes : Type 0
Bytes = List ℕ

-- bytes.Compare: lexicographic, a proper prefix first.
unfoldable pub compare_bytes : Bytes → Bytes → Ordering
compare_bytes [] [] = Ordering.eq
compare_bytes [] (y ∷ ys) = Ordering.lt
compare_bytes (x ∷ xs) [] = Ordering.gt
compare_bytes (x ∷ xs) (y ∷ ys) =
    let rest = compare_bytes xs ys in
    elim (compare x y) [
      | Ordering.lt ↦ Ordering.lt
      | Ordering.gt ↦ Ordering.gt
      | Ordering.eq ↦ rest
    ]

abbrev pub is_lt : Ordering → Bool
is_lt Ordering.lt = true
is_lt _ = false

-- bytes.Equal, and `==` on strings.
unfoldable pub equal : Bytes → Bytes → Bool
equal [] [] = true
equal (x ∷ xs) (y ∷ ys) = x == y && equal xs ys
equal _ _ = false

-- `SearchBytes`
unfoldable pub search_bytes : List Bytes → Bytes → Option ℕ
search_bytes a x = bisect (λ y. is_lt (compare_bytes y x)) a

-- `Contains`
unfoldable pub contains_bytes : List Bytes → Bytes → Option Bool
contains_bytes a x = do
  n ← search_bytes a x
  if ltb n (length a) then (get_elem? a n >>= λ y. some (equal y x)) else some false

-- `Union`; the branch for a comparison of -1 takes from `a`, any other from `b`.
unfoldable pub union : List Bytes → List Bytes → List Bytes
union [] b = b
union (x ∷ a) [] = x ∷ a
union (x ∷ a) (y ∷ b) =
    let both = x ∷ union a b in
    let left = x ∷ union a (y ∷ b) in
    let right = y ∷ union (x ∷ a) b in
    elim (compare_bytes x y) [ Ordering.eq ↦ both | Ordering.lt ↦ left | Ordering.gt ↦ right ]

-- `Intersect`
unfoldable pub intersect : List Bytes → List Bytes → List Bytes
intersect [] b = []
intersect (x ∷ a) [] = []
intersect (x ∷ a) (y ∷ b) =
    let both = x ∷ intersect a b in
    let left = intersect a (y ∷ b) in
    let right = intersect (x ∷ a) b in
    elim (compare_bytes x y) [ Ordering.eq ↦ both | Ordering.lt ↦ left | Ordering.gt ↦ right ]

-- `Sort`, and `sort.Strings`: ascending by bytes.Compare.
pub insert_bytes : Bytes → List Bytes → List Bytes
insert_bytes x [] = x ∷ []
insert_bytes x (y ∷ ys) =
    let rest = insert_bytes x ys in if is_lt (compare_bytes y x) then y ∷ rest else x ∷ y ∷ ys

unfoldable pub sort_bytes : List Bytes → List Bytes
unfolding insert_bytes
sort_bytes [] = []
sort_bytes (x ∷ xs) = insert_bytes x (sort_bytes xs)

-- The compacting loop of `SortDedup`: `prev` is `a[j-1]`, the list is `a[j:]`.
pub dedup_from : Bytes → List Bytes → List Bytes
dedup_from prev [] = prev ∷ []
dedup_from prev (x ∷ xs) = let rest = dedup_from x xs in if equal prev x then rest else prev ∷ rest

pub dedup_all : List Bytes → List Bytes
unfolding dedup_from
dedup_all [] = []
dedup_all (x ∷ xs) = dedup_from x xs

unfoldable pub sort_dedup : List Bytes → List Bytes
unfolding dedup_all
sort_dedup [] = []
sort_dedup (x ∷ []) = x ∷ []
sort_dedup (x ∷ y ∷ r) = dedup_all (sort_bytes (x ∷ y ∷ r))
