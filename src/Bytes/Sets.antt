-- ===== src/Bytes/Sets.antt =====
-- A set of byte strings as a list: membership and removal, as of a Go `map[string]struct{}`.
use equinoxdb.Base.{◌≡◌, refl, Bool, false, ◌&&◌, ◌||◌, not, List, [], ◌∷◌, ◌++◌, arith}
use equinoxdb.Base.{if◌then◌else◌}
use equinoxdb.Bytes.{Bytes, equal}
use equinoxdb.Bytes.Order.{equal_refl, equal→eq}

abbrev pub contains : Bytes → List Bytes → Bool
contains k [] = false
contains k (x ∷ xs) = equal k x || contains k xs

abbrev pub remove : Bytes → List Bytes → List Bytes
remove k [] = []
remove k (x ∷ xs) = if equal k x then remove k xs else x ∷ remove k xs

pub contains-append :
    (k : Bytes) (xs ys : List Bytes) → contains k (xs ++ ys) ≡ (contains k xs || contains k ys)
contains-append k [] ys = refl
contains-append k (x ∷ xs) ys = ground (arith, contains-append k xs ys)

pub contains-remove :
    (j k : Bytes) (s : List Bytes) → contains j (remove k s) ≡ (not (equal j k) && contains j s)
contains-remove j k [] = ground arith
contains-remove j k (x ∷ xs) =
    ground (arith, contains-remove j k xs, equal→eq k x, equal→eq j x, equal→eq j k, equal_refl k)
