-- ===== src/Examples/BytesCases.antt =====
-- Byte strings: storage/store/util.go.
use equinoxdb.Bytes.Dedup.{contains_bytes-sort_dedup}
use equinoxdb.Base.{◌≡◌, refl, ◌||◌, some, List, [], ◌∷◌}
use equinoxdb.Bytes.{Bytes, compare_bytes, equal, contains_bytes, union, sort_bytes}
use equinoxdb.Bytes.{sort_dedup}
use equinoxdb.Bytes.Sets.{contains}
use equinoxdb.Bytes.Sorted.{union_lem, Rising}

abbrev key_a : Bytes
key_a = b'a' ∷ []

abbrev key_b : Bytes
key_b = b'b' ∷ []

abbrev key_c : Bytes
key_c = b'c' ∷ []

abbrev left : List Bytes
left = key_a ∷ key_b ∷ []

abbrev right : List Bytes
right = key_b ∷ key_c ∷ []

left-Rising : Rising left
unfolding compare_bytes
left-Rising = ((refl, tt), (tt, tt))

right-Rising : Rising right
unfolding compare_bytes
right-Rising = ((refl, tt), (tt, tt))

union_lem_example :
    Rising (union left right)
    × ((k : Bytes) → contains k (union left right) ≡ (contains k left || contains k right))
union_lem_example = union_lem left right left-Rising right-Rising

contains_bytes-sort_dedup_example :
    Rising (sort_dedup (key_c ∷ key_a ∷ key_c ∷ []))
    × ((k : Bytes)
        → contains_bytes (sort_dedup (key_c ∷ key_a ∷ key_c ∷ [])) k
          ≡ some (contains k (key_c ∷ key_a ∷ key_c ∷ [])))
contains_bytes-sort_dedup_example = contains_bytes-sort_dedup (key_c ∷ key_a ∷ key_c ∷ [])

union_test : union left right ≡ key_a ∷ key_b ∷ key_c ∷ []
unfolding union compare_bytes
union_test = refl

sort_dedup_test : sort_dedup (key_c ∷ key_a ∷ key_c ∷ []) ≡ key_a ∷ key_c ∷ []
unfolding sort_dedup sort_bytes compare_bytes equal
sort_dedup_test = refl
