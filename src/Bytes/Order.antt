-- ===== src/Bytes/Order.antt =====
-- bytes.Compare is a total order, and bytes.Equal decides its equality.
use Prim.Native.Nat.{Ordering}
use equinoxdb.Base.{◌≡◌, refl, inl, inr, true, false, [], ◌∷◌, arith, Bool-cases}
use equinoxdb.Bytes.{Bytes, compare_bytes, equal}

pub compare_bytes_self : (a : Bytes) → compare_bytes a a ≡ Ordering.eq
unfolding compare_bytes
compare_bytes_self [] = refl
compare_bytes_self (x ∷ xs) = ground (arith, compare_bytes_self xs)

pub compare_bytes-eq : (a b : Bytes) → compare_bytes a b ≡ Ordering.eq → a ≡ b
unfolding compare_bytes
compare_bytes-eq [] [] e = refl
compare_bytes-eq [] (y ∷ ys) e = cc
compare_bytes-eq (x ∷ xs) [] e = cc
compare_bytes-eq (x ∷ xs) (y ∷ ys) e = ground (arith, compare_bytes-eq xs ys)

pub compare_bytes-swap :
    (a b : Bytes) → compare_bytes a b ≡ Ordering.gt → compare_bytes b a ≡ Ordering.lt
unfolding compare_bytes
compare_bytes-swap [] [] e = cc
compare_bytes-swap [] (y ∷ ys) e = cc
compare_bytes-swap (x ∷ xs) [] e = refl
compare_bytes-swap (x ∷ xs) (y ∷ ys) e = ground (arith, compare_bytes-swap xs ys)

pub compare_bytes_trans :
    (a b c : Bytes)
    → compare_bytes a b ≡ Ordering.lt
    → compare_bytes b c ≡ Ordering.lt
    → compare_bytes a c ≡ Ordering.lt
unfolding compare_bytes
compare_bytes_trans [] [] c e f = cc
compare_bytes_trans [] (y ∷ ys) [] e f = cc
compare_bytes_trans [] (y ∷ ys) (z ∷ zs) e f = refl
compare_bytes_trans (x ∷ xs) [] c e f = cc
compare_bytes_trans (x ∷ xs) (y ∷ ys) [] e f = cc
compare_bytes_trans (x ∷ xs) (y ∷ ys) (z ∷ zs) e f = ground (arith, compare_bytes_trans xs ys zs)

pub equal_refl : (a : Bytes) → equal a a ≡ true
unfolding equal
equal_refl [] = refl
equal_refl (x ∷ xs) = ground (arith, equal_refl xs)

pub equal→eq : (a b : Bytes) → equal a b ≡ true → a ≡ b
unfolding equal
equal→eq [] [] e = refl
equal→eq [] (y ∷ ys) e = cc
equal→eq (x ∷ xs) [] e = cc
equal→eq (x ∷ xs) (y ∷ ys) e = ground (arith, equal→eq xs ys)

-- Bytes in strict order are not equal.
pub lt-ne : (a b : Bytes) → compare_bytes a b ≡ Ordering.lt → equal a b ≡ false
lt-ne a b e = elim (Bool-cases (equal a b)) [
  | inl same ↦ ground (arith, equal→eq a b same, compare_bytes_self a)
  | inr other ↦ other
]

pub equal_sym : (a b : Bytes) → equal a b ≡ equal b a
unfolding equal
equal_sym [] [] = refl
equal_sym [] (y ∷ ys) = refl
equal_sym (x ∷ xs) [] = refl
equal_sym (x ∷ xs) (y ∷ ys) = ground (arith, equal_sym xs ys)
