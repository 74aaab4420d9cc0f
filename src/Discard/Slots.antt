-- ===== src/Discard/Slots.antt =====
-- Slots written, cut and sorted: lists as storage/store/vfile_discard.go handles them.
use equinoxdb.Base.{ℕ, zero, suc, ◌<◌, ◌≡◌, refl, ap, ◌∙◌, List, [], ◌∷◌, ◌++◌, arith, length}
use equinoxdb.Base.{set, take}
use equinoxdb.Discard.{Slot, insert_slot, sort_slots}

module _ {A : Type 0} where
  pub length-set : (xs : List A) (i : ℕ) (v : A) → length (set xs i v) ≡ length xs
  length-set [] i v = refl
  length-set (x ∷ xs) zero v = refl
  length-set (x ∷ xs) (suc i) v = ap suc (length-set xs i v)

  pub take-set : (n : ℕ) (xs : List A) (i : ℕ) (v : A) → take n (set xs i v) ≡ set (take n xs) i v
  take-set zero xs i v = refl
  take-set (suc n) [] i v = refl
  take-set (suc n) (x ∷ xs) zero v = refl
  take-set (suc n) (x ∷ xs) (suc i) v = ap (◌∷◌ x) (take-set n xs i v)

  pub take-suc-set :
      (n : ℕ) (xs : List A) (v : A)
      → n < length xs
      → take (suc n) (set xs n v) ≡ take n xs ++ (v ∷ [])
  take-suc-set n [] v h = absurd (omega arith)
  take-suc-set zero (x ∷ xs) v h = refl
  take-suc-set (suc n) (x ∷ xs) v h = ap (◌∷◌ x) (take-suc-set n xs v (omega arith))

  -- Writing at the index behind the first `n` elements leaves them.
  pub take-set_behind : (n : ℕ) (xs : List A) (v : A) → take n (set xs n v) ≡ take n xs
  take-set_behind zero xs v = refl
  take-set_behind (suc n) [] v = refl
  take-set_behind (suc n) (x ∷ xs) v = ap (◌∷◌ x) (take-set_behind n xs v)

  pub take-length-append : (n : ℕ) (xs ys : List A) → length xs ≡ n → take n (xs ++ ys) ≡ xs
  take-length-append zero [] ys h = refl
  take-length-append zero (x ∷ xs) ys h = absurd (omega arith)
  take-length-append (suc n) [] ys h = absurd (omega arith)
  take-length-append (suc n) (x ∷ xs) ys h = ap (◌∷◌ x) (take-length-append n xs ys (omega arith))

length-insert_slot : (x : Slot) (es : List Slot) → length (insert_slot x es) ≡ suc (length es)
unfolding insert_slot
length-insert_slot x [] = refl
length-insert_slot x (s ∷ r) = ground (arith, length-insert_slot x r)

pub length-sort_slots : (es : List Slot) → length (sort_slots es) ≡ length es
unfolding sort_slots
length-sort_slots [] = refl
length-sort_slots (s ∷ r) = length-insert_slot s (sort_slots r) ∙ ap suc (length-sort_slots r)
