-- ===== src/Arrays/Columns.antt =====
-- The slices of storage/types/arrayvalues.gen.go under a map of their elements.
use equinoxdb.Arrays.{cut_column, keep_column}
use equinoxdb.Base.{◌+◌, ◌-◌, ap₂, ◌∙◌, inl, inr, ltb, Bool-cases}
use equinoxdb.Base.Slices.{slice}
use equinoxdb.Values.{size}
use equinoxdb.Base.{ℕ, zero, suc, ◌≡◌, refl, ap, Bool, true, false, Option, none, some, List, []}
use equinoxdb.Base.{◌∷◌, ◌++◌, map, leb, if◌then◌else◌, length, get_elem?, take, drop}
use equinoxdb.Base.Slices.{slice_to, slice_from, copy_at}
use mathlib.Core.Option
use equinoxdb.Base.{◌>>=◌}

module _ {A B : Type 0} (g : A → B) where
  pub length-map : (xs : List A) → length (map g xs) ≡ length xs
  length-map [] = refl
  length-map (x ∷ xs) = ap suc (length-map xs)

  pub get_elem?-map : (xs : List A) (i : ℕ) → get_elem? (map g xs) i ≡ Option.map g (get_elem? xs i)
  get_elem?-map [] i = refl
  get_elem?-map (x ∷ xs) zero = refl
  get_elem?-map (x ∷ xs) (suc i) = get_elem?-map xs i

  pub map_then :
      {C : Type 0} (o : Option A) (k : B → Option C) → (Option.map g o >>= k) ≡ (o >>= λ x. k (g x))
  map_then none k = refl
  map_then (some x) k = refl

  take-map : (n : ℕ) (xs : List A) → take n (map g xs) ≡ map g (take n xs)
  take-map zero xs = refl
  take-map (suc n) [] = refl
  take-map (suc n) (x ∷ xs) = ap (◌∷◌ (g x)) (take-map n xs)

  drop-map : (n : ℕ) (xs : List A) → drop n (map g xs) ≡ map g (drop n xs)
  drop-map zero xs = refl
  drop-map (suc n) [] = refl
  drop-map (suc n) (x ∷ xs) = drop-map n xs

  pub append-map : (xs ys : List A) → map g xs ++ map g ys ≡ map g (xs ++ ys)
  append-map [] ys = refl
  append-map (x ∷ xs) ys = ap (◌∷◌ (g x)) (append-map xs ys)

  copy_at-map :
      (xs : List A) (i : ℕ) (ys : List A)
      → copy_at (map g xs) i (map g ys) ≡ map g (copy_at xs i ys)
  copy_at-map [] i ys = refl
  copy_at-map (x ∷ xs) zero [] = refl
  copy_at-map (x ∷ xs) zero (y ∷ ys) = ap (◌∷◌ (g y)) (copy_at-map xs zero ys)
  copy_at-map (x ∷ xs) (suc i) ys = ap (◌∷◌ (g x)) (copy_at-map xs i ys)

  map-if :
      (b : Bool) (xs : List A)
      → (if b then some (map g xs) else none) ≡ Option.map (map g) (if b then some xs else none)
  map-if true xs = refl
  map-if false xs = refl

  slice_to-map : (xs : List A) (n : ℕ) → slice_to (map g xs) n ≡ Option.map (map g) (slice_to xs n)
  slice_to-map xs n = rw (length-map xs, take-map n xs) (map-if (leb n (length xs)) (take n xs))

  slice_from-map :
      (xs : List A) (n : ℕ) → slice_from (map g xs) n ≡ Option.map (map g) (slice_from xs n)
  slice_from-map xs n = rw (length-map xs, drop-map n xs) (map-if (leb n (length xs)) (drop n xs))

  copied-map :
      (i : ℕ) (b m : Option (List A))
      → (do x ← Option.map (map g) b; y ← Option.map (map g) m; some (copy_at x i y))
        ≡ Option.map (map g) (do x ← b; y ← m; some (copy_at x i y))
  copied-map i none m = refl
  copied-map i (some x) none = refl
  copied-map i (some x) (some y) = ap some (copy_at-map x i y)

  sliced-map :
      (lo : ℕ) (u : Option (List A))
      → (Option.map (map g) u >>= λ x. slice_from x lo)
        ≡ Option.map (map g) (u >>= λ x. slice_from x lo)
  sliced-map lo none = refl
  sliced-map lo (some x) = slice_from-map x lo

  slice-map :
      (xs : List A) (lo hi : ℕ) → slice (map g xs) lo hi ≡ Option.map (map g) (slice xs lo hi)
  slice-map xs lo hi =
      ap (λ (u : Option (List B)). u >>= λ x. slice_from x lo) (slice_to-map xs hi)
      ∙ sliced-map lo (slice_to xs hi)

  copy_both :
      (i : ℕ) {b m : Option (List B)} (c n : Option (List A))
      → b ≡ Option.map (map g) c
      → m ≡ Option.map (map g) n
      → (do x ← b; y ← m; some (copy_at x i y))
        ≡ Option.map (map g) (do x ← c; y ← n; some (copy_at x i y))
  copy_both i c n e h =
      ap₂ (λ (p q : Option (List B)). (do x ← p; y ← q; some (copy_at x i y))) e h
      ∙ copied-map i c n

  pub keep_column-map :
      (r s : ℕ) (xs : List A) → keep_column r s (map g xs) ≡ Option.map (map g) (keep_column r s xs)
  unfolding keep_column
  keep_column-map r s xs =
      copy_both 0 (slice_to xs (s - r)) (slice xs r s) (slice_to-map xs (s - r)) (slice-map xs r s)

  pub cut_column-map :
      (size r s : ℕ) (xs : List A)
      → cut_column size r s (map g xs) ≡ Option.map (map g) (cut_column size r s xs)
  unfolding cut_column
  cut_column-map size r s xs = elim (Bool-cases (ltb s size)) [
    | inl inner ↦ rw inner (
        copy_both r (slice_to xs (r + (size - s))) (slice_from xs s)
          (slice_to-map xs (r + (size - s))) (slice_from-map xs s))
    | inr all ↦ rw all (slice_to-map xs r)
  ]
