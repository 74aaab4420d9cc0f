-- ===== src/Base/Lists.antt =====
-- Lists measured and indexed by native numbers, under the library's names.
use Prim.Native.Nat.{ℕ, zero, suc, ◌+◌, ◌-◌, ◌≤◌, ◌<◌}
use equinoxdb.Base.Tests.{if◌then◌else◌}
use mathlib.Core.Path.{◌≡◌, refl, ap, sym, ◌∙◌}
use mathlib.Core.Logic.{◌⊎◌, inl, inr}
use mathlib.Core.Bool.{Bool, false, ◌||◌}
use mathlib.Core.List.{List, [], ◌∷◌, ◌++◌, append_assoc}
use mathlib.Core.Option.{Option, none, some}
use native.Mathlib.Omega.{arith}

module _ {ℓ} {A : Type ℓ} where
  abbrev pub length : List A → ℕ
  length [] = 0
  length (x ∷ xs) = suc (length xs)

  abbrev pub get_elem? : List A → ℕ → Option A
  get_elem? [] i = none
  get_elem? (x ∷ xs) zero = some x
  get_elem? (x ∷ xs) (suc i) = get_elem? xs i

  abbrev pub set : List A → ℕ → A → List A
  set [] i v = []
  set (x ∷ xs) zero v = v ∷ xs
  set (x ∷ xs) (suc i) v = x ∷ set xs i v

  abbrev pub take : ℕ → List A → List A
  take zero xs = []
  take (suc n) [] = []
  take (suc n) (x ∷ xs) = x ∷ take n xs

  abbrev pub drop : ℕ → List A → List A
  drop zero xs = xs
  drop (suc n) [] = []
  drop (suc n) (x ∷ xs) = drop n xs

  abbrev pub All {κ} : (A → Type κ) → List A → Type κ
  All P [] = Unit {κ}
  All P (x ∷ xs) = P x × All P xs

  abbrev pub any : (A → Bool) → List A → Bool
  any p [] = false
  any p (x ∷ xs) = p x || any p xs

  pub length-append : (xs ys : List A) → length (xs ++ ys) ≡ length xs + length ys
  length-append [] ys = omega arith
  length-append (x ∷ xs) ys = omega (arith, length-append xs ys)

  pub take-append-drop : (n : ℕ) (xs : List A) → take n xs ++ drop n xs ≡ xs
  take-append-drop zero xs = refl
  take-append-drop (suc n) [] = refl
  take-append-drop (suc n) (x ∷ xs) = ap (◌∷◌ x) (take-append-drop n xs)

  pub length-take : (n : ℕ) (xs : List A) → n ≤ length xs → length (take n xs) ≡ n
  length-take zero xs h = refl
  length-take (suc n) [] h = absurd (omega arith)
  length-take (suc n) (x ∷ xs) h = omega (arith, length-take n xs)

  pub length-drop : (n : ℕ) (xs : List A) → n ≤ length xs → n + length (drop n xs) ≡ length xs
  length-drop zero xs h = omega arith
  length-drop (suc n) [] h = absurd (omega arith)
  length-drop (suc n) (x ∷ xs) h = omega (arith, length-drop n xs)

  pub drop-length : (xs : List A) → drop (length xs) xs ≡ []
  drop-length [] = refl
  drop-length (x ∷ xs) = drop-length xs

  -- An index within the length has an element.
  pub get_elem?-some : (xs : List A) (i : ℕ) → i < length xs → (x : A) × (get_elem? xs i ≡ some x)
  get_elem?-some [] i h = absurd (omega arith)
  get_elem?-some (x ∷ xs) zero h = (x, refl)
  get_elem?-some (x ∷ xs) (suc i) h = get_elem?-some xs i (omega arith)

  pub All-append {κ} : (P : A → Type κ) (xs ys : List A) → All P xs → All P ys → All P (xs ++ ys)
  All-append P [] ys h k = k
  All-append P (x ∷ xs) ys h k = (h.0, All-append P xs ys h.1 k)

  pub List-cases : (xs : List A) → (xs ≡ []) ⊎ ((y : A) × (r : List A) × (xs ≡ y ∷ r))
  List-cases [] = inl refl
  List-cases (x ∷ xs) = inr (x, xs, refl)

  -- The last element, at the index that the code writes.
  pub get_elem?-last :
      (x : A) (xs : List A)
      → (y : A) × (get_elem? (x ∷ xs) (length (x ∷ xs) - 1) ≡ some y)
        × (get_elem? (x ∷ xs) (length xs) ≡ some y)
  get_elem?-last x xs =
      let (y, e) = get_elem?-some (x ∷ xs) (length xs) (omega arith) in
      let back : suc (length xs) - 1 ≡ length xs = omega arith in (y, rw back e, e)

  abbrev pub flatten : List (List A) → List A
  flatten [] = []
  flatten (x ∷ xs) = x ++ flatten xs

  abbrev pub filter : (A → Bool) → List A → List A
  filter p [] = []
  filter p (x ∷ xs) = if p x then x ∷ filter p xs else filter p xs

  pub flatten-append : (xs ys : List (List A)) → flatten (xs ++ ys) ≡ flatten xs ++ flatten ys
  flatten-append [] ys = refl
  flatten-append (x ∷ xs) ys =
      ap (◌++◌ x) (flatten-append xs ys) ∙ sym (append_assoc x (flatten xs) (flatten ys))

  pub take-append : (xs ys : List A) → take (length xs) (xs ++ ys) ≡ xs
  take-append [] ys = refl
  take-append (x ∷ xs) ys = ap (◌∷◌ x) (take-append xs ys)

  pub drop-append : (xs ys : List A) → drop (length xs) (xs ++ ys) ≡ ys
  drop-append [] ys = refl
  drop-append (x ∷ xs) ys = drop-append xs ys

  pub drop-drop : (m n : ℕ) (xs : List A) → drop (m + n) xs ≡ drop n (drop m xs)
  drop-drop zero n xs = ap (λ (k : ℕ). drop k xs) (let e : 0 + n ≡ n = omega arith in e)
  drop-drop (suc m) n (x ∷ xs) =
      ap (λ (k : ℕ). drop k (x ∷ xs)) (let e : suc m + n ≡ suc (m + n) = omega arith in e)
      ∙ drop-drop m n xs
  drop-drop (suc m) zero [] = let e : suc m + 0 ≡ suc m = omega arith in ap (λ (k : ℕ). drop k []) e
  drop-drop (suc m) (suc n) [] =
      let e : suc m + suc n ≡ suc (m + suc n) = omega arith in ap (λ (k : ℕ). drop k []) e

  pub take-drop-length : (n : ℕ) (xs : List A) → take n xs ++ drop (length (take n xs)) xs ≡ xs
  take-drop-length zero xs = refl
  take-drop-length (suc n) [] = refl
  take-drop-length (suc n) (x ∷ xs) = ap (◌∷◌ x) (take-drop-length n xs)

  -- The part that is dropped lies within the first list.
  pub drop-append_within :
      (n : ℕ) (xs ys : List A) → n ≤ length xs → drop n (xs ++ ys) ≡ drop n xs ++ ys
  drop-append_within zero xs ys h = refl
  drop-append_within (suc n) [] ys h = absurd (omega arith)
  drop-append_within (suc n) (x ∷ xs) ys h = drop-append_within n xs ys (omega arith)

  pub drop-append_beyond :
      (n : ℕ) (xs ys : List A) → length xs ≤ n → drop n (xs ++ ys) ≡ drop (n - length xs) ys
  drop-append_beyond n [] ys h = ap (λ (k : ℕ). drop k ys) (let e : n ≡ n - 0 = omega arith in e)
  drop-append_beyond zero (x ∷ xs) ys h = absurd (omega arith)
  drop-append_beyond (suc n) (x ∷ xs) ys h =
      drop-append_beyond n xs ys (omega arith)
      ∙ ap (λ (k : ℕ). drop k ys)
          (let e : n - length xs ≡ suc n - suc (length xs) = omega arith in e)
