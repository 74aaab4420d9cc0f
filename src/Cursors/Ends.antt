-- ===== src/Cursors/Ends.antt =====
-- The loop of storage/cursor/array_cursor.gen.go that strips the points past the end time from a
-- result.
use equinoxdb.Base.{◌⊎◌, Option, none}
use equinoxdb.Base.{◌<◌, sym, some, get_elem?}
use equinoxdb.Base.{ℕ, zero, suc, ◌≤◌, ◌≡◌, refl, ap, inl, inr, Bool, true, false, not, List, []}
use equinoxdb.Base.{◌∷◌, ◌++◌, arith, Bool-cases, length, All, filter}
use equinoxdb.Cursors.{kept_points, strip}

Option-cases : {A : Type 0} (o : Option A) → (o ≡ none) ⊎ ((x : A) × (o ≡ some x))
Option-cases none = inl refl
Option-cases (some x) = inr (x, refl)

module _ {A : Type 0} (P : A → Type 0) where
  All-front : (xs ys : List A) → All P (xs ++ ys) → All P xs
  All-front [] ys h = tt
  All-front (x ∷ xs) ys h = (h.0, All-front xs ys h.1)

  get_elem?-All :
      (xs : List A) (n : ℕ) → All P xs → n < length xs → (x : A) × (get_elem? xs n ≡ some x) × P x
  get_elem?-All [] n h o = absurd (omega (arith, o))
  get_elem?-All (x ∷ xs) zero h o = (x, refl, h.0)
  get_elem?-All (x ∷ xs) (suc n) h o = get_elem?-All xs n h.1 (omega (arith, o))

module _ {A : Type 0} (past : ℕ → Bool) where
  -- Behind a point past the end there are only such points.
  abbrev pub EndsOnce : List (ℕ × A) → Type 0
  EndsOnce [] = Unit
  EndsOnce (x ∷ xs) = (past x.0 ≡ true → All (λ p. past p.0 ≡ true) xs) × EndsOnce xs

  pub EndsOnce-append : (xs ys : List (ℕ × A)) → EndsOnce (xs ++ ys) → EndsOnce xs × EndsOnce ys
  EndsOnce-append [] ys h = (tt, h)
  EndsOnce-append (x ∷ xs) ys h =
      let (front, behind) = EndsOnce-append xs ys h.1 in
      ((λ e. All-front (λ p. past p.0 ≡ true) xs ys (h.0 e), front), behind)

  abbrev pub in_time : List (ℕ × A) → List (ℕ × A)
  in_time = filter (λ p. not (past p.0))

  pub in_time-append : (xs ys : List (ℕ × A)) → in_time (xs ++ ys) ≡ in_time xs ++ in_time ys
  in_time-append [] ys = refl
  in_time-append (x ∷ xs) ys = elim (Bool-cases (past x.0)) [
    | inl e ↦ rw e (in_time-append xs ys)
    | inr e ↦ rw e (ap (◌∷◌ x) (in_time-append xs ys))
  ]

  none_in_time : (xs : List (ℕ × A)) → All (λ p. past p.0 ≡ true) xs → in_time xs ≡ []
  none_in_time [] h = refl
  none_in_time (x ∷ xs) h = rw (h.0) (none_in_time xs h.1)

  kept_points_none :
      (ys : List (ℕ × A)) (n : ℕ)
      → All (λ p. past p.0 ≡ true) ys
      → n ≤ length ys
      → kept_points past ys n ≡ 0
  unfolding kept_points
  kept_points_none ys zero h o = refl
  kept_points_none ys (suc n) h o =
      let (p, at, e) = get_elem?-All (λ p. past p.0 ≡ true) ys n h (omega (arith, o)) in
      let late : past p.0 ≡ true = e in
      rw (kept_points, at, late) (kept_points_none ys n h (omega (arith, o)))

  kept_points-cons :
      (x : ℕ × A) (xs : List (ℕ × A)) (n : ℕ)
      → past x.0 ≡ false
      → kept_points past (x ∷ xs) (suc n) ≡ suc (kept_points past xs n)
  unfolding kept_points
  kept_points-cons x xs zero e = rw e refl
  kept_points-cons x xs (suc n) e = elim (Option-cases (get_elem? xs n)) [
    | inl none_there ↦ rw (kept_points, none_there) refl
    | inr (p, at_n) ↦ elim (Bool-cases (past p.0)) [
      | inl f ↦ rw (kept_points, at_n, f) (kept_points-cons x xs n e)
      | inr f ↦ rw (kept_points, at_n, f) refl
    ]
  ]

  pub strip-in_time : (xs : List (ℕ × A)) → EndsOnce xs → strip past xs ≡ in_time xs
  unfolding kept_points
  strip-in_time [] h = refl
  strip-in_time (x ∷ xs) h = elim (Bool-cases (past x.0)) [
    | inl e ↦
        rw (e, kept_points_none (x ∷ xs) (suc (length xs)) (e, h.0 e) (omega arith))
          (sym (none_in_time xs (h.0 e)))
    | inr e ↦ rw (e, kept_points-cons x xs (length xs) e) (ap (◌∷◌ x) (strip-in_time xs h.1))
  ]
