-- ===== src/Base/Picks.antt =====
-- `Picks a b`: `a` is `b` with some elements left out, in the same order.
use equinoxdb.Base.{ℕ, zero, suc, inl, inr, Bool, List, [], ◌∷◌, ◌++◌, Bool-cases, take, drop}
use equinoxdb.Base.{flatten, filter}

pub data Picks {A : Type 0} : List A → List A → Type 0 where
  none_left : Picks [] []
  kept : (x : A) {a b : List A} → Picks a b → Picks (x ∷ a) (x ∷ b)
  omitted : (x : A) {a b : List A} → Picks a b → Picks a (x ∷ b)

module _ {A : Type 0} where
  pub Picks-refl : (a : List A) → Picks a a
  Picks-refl [] = none_left
  Picks-refl (x ∷ a) = kept x (Picks-refl a)

  pub Picks-nil : (a : List A) → Picks [] a
  Picks-nil [] = none_left
  Picks-nil (x ∷ a) = omitted x (Picks-nil a)

  pub Picks-append : {a b c d : List A} → Picks a b → Picks c d → Picks (a ++ c) (b ++ d)
  Picks-append none_left q = q
  Picks-append (kept x p) q = kept x (Picks-append p q)
  Picks-append (omitted x p) q = omitted x (Picks-append p q)

  pub Picks-trans : {b c : List A} → Picks b c → {a : List A} → Picks a b → Picks a c
  Picks-trans none_left q = q
  Picks-trans (kept x p) (kept _ q) = kept x (Picks-trans p q)
  Picks-trans (kept x p) (omitted _ q) = omitted x (Picks-trans p q)
  Picks-trans (omitted x p) q = omitted x (Picks-trans p q)

  pub Picks-filter : (p : A → Bool) (a : List A) → Picks (filter p a) a
  Picks-filter p [] = none_left
  Picks-filter p (x ∷ a) = elim (Bool-cases (p x)) [
    | inl in_it ↦ rw in_it (kept x (Picks-filter p a))
    | inr left ↦ rw left (omitted x (Picks-filter p a))
  ]

  pub Picks-flatten-filter :
      (p : List A → Bool) (a : List (List A)) → Picks (flatten (filter p a)) (flatten a)
  Picks-flatten-filter p [] = none_left
  Picks-flatten-filter p (x ∷ a) = elim (Bool-cases (p x)) [
    | inl in_it ↦ rw in_it (Picks-append (Picks-refl x) (Picks-flatten-filter p a))
    | inr left ↦ rw left (Picks-append (Picks-nil x) (Picks-flatten-filter p a))
  ]

  pub Picks-drop : (n : ℕ) (a : List A) → Picks (drop n a) a
  Picks-drop zero a = Picks-refl a
  Picks-drop (suc n) [] = none_left
  Picks-drop (suc n) (x ∷ a) = omitted x (Picks-drop n a)

  pub Picks-take : (n : ℕ) (a : List A) → Picks (take n a) a
  Picks-take zero a = Picks-nil a
  Picks-take (suc n) [] = none_left
  Picks-take (suc n) (x ∷ a) = kept x (Picks-take n a)
