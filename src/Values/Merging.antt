-- ===== src/Values/Merging.antt =====
-- `Merge`: the values of both operands in ascending time, the second operand's where times agree.
use equinoxdb.Base.{ℕ, ◌≤◌, ◌<◌, ◌≡◌, refl, sym, ap, ◌∙◌, inl, inr, none, some, List, [], ◌∷◌}
use equinoxdb.Base.{◌++◌, append_assoc, arith, ltb, ◌==◌, Bool-cases}
use equinoxdb.Values.{Value, unix_nano, merge_loop}
use equinoxdb.Values.Dedup.{latest, or_else}
use equinoxdb.Values.Order.{After, Ordered, After-mono}

-- The accumulator only collects.
merge_loop-append : (out a b : List Value) → merge_loop out a b ≡ out ++ merge_loop [] a b
unfolding merge_loop
merge_loop-append out [] b = refl
merge_loop-append out (x ∷ a) [] = refl
merge_loop-append out (x ∷ a) (y ∷ b) = elim (Bool-cases (ltb (unix_nano x) (unix_nano y))) [
  | inl less ↦ rw less (
      merge_loop-append (out ++ (x ∷ [])) a (y ∷ b)
      ∙ append_assoc out (x ∷ []) (merge_loop [] a (y ∷ b))
      ∙ ap (◌++◌ out) (sym (merge_loop-append (x ∷ []) a (y ∷ b))))
  | inr rest ↦ elim (Bool-cases (unix_nano x == unix_nano y)) [
    | inl equal ↦ rw (rest, equal) (merge_loop-append out a (y ∷ b))
    | inr more ↦
        rw (rest, more)
          (merge_loop-append (out ++ (y ∷ [])) (x ∷ a) b
            ∙ append_assoc out (y ∷ []) (merge_loop [] (x ∷ a) b)
            ∙ ap (◌++◌ out) (sym (merge_loop-append (y ∷ []) (x ∷ a) b)))
  ]
]

-- The three cases of a round.
pub data Round (x y : Value) (a b : List Value) : Type 0 where
  less :
      unix_nano x < unix_nano y
      → merge_loop [] (x ∷ a) (y ∷ b) ≡ x ∷ merge_loop [] a (y ∷ b)
      → Round x y a b
  equal :
      unix_nano x ≡ unix_nano y
      → merge_loop [] (x ∷ a) (y ∷ b) ≡ merge_loop [] a (y ∷ b)
      → Round x y a b
  more :
      unix_nano y < unix_nano x
      → merge_loop [] (x ∷ a) (y ∷ b) ≡ y ∷ merge_loop [] (x ∷ a) b
      → Round x y a b

pub round : (x y : Value) (a b : List Value) → Round x y a b
unfolding merge_loop
round x y a b = elim (Bool-cases (ltb (unix_nano x) (unix_nano y))) [
  | inl lt ↦ less (ground arith) (rw lt (merge_loop-append (x ∷ []) a (y ∷ b)))
  | inr ge ↦ elim (Bool-cases (unix_nano x == unix_nano y)) [
    | inl eq ↦ equal (ground arith) (rw (ge, eq))
    | inr gt ↦ more (ground arith) (rw (ge, gt) (merge_loop-append (y ∷ []) (x ∷ a) b))
  ]
]

After-merge_loop : (t : ℕ) (a b : List Value) → After t a → After t b → After t (merge_loop [] a b)
unfolding merge_loop
After-merge_loop t [] b h k = k
After-merge_loop t (x ∷ a) [] h k = h
After-merge_loop t (x ∷ a) (y ∷ b) h k = elim (round x y a b) [
  | less _ e ↦ rw e (h.0, After-merge_loop t a (y ∷ b) h.1 k)
  | equal _ e ↦ rw e (After-merge_loop t a (y ∷ b) h.1 k)
  | more _ e ↦ rw e (k.0, After-merge_loop t (x ∷ a) b h k.1)
]

pub merge_loop-Ordered : (a b : List Value) → Ordered a → Ordered b → Ordered (merge_loop [] a b)
unfolding merge_loop
merge_loop-Ordered [] b h k = k
merge_loop-Ordered (x ∷ a) [] h k = h
merge_loop-Ordered (x ∷ a) (y ∷ b) h k = elim (round x y a b) [
  | less lt e ↦
      let later : After (unix_nano x) (y ∷ b) = (lt, After-mono b (omega arith) k.0) in
      rw e (After-merge_loop (unix_nano x) a (y ∷ b) h.0 later, merge_loop-Ordered a (y ∷ b) h.1 k)
  | equal _ e ↦ rw e (merge_loop-Ordered a (y ∷ b) h.1 k)
  | more gt e ↦
      let later : After (unix_nano y) (x ∷ a) = (gt, After-mono a (omega arith) h.0) in
      rw e (After-merge_loop (unix_nano y) (x ∷ a) b later k.0, merge_loop-Ordered (x ∷ a) b h k.1)
]

pub latest-After : (t s : ℕ) (xs : List Value) → s ≤ t → After t xs → latest s xs ≡ none
latest-After t s [] h a = refl
latest-After t s (x ∷ xs) h a = ground (arith, latest-After t s xs h a.1)

pub latest-merge_loop :
    (t : ℕ) (a b : List Value)
    → Ordered a
    → Ordered b
    → latest t (merge_loop [] a b) ≡ or_else (latest t b) (latest t a)
unfolding merge_loop
latest-merge_loop t [] b h k = elim (latest t b) as (λ o. o ≡ or_else o none) [
  | none ↦ refl
  | some y ↦ refl
]
latest-merge_loop t (x ∷ a) [] h k = refl
latest-merge_loop t (x ∷ a) (y ∷ b) h k = elim (round x y a b) [
  | less lt e ↦
      let later : After (unix_nano x) (y ∷ b) = (lt, After-mono b (omega arith) k.0) in
      rw e
        (ground (arith, latest-merge_loop t a (y ∷ b) h.1 k, latest-After (unix_nano x) t (y ∷ b)))
  | equal same e ↦ rw e (ground (arith, latest-merge_loop t a (y ∷ b) h.1 k))
  | more gt e ↦
      let later : After (unix_nano y) (x ∷ a) = (gt, After-mono a (omega arith) h.0) in
      rw e (
        ground (
          arith,
          latest-merge_loop t (x ∷ a) b h k.1,
          latest-After (unix_nano y) t (x ∷ a),
          latest-After (unix_nano y) t b,
        ))
]
