-- ===== src/Cursors/Streams.antt =====
-- What a cursor of storage/cursor/array_cursor.gen.go has still to give: the cached points and those
-- of the blocks, merged, a cached point taking the place of a stored one with its time.
use equinoxdb.Base.{true, false}
use equinoxdb.Base.{◌>>=◌}
use equinoxdb.Base.{ℕ, zero, suc, ◌≤◌, ◌<◌, ◌≡◌, refl, sym, ap, ◌∙◌, inl, inr, Bool, Option}
use equinoxdb.Base.{some, List, [], ◌∷◌, ◌++◌, arith, leb, ◌==◌, if◌then◌else◌, Bool-cases}
use equinoxdb.Base.{length, drop, All, flatten}
use equinoxdb.Cursors.{Cursor, open_block, next_sst, settle}
use equinoxdb.Values.{Value, unix_nano}

module _ {A : Type 0} where
  -- The points of cached values that are all of the type of the cursor.
  abbrev pub raw_points : (Value → Option A) → List Value → Option (List (ℕ × A))
  raw_points raw [] = some []
  raw_points raw (v ∷ vs) = do x ← raw v; ps ← raw_points raw vs; some ((unix_nano v, x) ∷ ps)

  module _ (before : ℕ → ℕ → Bool) where
    unfoldable pub overlay : List (ℕ × A) → List (ℕ × A) → List (ℕ × A)
    overlay [] ys = ys
    overlay (x ∷ xs) [] = x ∷ xs
    overlay (x ∷ xs) (y ∷ ys) =
        let both = overlay xs ys in
        let first = overlay xs (y ∷ ys) in
        let second = overlay (x ∷ xs) ys in
        if x.0 == y.0 then x ∷ both else if before x.0 y.0 then x ∷ first else y ∷ second

    pub overlay-nil : (xs : List (ℕ × A)) → overlay xs [] ≡ xs
    unfolding overlay
    overlay-nil [] = refl
    overlay-nil (x ∷ xs) = refl

    pub overlay_none : (xs ys : List (ℕ × A)) → xs ≡ [] → overlay xs ys ≡ ys
    unfolding overlay
    overlay_none [] ys e = refl
    overlay_none (x ∷ xs) ys e = absurd (cc)

    module _ (x y : ℕ × A) (xs ys : List (ℕ × A)) where
      pub overlay_same : (x.0 == y.0) ≡ true → overlay (x ∷ xs) (y ∷ ys) ≡ x ∷ overlay xs ys
      unfolding overlay
      overlay_same e = rw e refl

      pub overlay_first :
          (x.0 == y.0) ≡ false
          → before x.0 y.0 ≡ true
          → overlay (x ∷ xs) (y ∷ ys) ≡ x ∷ overlay xs (y ∷ ys)
      unfolding overlay
      overlay_first e f = rw (e, f) refl

      pub overlay_second :
          (x.0 == y.0) ≡ false
          → before x.0 y.0 ≡ false
          → overlay (x ∷ xs) (y ∷ ys) ≡ y ∷ overlay (x ∷ xs) ys
      unfolding overlay
      overlay_second e f = rw (e, f) refl

  abbrev pub stored_points : Cursor A → List (ℕ × A)
  stored_points c = drop c.passed c.block ++ flatten c.blocks

  abbrev pub AllFilled : List (List (ℕ × A)) → Type 0
  AllFilled = All (λ b. 0 < length b)

  -- No block to come is empty, and the current one is only passed if it was the last.
  abbrev pub IsSettled : Cursor A → Type 0
  IsSettled c = AllFilled c.blocks × (length c.block ≤ c.passed → c.blocks ≡ [])

  pub drop_all : (n : ℕ) (xs : List (ℕ × A)) → length xs ≤ n → drop n xs ≡ []
  drop_all zero [] h = refl
  drop_all (suc n) [] h = refl
  drop_all zero (x ∷ xs) h = absurd (omega arith)
  drop_all (suc n) (x ∷ xs) h = drop_all n xs (omega arith)

  pub open_block-IsSettled :
      (c : Cursor A) (bs : List (List (ℕ × A)))
      → AllFilled bs
      → IsSettled (open_block c bs) × (stored_points (open_block c bs) ≡ flatten bs)
  open_block-IsSettled c [] h = ((tt, λ e. refl), refl)
  open_block-IsSettled c (b ∷ bs) h = ((h.1, λ e. absurd (omega (arith, e, h.0))), refl)

  pub settle-IsSettled :
      (c : Cursor A)
      → AllFilled c.blocks
      → IsSettled (settle c) × (stored_points (settle c) ≡ stored_points c)
  unfolding settle next_sst
  settle-IsSettled c h = elim (Bool-cases (leb (length c.block) c.passed)) [
    | inl e ↦
        let done : length c.block ≤ c.passed = ground arith in
        let (settled, same) = open_block-IsSettled c c.blocks h in
        rw e (
          settled,
          same
              ∙ ap (λ (ps : List (ℕ × A)). ps ++ flatten c.blocks)
                  (sym (drop_all c.passed c.block done)),
        )
    | inr e ↦
        let left : c.passed < length c.block = ground arith in
        rw e ((h, λ f. absurd (omega (arith, f, left))), refl)
  ]

  pub open_block-cache :
      (c : Cursor A) (bs : List (List (ℕ × A))) → (open_block c bs).cache ≡ c.cache
  open_block-cache c [] = refl
  open_block-cache c (b ∷ bs) = refl

  pub settle-cache : (c : Cursor A) → (settle c).cache ≡ c.cache
  unfolding settle next_sst
  settle-cache c = elim (Bool-cases (leb (length c.block) c.passed)) [
    | inl e ↦ rw e (open_block-cache c c.blocks)
    | inr e ↦ rw e refl
  ]
