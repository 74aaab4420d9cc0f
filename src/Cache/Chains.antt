-- ===== src/Cache/Chains.antt =====
-- The levels of the skip list of storage/memory/cache.go as lists of addresses.
use equinoxdb.Cache.{by_order}
use Prim.Native.Nat.{Ordering}
use equinoxdb.Base.{ℕ, zero, suc, ◌≤◌, ◌<◌, ◌≡◌, refl, sym, subst, ◌⊎◌, inl, inr, Option, none}
use equinoxdb.Base.{some, List, [], ◌∷◌, arith, length, All}
use equinoxdb.Bytes.{Bytes, compare_bytes}
use equinoxdb.Bytes.Order.{compare_bytes_trans}
use equinoxdb.Cache.{Cache, get_next, compare_key, Splice, gap, found, get_splices}
use equinoxdb.Values.{size}

-- From an address the pointers of a level lead through these addresses to nil.
abbrev pub Chain : Cache → ℕ → ℕ → List ℕ → Type 0
Chain c i p [] = get_next c p i ≡ none
Chain c i p (q ∷ qs) = (get_next c p i ≡ some q) × Chain c i q qs

-- What `getSplices` looks for, on the addresses of a level.
abbrev pub splice : Cache → Bytes → ℕ → List ℕ → Splice
splice c k p [] = gap p none
splice c k p (q ∷ qs) = by_order (compare_key c q k) (splice c k q qs) (found q) (gap p (some q))

-- The three outcomes of a comparison, with the equation.
pub Ordering-cases : (o : Ordering) → (o ≡ Ordering.lt) ⊎ (o ≡ Ordering.gt) ⊎ (o ≡ Ordering.eq)
Ordering-cases Ordering.lt = inl refl
Ordering-cases Ordering.gt = inr (inl refl)
Ordering-cases Ordering.eq = inr (inr refl)

module _ (c : Cache) (k : Bytes) where
  pub get_splices-splice :
      (fuel i p : ℕ) (qs : List ℕ)
      → Chain c i p qs
      → length qs < fuel
      → get_splices fuel c k p i ≡ some (splice c k p qs)
  unfolding get_splices
  get_splices-splice zero i p qs h f = absurd (omega arith)
  get_splices-splice (suc fuel) i p [] h f = rw h refl
  get_splices-splice (suc fuel) i p (q ∷ qs) h f = elim (Ordering-cases (compare_key c q k)) [
    | inl lt ↦ rw (h.0, lt) (get_splices-splice fuel i q qs h.1 (omega arith))
    | inr (inl gt) ↦ rw (h.0, gt) refl
    | inr (inr eq) ↦ rw (h.0, eq) refl
  ]

-- The keys of the addresses rise.
abbrev pub Above : Cache → ℕ → List ℕ → Type 0
Above c p = All (λ q. compare_bytes (c.nodes p).key (c.nodes q).key ≡ Ordering.lt)

abbrev pub AreRising : Cache → List ℕ → Type 0
AreRising c [] = Unit {0}
AreRising c (q ∷ qs) = Above c q qs × AreRising c qs

abbrev pub In : ℕ → List ℕ → Type 0
In p [] = ⊥
In p (q ∷ qs) = (p ≡ q) ⊎ In p qs

module _ (c : Cache) (k : Bytes) where
  pub In-Above :
      (p r : ℕ) (qs : List ℕ)
      → Above c p qs
      → In r qs
      → compare_bytes (c.nodes p).key (c.nodes r).key ≡ Ordering.lt
  In-Above p r [] h m = elim m [ ]
  In-Above p r (q ∷ qs) h (inl e) = rw e (h.0)
  In-Above p r (q ∷ qs) h (inr m) = In-Above p r qs h.1 m

  -- A search that starts at a node of the level before the key finds the same gap as one that
  -- starts at the beginning.
  pub splice_suffix :
      (i p r : ℕ) (qs : List ℕ)
      → Chain c i p qs
      → AreRising c qs
      → In r qs
      → compare_key c r k ≡ Ordering.lt
      → (rs : List ℕ) × Chain c i r rs
        × (splice c k p qs ≡ splice c k r rs)
        × (length rs ≤ length qs)
        × ((t : ℕ) → In t rs → In t qs)
        × Above c r rs
  splice_suffix i p r [] h o m lt = elim m [ ]
  splice_suffix i p r (q ∷ qs) h o (inl e) lt =
      subst
        (λ (t : ℕ).
          (rs : List ℕ) × Chain c i t rs
          × (splice c k p (q ∷ qs) ≡ splice c k t rs)
          × (length rs ≤ suc (length qs))
          × ((u : ℕ) → In u rs → In u (q ∷ qs))
          × Above c t rs)
        (sym e)
        (
          qs,
          h.1,
          rw (subst (λ (t : ℕ). compare_key c t k ≡ Ordering.lt) e lt) refl,
          omega arith,
          λ u n. inr n,
          o.0,
        )
  splice_suffix i p r (q ∷ qs) h o (inr m) lt =
      let first =
        compare_bytes_trans (c.nodes q).key (c.nodes r).key k (In-Above q r qs o.0 m) lt in
      let (rs, chain, same_gap, size, inside, higher) = splice_suffix i q r qs h.1 o.1 m lt in
      (rs, chain, rw first same_gap, omega arith, λ t n. inr (inside t n), higher)

  -- A gap begins at the start or at a node before the key.
  pub splice_prev :
      (p r : ℕ) (n : Option ℕ) (qs : List ℕ)
      → splice c k p qs ≡ gap r n
      → (r ≡ p) ⊎ (In r qs × (compare_key c r k ≡ Ordering.lt))
  splice_prev p r n [] e = inl (ground arith)
  splice_prev p r n (q ∷ qs) e = elim (Ordering-cases (compare_key c q k)) [
    | inl lt ↦ elim (splice_prev q r n qs (rw lt at e)) [
      | inl at_start ↦ inr (inl at_start, rw at_start lt)
      | inr (m, before) ↦ inr (inr m, before)
    ]
    | inr (inl gt) ↦ let f = rw gt at e in inl (cc)
    | inr (inr eq) ↦ let f = rw eq at e in absurd (cc)
  ]

  pub splice_found :
      (p q : ℕ) (qs : List ℕ)
      → splice c k p qs ≡ found q
      → In q qs × (compare_key c q k ≡ Ordering.eq)
  splice_found p q [] e = absurd (cc)
  splice_found p q (r ∷ qs) e = elim (Ordering-cases (compare_key c r k)) [
    | inl lt ↦ let (m, same_key) = splice_found r q qs (rw lt at e) in (inr m, same_key)
    | inr (inl gt) ↦ let f = rw gt at e in absurd (cc)
    | inr (inr eq) ↦
        let f : r ≡ q = let g = rw eq at e in cc in
        (inl (sym f), subst (λ (t : ℕ). compare_key c t k ≡ Ordering.eq) f eq)
  ]
