-- ===== src/Cache/Search.antt =====
-- The search of `Put` in storage/memory/cache.go, from the highest level down.
use equinoxdb.Base.{ℕ, zero, suc, ◌+◌, ◌≤◌, ◌<◌, ◌≡◌, refl, sym, ap, ◌∙◌, subst, ◌⊎◌, inl, inr}
use equinoxdb.Base.{Option, some, List, [], ◌∷◌, arith, length, All}
use equinoxdb.Bytes.{Bytes}
use equinoxdb.Cache.{Cache, compare_key, Splice, gap, found, get_splices, Descent, hit, gaps}
use equinoxdb.Cache.{descend}
use equinoxdb.Cache.Chains.{Chain, splice, get_splices-splice, AreRising, In, splice_suffix}
use equinoxdb.Cache.Chains.{splice_prev, splice_found}
use equinoxdb.Values.{size}
use Prim.Native.Nat.{Ordering}

-- The levels of a skip list as lists of addresses, one for each level.
pub record IsSkipList (c : Cache) (levels : ℕ → List ℕ) : Type 0 where
  pub chain : (i : ℕ) → Chain c i 0 (levels i)
  pub rising : (i : ℕ) → AreRising c (levels i)
  pub placed : (i : ℕ) → All (λ q. (0 < q) × (q < c.used)) (levels i)
  pub nested : (i q : ℕ) → In q (levels (suc i)) → In q (levels i)
  pub few : (i : ℕ) → length (levels i) < c.used
  pub tall : 0 < c.height
  pub above_height : (i : ℕ) → c.height ≤ i → levels i ≡ []

module _ (c : Cache) (k : Bytes) (levels : ℕ → List ℕ) (list : IsSkipList c levels) where
  pub In-lowest : (i q : ℕ) → In q (levels i) → In q (levels 0)
  In-lowest zero q m = m
  In-lowest (suc i) q m = In-lowest i q (list.nested i q m)

  -- Where the search of a level may start.
  abbrev pub Start : ℕ → ℕ → Type 0
  Start i p = (p ≡ 0) ⊎ (In p (levels i) × (compare_key c p k ≡ Ordering.lt))

  abbrev pub Below : ℕ → ℕ → Type 0
  Below zero p = Unit {0}
  Below (suc i) p = Start i p

  pub Start-Below : (i p : ℕ) → Start i p → Below i p
  Start-Below zero p s = tt
  Start-Below (suc i) p (inl e) = inl e
  Start-Below (suc i) p (inr (m, lt)) = inr (list.nested i p m, lt)

  level_search :
      (i p : ℕ) → Start i p → get_splices (suc c.used) c k p i ≡ some (splice c k 0 (levels i))
  level_search i p (inl e) =
      subst (λ (t : ℕ). get_splices (suc c.used) c k t i ≡ some (splice c k 0 (levels i))) (sym e)
        (get_splices-splice c k (suc c.used) i 0 (levels i) (list.chain i)
          (let few = list.few i in omega arith))
  level_search i p (inr (m, lt)) =
      let (rs, chain, same_gap, size, inside, higher) =
        splice_suffix c k i 0 p (levels i) (list.chain i) (list.rising i) m lt in
      get_splices-splice c k (suc c.used) i p rs chain (let few = list.few i in omega arith)
      ∙ ap some (sym same_gap)

  -- The gaps of the levels from one on.
  abbrev pub Gaps : ℕ → List (ℕ × Option ℕ) → Type 0
  Gaps i [] = Unit {0}
  Gaps i ((p, q) ∷ gs) = (splice c k 0 (levels i) ≡ gap p q) × Gaps (suc i) gs

  pub data Descended (o : Option Descent) : Type 0 where
    at_node :
        (p : ℕ) → o ≡ some (hit p) → In p (levels 0) → compare_key c p k ≡ Ordering.eq → Descended o
    at_gaps :
        (gs : List (ℕ × Option ℕ))
        → o ≡ some (gaps gs)
        → Gaps 0 gs
        → length gs ≡ c.height
        → Descended o

  Splice-cases :
      (s : Splice) → ((q : ℕ) × (s ≡ found q)) ⊎ ((p : ℕ) × (q : Option ℕ) × (s ≡ gap p q))
  Splice-cases (found q) = inl (q, refl)
  Splice-cases (gap p q) = inr (p, q, refl)

  descend_lem :
      (i p : ℕ) (acc : List (ℕ × Option ℕ))
      → Below i p
      → Gaps i acc
      → length acc + i ≡ c.height
      → Descended (descend c k i p acc)
  unfolding descend
  descend_lem zero p acc s g e = at_gaps acc refl g (omega arith)
  descend_lem (suc i) p acc s g e = elim (Splice-cases (splice c k 0 (levels i))) [
    | inl (q, hit_it) ↦
        let (m, same_key) = splice_found c k 0 q (levels i) hit_it in
        at_node q (rw (level_search i p s, hit_it) refl) (In-lowest i q m) same_key
    | inr (q, n, gap_it) ↦
        rw (level_search i p s, gap_it)
          (descend_lem i q ((q, n) ∷ acc)
            (Start-Below i q (splice_prev c k 0 q n (levels i) gap_it)) (gap_it, g) (omega arith))
  ]

  Below-head : (i : ℕ) → Below i 0
  Below-head zero = tt
  Below-head (suc i) = inl refl

  -- The search ends: at the node that has the key, or with the gap of each level.
  pub descend-Descended : Descended (descend c k c.height 0 [])
  descend-Descended = descend_lem c.height 0 [] (Below-head c.height) tt (omega arith)
