-- ===== src/Cache/Finds.antt =====
-- `findGreaterOrEqual` of storage/memory/cache.go on a skip list.
use equinoxdb.Values.{search}
use equinoxdb.Base.{zero, suc, ◌-◌, ap, ◌∙◌}
use equinoxdb.Cache.{Splice, gap, found, find_loop, find_greater_or_equal}
use equinoxdb.Base.{refl, sym, ◌⊎◌}
use equinoxdb.Cache.Chains.{Chain, splice, In-Above, splice_suffix}
use equinoxdb.Cache.Search.{IsSkipList, In-lowest}
use equinoxdb.Values.{size}
use Prim.Native.Nat.{Ordering}
use equinoxdb.Base.{ℕ, ◌+◌, ◌≤◌, ◌<◌, ◌≡◌, subst, inl, inr, Bool, true, false, Option, none}
use equinoxdb.Base.{some, List, [], ◌∷◌, arith, if◌then◌else◌, length}
use equinoxdb.Bytes.{Bytes, compare_bytes, is_lt}
use equinoxdb.Bytes.Order.{compare_bytes_self, compare_bytes_trans}
use equinoxdb.Cache.{Cache, compare_key}
use equinoxdb.Cache.Chains.{Ordering-cases, In}

-- The first address of a level whose key is not smaller.
abbrev pub first_from : Cache → Bytes → List ℕ → Option ℕ
first_from c k [] = none
first_from c k (q ∷ qs) = if is_lt (compare_key c q k) then first_from c k qs else some q

-- The addresses with keys greater than that of a node.
abbrev count_above : Cache → ℕ → List ℕ → ℕ
count_above c p [] = 0
count_above c p (q ∷ qs) =
    (if is_lt (compare_bytes (c.nodes p).key (c.nodes q).key) then 1 else 0) + count_above c p qs

one_if : (b : Bool) → (if b then 1 else 0) ≤ 1
one_if true = omega arith
one_if false = omega arith

module _ (c : Cache) where
  count_above-length : (p : ℕ) (qs : List ℕ) → count_above c p qs ≤ length qs
  count_above-length p [] = omega arith
  count_above-length p (q ∷ qs) =
      let one = one_if (is_lt (compare_bytes (c.nodes p).key (c.nodes q).key)) in
      omega (arith, one, count_above-length p qs)

  -- No node is above itself.
  count_above-In : (q : ℕ) (qs : List ℕ) → In q qs → count_above c q qs < length qs
  count_above-In q [] m = elim m [ ]
  count_above-In q (r ∷ qs) (inl e) =
      let same : compare_bytes (c.nodes q).key (c.nodes r).key ≡ Ordering.eq =
        subst (λ (t : ℕ). compare_bytes (c.nodes q).key (c.nodes t).key ≡ Ordering.eq) e
          (compare_bytes_self (c.nodes q).key) in
      rw same (omega (arith, count_above-length q qs))
  count_above-In q (r ∷ qs) (inr m) =
      let one = one_if (is_lt (compare_bytes (c.nodes q).key (c.nodes r).key)) in
      omega (arith, one, count_above-In q qs m)

  count_above_less :
      (p q : ℕ) (qs : List ℕ)
      → compare_bytes (c.nodes p).key (c.nodes q).key ≡ Ordering.lt
      → count_above c q qs ≤ count_above c p qs
  count_above_less p q [] lt = omega arith
  count_above_less p q (r ∷ qs) lt =
      let rest = count_above_less p q qs lt in
      elim (Ordering-cases (compare_bytes (c.nodes q).key (c.nodes r).key)) [
        | inl f ↦
            let g = compare_bytes_trans (c.nodes p).key (c.nodes q).key (c.nodes r).key lt f in
            rw (f, g) (omega (arith, rest))
        | inr (inl f) ↦ rw f (omega (arith, rest))
        | inr (inr f) ↦ rw f (omega (arith, rest))
      ]

  count_above_step :
      (p q : ℕ) (qs : List ℕ)
      → compare_bytes (c.nodes p).key (c.nodes q).key ≡ Ordering.lt
      → In q qs
      → count_above c q qs < count_above c p qs
  count_above_step p q [] lt m = elim m [ ]
  count_above_step p q (r ∷ qs) lt (inl e) =
      let same : compare_bytes (c.nodes q).key (c.nodes r).key ≡ Ordering.eq =
        subst (λ (t : ℕ). compare_bytes (c.nodes q).key (c.nodes t).key ≡ Ordering.eq) e
          (compare_bytes_self (c.nodes q).key) in
      let f : compare_bytes (c.nodes p).key (c.nodes r).key ≡ Ordering.lt =
        subst (λ (t : ℕ). compare_bytes (c.nodes p).key (c.nodes t).key ≡ Ordering.lt) e lt in
      rw (same, f) (omega (arith, count_above_less p q qs lt))
  count_above_step p q (r ∷ qs) lt (inr m) =
      let rest = count_above_step p q qs lt m in
      elim (Ordering-cases (compare_bytes (c.nodes q).key (c.nodes r).key)) [
        | inl f ↦
            let g = compare_bytes_trans (c.nodes p).key (c.nodes q).key (c.nodes r).key lt f in
            rw (f, g) (omega (arith, rest))
        | inr (inl f) ↦ rw f (omega (arith, rest))
        | inr (inr f) ↦ rw f (omega (arith, rest))
      ]

module _ (c : Cache) (k : Bytes) (levels : ℕ → List ℕ) (list : IsSkipList c levels) where
  -- How many nodes may still be passed.
  abbrev Budget : ℕ → ℕ → ℕ → Type 0
  Budget i p n =
      ((p ≡ 0) × (n ≡ length (levels 0)))
      ⊎ (In p (levels i) × (compare_key c p k ≡ Ordering.lt) × (n ≡ count_above c p (levels 0)))

  -- The nodes behind one where the search stands.
  abbrev BehindBy : ℕ → ℕ → ℕ → List ℕ → Type 0
  BehindBy i p n rs =
      Chain c i p rs
      × (splice c k 0 (levels i) ≡ splice c k p rs)
      × ((t : ℕ) → In t rs → In t (levels i) × (count_above c t (levels 0) < n))

  abbrev Behind : ℕ → ℕ → ℕ → Type 0
  Behind i p n = (rs : List ℕ) × BehindBy i p n rs

  Behind-Budget : (i p n : ℕ) → Budget i p n → Behind i p n
  Behind-Budget i p n (inl (at_head, size)) =
      subst (λ (t : ℕ). Behind i t n) (sym at_head)
        (
          levels i,
          (
            list.chain i,
            refl,
            λ t m. (
              m,
              omega (arith, size, count_above-In c t (levels 0) (In-lowest c k levels list i t m)),
            ),
          ),
        )
  Behind-Budget i p n (inr (m, lt, size)) =
      let (rs, chain, same_gap, few, inside, higher) =
        splice_suffix c k i 0 p (levels i) (list.chain i) (list.rising i) m lt in
      (
        rs,
        (
          chain,
          same_gap,
          λ t n. (
            inside t n,
            omega (
              arith,
              size,
              count_above_step c p t (levels 0) (In-Above c k p t rs higher n)
                  (In-lowest c k levels list i t (inside t n)),
            ),
          ),
        ),
      )

  abbrev after : Splice → Option ℕ
  after (gap p n) = n
  after (found q) = some q

  after-splice : (p : ℕ) (qs : List ℕ) → after (splice c k p qs) ≡ first_from c k qs
  after-splice p [] = refl
  after-splice p (q ∷ qs) = elim (Ordering-cases (compare_key c q k)) [
    | inl lt ↦ rw lt (after-splice q qs)
    | inr (inl gt) ↦ rw gt refl
    | inr (inr eq) ↦ rw eq refl
  ]

  -- The end of the search at the lowest level.
  lowest :
      (p : ℕ) (rs : List ℕ)
      → splice c k 0 (levels 0) ≡ splice c k p rs
      → first_from c k (levels 0) ≡ first_from c k rs
  lowest p rs e = sym (after-splice 0 (levels 0)) ∙ ap after e ∙ after-splice p rs

  lower : (i p n : ℕ) → Budget (suc i) p n → Budget i p n
  lower i p n (inl at_head) = inl at_head
  lower i p n (inr (m, lt, size)) = inr (list.nested i p m, lt, size)

  -- The search with this fuel, from any node.
  abbrev Searches : ℕ → Type 0
  Searches fuel =
      (i p n : ℕ)
      → Budget i p n
      → n + i < fuel
      → find_loop fuel c k p i ≡ some (first_from c k (levels 0))

  round_lowest :
      (fuel p n : ℕ) (rs : List ℕ)
      → Searches fuel
      → n + 0 < suc fuel
      → BehindBy 0 p n rs
      → find_loop (suc fuel) c k p 0 ≡ some (first_from c k (levels 0))
  unfolding find_loop
  round_lowest fuel p n [] search f (chain, same, pass) = rw (chain, lowest p [] same) refl
  round_lowest fuel p n (q ∷ rs) search f (chain, same, pass) =
      elim (Ordering-cases (compare_key c q k)) [
        | inl lt ↦
            let (m, less) = pass q (inl refl) in
            rw (chain.0, lt)
              (search 0 q (count_above c q (levels 0)) (inr (m, lt, refl)) (omega (arith, less)))
        | inr (inl gt) ↦ rw (chain.0, gt, lowest p (q ∷ rs) same) (rw gt refl)
        | inr (inr eq) ↦ rw (chain.0, eq, lowest p (q ∷ rs) same) (rw eq refl)
      ]

  round_above :
      (fuel i p n : ℕ) (rs : List ℕ)
      → Searches fuel
      → n + suc i < suc fuel
      → Budget (suc i) p n
      → BehindBy (suc i) p n rs
      → find_loop (suc fuel) c k p (suc i) ≡ some (first_from c k (levels 0))
  unfolding find_loop
  round_above fuel i p n [] search f b (chain, same, pass) =
      rw chain (search i p n (lower i p n b) (omega arith))
  round_above fuel i p n (q ∷ rs) search f b (chain, same, pass) =
      let down = search i p n (lower i p n b) (omega arith) in
      elim (Ordering-cases (compare_key c q k)) [
        | inl lt ↦
            let (m, less) = pass q (inl refl) in
            rw (chain.0, lt)
              (search (suc i) q (count_above c q (levels 0)) (inr (m, lt, refl))
                (omega (arith, less)))
        | inr (inl gt) ↦ rw (chain.0, gt) down
        | inr (inr eq) ↦ rw (chain.0, eq) down
      ]

  find_loop_lem : (fuel : ℕ) → Searches fuel
  find_loop_lem zero i p n b f = absurd (omega arith)
  find_loop_lem (suc fuel) zero p n b f =
      let (rs, known) = Behind-Budget 0 p n b in
      round_lowest fuel p n rs (find_loop_lem fuel) f known
  find_loop_lem (suc fuel) (suc i) p n b f =
      let (rs, known) = Behind-Budget (suc i) p n b in
      round_above fuel i p n rs (find_loop_lem fuel) f b known

  -- The search of `Get` and `Delete` ends at the first node whose key is not smaller than the one
  -- that is looked for, or at nil where all keys are smaller.
  pub find_greater_or_equal-first_from :
      find_greater_or_equal c k ≡ some (first_from c k (levels 0))
  unfolding find_greater_or_equal
  find_greater_or_equal-first_from =
      find_loop_lem (suc (c.used + c.height)) (c.height - 1) 0 (length (levels 0))
        (inl (refl, refl)) (let few = list.few 0 in omega arith)
