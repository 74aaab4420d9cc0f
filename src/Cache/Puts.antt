-- ===== src/Cache/Puts.antt =====
-- `Put` of storage/memory/cache.go: a skip list stays one, with the new node where its key belongs.
use equinoxdb.Cache.Insertion.{all_same}
use std.Path.{fun_ext}
use equinoxdb.Base.{◌≤◌, sym, subst, inl, inr, ltb, if◌then◌else◌, lt→ltb, le→ltb, Bool-cases}
use equinoxdb.Cache.{new_node}
use equinoxdb.Cache.Chains.{AreRising, In}
use equinoxdb.Cache.Insertion.{mixed, mixed_above}
use equinoxdb.Cache.Keys.{insert_address-SameKeys, insert_address-All, length-insert_address}
use equinoxdb.Cache.Keys.{In-insert_address, insert_address-In}
use equinoxdb.Cache.Links.{insert_address, tower_if}
use equinoxdb.Base.{ℕ, suc, ◌+◌, ◌<◌, ◌≡◌, refl, ap, ◌∙◌, false, Option, List, [], ◌∷◌, arith}
use equinoxdb.Base.{◌==◌, ==_refl, length, All}
use equinoxdb.Bytes.{Bytes}
use equinoxdb.Cache.{Cache, get_next, place}
use equinoxdb.Cache.Chains.{Chain}
use equinoxdb.Cache.Insertion.{Half, Rest}
use equinoxdb.Cache.Keys.{All-weaken, SameKeys, splice-SameKeys, AreRising-SameKeys}
use equinoxdb.Cache.Links.{contents}
use equinoxdb.Cache.Search.{IsSkipList, Gaps}
use equinoxdb.Entry.{new_entry_values}
use equinoxdb.Values.{Value}

module _ (c : Cache) (k : Bytes) (vs : List Value) (life h : ℕ) where
  abbrev pub placed_cache : Cache
  placed_cache = place c k vs h life

  pub node_place : (q : ℕ) → q < c.used → contents (placed_cache.nodes q) ≡ contents (c.nodes q)
  node_place q less = let other : (q == c.used) ≡ false = ground arith in rw other refl

  pub node_place_new : contents (placed_cache.nodes c.used) ≡ (k, new_entry_values vs)
  node_place_new = rw (==_refl c.used) refl

  get_next-place : (q i : ℕ) → q < c.used → get_next placed_cache q i ≡ get_next c q i
  get_next-place q i less =
      let other : (q == c.used) ≡ false = ground arith in
      tower_if (q == c.used) (new_node k vs h life) (c.nodes q) i ∙ rw other refl

  Chain-place :
      (i p : ℕ) (qs : List ℕ)
      → p < c.used
      → All (λ q. (0 < q) × (q < c.used)) qs
      → Chain c i p qs
      → Chain placed_cache i p qs
  Chain-place i p [] a b h = get_next-place p i a ∙ h
  Chain-place i p (q ∷ qs) a b h = (get_next-place p i a ∙ h.0, Chain-place i q qs b.0.1 b.1 h.1)

  module _ (levels : ℕ → List ℕ) (list : IsSkipList c levels) where
    same_placed : (i : ℕ) → SameKeys c placed_cache (levels i)
    same_placed i =
        All-weaken (λ q. (0 < q) × (q < c.used)) _ (λ q b. ap (λ v. v.0) (node_place q b.1))
          (levels i) (list.placed i)

    pub some_used : 0 < c.used
    some_used = let few = list.few 0 in omega arith

    untouched : (j : ℕ) → mixed placed_cache k c.used c.height levels 0 j ≡ levels j
    untouched j = mixed_above placed_cache k c.used c.height levels 0 j (omega arith)

    pub Half-place : Half placed_cache k c.used c.height levels placed_cache 0
    Half-place = record {
      same_contents = λ q. refl;
      same_used = refl;
      same_height = refl;
      half_chain = λ j.
          subst (Chain placed_cache j 0) (sym (untouched j))
            (Chain-place j 0 (levels j) some_used (list.placed j) (list.chain j));
      half_rising = λ j.
          subst (AreRising placed_cache) (sym (untouched j))
            (AreRising-SameKeys c placed_cache (levels j) (same_placed j) (list.rising j));
    }

    pub Rest-Gaps :
        (i : ℕ) (gs : List (ℕ × Option ℕ))
        → Gaps c k levels list i gs
        → length gs + i ≡ c.height
        → Rest placed_cache k c.used c.height levels i gs
    Rest-Gaps i [] g e = omega arith
    Rest-Gaps i ((p, n) ∷ gs) g e = (
      splice-SameKeys c placed_cache k 0 (levels i) (same_placed i) ∙ g.0,
      Rest-Gaps (suc i) gs g.1 (omega arith),
    )

    -- The levels with the new node.
    abbrev pub levels_with : ℕ → List ℕ
    levels_with i = if ltb i h then insert_address c k c.used (levels i) else levels i

    mixed-levels_with : mixed placed_cache k c.used c.height levels h ≡ levels_with
    mixed-levels_with = fun_ext (λ i.
        ap (λ (qs : List ℕ). if ltb i h then qs else levels i)
          (insert_address-SameKeys c placed_cache k c.used (levels i) (same_placed i)))

    levels_with_below : (i : ℕ) → i < h → levels_with i ≡ insert_address c k c.used (levels i)
    levels_with_below i less = rw (lt→ltb i h less) refl

    levels_with_above : (i : ℕ) → h ≤ i → levels_with i ≡ levels i
    levels_with_above i less = rw (le→ltb i h less) refl

    -- A property of lists that hold the new node or not.
    both_kinds :
        (P : List ℕ → Type 0) (i : ℕ)
        → P (insert_address c k c.used (levels i))
        → P (levels i)
        → P (levels_with i)
    both_kinds P i x y = elim (Bool-cases (ltb i h)) [ inl e ↦ rw e x | inr e ↦ rw e y ]

    bound : (q : ℕ) → (0 < q) × (q < c.used) → (0 < q) × (q < suc c.used)
    bound q b = (b.0, omega (arith, b.1))

    nested_with : (i q : ℕ) → In q (levels_with (suc i)) → In q (levels_with i)
    nested_with i q m = elim (Bool-cases (ltb (suc i) h)) [
      | inl e ↦
          let low : i < h = ground arith in
          subst (In q) (sym (levels_with_below i low)) (
            insert_address-In c k c.used q (levels i)
              (elim (In-insert_address c k c.used q (levels (suc i)) (rw e at m)) [
                | inl f ↦ inl f
                | inr n ↦ inr (list.nested i q n)
              ]))
      | inr e ↦
          let n : In q (levels i) = list.nested i q (rw e at m) in
          both_kinds (In q) i (insert_address-In c k c.used q (levels i) (inr n)) n
    ]

    still_tall : 0 < (if ltb c.height h then h else c.height)
    still_tall = let tall = list.tall in ground arith

    above_both : {i : ℕ} → (if ltb c.height h then h else c.height) ≤ i → (h ≤ i) × (c.height ≤ i)
    above_both {i} high = elim (Bool-cases (ltb c.height h)) [
      | inl e ↦ let less : c.height < h = ground arith in (rw e at high, ground arith)
      | inr e ↦ let more : h ≤ c.height = ground arith in (ground arith, rw e at high)
    ]

    pub IsSkipList-Half :
        (d : Cache) → Half placed_cache k c.used c.height levels d h → IsSkipList d levels_with
    IsSkipList-Half d half = record {
      chain =
          λ i. subst (λ (l : ℕ → List ℕ). Chain d i 0 (l i)) mixed-levels_with (half.half_chain i);
      rising = λ i.
          AreRising-SameKeys placed_cache d (levels_with i)
            (all_same placed_cache k c.used c.height levels d h half (levels_with i))
            (subst (λ (l : ℕ → List ℕ). AreRising placed_cache (l i)) mixed-levels_with
              (half.half_rising i));
      placed = λ i.
          subst (λ (u : ℕ). All (λ q. (0 < q) × (q < u)) (levels_with i)) (sym half.same_used)
            (both_kinds (All (λ q. (0 < q) × (q < suc c.used))) i
              (insert_address-All c k c.used _ (levels i) (some_used, omega arith)
                (All-weaken _ _ bound (levels i) (list.placed i)))
              (All-weaken _ _ bound (levels i) (list.placed i)));
      nested = nested_with;
      few = λ i.
          subst (λ (u : ℕ). length (levels_with i) < u) (sym half.same_used)
            (both_kinds (λ qs. length qs < suc c.used) i
              (let few = list.few i in omega (arith, length-insert_address c k c.used (levels i)))
              (let few = list.few i in omega arith));
      tall = subst (λ (t : ℕ). 0 < t) (sym half.same_height) still_tall;
      above_height = λ i high.
          let (low, old) = above_both (subst (λ (t : ℕ). t ≤ i) half.same_height high) in
          levels_with_above i low ∙ list.above_height i old;
    }
