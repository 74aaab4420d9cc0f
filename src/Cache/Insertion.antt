-- ===== src/Cache/Insertion.antt =====
-- The second loop of `Put` in storage/memory/cache.go: the new node is put into the levels below its
-- height, one after the other.
use equinoxdb.Base.{ap}
use equinoxdb.Cache.Links.{contents}
use equinoxdb.Base.{zero, ◌+◌, none, drop}
use equinoxdb.Cache.{gap_of, link_levels}
use equinoxdb.Cache.Chains.{get_splices-splice}
use equinoxdb.Cache.Keys.{All-weaken, splice-SameKeys, insert_address-SameKeys}
use equinoxdb.Cache.Links.{Chain-linked}
use equinoxdb.Cache.Chains.{Above}
use equinoxdb.Base.{sym, ◌==◌, Bool-cases}
use equinoxdb.Cache.Keys.{In-All, insert_address-AreRising}
use equinoxdb.Cache.Links.{Chain-linked_level}
use Prim.Native.Nat.{Ordering}
use equinoxdb.Base.{ℕ, suc, ◌≤◌, ◌<◌, ◌≡◌, refl, ◌∙◌, subst, ◌≢◌, inl, inr, Option, some, List}
use equinoxdb.Base.{[], ◌∷◌, arith, ltb, if◌then◌else◌, lt→ltb, le→ltb, All}
use equinoxdb.Bytes.{Bytes, compare_bytes}
use equinoxdb.Bytes.Order.{compare_bytes_self}
use equinoxdb.Cache.{Cache, gap, set_tower, link}
use equinoxdb.Cache.Chains.{Chain, splice, AreRising, splice_prev}
use equinoxdb.Cache.Keys.{SameKeys}
use equinoxdb.Cache.Links.{insert_address, NotIn, AreDistinct, contents-set_tower}

-- The addresses of a level that rise are distinct, and none is the head or the new node.
pub NotIn-Above : (c : Cache) (p : ℕ) (qs : List ℕ) → Above c p qs → NotIn p qs
NotIn-Above c p [] h = tt
NotIn-Above c p (q ∷ qs) h = (
  (λ e.
      let f : compare_bytes (c.nodes p).key (c.nodes p).key ≡ Ordering.lt =
        subst (λ (t : ℕ). compare_bytes (c.nodes p).key (c.nodes t).key ≡ Ordering.lt) e h.0 in
      let g = compare_bytes_self (c.nodes p).key in absurd (cc)),
  NotIn-Above c p qs h.1,
)

AreRising-AreDistinct : (c : Cache) (qs : List ℕ) → AreRising c qs → AreDistinct qs
AreRising-AreDistinct c [] h = tt
AreRising-AreDistinct c (q ∷ qs) h = (NotIn-Above c q qs h.0, AreRising-AreDistinct c qs h.1)

module _ (b : Cache) (k : Bytes) (x old : ℕ) (levels : ℕ → List ℕ) where
  -- The levels with the new node in those below a level.
  abbrev pub mixed : ℕ → ℕ → List ℕ
  mixed i j = if ltb j i then insert_address b k x (levels j) else levels j

  pub mixed_below : (i j : ℕ) → j < i → mixed i j ≡ insert_address b k x (levels j)
  mixed_below i j h = rw (lt→ltb j i h) refl

  pub mixed_above : (i j : ℕ) → i ≤ j → mixed i j ≡ levels j
  mixed_above i j h = rw (le→ltb j i h) refl

  mixed_other : (i j : ℕ) → j ≢ i → mixed i j ≡ mixed (suc i) j
  mixed_other i j ne = elim (Bool-cases (ltb j i)) [
    | inl e ↦
        let less : j < i = ground arith in
        mixed_below i j less ∙ sym (mixed_below (suc i) j (omega arith))
    | inr e ↦
        let more : suc i ≤ j = ground arith in
        mixed_above i j (omega arith) ∙ sym (mixed_above (suc i) j more)
  ]

  -- A family on the levels, after a round.
  every_level :
      (P : ℕ → List ℕ → Type 0) (i : ℕ)
      → ((j : ℕ) → j ≢ i → P j (mixed i j))
      → P i (insert_address b k x (levels i))
      → (j : ℕ) → P j (mixed (suc i) j)
  every_level P i others here j = elim (Bool-cases (j == i)) [
    | inl e ↦
        let f : i ≡ j = ground arith in
        subst (λ (t : ℕ). P t (mixed (suc i) t)) f
          (subst (P i) (sym (mixed_below (suc i) i (omega arith))) here)
    | inr e ↦ let ne : j ≢ i = ground arith in subst (P j) (mixed_other i j ne) (others j ne)
  ]

  -- Between two rounds.
  pub record Half (d : Cache) (i : ℕ) : Type 0 where
    pub same_contents : (q : ℕ) → contents (d.nodes q) ≡ contents (b.nodes q)
    pub same_used : d.used ≡ b.used
    pub same_height : d.height ≡ b.height
    pub half_chain : (j : ℕ) → Chain d j 0 (mixed i j)
    pub half_rising : (j : ℕ) → AreRising b (mixed i j)

  pub all_same : (d : Cache) (i : ℕ) → Half d i → (qs : List ℕ) → SameKeys b d qs
  all_same d i h [] = tt
  all_same d i h (q ∷ qs) = (ap (λ v. v.0) (h.same_contents q), all_same d i h qs)

  -- The gaps that are left are those of the levels; above the old height the levels are empty.
  abbrev pub Rest : ℕ → List (ℕ × Option ℕ) → Type 0
  Rest i [] = old ≤ i
  Rest i ((p, n) ∷ gs) = (splice b k 0 (levels i) ≡ gap p n) × Rest (suc i) gs

  module _ (new_key : (b.nodes x).key ≡ k) (not_head : 0 < x)
      (free : (j : ℕ) → All (λ q. (0 < q) × (q < x)) (levels j))
      (empty_above : (j : ℕ) → old ≤ j → levels j ≡ []) where
    before_x : (j p : ℕ) (n : Option ℕ) → splice b k 0 (levels j) ≡ gap p n → x ≢ p
    before_x j p n e = elim (splice_prev b k 0 p n (levels j) e) [
      | inl at_head ↦ λ f. absurd (omega (arith, f, at_head, not_head))
      | inr (m, lt) ↦ λ f.
          let bound = In-All (λ q. (0 < q) × (q < x)) p (levels j) m (free j) in
          absurd (omega (arith, f, bound.1))
    ]

    step :
        (d : Cache) (i p : ℕ) (n : Option ℕ)
        → splice b k 0 (levels i) ≡ gap p n
        → Half d i
        → Half (link d x i (p, n)) (suc i)
    step d i p n e h =
        let apart = before_x i p n e in
        let same = all_same d i h (levels i) in
        let rising : AreRising b (levels i) =
          subst (AreRising b) (mixed_above i i (omega arith)) (h.half_rising i) in
        let chain : Chain d i 0 (levels i) =
          subst (Chain d i 0) (mixed_above i i (omega arith)) (h.half_chain i) in
        let not_new : NotIn x (levels i) =
          All-weaken (λ q. (0 < q) × (q < x)) (λ q. q ≢ x)
            (λ t bound f. absurd (omega (arith, f, bound.1))) (levels i) (free i) in
        let no_head : NotIn 0 (levels i) =
          All-weaken (λ q. (0 < q) × (q < x)) (λ q. q ≢ 0)
            (λ t bound f. absurd (omega (arith, f, bound.0))) (levels i) (free i) in
        let here : Chain (link d x i (p, n)) i 0 (insert_address b k x (levels i)) =
          subst (Chain (link d x i (p, n)) i 0) (insert_address-SameKeys b d k x (levels i) same) (
            Chain-linked d k x i p n apart 0 (levels i)
              (splice-SameKeys b d k 0 (levels i) same ∙ e)
              (λ f. absurd (omega (arith, f, not_head))) not_new
              (no_head, AreRising-AreDistinct b (levels i) rising) chain) in
        record {
          same_contents = λ q.
              contents-set_tower (set_tower d x i n) p i (some x) q
              ∙ contents-set_tower d x i n q
              ∙ h.same_contents q;
          same_used = h.same_used;
          same_height = h.same_height;
          half_chain =
              every_level (λ j qs. Chain (link d x i (p, n)) j 0 qs) i
                (λ j ne. Chain-linked_level d k x i p n apart j 0 (mixed i j) ne (h.half_chain j))
                here;
          half_rising =
              every_level (λ j qs. AreRising b qs) i (λ j ne. h.half_rising j)
                (insert_address-AreRising b k x 0 p n (levels i) new_key e rising);
        }

    -- The gap of a level is where the new node belongs.
    gap_of_lem :
        (d : Cache) (i : ℕ) (gs : List (ℕ × Option ℕ))
        → Half d i
        → Rest i gs
        → (p : ℕ) × (n : Option ℕ) × (gap_of d k old i gs ≡ some (p, n))
          × (splice b k 0 (levels i) ≡ gap p n)
          × Rest (suc i) (drop 1 gs)
    unfolding gap_of
    gap_of_lem d i ((p, n) ∷ gs) h r = (p, n, refl, r.0, r.1)
    gap_of_lem d i [] h r =
        let empty : levels i ≡ [] = empty_above i r in
        let chain : Chain d i 0 [] =
          subst (Chain d i 0) (mixed_above i i (omega arith) ∙ empty) (h.half_chain i) in
        let search = get_splices-splice d k (suc d.used) i 0 [] chain (omega arith) in
        (
          0,
          none,
          elim (Bool-cases (i == old)) [ inl e ↦ rw e refl | inr e ↦ rw (e, search) refl ],
          rw empty refl,
          omega arith,
        )

    -- The loop ends, and leaves the new node in every level below its height.
    pub link_levels-Half :
        (rounds : ℕ) (d : Cache) (i : ℕ) (gs : List (ℕ × Option ℕ))
        → Half d i
        → Rest i gs
        → (f : Cache) × (link_levels d k old x i rounds gs ≡ some f) × Half f (i + rounds)
    unfolding link_levels
    link_levels-Half zero d i gs h r =
        (d, refl, subst (Half d) (let e : i ≡ i + 0 = omega arith in e) h)
    link_levels-Half (suc rounds) d i gs h r =
        let (p, n, here, e, rest) = gap_of_lem d i gs h r in
        let (f, done, half) =
          link_levels-Half rounds (link d x i (p, n)) (suc i) (drop 1 gs) (step d i p n e h) rest in
        (
          f,
          rw here done,
          subst (Half f) (let g : suc i + rounds ≡ i + suc rounds = omega arith in g) half,
        )
