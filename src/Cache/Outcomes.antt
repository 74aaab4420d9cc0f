-- ===== src/Cache/Outcomes.antt =====
-- What `Put` of storage/memory/cache.go does to a skip list.
use equinoxdb.Base.{◌+◌}
use equinoxdb.Cache.Insertion.{Half}
use equinoxdb.Base.{ap, ◌∙◌}
use equinoxdb.Cache.Puts.{node_place, node_place_new, some_used}
use equinoxdb.Cache.Chains.{Above}
use equinoxdb.Cache.{put}
use Prim.Native.Nat.{Ordering}
use equinoxdb.Base.{ℕ, ◌<◌, ◌≡◌, refl, sym, subst, ◌≢◌, inl, inr, Option, some, List, [], ◌∷◌}
use equinoxdb.Base.{arith, ltb, if◌then◌else◌, length, All}
use equinoxdb.Bytes.{Bytes, compare_bytes}
use equinoxdb.Bytes.Order.{compare_bytes-eq}
use equinoxdb.Cache.{Cache, compare_key, gap, stored, add_values, put_descended, count_size}
use equinoxdb.Cache.Chains.{splice, Ordering-cases, AreRising, In}
use equinoxdb.Cache.Insertion.{link_levels-Half}
use equinoxdb.Cache.Keys.{All-weaken}
use equinoxdb.Cache.Links.{insert_address, contents}
use equinoxdb.Cache.Puts.{placed_cache, Half-place, Rest-Gaps, IsSkipList-Half}
use equinoxdb.Cache.Search.{IsSkipList, Gaps, at_node, at_gaps, descend-Descended}
use equinoxdb.Entry.{new_entry_values}
use equinoxdb.Values.{Value, size}

-- No address of a level has the key.
abbrev pub IsAbsent : Cache → Bytes → List ℕ → Type 0
IsAbsent c k = All (λ q. compare_key c q k ≢ Ordering.eq)

module _ (c : Cache) (k : Bytes) where
  IsAbsent-Above :
      (q : ℕ) (qs : List ℕ) → compare_key c q k ≡ Ordering.gt → Above c q qs → IsAbsent c k qs
  IsAbsent-Above q qs gt a =
      All-weaken _ _
        (λ t above same_key.
          let e = compare_bytes-eq (c.nodes t).key k same_key in
          let f : compare_key c q k ≡ Ordering.lt =
            subst (λ (j : Bytes). compare_bytes (c.nodes q).key j ≡ Ordering.lt) e above in
          absurd (cc))
        qs a

  splice-IsAbsent :
      (p r : ℕ) (n : Option ℕ) (qs : List ℕ)
      → AreRising c qs
      → splice c k p qs ≡ gap r n
      → IsAbsent c k qs
  splice-IsAbsent p r n [] o e = tt
  splice-IsAbsent p r n (q ∷ qs) o e = elim (Ordering-cases (compare_key c q k)) [
    | inl lt ↦ ((λ eq. absurd (cc)), splice-IsAbsent q r n qs o.1 (rw lt at e))
    | inr (inl gt) ↦ ((λ eq. absurd (cc)), IsAbsent-Above q qs gt o.0)
    | inr (inr eq) ↦ let f = rw eq at e in absurd (cc)
  ]

-- What a call of `Put` with these arguments does: the values go to the entry of the node that has
-- the key; or no node has it, and the list with the new node among the others is a skip list.
pub data HasPut (c : Cache) (k : Bytes) (vs : List Value) (life h : ℕ) (levels : ℕ → List ℕ)
    : Type 0 where
  merged :
      (p : ℕ)
      → In p (levels 0)
      → (c.nodes p).key ≡ k
      → put c k vs life h ≡ some (add_values (count_size c k vs) p vs)
      → HasPut c k vs life h levels
  inserted :
      (d : Cache)
      → put c k vs life h ≡ some (stored d)
      → IsAbsent c k (levels 0)
      → IsSkipList d (λ i. if ltb i h then insert_address c k c.used (levels i) else levels i)
      → contents (d.nodes c.used) ≡ (k, new_entry_values vs)
      → ((q : ℕ) → q < c.used → contents (d.nodes q) ≡ contents (c.nodes q))
      → HasPut c k vs life h levels

module _ (c : Cache) (k : Bytes) (vs : List Value) (life h : ℕ) (levels : ℕ → List ℕ)
    (list : IsSkipList c levels) where
  abbrev counted_cache : Cache
  counted_cache = count_size c k vs

  pub counted_list : IsSkipList counted_cache levels
  counted_list = record {
    chain = list.chain;
    rising = list.rising;
    placed = list.placed;
    nested = list.nested;
    few = list.few;
    tall = list.tall;
    above_height = list.above_height;
  }

  Gaps-IsAbsent :
      (gs : List (ℕ × Option ℕ))
      → Gaps counted_cache k levels counted_list 0 gs
      → length gs ≡ c.height
      → IsAbsent c k (levels 0)
  Gaps-IsAbsent [] g e = subst (IsAbsent c k) (sym (list.above_height 0 (omega arith))) tt
  Gaps-IsAbsent ((p, n) ∷ gs) g e = splice-IsAbsent c k 0 p n (levels 0) (list.rising 0) g.0

  -- `Put` on a skip list ends, for any height of the new node. If a node has the key, the values go
  -- to `Add` of its entry, on a list in which only the size has changed. If no node has it, the list
  -- has a new node with the key and the entry that NewEntryValues makes of the values; it stands in
  -- exactly the levels below the drawn height, before the first greater key; the list is a skip list
  -- again, and every other node keeps its key and its entry.
  pub put-HasPut : HasPut c k vs life h levels
  unfolding put put_descended
  put-HasPut = elim (descend-Descended counted_cache k levels counted_list) [
    | at_node p e m same_key ↦ merged p m (compare_bytes-eq (c.nodes p).key k same_key) (rw e refl)
    | at_gaps gs e g size ↦
        let (d, done, half_done) =
          link_levels-Half (placed_cache counted_cache k vs life h) k c.used c.height levels
            (ap (λ v. v.0) (node_place_new counted_cache k vs life h))
            (some_used counted_cache k vs life h levels counted_list) list.placed list.above_height
            h (placed_cache counted_cache k vs life h) 0 gs
            (Half-place counted_cache k vs life h levels counted_list)
            (Rest-Gaps counted_cache k vs life h levels counted_list 0 gs g
              (omega (arith, size))) in
        let half =
          subst (Half (placed_cache counted_cache k vs life h) k c.used c.height levels d)
            (let f : 0 + h ≡ h = omega arith in f) half_done in
        inserted d (rw e (rw done refl)) (Gaps-IsAbsent gs g size)
          (IsSkipList-Half counted_cache k vs life h levels counted_list d half)
          (half.same_contents c.used ∙ node_place_new counted_cache k vs life h)
          (λ q less. half.same_contents q ∙ node_place counted_cache k vs life h q less)
  ]
