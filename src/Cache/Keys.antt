-- ===== src/Cache/Keys.antt =====
-- The skip list of storage/memory/cache.go: caches whose nodes have the same keys, and the new node
-- of `Put`.
use equinoxdb.Base.{sym, subst}
use equinoxdb.Cache.Chains.{Above}
use Prim.Native.Nat.{Ordering}
use equinoxdb.Base.{ℕ, suc, ◌≡◌, refl, ap, ◌⊎◌, inl, inr, Option, List, [], ◌∷◌, Bool-cases}
use equinoxdb.Base.{length, All}
use equinoxdb.Bytes.{Bytes, compare_bytes, is_lt}
use equinoxdb.Bytes.Order.{compare_bytes-swap, compare_bytes_trans}
use equinoxdb.Cache.{Cache, compare_key, gap}
use equinoxdb.Cache.Chains.{splice, Ordering-cases, AreRising, In}
use equinoxdb.Cache.Links.{insert_address}

pub All-weaken : (P Q : ℕ → Type 0) → ((t : ℕ) → P t → Q t) → (qs : List ℕ) → All P qs → All Q qs
All-weaken P Q f [] h = tt
All-weaken P Q f (q ∷ qs) h = (f q h.0, All-weaken P Q f qs h.1)

pub In-All : (P : ℕ → Type 0) (r : ℕ) (qs : List ℕ) → In r qs → All P qs → P r
In-All P r [] m h = absurd m
In-All P r (q ∷ qs) (inl e) h = subst P (sym e) h.0
In-All P r (q ∷ qs) (inr m) h = In-All P r qs m h.1

-- The nodes at these addresses have the same keys in both.
abbrev pub SameKeys : Cache → Cache → List ℕ → Type 0
SameKeys c d = All (λ q. (d.nodes q).key ≡ (c.nodes q).key)

module _ (c d : Cache) where
  pub splice-SameKeys :
      (k : Bytes) (p : ℕ) (qs : List ℕ) → SameKeys c d qs → splice d k p qs ≡ splice c k p qs
  splice-SameKeys k p [] h = refl
  splice-SameKeys k p (q ∷ qs) h = rw (h.0, splice-SameKeys k q qs h.1) refl

  pub insert_address-SameKeys :
      (k : Bytes) (x : ℕ) (qs : List ℕ)
      → SameKeys c d qs
      → insert_address d k x qs ≡ insert_address c k x qs
  insert_address-SameKeys k x [] h = refl
  insert_address-SameKeys k x (q ∷ qs) h = rw (h.0, insert_address-SameKeys k x qs h.1) refl

  Above-SameKeys :
      (p : ℕ) (qs : List ℕ)
      → (d.nodes p).key ≡ (c.nodes p).key
      → SameKeys c d qs
      → Above c p qs
      → Above d p qs
  Above-SameKeys p [] e h a = tt
  Above-SameKeys p (q ∷ qs) e h a = (rw (e, h.0) a.0, Above-SameKeys p qs e h.1 a.1)

  pub AreRising-SameKeys : (qs : List ℕ) → SameKeys c d qs → AreRising c qs → AreRising d qs
  AreRising-SameKeys [] h o = tt
  AreRising-SameKeys (q ∷ qs) h o = (Above-SameKeys q qs h.0 h.1 o.0, AreRising-SameKeys qs h.1 o.1)

module _ (c : Cache) (k : Bytes) (x : ℕ) where
  pub insert_address-All :
      (P : ℕ → Type 0) (qs : List ℕ) → P x → All P qs → All P (insert_address c k x qs)
  insert_address-All P [] a h = (a, tt)
  insert_address-All P (q ∷ qs) a h = elim (Bool-cases (is_lt (compare_key c q k))) [
    | inl e ↦ rw e (h.0, insert_address-All P qs a h.1)
    | inr e ↦ rw e (a, h)
  ]

  pub length-insert_address : (qs : List ℕ) → length (insert_address c k x qs) ≡ suc (length qs)
  length-insert_address [] = refl
  length-insert_address (q ∷ qs) = elim (Bool-cases (is_lt (compare_key c q k))) [
    | inl e ↦ rw e (ap suc (length-insert_address qs))
    | inr e ↦ rw e refl
  ]

  pub In-insert_address : (r : ℕ) (qs : List ℕ) → In r (insert_address c k x qs) → (r ≡ x) ⊎ In r qs
  In-insert_address r [] m = m
  In-insert_address r (q ∷ qs) m = elim (Bool-cases (is_lt (compare_key c q k))) [
    | inl e ↦ elim (rw e at m) [
      | inl f ↦ inr (inl f)
      | inr n ↦ elim (In-insert_address r qs n) [ inl f ↦ inl f | inr rest ↦ inr (inr rest) ]
    ]
    | inr e ↦ rw e at m
  ]

  pub insert_address-In : (r : ℕ) (qs : List ℕ) → (r ≡ x) ⊎ In r qs → In r (insert_address c k x qs)
  insert_address-In r [] m = m
  insert_address-In r (q ∷ qs) m = elim (Bool-cases (is_lt (compare_key c q k))) [
    | inl e ↦ rw e (elim m [
      | inl f ↦ inr (insert_address-In r qs (inl f))
      | inr (inl f) ↦ inl f
      | inr (inr rest) ↦ inr (insert_address-In r qs (inr rest))
    ])
    | inr e ↦ rw e m
  ]

  -- Where no node has the key, the addresses rise with the new one among them.
  pub insert_address-AreRising :
      (p r : ℕ) (n : Option ℕ) (qs : List ℕ)
      → (c.nodes x).key ≡ k
      → splice c k p qs ≡ gap r n
      → AreRising c qs
      → AreRising c (insert_address c k x qs)
  insert_address-AreRising p r n [] e g o = (tt, tt)
  insert_address-AreRising p r n (q ∷ qs) e g o = elim (Ordering-cases (compare_key c q k)) [
    | inl lt ↦ rw lt (
      insert_address-All (λ t. compare_bytes (c.nodes q).key (c.nodes t).key ≡ Ordering.lt) qs
          (rw e lt) o.0,
      insert_address-AreRising q r n qs e (rw lt at g) o.1,
    )
    | inr (inl gt) ↦
        let first = compare_bytes-swap (c.nodes q).key k gt in
        rw gt (
          (
            rw e first,
            All-weaken (λ t. compare_bytes (c.nodes q).key (c.nodes t).key ≡ Ordering.lt)
                (λ t. compare_bytes (c.nodes x).key (c.nodes t).key ≡ Ordering.lt)
                (λ t above.
                  rw e (compare_bytes_trans k (c.nodes q).key (c.nodes t).key first above))
                qs o.0,
          ),
          o,
        )
    | inr (inr eq) ↦ let f = rw eq at g in absurd (cc)
  ]
