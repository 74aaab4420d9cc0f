-- ===== src/Cache/Links.antt =====
-- The second loop of `Put` in storage/memory/cache.go: a node put into one level.
use equinoxdb.Entry.{Entry}
use equinoxdb.Base.{Bool, true}
use equinoxdb.Cache.{Node}
use equinoxdb.Base.{ap, subst, none}
use equinoxdb.Cache.Chains.{splice_prev}
use equinoxdb.Base.{ℕ, ◌≡◌, refl, sym, ◌∙◌, ◌≢◌, inl, inr, false, ◌&&◌, Option, some, List, []}
use equinoxdb.Base.{◌∷◌, arith, ◌==◌, if◌then◌else◌, All}
use equinoxdb.Bytes.{Bytes, is_lt}
use equinoxdb.Cache.{Cache, get_next, compare_key, gap, set_tower, link}
use equinoxdb.Cache.Chains.{Chain, splice, Ordering-cases, In}

-- A new address among those of a level, before the first one whose key is not smaller.
abbrev pub insert_address : Cache → Bytes → ℕ → List ℕ → List ℕ
insert_address c k x [] = x ∷ []
insert_address c k x (q ∷ qs) =
    if is_lt (compare_key c q k) then q ∷ insert_address c k x qs else x ∷ q ∷ qs

abbrev pub NotIn : ℕ → List ℕ → Type 0
NotIn p = All (λ q. q ≢ p)

pub In-NotIn : (p r : ℕ) (qs : List ℕ) → NotIn p qs → In r qs → r ≢ p
In-NotIn p r [] n m = absurd m
In-NotIn p r (q ∷ qs) n (inl e) = λ f. n.0 (sym e ∙ f)
In-NotIn p r (q ∷ qs) n (inr m) = In-NotIn p r qs n.1 m

-- The addresses of a level are distinct.
abbrev pub AreDistinct : List ℕ → Type 0
AreDistinct [] = Unit {0}
AreDistinct (q ∷ qs) = NotIn q qs × AreDistinct qs

pub tower_if :
    (b : Bool) (x y : Node) (j : ℕ)
    → (if b then x else y).tower j ≡ (if b then x.tower j else y.tower j)
tower_if true x y j = refl
tower_if false x y j = refl

-- What a node holds for its key.
abbrev pub contents : Node → Bytes × Option Entry
contents n = (n.key, n.entry)

contents_if :
    (b : Bool) (x y : Node)
    → (b ≡ true → contents x ≡ contents y)
    → contents (if b then x else y) ≡ contents y
contents_if true x y h = h refl
contents_if false x y h = refl

if_both :
    (a b : Bool) (n x y : Option ℕ)
    → (a ≡ true → x ≡ y)
    → (if a then if b then n else x else y) ≡ (if a && b then n else y)
if_both true true n x y h = refl
if_both true false n x y h = h refl
if_both false b n x y h = refl

module _ (c : Cache) (p l : ℕ) (n : Option ℕ) where
  pub get_next-set_tower :
      (q j : ℕ)
      → get_next (set_tower c p l n) q j ≡ (if q == p && j == l then n else get_next c q j)
  get_next-set_tower q j =
      tower_if (q == p)
        (record (c.nodes p) { tower = λ i. if i == l then n else (c.nodes p).tower i }) (c.nodes q)
        j
      ∙ if_both (q == p) (j == l) n (get_next c p j) (get_next c q j)
          (λ e. let f : p ≡ q = ground arith in ap (λ (t : ℕ). get_next c t j) f)

  pub contents-set_tower : (q : ℕ) → contents ((set_tower c p l n).nodes q) ≡ contents (c.nodes q)
  contents-set_tower q =
      contents_if (q == p)
        (record (c.nodes p) { tower = λ i. if i == l then n else (c.nodes p).tower i }) (c.nodes q)
        (λ e. let f : p ≡ q = ground arith in ap (λ (t : ℕ). contents (c.nodes t)) f)

module _ (c : Cache) (k : Bytes) (x i prev : ℕ) (next_one : Option ℕ) (apart : x ≢ prev) where
  abbrev linked : Cache
  linked = link c x i (prev, next_one)

  pub get_next-linked_level : (q j : ℕ) → j ≢ i → get_next linked q j ≡ get_next c q j
  get_next-linked_level q j ne =
      let other : (j == i) ≡ false = ground arith in
      get_next-set_tower (set_tower c x i next_one) prev i (some x) q j
      ∙ ground (arith, get_next-set_tower c x i next_one q j)

  get_next-linked_other : (q : ℕ) → q ≢ prev → q ≢ x → get_next linked q i ≡ get_next c q i
  get_next-linked_other q a b =
      get_next-set_tower (set_tower c x i next_one) prev i (some x) q i
      ∙ ground (arith, get_next-set_tower c x i next_one q i)

  get_next-linked_prev : get_next linked prev i ≡ some x
  get_next-linked_prev =
      get_next-set_tower (set_tower c x i next_one) prev i (some x) prev i ∙ ground arith

  get_next-linked_new : get_next linked x i ≡ next_one
  get_next-linked_new =
      get_next-set_tower (set_tower c x i next_one) prev i (some x) x i
      ∙ ground (arith, get_next-set_tower c x i next_one x i)

  -- Levels of pointers that the link leaves.
  pub Chain-linked_level : (j p : ℕ) (qs : List ℕ) → j ≢ i → Chain c j p qs → Chain linked j p qs
  Chain-linked_level j p [] ne h = get_next-linked_level p j ne ∙ h
  Chain-linked_level j p (q ∷ qs) ne h =
      (get_next-linked_level p j ne ∙ h.0, Chain-linked_level j q qs ne h.1)

  Chain-linked_behind :
      (p : ℕ) (qs : List ℕ)
      → p ≢ prev
      → p ≢ x
      → NotIn prev qs
      → NotIn x qs
      → Chain c i p qs
      → Chain linked i p qs
  Chain-linked_behind p [] a b n m h = get_next-linked_other p a b ∙ h
  Chain-linked_behind p (q ∷ qs) a b n m h =
      (get_next-linked_other p a b ∙ h.0, Chain-linked_behind q qs n.0 m.0 n.1 m.1 h.1)

  -- The new node is in the level, behind the previous one.
  pub Chain-linked :
      (p : ℕ) (qs : List ℕ)
      → splice c k p qs ≡ gap prev next_one
      → p ≢ x
      → NotIn x qs
      → AreDistinct (p ∷ qs)
      → Chain c i p qs
      → Chain linked i p (insert_address c k x qs)
  Chain-linked p [] g a m d h =
      let at_prev : p ≡ prev = cc in
      let at_end : next_one ≡ none = cc in
      (
        ap (λ (t : ℕ). get_next linked t i) at_prev ∙ get_next-linked_prev,
        get_next-linked_new ∙ at_end,
      )
  Chain-linked p (q ∷ qs) g a m d h = elim (Ordering-cases (compare_key c q k)) [
    | inl lt ↦
        let rest : splice c k q qs ≡ gap prev next_one = rw lt at g in
        let p_apart : p ≢ prev = elim (splice_prev c k q prev next_one qs rest) [
          | inl e ↦ λ f. d.0.0 (sym e ∙ sym f)
          | inr (mem, before) ↦ λ f. In-NotIn p prev qs d.0.1 mem (sym f)
        ] in
        rw lt (get_next-linked_other p p_apart a ∙ h.0, Chain-linked q qs rest m.0 m.1 d.1 h.1)
    | inr (inl gt) ↦
        let here_gap : gap p (some q) ≡ gap prev next_one = rw gt at g in
        let at_prev : p ≡ prev = cc in
        let at_next : next_one ≡ some q = cc in
        let behind = subst (λ (t : ℕ). NotIn t (q ∷ qs)) at_prev d.0 in
        rw gt (
          ap (λ (t : ℕ). get_next linked t i) at_prev ∙ get_next-linked_prev,
          (get_next-linked_new ∙ at_next, Chain-linked_behind q qs behind.0 m.0 behind.1 m.1 h.1),
        )
    | inr (inr eq) ↦ let no_gap = rw eq at g in absurd (cc)
  ]
