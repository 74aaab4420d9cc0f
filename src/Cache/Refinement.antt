-- ===== src/Cache/Refinement.antt =====
-- `Put` of storage/memory/cache.go as an operation on the table that a skip list stands for.
use equinoxdb.Cache.{after_add, add_to}
use equinoxdb.Cache.Table.{after_row}
use equinoxdb.Cache.{put}
use equinoxdb.Base.{◌<◌, sym, ap₂, subst, ◌⊎◌, inl, inr, ltb, lt→ltb}
use equinoxdb.Cache.{count_size}
use equinoxdb.Cache.Keys.{All-weaken}
use equinoxdb.Cache.Links.{insert_address}
use equinoxdb.Cache.Outcomes.{merged, inserted, counted_list, put-HasPut}
use equinoxdb.Cache.Rows.{put_row_stop, put_row_replace}
use equinoxdb.Cache.Table.{Table, put_row-insert_address}
use equinoxdb.Entry.{add_entry}
use equinoxdb.Base.{ℕ, ◌≡◌, refl, ap, ◌∙◌, ◌≢◌, Bool, true, false, Option, none, some, List, []}
use equinoxdb.Base.{◌∷◌, arith, ◌==◌, if◌then◌else◌, ==_refl}
use equinoxdb.Bytes.{Bytes}
use equinoxdb.Cache.{Node, Cache, get_next, PutResult, stored, conflict, nil_entry, add_values}
use equinoxdb.Cache.Chains.{Chain, In}
use equinoxdb.Cache.Keys.{SameKeys, AreRising-SameKeys}
use equinoxdb.Cache.Links.{tower_if, contents}
use equinoxdb.Cache.Search.{IsSkipList}
use equinoxdb.Cache.Table.{TablePut, table, type_conflict, no_entry, put_row, rows, StandsFor}
use equinoxdb.Cache.{set_entry}
use equinoxdb.Entry.{Entry}
use equinoxdb.Values.{Value}

key_if : (b : Bool) (x y : Node) → (b ≡ true → x.key ≡ y.key) → (if b then x else y).key ≡ y.key
key_if true x y h = h refl
key_if false x y h = refl

if_same : (b : Bool) (x y : Option ℕ) → (b ≡ true → x ≡ y) → (if b then x else y) ≡ y
if_same true x y h = h refl
if_same false x y h = refl

Option-outcome : (o : Option Entry) → (o ≡ none) ⊎ ((f : Entry) × (o ≡ some f))
Option-outcome none = inl refl
Option-outcome (some f) = inr (f, refl)

Chain-same :
    (c d : Cache) (i p : ℕ) (qs : List ℕ)
    → ((q : ℕ) → get_next d q i ≡ get_next c q i)
    → Chain c i p qs
    → Chain d i p qs
Chain-same c d i p [] same h = same p ∙ h
Chain-same c d i p (q ∷ qs) same h = (same p ∙ h.0, Chain-same c d i q qs same h.1)

module _ (c : Cache) (p : ℕ) (e : Entry) where
  abbrev new_one : Node
  new_one = record (c.nodes p) { entry = some e }

  get_next-set_entry : (q i : ℕ) → get_next (set_entry c p e) q i ≡ get_next c q i
  get_next-set_entry q i =
      tower_if (q == p) new_one (c.nodes q) i
      ∙ if_same (q == p) (get_next c p i) (get_next c q i)
          (λ at. let f : p ≡ q = ground arith in ap (λ (t : ℕ). get_next c t i) f)

  key-set_entry : (q : ℕ) → ((set_entry c p e).nodes q).key ≡ (c.nodes q).key
  key-set_entry q =
      key_if (q == p) new_one (c.nodes q)
        (λ at. let f : p ≡ q = ground arith in ap (λ (t : ℕ). (c.nodes t).key) f)

  contents-set_entry : contents ((set_entry c p e).nodes p) ≡ ((c.nodes p).key, some e)
  contents-set_entry = rw (==_refl p) refl

  contents-set_entry_other :
      (q : ℕ) → q ≢ p → contents ((set_entry c p e).nodes q) ≡ contents (c.nodes q)
  contents-set_entry_other q ne = let other : (q == p) ≡ false = ground arith in rw other refl

  all_keys : (qs : List ℕ) → SameKeys c (set_entry c p e) qs
  all_keys [] = tt
  all_keys (q ∷ qs) = (key-set_entry q, all_keys qs)

  IsSkipList-set_entry :
      (levels : ℕ → List ℕ) → IsSkipList c levels → IsSkipList (set_entry c p e) levels
  IsSkipList-set_entry levels list = record {
    chain = λ i.
        Chain-same c (set_entry c p e) i 0 (levels i) (λ q. get_next-set_entry q i) (list.chain i);
    rising = λ i.
        AreRising-SameKeys c (set_entry c p e) (levels i) (all_keys (levels i)) (list.rising i);
    placed = list.placed;
    nested = list.nested;
    few = list.few;
    tall = list.tall;
    above_height = list.above_height;
  }

-- The results of `Put` that a result on a table allows.
abbrev pub Refines : Option PutResult → TablePut → Type 0
Refines r (table t) = (d : Cache) × (r ≡ some (stored d)) × StandsFor d t
Refines r type_conflict = r ≡ some conflict
Refines r no_entry = r ≡ some nil_entry

module _ (c : Cache) (k : Bytes) (levels : ℕ → List ℕ) (list : IsSkipList c levels) (p : ℕ)
    (m : In p (levels 0)) (at_key : (c.nodes p).key ≡ k) where
  added :
      (vs : List Value) (e : Option Entry)
      → (c.nodes p).entry ≡ e
      → Refines (some (add_values c p vs)) (put_row k vs (rows c (levels 0)))
  unfolding add_values
  added [] e at =
      let row : contents (c.nodes p) ≡ (k, e) =
        ap₂ (λ (j : Bytes) (x : Option Entry). (j, x)) at_key at in
      subst (Refines (some (stored c)))
        (sym (
          put_row_replace c c k [] p e row e (levels 0) row (λ q ne. refl) (λ t. refl)
            (list.rising 0) m))
        (c, refl, (levels, list, refl))
  added (v ∷ vs) none at =
      let row : contents (c.nodes p) ≡ (k, none) =
        ap₂ (λ (j : Bytes) (x : Option Entry). (j, x)) at_key at in
      subst (Refines (some (add_values c p (v ∷ vs))))
        (sym (
          put_row_stop c c k (v ∷ vs) p none row no_entry (levels 0) (λ r. refl) (λ t. refl)
            (list.rising 0) m))
        (ap (λ (x : Option Entry). some (add_to c p (v ∷ vs) x)) at)
  added (v ∷ vs) (some e) at =
      let row : contents (c.nodes p) ≡ (k, some e) =
        ap₂ (λ (j : Bytes) (x : Option Entry). (j, x)) at_key at in
      elim (Option-outcome (add_entry e (v ∷ vs))) [
        | inl refused ↦
            subst (Refines (some (add_values c p (v ∷ vs))))
              (sym (
                put_row_stop c c k (v ∷ vs) p (some e) row type_conflict (levels 0) (λ r. refl)
                  (λ t. ap (after_row k t) refused) (list.rising 0) m))
              (ap (λ (x : Option Entry). some (add_to c p (v ∷ vs) x)) at
                ∙ ap (λ (x : Option Entry). some (after_add c p x)) refused)
        | inr (f, taken) ↦
            let d = set_entry c p f in
            let there = contents-set_entry c p f ∙ ap (λ (j : Bytes). (j, some f)) at_key in
            subst (Refines (some (add_values c p (v ∷ vs))))
              (sym (
                put_row_replace c d k (v ∷ vs) p (some e) row (some f) (levels 0) there
                  (contents-set_entry_other c p f) (λ t. ap (after_row k t) taken) (list.rising 0)
                  m))
              (
                d,
                ap (λ (x : Option Entry). some (add_to c p (v ∷ vs) x)) at
                    ∙ ap (λ (x : Option Entry). some (after_add c p x)) taken,
                (levels, IsSkipList-set_entry c p f levels list, refl),
              )
      ]

-- `Put` refines the operation on the table, for every height of a new node: it succeeds where that
-- does, on a list that stands for the new table, and fails as that does where the types of the
-- values differ or the key has a nil entry.
pub put-Refines :
    (c : Cache) (t : Table) (k : Bytes) (vs : List Value) (life h : ℕ)
    → StandsFor c t
    → 0 < h
    → Refines (put c k vs life h) (put_row k vs t)
put-Refines c t k vs life h (levels, list, at_rows) tall =
    subst (λ (r : Table). Refines (put c k vs life h) (put_row k vs r)) at_rows
      (elim (put-HasPut c k vs life h levels list) [
        | merged p m same_key done ↦
            subst (λ (r : Option PutResult). Refines r (put_row k vs (rows c (levels 0))))
              (sym done)
              (added (count_size c k vs) k levels (counted_list c k vs life h levels list) p m
                same_key vs (c.nodes p).entry refl)
        | inserted d done absent new_list at_new others ↦
            let kept_rows =
              All-weaken (λ q. (0 < q) × (q < c.used)) _ (λ q b. others q b.1) (levels 0)
                (list.placed 0) in
            let inside : (if ltb 0 h then insert_address c k c.used (levels 0) else levels 0)
                ≡ insert_address c k c.used (levels 0) =
              rw (lt→ltb 0 h tall) refl in
            subst (Refines (put c k vs life h))
              (sym (put_row-insert_address c d k vs c.used (levels 0) absent at_new kept_rows))
              (
                d,
                done,
                (
                  (λ i. if ltb i h then insert_address c k c.used (levels i) else levels i),
                  new_list,
                  ap (rows d) inside,
                ),
              )
      ])
