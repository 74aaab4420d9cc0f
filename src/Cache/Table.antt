-- ===== src/Cache/Table.antt =====
-- The skip list of storage/memory/cache.go as what it stands for: a list of keys in ascending order,
-- each with its entry.
use equinoxdb.Base.{ℕ, ◌≡◌, refl, inl, inr, Option, none, some, List, [], ◌∷◌, All}
use equinoxdb.Bytes.{Bytes, compare_bytes}
use equinoxdb.Cache.{Cache, compare_key, by_order}
use equinoxdb.Cache.Chains.{Ordering-cases}
use equinoxdb.Cache.Links.{insert_address, contents}
use equinoxdb.Cache.Outcomes.{IsAbsent}
use equinoxdb.Cache.Search.{IsSkipList}
use equinoxdb.Entry.{Entry, new_entry_values, add_entry}
use equinoxdb.Values.{Value}

abbrev pub Table : Type 0
Table = List (Bytes × Option Entry)

-- What `Put` means on a table: the values are added to the entry of the key, or the key is put in
-- its place with a new entry.
pub data TablePut : Type 0 where
  table : Table → TablePut
  type_conflict : TablePut
  no_entry : TablePut

abbrev pub push_row : Bytes × Option Entry → TablePut → TablePut
push_row row (table t) = table (row ∷ t)
push_row row type_conflict = type_conflict
push_row row no_entry = no_entry

abbrev pub after_row : Bytes → Table → Option Entry → TablePut
after_row k t none = type_conflict
after_row k t (some f) = table ((k, some f) ∷ t)

abbrev pub add_row : Bytes → Option Entry → List Value → Table → TablePut
add_row k e [] t = table ((k, e) ∷ t)
add_row k none (v ∷ vs) t = no_entry
add_row k (some e) (v ∷ vs) t = after_row k t (add_entry e (v ∷ vs))

unfoldable pub put_row : Bytes → List Value → Table → TablePut
put_row k vs [] = table ((k, new_entry_values vs) ∷ [])
put_row k vs ((j, e) ∷ t) =
    by_order (compare_bytes j k) (push_row (j, e) (put_row k vs t)) (add_row j e vs t)
      (table ((k, new_entry_values vs) ∷ (j, e) ∷ t))

-- The rows of some addresses.
abbrev pub rows : Cache → List ℕ → Table
rows c [] = []
rows c (q ∷ qs) = contents (c.nodes q) ∷ rows c qs

-- A cache that is a skip list and stands for a table.
abbrev pub StandsFor : Cache → Table → Type 0
StandsFor c t = (levels : ℕ → List ℕ) × IsSkipList c levels × (rows c (levels 0) ≡ t)

pub rows-contents :
    (c d : Cache) (qs : List ℕ)
    → All (λ q. contents (d.nodes q) ≡ contents (c.nodes q)) qs
    → rows d qs ≡ rows c qs
rows-contents c d [] h = refl
rows-contents c d (q ∷ qs) h = rw (h.0, rows-contents c d qs h.1) refl

-- A key that no row has is put in its place.
pub put_row-insert_address :
    (c d : Cache) (k : Bytes) (vs : List Value) (x : ℕ) (qs : List ℕ)
    → IsAbsent c k qs
    → contents (d.nodes x) ≡ (k, new_entry_values vs)
    → All (λ q. contents (d.nodes q) ≡ contents (c.nodes q)) qs
    → put_row k vs (rows c qs) ≡ table (rows d (insert_address c k x qs))
unfolding put_row
put_row-insert_address c d k vs x [] a n h = rw n refl
put_row-insert_address c d k vs x (q ∷ qs) a n h = elim (Ordering-cases (compare_key c q k)) [
  | inl lt ↦ rw (lt, h.0, put_row-insert_address c d k vs x qs a.1 n h.1) refl
  | inr (inl gt) ↦ rw (gt, n, h.0, rows-contents c d qs h.1) refl
  | inr (inr eq) ↦ absurd (a.0 eq)
]
