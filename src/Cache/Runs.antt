-- ===== src/Cache/Runs.antt =====
-- Runs of `Put` on a new cache of storage/memory/cache.go, and what `Get` and `Count` then give.
use equinoxdb.Cache.Search.{IsSkipList}
use equinoxdb.Base.{◌>>=◌}
use equinoxdb.Cache.{put}
use equinoxdb.Base.{ℕ, suc, ◌<◌, ◌≡◌, refl, sym, ap, subst, ◌⊎◌, inl, inr, Option, none, some}
use equinoxdb.Base.{List, [], ◌∷◌, arith, if◌then◌else◌, length, All}
use equinoxdb.Bytes.{Bytes, compare_bytes, is_lt}
use equinoxdb.Cache.{Cache, new_cache, compare_key, by_pointer, PutResult, stored, conflict}
use equinoxdb.Cache.{nil_entry}
use equinoxdb.Cache.Chains.{Ordering-cases}
use equinoxdb.Cache.Finds.{first_from, find_greater_or_equal-first_from}
use equinoxdb.Cache.Refinement.{Refines, put-Refines}
use equinoxdb.Cache.Table.{Table, TablePut, table, type_conflict, no_entry, put_row, rows}
use equinoxdb.Cache.Table.{StandsFor}
use equinoxdb.Cache.Walks.{get, count_nodes, get_all_nodes-levels}
use equinoxdb.Entry.{Entry}
use equinoxdb.Values.{Value}

-- A call of `Put`, with the height that it draws.
pub record PutCall : Type 0 where
  pub key : Bytes
  pub values : List Value
  pub life_cycle : ℕ
  pub drawn : ℕ

-- The calls one after the other, up to the first error.
unfoldable pub go_on : List PutCall → (Cache → Option PutResult) → PutResult → Option PutResult
go_on xs more (stored d) = more d
go_on xs more conflict = some conflict
go_on xs more nil_entry = some nil_entry

unfoldable pub put_calls : List PutCall → Cache → Option PutResult
unfolding put go_on
put_calls [] c = some (stored c)
put_calls (x ∷ xs) c = put c x.key x.values x.life_cycle x.drawn >>= go_on xs (put_calls xs)

unfoldable pub rows_on : (Table → TablePut) → TablePut → TablePut
rows_on more (table t) = more t
rows_on more type_conflict = type_conflict
rows_on more no_entry = no_entry

unfoldable pub put_rows : List PutCall → Table → TablePut
unfolding put_row rows_on
put_rows [] t = table t
put_rows (x ∷ xs) t = rows_on (put_rows xs) (put_row x.key x.values t)

pub TablePut-outcome :
    (r : TablePut) → ((t : Table) × (r ≡ table t)) ⊎ (r ≡ type_conflict) ⊎ (r ≡ no_entry)
TablePut-outcome (table t) = inl (t, refl)
TablePut-outcome type_conflict = inr (inl refl)
TablePut-outcome no_entry = inr (inr refl)

pub put_calls-Refines :
    (xs : List PutCall) (c : Cache) (t : Table)
    → All (λ x. 0 < x.drawn) xs
    → StandsFor c t
    → Refines (put_calls xs c) (put_rows xs t)
unfolding put_calls put_rows go_on rows_on
put_calls-Refines [] c t h s = (c, refl, s)
put_calls-Refines (x ∷ xs) c t h s =
    let one = put-Refines c t x.key x.values x.life_cycle x.drawn s h.0 in
    elim (TablePut-outcome (put_row x.key x.values t)) [
      | inl (u, e) ↦
          let (d, done, next) = subst (Refines (put c x.key x.values x.life_cycle x.drawn)) e one in
          rw (e, done) (put_calls-Refines xs d u h.1 next)
      | inr (inl e) ↦
          let done = subst (Refines (put c x.key x.values x.life_cycle x.drawn)) e one in
          rw (e, done) refl
      | inr (inr e) ↦
          let done = subst (Refines (put c x.key x.values x.life_cycle x.drawn)) e one in
          rw (e, done) refl
    ]

pub new_cache-IsSkipList : IsSkipList new_cache (λ i. [])
unfolding new_cache
new_cache-IsSkipList = record {
  chain = λ i. refl;
  rising = λ i. tt;
  placed = λ i. tt;
  nested = λ i q m. m;
  few = λ i. omega arith;
  tall = omega arith;
  above_height = λ i h. refl;
}

pub new_cache-StandsFor : StandsFor new_cache []
new_cache-StandsFor = ((λ i. []), new_cache-IsSkipList, refl)

-- Any run of `Put` calls on a new cache, with any heights drawn, refines the run of the calls on the
-- empty table: it ends; while the calls succeed there, it succeeds on a skip list that stands for
-- the table, and it stops with the same error where the types of the values of a key differ or its
-- entry is nil.
pub put_calls-new_cache :
    (xs : List PutCall)
    → All (λ x. 0 < x.drawn) xs
    → Refines (put_calls xs new_cache) (put_rows xs [])
put_calls-new_cache xs h = put_calls-Refines xs new_cache [] h new_cache-StandsFor

-- The entry of the first row whose key is not smaller.
abbrev pub entry_from : Bytes → Table → Option Entry
entry_from k [] = none
entry_from k ((j, e) ∷ t) = if is_lt (compare_bytes j k) then entry_from k t else e

first_from-entry_from :
    (c : Cache) (k : Bytes) (qs : List ℕ)
    → by_pointer (first_from c k qs) none (λ p. (c.nodes p).entry) ≡ entry_from k (rows c qs)
first_from-entry_from c k [] = refl
first_from-entry_from c k (q ∷ qs) = elim (Ordering-cases (compare_key c q k)) [
  | inl lt ↦ rw lt (first_from-entry_from c k qs)
  | inr (inl gt) ↦ rw gt refl
  | inr (inr eq) ↦ rw eq refl
]

length-rows : (c : Cache) (qs : List ℕ) → length (rows c qs) ≡ length qs
length-rows c [] = refl
length-rows c (q ∷ qs) = ap suc (length-rows c qs)

-- On a cache that stands for a table `Get` ends and gives the entry of the first row whose key is
-- not smaller than the one asked for, whether or not it is that key, or nil if there is none; and
-- `Count` is the number of rows.
pub get-entry_from :
    (c : Cache) (t : Table) (k : Bytes)
    → StandsFor c t
    → (get c k ≡ some (entry_from k t)) × (count_nodes c ≡ some (length t))
unfolding get count_nodes
get-entry_from c t k (levels, list, e) =
    subst (λ (r : Table). (get c k ≡ some (entry_from k r)) × (count_nodes c ≡ some (length r))) e
      (
        rw (find_greater_or_equal-first_from c k levels list)
            (ap some (first_from-entry_from c k (levels 0))),
        rw (get_all_nodes-levels c levels list) (ap some (sym (length-rows c (levels 0)))),
      )
