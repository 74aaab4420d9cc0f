-- ===== src/Cache/Rows.antt =====
-- `Put` of storage/memory/cache.go on a key that the skip list has, as rows of a table.
use equinoxdb.Base.{ap₂, ◌∙◌}
use equinoxdb.Cache.Table.{rows-contents}
use equinoxdb.Cache.Chains.{Above}
use Prim.Native.Nat.{Ordering}
use equinoxdb.Base.{ℕ, ◌≡◌, refl, sym, ap, subst, ◌≢◌, inl, inr, Option, List, [], ◌∷◌}
use equinoxdb.Bytes.{Bytes, compare_bytes}
use equinoxdb.Bytes.Order.{compare_bytes_self}
use equinoxdb.Cache.{Cache, compare_key}
use equinoxdb.Cache.Chains.{AreRising, In, In-Above}
use equinoxdb.Cache.Insertion.{NotIn-Above}
use equinoxdb.Cache.Keys.{All-weaken}
use equinoxdb.Cache.Links.{NotIn, In-NotIn, contents}
use equinoxdb.Cache.Table.{Table, TablePut, table, push_row, add_row, put_row, rows}
use equinoxdb.Entry.{Entry}
use equinoxdb.Values.{Value}

put_row_here :
    (k : Bytes) (e : Option Entry) (vs : List Value) (t : Table)
    → put_row k vs ((k, e) ∷ t) ≡ add_row k e vs t
unfolding put_row
put_row_here k e vs t = rw (compare_bytes_self k) refl

module _ (c d : Cache) (k : Bytes) (vs : List Value) (p : ℕ) (e : Option Entry)
    (at_node_p : contents (c.nodes p) ≡ (k, e)) where
  before_row : (q : ℕ) (qs : List ℕ) → Above c q qs → In p qs → compare_key c q k ≡ Ordering.lt
  before_row q qs h m =
      subst (λ (j : Bytes). compare_bytes (c.nodes q).key j ≡ Ordering.lt) (ap (λ v. v.0) at_node_p)
        (In-Above c k q p qs h m)

  -- A failure of the row of the key is one of the table.
  pub put_row_stop :
      (stop : TablePut) (qs : List ℕ)
      → ((row : Bytes × Option Entry) → push_row row stop ≡ stop)
      → ((t : Table) → add_row k e vs t ≡ stop)
      → AreRising c qs
      → In p qs
      → put_row k vs (rows c qs) ≡ stop
  unfolding put_row
  put_row_stop stop [] f g o m = elim m [ ]
  put_row_stop stop (q ∷ qs) f g o (inl same) =
      let here = subst (λ (t : ℕ). contents (c.nodes t) ≡ (k, e)) same at_node_p in
      ap (λ (row : Bytes × Option Entry). put_row k vs (row ∷ rows c qs)) here
      ∙ put_row_here k e vs (rows c qs)
      ∙ g (rows c qs)
  put_row_stop stop (q ∷ qs) f g o (inr m) =
      rw (before_row q qs o.0 m, put_row_stop stop qs f g o.1 m) (f (contents (c.nodes q)))

  rows_other :
      (qs : List ℕ)
      → ((q : ℕ) → q ≢ p → contents (d.nodes q) ≡ contents (c.nodes q))
      → NotIn p qs
      → rows d qs ≡ rows c qs
  rows_other qs same n = rows-contents c d qs (All-weaken _ _ same qs n)

  -- A new entry of the key replaces the old one.
  pub put_row_replace :
      (new : Option Entry) (qs : List ℕ)
      → contents (d.nodes p) ≡ (k, new)
      → ((q : ℕ) → q ≢ p → contents (d.nodes q) ≡ contents (c.nodes q))
      → ((t : Table) → add_row k e vs t ≡ table ((k, new) ∷ t))
      → AreRising c qs
      → In p qs
      → put_row k vs (rows c qs) ≡ table (rows d qs)
  unfolding put_row
  put_row_replace new [] n same g o m = elim m [ ]
  put_row_replace new (q ∷ qs) n same g o (inl at) =
      let here = subst (λ (t : ℕ). contents (c.nodes t) ≡ (k, e)) at at_node_p in
      let there = subst (λ (t : ℕ). contents (d.nodes t) ≡ (k, new)) at n in
      let apart = subst (λ (t : ℕ). NotIn t qs) (sym at) (NotIn-Above c q qs o.0) in
      ap (λ (row : Bytes × Option Entry). put_row k vs (row ∷ rows c qs)) here
      ∙ put_row_here k e vs (rows c qs)
      ∙ g (rows c qs)
      ∙ ap₂ (λ (row : Bytes × Option Entry) (r : Table). table (row ∷ r)) (sym there)
          (sym (rows_other qs same apart))
  put_row_replace new (q ∷ qs) n same g o (inr m) =
      let before = before_row q qs o.0 m in
      let ne : q ≢ p = λ f. In-NotIn q p qs (NotIn-Above c q qs o.0) m (sym f) in
      rw before (
        ap (push_row (contents (c.nodes q))) (put_row_replace new qs n same g o.1 m)
        ∙ ap (λ (row : Bytes × Option Entry). table (row ∷ rows d qs)) (sym (same q ne)))
