-- ===== src/Values/Find.antt =====
-- `search` and `FindRange` on ordered values.
use equinoxdb.Base.{ℕ, zero, suc, ◌+◌, ◌/◌, ◌≤◌, ◌<◌, ◌≡◌, List, length}
use equinoxdb.Base.{some, arith, ltb}
use equinoxdb.Base.{Bool-cases, get_elem?-some, inl, inr}
use equinoxdb.Values.{Value, search_loop, search}
use equinoxdb.Values.Order.{Ordered, rank, rank-le-length, rank-get_elem?}

pub search_loop-rank :
    (fuel : ℕ) (a : List Value) (v lo hi : ℕ)
    → Ordered a
    → lo ≤ rank v a
    → rank v a ≤ hi
    → hi ≤ length a
    → hi < fuel + lo
    → search_loop fuel a v lo hi ≡ some (rank v a)
unfolding search_loop
search_loop-rank zero a v lo hi o l r h f = absurd (omega arith)
search_loop-rank (suc fuel) a v lo hi o l r h f = elim (Bool-cases (ltb lo hi)) [
  | inr done ↦ rw done (ground arith)
  | inl more ↦
      let mid = (lo + hi) / 2 in
      let (x, e) = get_elem?-some a mid (ground arith) in
      rw more (
        rw e (
          rw (rank-get_elem? v a mid x o e) (
            ground (
              arith,
              search_loop-rank fuel a v (mid + 1) hi o,
              search_loop-rank fuel a v lo mid o,
            ))))
]

-- On ordered values `search` ends, reads no index out of range, and returns the number of values
-- that are before the time.
pub search-rank : (a : List Value) (v : ℕ) → Ordered a → search a v ≡ some (rank v a)
unfolding search
search-rank a v o =
    search_loop-rank (suc (length a)) a v 0 (length a) o (omega arith) (rank-le-length v a)
      (omega arith) (omega arith)
