-- ===== src/Cache/Walks.antt =====
-- The operations of storage/memory/cache.go that look for a key or visit all nodes.
use equinoxdb.Base.{◌*◌, ◌/◌, Bool, true, false, ◌==◌, if◌then◌else◌, take, drop}
use equinoxdb.Entry.{deduplicate_entry}
use equinoxdb.Planner.{level}
use equinoxdb.Cache.{set_entry}
use equinoxdb.Base.{◌>>=◌}
use equinoxdb.Base.{ℕ, zero, suc, ◌+◌, ◌-◌, ◌%◌, ◌^◌, ◌<◌, ◌≡◌, refl, Option, none, some, List}
use equinoxdb.Base.{[], ◌∷◌, arith, length}
use equinoxdb.Bytes.{Bytes}
use equinoxdb.Cache.{Cache, get_next, by_pointer, find_greater_or_equal}
use equinoxdb.Cache.Chains.{Chain}
use equinoxdb.Cache.Search.{IsSkipList}
use equinoxdb.Entry.{Entry, size_entry, clean_entry}

-- `Get`: the entry of the node found, or nil.
unfoldable pub get : Cache → Bytes → Option (Option Entry)
unfolding find_greater_or_equal
get c k = do r ← find_greater_or_equal c k; some (by_pointer r none (λ p. (c.nodes p).entry))

-- `DecreaseSize`: the complement of one less, added to a 32-bit counter.
abbrev pub decrease_size : Cache → ℕ → Cache
decrease_size c delta = record c {
  size = (c.size + (2 ^ 32 - 1 - (delta + (2 ^ 32 - 1)) % 2 ^ 32)) % 2 ^ 32;
}

-- `Delete` of the node found; a nil entry panics.
pub data DeleteResult : Type 0 where
  deleted : Cache → DeleteResult
  nil_deref : DeleteResult

unfoldable pub clean_node : Cache → ℕ → DeleteResult
clean_node c p = elim (c.nodes p).entry [
  | none ↦ nil_deref
  | some e ↦ deleted (set_entry (decrease_size c (size_entry e % 2 ^ 32)) p (clean_entry e))
]

unfoldable pub delete : Cache → Bytes → Option DeleteResult
unfolding find_greater_or_equal clean_node
delete c k = do r ← find_greater_or_equal c k; some (by_pointer r (deleted c) (clean_node c))

-- The loop of `GetAllNodes`, on fuel: there are no more nodes than addresses.
unfoldable pub walk : ℕ → Cache → ℕ → Option (List ℕ)
walk zero c p = none
walk (suc fuel) c p =
    by_pointer (get_next c p 0) (some [])
      (λ q. let later = walk fuel c q in later >>= λ r. some (q ∷ r))

unfoldable pub get_all_nodes : Cache → Option (List ℕ)
unfolding walk
get_all_nodes c = walk (suc c.used) c 0

-- `Count`
unfoldable pub count_nodes : Cache → Option ℕ
unfolding get_all_nodes
count_nodes c = do r ← get_all_nodes c; some (length r)

-- `Split`: the i-th of n pieces of the nodes.
abbrev pub piece : ℕ → ℕ → List ℕ → List ℕ
piece i n nodes =
    let start = i * length nodes / n in
    let end = suc i * length nodes / n in take (end - start) (drop start nodes)

unfoldable pub pieces_from : ℕ → ℕ → ℕ → List ℕ → List (List ℕ)
pieces_from zero i n nodes = []
pieces_from (suc rounds) i n nodes = piece i n nodes ∷ pieces_from rounds (suc i) n nodes

unfoldable pub split : Cache → ℕ → Option (List (List ℕ))
unfolding get_all_nodes pieces_from
split c n = do nodes ← get_all_nodes c; some (pieces_from n 0 n nodes)

-- The loop of `Deduplicate`; a nil entry panics.
unfoldable pub dedup_walk : ℕ → Cache → ℕ → Option Cache
dedup_walk zero c p = none
dedup_walk (suc fuel) c p =
    by_pointer (get_next c p 0) (some c)
      (λ q. do e ← (c.nodes q).entry; dedup_walk fuel (set_entry c q (deduplicate_entry e)) q)

unfoldable pub deduplicate_cache : Cache → Option Cache
unfolding dedup_walk
deduplicate_cache c = dedup_walk (suc c.used) c 0

-- The loop of `findLast`, on the fuel of `findGreaterOrEqual`.
unfoldable pub last_loop : ℕ → Cache → ℕ → ℕ → Option ℕ
last_loop zero c p level = none
last_loop (suc fuel) c p zero = by_pointer (get_next c p 0) (some p) (λ q. last_loop fuel c q 0)
last_loop (suc fuel) c p (suc level) =
    by_pointer (get_next c p (suc level)) (last_loop fuel c p level)
      (λ q. last_loop fuel c q (suc level))

-- `findLast` and `Empty`: the head is no node.
unfoldable pub find_last : Cache → Option (Option ℕ)
unfolding last_loop
find_last c = do
  p ← last_loop (suc (c.used + c.height)) c 0 (c.height - 1)
  some (if p == 0 then none else some p)

unfoldable pub is_empty : Cache → Option Bool
unfolding find_last
is_empty c = do r ← find_last c; some (by_pointer r true (λ p. false))

module _ (c : Cache) where
  walk-Chain :
      (fuel p : ℕ) (qs : List ℕ) → Chain c 0 p qs → length qs < fuel → walk fuel c p ≡ some qs
  unfolding walk
  walk-Chain zero p qs h f = absurd (omega arith)
  walk-Chain (suc fuel) p [] h f = rw h refl
  walk-Chain (suc fuel) p (q ∷ qs) h f = rw (h.0, walk-Chain fuel q qs h.1 (omega arith)) refl

  pub get_all_nodes-levels :
      (levels : ℕ → List ℕ) → IsSkipList c levels → get_all_nodes c ≡ some (levels 0)
  unfolding get_all_nodes
  get_all_nodes-levels levels list =
      walk-Chain (suc c.used) 0 (levels 0) (list.chain 0) (let few = list.few 0 in omega arith)
