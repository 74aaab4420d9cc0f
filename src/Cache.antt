-- ===== src/Cache.antt =====
-- storage/memory/cache.go: the skip list of a memory table. Nodes stand at addresses, the head at 0;
-- a pointer is an address, nil is `none`. Writers hold the lock of the manager of the memory tables
-- (storage/memory/memtable_manager.go), so each compare-and-swap succeeds at once.
pub mod Chains
pub mod Search
pub mod Links
pub mod Keys
pub mod Insertion
pub mod Puts
pub mod Outcomes
pub mod Finds
pub mod Walks
pub mod Table
pub mod Rows
pub mod Refinement
pub mod Runs
use equinoxdb.Base.{true, false}
use equinoxdb.Base.{ℕ, zero, suc, ◌+◌, ◌-◌, ◌%◌, ◌^◌, Option, none, some, List, [], ◌∷◌, ltb}
use equinoxdb.Base.{◌==◌, if◌then◌else◌, length, drop}
use equinoxdb.Bytes.{Bytes, compare_bytes, is_lt}
use equinoxdb.Entry.{Entry, new_entry_values, add_entry}
use equinoxdb.Planner.{level}
use equinoxdb.Values.{Value}
use equinoxdb.Values.{size as values_size}
use Prim.Native.Nat.{Ordering}
use equinoxdb.Base.{◌>>=◌}

-- `entry` is nil where NewEntryValues refused the values: newNode drops its error.
pub record Node : Type 0 where
  pub key : Bytes
  pub life_cycle : ℕ
  pub entry : Option Entry
  pub node_height : ℕ
  pub tower : ℕ → Option ℕ

-- `used` is the next free address.
pub record Cache : Type 0 where
  pub nodes : ℕ → Node
  pub used : ℕ
  pub height : ℕ
  pub size : ℕ

abbrev pub max_height : ℕ
max_height = 20

abbrev pub empty_tower : ℕ → Option ℕ
empty_tower i = none

abbrev pub new_node : Bytes → List Value → ℕ → ℕ → Node
new_node k vs h life = record {
  key = k;
  life_cycle = life;
  entry = new_entry_values vs;
  node_height = h;
  tower = empty_tower;
}

-- `NewCache`
unfoldable pub new_cache : Cache
new_cache = record { nodes = λ p. new_node [] [] max_height 0; used = 1; height = 1; size = 0 }

-- `GetNext`, and the comparison of the key of a node.
abbrev pub get_next : Cache → ℕ → ℕ → Option ℕ
get_next c p level = (c.nodes p).tower level

abbrev pub compare_key : Cache → ℕ → Bytes → Ordering
compare_key c p k = compare_bytes (c.nodes p).key k

-- What `getSplices` returns: the node before the key with the one behind it, or twice the node
-- that has the key.
pub data Splice : Type 0 where
  gap : (prev : ℕ) (next : Option ℕ) → Splice
  found : ℕ → Splice

-- The branches on a comparison, and on a pointer that may be nil.
abbrev pub by_order {ℓ} : {A : Type ℓ} → Ordering → A → A → A → A
by_order Ordering.lt x y z = x
by_order Ordering.eq x y z = y
by_order Ordering.gt x y z = z

abbrev pub by_pointer {ℓ} : {A : Type ℓ} → Option ℕ → A → (ℕ → A) → A
by_pointer none x f = x
by_pointer (some q) x f = f q

-- `getSplices`, on fuel: a level has no more nodes than the list.
unfoldable pub get_splices : ℕ → Cache → Bytes → ℕ → ℕ → Option Splice
get_splices zero c k from level = none
get_splices (suc fuel) c k from level =
    by_pointer (get_next c from level) (some (gap from none)) (λ q.
      let later = get_splices fuel c k q level in
      by_order (compare_key c q k) later (some (found q)) (some (gap from (some q))))

-- The first loop of `Put`, from the level below down to 0: the node that has the key, or the gaps
-- of the levels, the lowest first.
pub data Descent : Type 0 where
  hit : ℕ → Descent
  gaps : List (ℕ × Option ℕ) → Descent

unfoldable pub descend : Cache → Bytes → ℕ → ℕ → List (ℕ × Option ℕ) → Option Descent
unfolding get_splices
descend c k zero prev acc = some (gaps acc)
descend c k (suc level) prev acc = do
  s ← get_splices (suc c.used) c k prev level
  elim s [ found p ↦ some (hit p) | gap p q ↦ descend c k level p ((p, q) ∷ acc) ]

abbrev pub set_node : (ℕ → Node) → ℕ → Node → ℕ → Node
set_node ns p n q = if q == p then n else ns q

abbrev pub set_tower : Cache → ℕ → ℕ → Option ℕ → Cache
set_tower c p level next = record c {
  nodes =
      set_node c.nodes p
        (record (c.nodes p) { tower = λ i. if i == level then next else (c.nodes p).tower i });
}

-- A round of the second loop of `Put`: the new node points to the next one and the previous one to
-- the new node.
abbrev pub link : Cache → ℕ → ℕ → ℕ × Option ℕ → Cache
link c x level (prev, next) = set_tower (set_tower c x level next) prev level (some x)

-- The gap of a level: of the descent, or the head with nothing behind it at the height that the
-- list had, or searched for from the head above.
unfoldable pub gap_of : Cache → Bytes → ℕ → ℕ → List (ℕ × Option ℕ) → Option (ℕ × Option ℕ)
unfolding get_splices
gap_of c k old level (g ∷ gs) = some g
gap_of c k old level [] = if level == old then some (0, none) else (do
  s ← get_splices (suc c.used) c k 0 level
  elim s [ found p ↦ none | gap p q ↦ some (p, q) ])

-- The second loop of `Put`, for the rounds that are left.
unfoldable pub link_levels : Cache → Bytes → ℕ → ℕ → ℕ → ℕ → List (ℕ × Option ℕ) → Option Cache
unfolding gap_of
link_levels c k old x level zero gs = some c
link_levels c k old x level (suc rounds) gs = do
  g ← gap_of c k old level gs
  link_levels (link c x level g) k old x (suc level) rounds (drop 1 gs)

-- What `Put` returns: the error of `Entry.Add`, or the cache. A nil entry is a panic.
pub data PutResult : Type 0 where
  stored : Cache → PutResult
  conflict : PutResult
  nil_entry : PutResult

-- `prev[i].entry.Add(values)`: nothing to add is no use of the entry.
abbrev pub set_entry : Cache → ℕ → Entry → Cache
set_entry c p e = record c { nodes = set_node c.nodes p (record (c.nodes p) { entry = some e }) }

abbrev pub after_add : Cache → ℕ → Option Entry → PutResult
after_add c p none = conflict
after_add c p (some f) = stored (set_entry c p f)

abbrev pub add_to : Cache → ℕ → List Value → Option Entry → PutResult
add_to c p [] e = stored c
add_to c p (v ∷ vs) none = nil_entry
add_to c p (v ∷ vs) (some e) = after_add c p (add_entry e (v ∷ vs))

unfoldable pub add_values : Cache → ℕ → List Value → PutResult
add_values c p vs = add_to c p vs (c.nodes p).entry

-- The node of `Put` at the first free address, and the height of the list raised to its height.
abbrev pub place : Cache → Bytes → List Value → ℕ → ℕ → Cache
place c k vs h life = record c {
  nodes = set_node c.nodes c.used (new_node k vs h life);
  used = suc c.used;
  height = (if ltb c.height h then h else c.height);
}

abbrev pub to_result : Option Cache → Option PutResult
to_result none = none
to_result (some c) = some (stored c)

unfoldable pub put_descended : Cache → Bytes → List Value → ℕ → ℕ → Descent → Option PutResult
unfolding link_levels add_values
put_descended c k vs h life (hit p) = some (add_values c p vs)
put_descended c k vs h life (gaps gs) =
    to_result (link_levels (place c k vs h life) k c.height c.used 0 h gs)

-- The size is a 32-bit counter.
abbrev pub count_size : Cache → Bytes → List Value → Cache
count_size c k vs = record c { size = (c.size + (length k + values_size vs)) % 2 ^ 32 }

-- `Put`; `h` is the height that `randomHeight` draws, from 1 to 20.
unfoldable pub put : Cache → Bytes → List Value → ℕ → ℕ → Option PutResult
unfolding descend put_descended
put c k vs life h =
    let d = count_size c k vs in descend d k c.height 0 [] >>= put_descended d k vs h life

-- `findGreaterOrEqual`, on fuel: each round goes to a later node or down a level.
unfoldable pub find_loop : ℕ → Cache → Bytes → ℕ → ℕ → Option (Option ℕ)
find_loop zero c k p level = none
find_loop (suc fuel) c k p zero = by_pointer (get_next c p 0) (some none) (λ q.
    let later = find_loop fuel c k q 0 in
    if is_lt (compare_key c q k) then later else some (some q))
find_loop (suc fuel) c k p (suc level) =
    let below = find_loop fuel c k p level in
    by_pointer (get_next c p (suc level)) below (λ q.
      let later = find_loop fuel c k q (suc level) in
      if is_lt (compare_key c q k) then later else below)

unfoldable pub find_greater_or_equal : Cache → Bytes → Option (Option ℕ)
unfolding find_loop
find_greater_or_equal c k = find_loop (suc (c.used + c.height)) c k 0 (c.height - 1)
