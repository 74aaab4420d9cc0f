-- ===== src/Arrays/Cuts.antt =====
-- `FindRange`, `Exclude` and `Include` of storage/types/arrayvalues.gen.go against those of `Values`
-- in storage/types/values.gen.go.
use equinoxdb.Base.{Bool, true, false, ◌||◌, arith}
use equinoxdb.Arrays.{after_max, search_times, find_interval}
use equinoxdb.Arrays.Columns.{length-map, map_then}
use equinoxdb.Base.{◌-◌, Option, none, some, ◌==◌, if◌then◌else◌, length, get_elem?}
use equinoxdb.Base.Bisect.{bisect}
use equinoxdb.Values.{search, find_range, past_max}
use mathlib.Core.Option
use equinoxdb.Base.{◌>>=◌}
use equinoxdb.Arrays.{TypedArray, Interval, missing, span}
use equinoxdb.Arrays.Columns.{get_elem?-map}
use equinoxdb.Base.{ℕ, zero, suc, ◌+◌, ◌/◌, ◌≡◌, refl, List, map, ltb}
use equinoxdb.Base.Bisect.{bisect_loop}
use equinoxdb.Values.{Value, unix_nano, search_loop, Positions, outside, between}

abbrev pub as_interval : Positions → Interval
as_interval outside = missing
as_interval (between r s) = span r s

-- The columns of a list of values: their times and some part of them.
abbrev pub columns : {A : Type 0} → (Value → A) → List Value → TypedArray A
columns f vs = record { timestamps = map unix_nano vs; values = map f vs }

search_loop-bisect_loop :
    (fuel : ℕ) (vs : List Value) (v lo hi : ℕ)
    → bisect_loop (λ t. ltb t v) fuel (map unix_nano vs) lo hi ≡ search_loop fuel vs v lo hi
unfolding bisect_loop search_loop
search_loop-bisect_loop zero vs v lo hi = refl
search_loop-bisect_loop (suc fuel) vs v lo hi =
    let mid = (lo + hi) / 2 in
    rw
      (
        get_elem?-map unix_nano vs mid,
        search_loop-bisect_loop fuel vs v (mid + 1) hi,
        search_loop-bisect_loop fuel vs v lo mid,
        map_then unix_nano (get_elem? vs mid),
      )
      refl

search-search_times : (vs : List Value) (v : ℕ) → search_times (map unix_nano vs) v ≡ search vs v
unfolding search_times search bisect
search-search_times vs v =
    rw (length-map unix_nano vs) (search_loop-bisect_loop (suc (length vs)) vs v 0 (length vs))

-- The two searches of `FindRange`.
found_both :
    (o p : Option ℕ)
    → (do r ← o; s ← p; some (span r s))
      ≡ Option.map as_interval (do r ← o; s ← p; some (between r s))
found_both none p = refl
found_both (some r) none = refl
found_both (some r) (some s) = refl

if_both :
    (b : Bool) {o : Option Interval} (p : Option Positions)
    → o ≡ Option.map as_interval p
    → (if b then some missing else o) ≡ Option.map as_interval (if b then some outside else p)
if_both true p e = refl
if_both false p e = e

-- `FindRange` on values and on their times, from the ends and the two searches on.
ends_both :
    (o l : Option Value) (min max : ℕ) {i : Option Interval} (p : Option Positions)
    → i ≡ Option.map as_interval p
    → (do
      first ← Option.map unix_nano o
      last ← Option.map unix_nano l
      if ltb last min || ltb max first then some missing else i)
      ≡ Option.map as_interval (do
        first ← o
        last ← l
        if ltb (unix_nano last) min || ltb max (unix_nano first) then some outside else p)
ends_both none l min max p e = refl
ends_both (some x) none min max p e = refl
ends_both (some x) (some y) min max p e =
    if_both (ltb (unix_nano y) min || ltb max (unix_nano x)) p e

pub find_interval-find_range :
    (vs : List Value) (min max : ℕ)
    → find_interval (map unix_nano vs) min max ≡ Option.map as_interval (find_range vs min max)
unfolding find_interval find_range
find_interval-find_range vs min max =
    rw
      (
        length-map unix_nano vs,
        get_elem?-map unix_nano vs 0,
        get_elem?-map unix_nano vs (length vs - 1),
        search-search_times vs min,
        search-search_times vs max,
      )
      (if_both (length vs == 0 || ltb max min) _ (
        ends_both (get_elem? vs 0) (get_elem? vs (length vs - 1)) min max _
          (found_both (search vs min) (search vs max))))

pub after_max-past_max :
    (vs : List Value) (r max : ℕ) → after_max (map unix_nano vs) r max ≡ past_max vs r max
unfolding after_max past_max
after_max-past_max vs r max = ground (arith, get_elem?-map unix_nano vs r)
