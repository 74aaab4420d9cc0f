-- ===== src/Entry.antt =====
-- storage/types/entry.go: the values of one key in a memory table, all of one type.
pub mod Types
pub mod Filter
use equinoxdb.Base.{ℕ, Bool, false, ◌&&◌, ◌||◌, not, Option, none, some, List, [], ◌∷◌, ◌++◌}
use equinoxdb.Base.{ltb, leb, ◌==◌, if◌then◌else◌, ◌>>=◌, length}
use equinoxdb.Values.{Value, boolean_value, float_value, integer_value, string_value}
use equinoxdb.Values.{unsigned_value, size, exclude, deduplicate}

-- `valueType`; 0 is an undefined type.
unfoldable pub value_type : Value → ℕ
value_type (float_value t v) = 1
value_type (integer_value t v) = 2
value_type (string_value t v) = 3
value_type (boolean_value t v) = 4
value_type (unsigned_value t v) = 5

pub record Entry : Type 0 where
  pub values : List Value
  pub v_type : ℕ

-- The test loops of `NewEntryValues` and `Add`.
unfoldable pub has_conflict : ℕ → List Value → Bool
has_conflict t [] = false
has_conflict t (v ∷ vs) = not (t == value_type v) || has_conflict t vs

-- `NewEntryValues`; `none` is ErrFieldTypeConflict.
unfoldable pub new_entry_values : List Value → Option Entry
new_entry_values [] = some (record { values = []; v_type = 0 })
new_entry_values (v ∷ vs) =
    if has_conflict (value_type v) (v ∷ vs)
    then none
    else some (record { values = v ∷ vs; v_type = value_type v })

-- The part of `Add` under the lock.
unfoldable pub add_locked : Entry → Value → List Value → Entry
add_locked e x xs =
    if length e.values == 0
    then record { values = x ∷ xs; v_type = value_type x }
    else record e { values = e.values ++ (x ∷ xs) }

-- `Add`; `none` is ErrFieldTypeConflict, which leaves the entry as it was.
unfoldable pub add_entry : Entry → List Value → Option Entry
unfolding has_conflict add_locked
add_entry e [] = some e
add_entry e (x ∷ xs) =
    if not (e.v_type == 0) && has_conflict e.v_type (x ∷ xs) then none else some (add_locked e x xs)

-- `Deduplicate`
unfoldable pub deduplicate_entry : Entry → Entry
deduplicate_entry e =
    if leb (length e.values) 1 then e else record e { values = deduplicate e.values }

abbrev pub count_entry : Entry → ℕ
count_entry e = length e.values

-- `Filter`
unfoldable pub filter_entry : Entry → ℕ → ℕ → Option Entry
filter_entry e min max = do
  kept_values ← exclude (if ltb 1 (length e.values) then deduplicate e.values else e.values) min max
  some (record e { values = kept_values })

abbrev pub size_entry : Entry → ℕ
size_entry e = size e.values

-- `Clean`: the type stays.
abbrev pub clean_entry : Entry → Entry
clean_entry e = record e { values = [] }
