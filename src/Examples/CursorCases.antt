-- ===== src/Examples/CursorCases.antt =====
-- The cursors: storage/cursor/array_cursor.gen.go.
use equinoxdb.Values.{unsigned_value}
use equinoxdb.Base.{ℕ, ◌≡◌, refl, inl, Option, none, some, [], ◌∷◌, arith, ltb}
use equinoxdb.Cursors.{Cursor, next_sst, next_ascending}
use equinoxdb.Cursors.Nexts.{Given, next_ascending-Given}
use equinoxdb.Cursors.Reads.{reads, reads-in_time}
use equinoxdb.Cursors.Streams.{overlay, IsSettled}
use equinoxdb.Values.{Value, boolean_value, float_value, integer_value, string_value}

abbrev raw_float : Value → Option ℕ
raw_float (float_value t v) = some v
raw_float (boolean_value t v) = none
raw_float (integer_value t v) = none
raw_float (unsigned_value t v) = none
raw_float (string_value t v) = none

-- Cached points at 9 and 4, and blocks with 8, 4 and 2, the newest first.
abbrev downward : Cursor ℕ
downward = record {
  cache = float_value 9 90 ∷ float_value 4 40 ∷ [];
  block = (8, 81) ∷ (4, 41) ∷ [];
  passed = 0;
  blocks = ((2, 21) ∷ []) ∷ [];
}

downward-IsSettled : IsSettled downward
downward-IsSettled = ((omega arith, tt), λ e. absurd (omega (arith, e)))

reads-in_time_example : reads raw_float 2 3 4 downward ≡ some ((9, 90) ∷ (8, 81) ∷ (4, 40) ∷ [])
unfolding overlay
reads-in_time_example =
    reads-in_time raw_float 2 3 4 downward ((9, 90) ∷ (4, 40) ∷ []) (omega arith) refl
      downward-IsSettled ((λ e. absurd (cc), (λ e. absurd (cc), (λ e. absurd (cc), (λ e. tt, tt)))))
      (omega arith)

-- Cached points at 1 and 3, a block with 2, 4, 6 and 8.
abbrev upward : Cursor ℕ
upward = record {
  cache = float_value 1 10 ∷ float_value 3 30 ∷ [];
  block = (2, 20) ∷ (4, 40) ∷ (6, 60) ∷ (8, 80) ∷ [];
  passed = 0;
  blocks = [];
}

next_ascending-Given_example :
    Given raw_float 4 9
      (omega arith)
      upward
      ((1, 10) ∷ (3, 30) ∷ [])
      ltb
      (λ t. ltb 9 t)
      (next_ascending raw_float 4 9 upward)
next_ascending-Given_example =
    next_ascending-Given raw_float 4 9 (omega arith) upward ((1, 10) ∷ (3, 30) ∷ []) refl
      (tt, λ e. refl) (inl refl)

-- What the first call leaves of it.
abbrev midway : Cursor ℕ
midway = record upward { cache = []; passed = 2 }

-- Tests: the first call gives 1 to 4, and the second one 2 to 8.
upward_test :
    next_ascending raw_float 4 9 upward ≡ some ((1, 10) ∷ (2, 20) ∷ (3, 30) ∷ (4, 40) ∷ [], midway)
unfolding next_ascending
upward_test = refl

midway_test :
    next_ascending raw_float 4 9 midway
    ≡ some ((2, 20) ∷ (4, 40) ∷ (6, 60) ∷ (8, 80) ∷ [], next_sst midway)
unfolding next_ascending
midway_test = refl
