-- ===== src/Cursors.antt =====
-- storage/cursor/array_cursor.gen.go: the cursors that merge the cached values of a key with those of
-- its SST files, block by block. The ten cursors are one template for five types and two directions:
-- here the type is any, `raw` is the type assertion on a cached value with `RawValue`, and all lists
-- stand in the direction of travel, from the position on. A block, two columns of one length in the
-- source, is a list of points.
pub mod Streams
pub mod Rounds
pub mod Fills
pub mod Blocks
pub mod Walked
pub mod Nexts
pub mod Ends
pub mod Reads
use mathlib.Core.List.{reverse}
use equinoxdb.Base.{ℕ, zero, suc, ◌+◌, ◌-◌, Bool, ◌&&◌, Option, none, some, List, [], ◌∷◌, ◌++◌}
use equinoxdb.Base.{map, ltb, leb, ◌==◌, if◌then◌else◌, length, get_elem?, take, drop}
use equinoxdb.Base.Bisect.{bisect}
use equinoxdb.Values.{Value, unix_nano}
use equinoxdb.Base.{◌>>=◌}

pub record Cursor (A : Type 0) : Type 0 where
  pub cache : List Value
  pub block : List (ℕ × A)
  pub passed : ℕ
  pub blocks : List (List (ℕ × A))

-- What a phase of `Next` has put into the result, the room that is left in it, and the cursor.
pub record Phase (A : Type 0) : Type 0 where
  pub out : List (ℕ × A)
  pub room : ℕ
  pub cursor : Cursor A

module _ {A : Type 0} where
  -- `nextSST`: the next block of the key cursor, which at its end reads empty blocks.
  abbrev pub open_block : Cursor A → List (List (ℕ × A)) → Cursor A
  open_block c [] = record c { block = []; passed = 0; blocks = [] }
  open_block c (b ∷ bs) = record c { block = b; passed = 0; blocks = bs }

  unfoldable pub next_sst : Cursor A → Cursor A
  next_sst c = open_block c c.blocks

  -- The test behind each step in a block.
  unfoldable pub settle : Cursor A → Cursor A
  unfolding next_sst
  settle c = if leb (length c.block) c.passed then next_sst c else c

  abbrev pub skip_points : ℕ → Cursor A → Cursor A
  skip_points n c = record c { passed = c.passed + n }

  abbrev pub put_front : List (ℕ × A) → Phase A → Phase A
  put_front ps f = record f { out = ps ++ f.out }

  abbrev pub stop : ℕ → Cursor A → Option (Phase A)
  stop room c = some (record { out = []; room = room; cursor = c })

  module _ (raw : Value → Option A) (before : ℕ → ℕ → Bool) where
    -- A round of the first loop of `Next` on the next point of either side, `before` being the
    -- comparison of the direction; a cached value of another type panics.
    abbrev pub round :
        (Cursor A → Option (Phase A)) → ℕ → Cursor A → List (ℕ × A) → List Value → Option (Phase A)
    round more room c [] vs = stop room c
    round more room c (p ∷ ps) [] = stop room c
    round more room c (p ∷ ps) (v ∷ vs) =
        let both = (do
          x ← raw v
          f ← more (settle (skip_points 1 (record c { cache = vs })))
          some (put_front ((unix_nano v, x) ∷ []) f)) in
        let cached = (do
          x ← raw v
          f ← more (settle (record c { cache = vs }))
          some (put_front ((unix_nano v, x) ∷ []) f)) in
        let stored_one = (do f ← more (settle (skip_points 1 c)); some (put_front (p ∷ []) f)) in
        if unix_nano v == p.0 then both else if before (unix_nano v) p.0 then cached else stored_one

    unfoldable pub rounds : ℕ → Cursor A → Option (Phase A)
    unfolding settle
    rounds zero c = stop 0 c
    rounds (suc room) c = round (rounds room) (suc room) c (drop c.passed c.block) c.cache

  -- The part of the ascending `Next` that copies from the block: the whole block if nothing is in
  -- the result and it fits, else as much as there is room for.
  abbrev pub from_block : ℕ → Phase A → List (ℕ × A) → Phase A
  from_block cap f [] = f
  from_block cap f (p ∷ ps) =
      if length f.out == 0 && leb (length f.cursor.block) cap
      then record {
        out = f.cursor.block;
        room = cap - length f.cursor.block;
        cursor = next_sst f.cursor;
      }
      else record {
        out = f.out ++ take f.room (p ∷ ps);
        room = f.room - length (p ∷ ps);
        cursor = settle (skip_points (length (take f.room (p ∷ ps))) f.cursor);
      }

  -- The loop of the descending `Next` over the blocks.
  abbrev pub walk_round : (Cursor A → Phase A) → ℕ → Cursor A → List (ℕ × A) → Phase A
  walk_round more room c [] = record { out = []; room = room; cursor = c }
  walk_round more room c (p ∷ ps) = put_front (p ∷ []) (more (settle (skip_points 1 c)))

  unfoldable pub walk_blocks : ℕ → Cursor A → Phase A
  unfolding settle
  walk_blocks zero c = record { out = []; room = 0; cursor = c }
  walk_blocks (suc room) c = walk_round (walk_blocks room) (suc room) c (drop c.passed c.block)

  module _ (raw : Value → Option A) where
    -- The last loop before the end is cut off: cached values while there is room.
    unfoldable pub copy_cache : ℕ → Cursor A → List Value → Option (Phase A)
    copy_cache room c [] = stop room (record c { cache = [] })
    copy_cache zero c (v ∷ vs) = stop 0 (record c { cache = v ∷ vs })
    copy_cache (suc room) c (v ∷ vs) = do
      x ← raw v
      f ← copy_cache room c vs
      some (put_front ((unix_nano v, x) ∷ []) f)

    abbrev pub then_cache : Phase A → Option (Phase A)
    then_cache f = do g ← copy_cache f.room f.cursor f.cursor.cache; some (put_front f.out g)

    unfoldable pub fill_ascending : ℕ → Phase A → Option (Phase A)
    unfolding next_sst settle copy_cache
    fill_ascending cap f =
        if f.room == 0
        then some f
        else then_cache (from_block cap f (drop f.cursor.passed f.cursor.block))

    unfoldable pub fill_descending : Phase A → Option (Phase A)
    unfolding walk_blocks copy_cache
    fill_descending f = then_cache (put_front f.out (walk_blocks f.room f.cursor))

  -- The loop that strips from the end of the result the points past the end time: how many are kept.
  unfoldable pub kept_points : (ℕ → Bool) → List (ℕ × A) → ℕ → ℕ
  kept_points past out zero = 0
  kept_points past out (suc n) =
      let fewer = kept_points past out n in
      elim (get_elem? out n) [ none ↦ suc n | some p ↦ if past p.0 then fewer else suc n ]

  abbrev pub strip : (ℕ → Bool) → List (ℕ × A) → List (ℕ × A)
  strip past out = take (kept_points past out (length out)) out

  module _ (raw : Value → Option A) (cap end : ℕ) where
    -- `Next` of an ascending cursor and of a descending one: the points and the cursor.
    unfoldable pub next_ascending : Cursor A → Option (List (ℕ × A) × Cursor A)
    unfolding rounds fill_ascending kept_points
    next_ascending c = do
      f ← rounds raw ltb cap c
      g ← fill_ascending raw cap f
      some (strip (λ t. ltb end t) g.out, g.cursor)

    unfoldable pub next_descending : Cursor A → Option (List (ℕ × A) × Cursor A)
    unfolding rounds fill_descending kept_points
    next_descending c = do
      f ← rounds raw (λ a b. ltb b a) cap c
      g ← fill_descending raw f
      some (strip (λ t. ltb t end) g.out, g.cursor)

  -- `Reset` of an ascending cursor, with the blocks of the key cursor.
  unfoldable pub reset_ascending : ℕ → List Value → List (List (ℕ × A)) → Option (Cursor A)
  reset_ascending seek values blocks = do
    let c : Cursor A =
        open_block (record { cache = values; block = []; passed = 0; blocks = [] }) blocks
    p ← bisect (λ v. ltb (unix_nano v) seek) values
    q ← bisect (λ p. ltb p.0 seek) c.block
    some (record c { cache = drop p values; passed = q })

  -- `Reset` of a descending cursor: a position one below the first point behind `seek`, and from
  -- there to the front.
  unfoldable pub reset_descending : ℕ → List Value → List (List (ℕ × A)) → Option (Cursor A)
  reset_descending seek values blocks = do
    let c : Cursor A =
        open_block (record { cache = values; block = []; passed = 0; blocks = [] }) blocks
    p ← bisect (λ v. leb (unix_nano v) seek) values
    q ← bisect (λ p. leb p.0 seek) c.block
    some (record c {
      cache = reverse (take p values);
      block = reverse c.block;
      passed = length c.block - q;
      blocks = map reverse c.blocks;
    })
