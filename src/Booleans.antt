-- ===== src/Booleans.antt =====
-- storage/codec/bool.go: booleans packed eight to a byte, the first in the highest bit.
pub mod Bits
pub mod RoundTrip
use equinoxdb.Base.{ℕ, zero, suc, ◌+◌, ◌-◌, ◌*◌, ◌/◌, ◌%◌, ◌^◌, Bool, true, false, Option, none}
use equinoxdb.Base.{some, List, [], ◌∷◌, ◌++◌, ltb, ◌==◌, if◌then◌else◌, ◌>>=◌, length}
use equinoxdb.Base.{get_elem?}
use equinoxdb.Varint.{put_uvarint, uvarint}

pub record BooleanEncoder : Type 0 where
  pub bytes : List ℕ
  pub b : ℕ
  pub i : ℕ
  pub n : ℕ

-- `Reset`, and a new encoder.
unfoldable pub reset : BooleanEncoder
reset = record { bytes = []; b = 0; i = 0; n = 0 }

-- The padding loop of `flush`, for the rounds that are left.
unfoldable pub pad : ℕ → ℕ → ℕ
pad zero b = b
pad (suc rounds) b = pad rounds (b * 2 % 256)

-- After the padding `i` is at least 8, so the test `e.i > 0` always passes.
unfoldable pub flush : BooleanEncoder → BooleanEncoder
unfolding pad
flush e = record e { bytes = e.bytes ++ (pad (8 - e.i) e.b ∷ []); b = 0; i = 0 }

-- The part of `Write` after the flush: the lowest bit of the shifted byte is 0.
unfoldable pub push_bit : BooleanEncoder → Bool → BooleanEncoder
push_bit e v = record e {
  b = (if v then e.b * 2 % 256 + 1 else e.b * 2 % 256);
  i = suc e.i;
  n = suc e.n;
}

unfoldable pub write : BooleanEncoder → Bool → BooleanEncoder
unfolding push_bit flush
write e v = push_bit (if ltb e.i 8 then e else flush e) v

unfoldable pub write_all : BooleanEncoder → List Bool → BooleanEncoder
unfolding write
write_all e [] = e
write_all e (v ∷ vs) = write_all (write e v) vs

-- `Bytes`: the encoding type in the high bits of the first byte, the count, the packed bits.
unfoldable pub encoded : BooleanEncoder → List ℕ
unfolding flush
encoded e = 16 ∷ (put_uvarint e.n ++ (flush e).bytes)

-- The decoder. The index starts at -1 and `Next` goes before `Read`, so it is kept as the number
-- of calls of `Next` so far, one more than the index.
pub record BooleanDecoder : Type 0 where
  pub block : List ℕ
  pub position : ℕ
  pub count : ℕ
  pub failed : Bool

abbrev pub new_decoder : BooleanDecoder
new_decoder = record { block = []; position = 0; count = 0; failed = false }

-- `int(count)`: a count of 2^63 or more is negative, so `Next` never passes.
abbrev pub to_count : ℕ → ℕ
to_count c = if ltb c (2 ^ 63) then c else 0

unfoldable pub set_counted : BooleanDecoder → Option (ℕ × List ℕ) → BooleanDecoder
set_counted d none = record d { failed = true }
set_counted d (some (c, rest)) = record d {
  block = rest;
  position = 0;
  count = (if ltb (length rest * 8) (to_count c) then length rest * 8 else to_count c);
}

-- `SetBytes`: the first byte is skipped, and the count is cut to the bits that are there.
unfoldable pub set_bytes : BooleanDecoder → List ℕ → BooleanDecoder
unfolding set_counted
set_bytes d [] = d
set_bytes d (t ∷ bs) = set_counted d (uvarint bs)

-- `Read`, at the index behind the last `Next`: `v&mask == mask` tests one bit.
unfoldable pub read_at : List ℕ → ℕ → Option Bool
read_at block i = get_elem? block (i / 8) >>= λ v. some (v / 2 ^ (7 - i % 8) % 2 == 1)

-- `for d.Next() { d.Read() }`, for the number of calls of `Next` that pass.
unfoldable pub read_loop : ℕ → List ℕ → ℕ → Option (List Bool)
unfolding read_at
read_loop zero block i = some []
read_loop (suc left) block i = do
  v ← read_at block i
  vs ← read_loop left block (suc i)
  some (v ∷ vs)

unfoldable pub read_all : BooleanDecoder → Option (List Bool)
unfolding read_loop
read_all d = if d.failed then some [] else read_loop (d.count - d.position) d.block d.position
