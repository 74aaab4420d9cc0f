-- ===== src/Integers.antt =====
-- storage/codec/int.go: the encoder and the decoder of integers: zigzag deltas, packed by simple8b, as
-- a run, or as they are. An int64 is given by its bits, a number below 2 ^ 64. That simple8b packs the
-- numbers of the encoder in place is not followed, so `Bytes` is called once.
pub mod Deltas
pub mod Blocks
pub mod Loops
pub mod Runs
pub mod RoundTrip
pub mod Arrays
pub mod Decodes
pub mod ArrayTrip
use equinoxdb.Base.{ℕ, zero, suc, ◌+◌, ◌-◌, ◌*◌, ◌/◌, ◌%◌, ◌^◌, ◌≤◌, ◌<◌, ◌≡◌, Bool, true, false}
use equinoxdb.Base.{◌&&◌, ◌||◌, not, Option, none, some, List, [], ◌∷◌, ◌++◌, map, ltb, leb}
use equinoxdb.Base.{◌==◌, if◌then◌else◌, length, get_elem?, All, flatten}
use equinoxdb.Block.{zig_zag_encode, zig_zag_decode}
use equinoxdb.Varint.{put_uvarint, uvarint}
use equinoxdb.Words.{be_bytes, read_word}
use equinoxdb.Base.{◌>>=◌}

-- pkg/encoding/simple8b, a copy of github.com/jwilder/encoding: `EncodeAll` packs numbers up to
-- `MaxValue` into words, from which `Decode` unpacks them one word at a time, at least one number each.
pub record Packed : Type 0 where
  pub word : ℕ
  pub numbers : List ℕ

pub record Simple8b : Type 0 where
  pub max_value : ℕ
  pub encode_all : List ℕ → Option (List ℕ)
  pub decode : ℕ → Option (List ℕ)
  pub decode-encode_all :
      (xs : List ℕ)
      → All (λ x. x ≤ max_value) xs
      → (ps : List Packed) × (encode_all xs ≡ some (map (λ p. p.word) ps))
        × (flatten (map (λ p. p.numbers) ps) ≡ xs)
        × All
            (λ p. (p.word < 2 ^ 64) × (0 < length p.numbers) × (decode p.word ≡ some p.numbers))
            ps

pub record IntegerEncoder : Type 0 where
  pub prev : ℕ
  pub rle : Bool
  pub values : List ℕ

-- `NewIntegerEncoder` and `Reset`
abbrev pub new_integer_encoder : IntegerEncoder
new_integer_encoder = record { prev = 0; rle = true; values = [] }

-- `e.values[len(e.values)-1] == enc`, for values that are not empty.
abbrev pub ends_in : List ℕ → ℕ → Bool
ends_in [] enc = false
ends_in (x ∷ []) enc = x == enc
ends_in (x ∷ y ∷ xs) enc = ends_in (y ∷ xs) enc

abbrev pub delta : ℕ → ℕ → ℕ
delta prev v = (v + 2 ^ 64 - prev) % 2 ^ 64

-- `Write`
unfoldable pub write_integer : IntegerEncoder → ℕ → IntegerEncoder
write_integer e v =
    let enc = zig_zag_encode (delta e.prev v) in
    record {
      prev = v;
      rle = if ltb 1 (length e.values) then e.rle && ends_in e.values enc else e.rle;
      values = e.values ++ (enc ∷ []);
    }

unfoldable pub write_integers : IntegerEncoder → List ℕ → IntegerEncoder
unfolding write_integer
write_integers e [] = e
write_integers e (v ∷ vs) = write_integers (write_integer e v) vs

unfoldable pub words : List ℕ → List ℕ
words [] = []
words (w ∷ ws) = be_bytes 8 w ++ words ws

-- `encodeRLE`; `none` is an index out of range.
unfoldable pub encode_rle : List ℕ → Option (List ℕ)
encode_rle [] = none
encode_rle (x ∷ []) = none
encode_rle (x ∷ y ∷ xs) =
    some (32 ∷ (be_bytes 8 x ++ (put_uvarint y ++ put_uvarint (length (x ∷ y ∷ xs) - 1))))

-- `encodeUncompressed`
unfoldable pub encode_uncompressed : List ℕ → List ℕ
unfolding words
encode_uncompressed [] = []
encode_uncompressed (x ∷ xs) = 0 ∷ words (x ∷ xs)

abbrev pub any_above : ℕ → List ℕ → Bool
any_above m [] = false
any_above m (x ∷ xs) = ltb m x || any_above m xs

-- What the decoder has of a block: `values` holds the first `n` numbers of its array, or none of a run.
pub record IntegerDecoder : Type 0 where
  pub values : List ℕ
  pub bytes : List ℕ
  pub i : ℕ
  pub n : ℕ
  pub prev : ℕ
  pub first : Bool
  pub rle_first : ℕ
  pub rle_delta : ℕ
  pub encoding : ℕ
  pub err : Bool

-- `SetBytes`
abbrev pub set_fields : ℕ → List ℕ → IntegerDecoder
set_fields encoding bytes = record {
  values = [];
  bytes = bytes;
  i = 0;
  n = 0;
  prev = 0;
  first = true;
  rle_first = 0;
  rle_delta = 0;
  encoding = encoding;
  err = false;
}

unfoldable pub set_bytes : List ℕ → IntegerDecoder
set_bytes [] = set_fields 0 []
set_bytes (b ∷ bs) = set_fields (b / 16) bs

abbrev pub fail : IntegerDecoder → IntegerDecoder
fail d = record d { err = true }

-- `decodeRLE`: the number of values is an int, which past 2 ^ 63 - 1 is not positive.
abbrev pub start_run : IntegerDecoder → Option ((ℕ × ℕ) × ℕ) → IntegerDecoder
start_run d none = fail d
start_run d (some ((x, y), count)) = record d {
  rle_first = x;
  rle_delta = y;
  n = if ltb (count + 1) (2 ^ 63) then count + 1 else 0;
  i = 0;
  bytes = [];
}

unfoldable pub decode_rle : IntegerDecoder → IntegerDecoder
decode_rle d =
    start_run d
      (do x ← read_word 8 d.bytes; y ← uvarint x.1; c ← uvarint y.1; some ((x.0, y.0), c.0))

-- `decodeUncompressed`
abbrev pub take_word : IntegerDecoder → Option (ℕ × List ℕ) → IntegerDecoder
take_word d none = fail d
take_word d (some (w, bs)) = record d { values = w ∷ []; n = 1; i = 0; bytes = bs }

unfoldable pub decode_uncompressed : IntegerDecoder → IntegerDecoder
decode_uncompressed d = take_word d (read_word 8 d.bytes)

module _ (s : Simple8b) where
  -- `encodePacked`; `none` is an error.
  unfoldable pub encode_packed : List ℕ → Option (List ℕ)
  unfolding words
  encode_packed [] = some []
  encode_packed (x ∷ xs) = do ws ← s.encode_all xs; some (16 ∷ (be_bytes 8 x ++ words ws))

  -- `Bytes`
  unfoldable pub encoded_integers : IntegerEncoder → Option (List ℕ)
  unfolding encode_rle encode_packed encode_uncompressed
  encoded_integers e =
      if e.rle && ltb 2 (length e.values)
      then encode_rle e.values
      else if any_above s.max_value e.values
      then some (encode_uncompressed e.values)
      else encode_packed e.values

  -- `decodePacked`
  abbrev pub take_numbers : IntegerDecoder → List ℕ → Option (List ℕ) → IntegerDecoder
  take_numbers d bs none = record d { err = true; n = 0; i = 0; bytes = bs }
  take_numbers d bs (some xs) = record d { values = xs; n = length xs; i = 0; bytes = bs }

  abbrev pub take_packed : IntegerDecoder → Option (ℕ × List ℕ) → IntegerDecoder
  take_packed d none = fail d
  take_packed d (some (w, bs)) =
      if d.first
      then record d { first = false; values = w ∷ []; n = 1; i = 0; bytes = bs }
      else take_numbers d bs (s.decode w)

  unfoldable pub decode_packed : IntegerDecoder → IntegerDecoder
  decode_packed d = take_packed d (read_word 8 d.bytes)

  -- The switch in `Next`; each of its cases returns at once if there are no bytes.
  unfoldable pub decode_next : IntegerDecoder → IntegerDecoder
  unfolding decode_rle decode_uncompressed decode_packed
  decode_next d =
      if ltb 2 d.encoding
      then fail d
      else if length d.bytes == 0
      then d
      else if d.encoding == 0
      then decode_uncompressed d
      else if d.encoding == 1
      then decode_packed d
      else decode_rle d

  abbrev pub and_more : IntegerDecoder → IntegerDecoder × Bool
  and_more e = (e, not e.err && ltb e.i e.n)

  -- `Next`
  unfoldable pub next_integer : IntegerDecoder → IntegerDecoder × Bool
  unfolding decode_next
  next_integer d =
      if leb d.n d.i && length d.bytes == 0
      then (d, false)
      else and_more (
          let moved = record d { i = suc d.i } in
          if leb d.n (suc d.i) then decode_next moved else moved)

-- `Read`; `none` is an index out of range.
unfoldable pub read_integer : IntegerDecoder → Option (ℕ × IntegerDecoder)
read_integer d =
    if d.encoding == 2
    then some ((zig_zag_decode d.rle_first + d.i * zig_zag_decode d.rle_delta) % 2 ^ 64, d)
    else (do
      x ← get_elem? d.values d.i
      let v : ℕ = (zig_zag_decode x + d.prev) % 2 ^ 64
      some (v, record d { prev = v }))

-- The loop of `Next` and `Read` in the block decoders, on fuel, with the decoder at its end.
abbrev pub read_more :
    (IntegerDecoder → Option (List ℕ × IntegerDecoder))
    → IntegerDecoder × Bool
    → Option (List ℕ × IntegerDecoder)
read_more more (d, false) = some ([], d)
read_more more (d, true) = do r ← read_integer d; rest ← more r.1; some (r.0 ∷ rest.0, rest.1)

unfoldable pub read_integers : Simple8b → ℕ → IntegerDecoder → Option (List ℕ × IntegerDecoder)
unfolding next_integer read_integer
read_integers s zero d = none
read_integers s (suc fuel) d = read_more (read_integers s fuel) (next_integer s d)
