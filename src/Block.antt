-- ===== src/Block.antt =====
-- storage/codec/utils.go: the zigzag map and the layout of an encoded block.
use equinoxdb.Base.{Option}
use equinoxdb.Base.{refl, ap₂, false, le→ltb, lt→leb, length-append, take-append, drop-append}
use equinoxdb.Varint.{uvarint-put_uvarint, length-put_uvarint}
use equinoxdb.Base.{ℕ, ◌+◌, ◌-◌, ◌*◌, ◌/◌, ◌%◌, ◌^◌, ◌<◌, ◌≡◌, none, some, List, ◌∷◌, ◌++◌}
use equinoxdb.Base.{arith, ltb, leb, ◌==◌, if◌then◌else◌, length, take, drop}
use equinoxdb.Varint.{put_uvarint, uvarint}

abbrev ones : ℕ
ones = 2 ^ 64 - 1

-- An int64 is given by its bits, a number below 2 ^ 64. `uint64(x>>63)` is all ones for a negative
-- number and 0 for others, so the exclusive or is a complement or nothing.
unfoldable pub zig_zag_encode : ℕ → ℕ
zig_zag_encode x = if ltb x (2 ^ 63) then x * 2 % 2 ^ 64 else ones - x * 2 % 2 ^ 64

unfoldable pub zig_zag_decode : ℕ → ℕ
zig_zag_decode v = if v % 2 == 0 then v / 2 else ones - v / 2

-- The zigzag map and its inverse undo one another on 64-bit words, both ways, and stay in them.
pub zig_zag_lem :
    (x : ℕ)
    → x < 2 ^ 64
    → (zig_zag_decode (zig_zag_encode x) ≡ x)
      × (zig_zag_encode (zig_zag_decode x) ≡ x)
      × (zig_zag_encode x < 2 ^ 64)
      × (zig_zag_decode x < 2 ^ 64)
unfolding zig_zag_encode zig_zag_decode
zig_zag_lem x h = (ground arith, ground arith, ground arith, ground arith)

-- The result of `unpackBlock`. `panics` is a slice out of range.
pub data Unpacked : Type 0 where
  unpacked : (ts values : List ℕ) → Unpacked
  no_length : Unpacked
  no_timestamps : Unpacked
  panics : Unpacked

-- `packBlock`: the type, the length of the timestamps, the timestamps, the values.
pub pack_block : ℕ → List ℕ → List ℕ → List ℕ
pack_block typ ts values = typ ∷ (put_uvarint (length ts) ++ (ts ++ values))

-- `tsIdx` is a sum of ints: past 2^63 - 1 it is negative, which the test lets pass, and the slice
-- that follows panics.
pub unpack_rest : ℕ → Option (ℕ × List ℕ) → Unpacked
unpack_rest len none = no_length
unpack_rest len (some (ts_len, rest)) =
    let i = len - length rest in
    if leb (2 ^ 63) (i + ts_len)
    then panics
    else if ltb (length rest) ts_len
    then no_timestamps
    else unpacked (take ts_len rest) (drop ts_len rest)

unfoldable pub unpack_block : List ℕ → Unpacked
unfolding unpack_rest
unpack_block buf = unpack_rest (length buf) (uvarint buf)

-- `unpackBlock` gives back the timestamps and the values that `packBlock` put behind the type, for
-- any timestamps whose length fits an int with the ten bytes that it takes.
pub unpack_block-pack_block :
    (typ : ℕ) (ts values : List ℕ)
    → length ts + 10 < 2 ^ 63
    → (body : List ℕ) × (pack_block typ ts values ≡ typ ∷ body)
      × (unpack_block body ≡ unpacked ts values)
unfolding pack_block unpack_block
unpack_block-pack_block typ ts values h =
    let head = put_uvarint (length ts) in
    let rest = ts ++ values in
    let buf = head ++ rest in
    let read = uvarint-put_uvarint (length ts) rest (omega arith) in
    let total = length-append head rest in
    let both = length-append ts values in
    let i = length buf - length rest in
    let fits : leb (2 ^ 63) (i + length ts) ≡ false =
      lt→leb (i + length ts) (2 ^ 63) (omega (arith, total, length-put_uvarint (length ts))) in
    let enough : ltb (length rest) (length ts) ≡ false =
      le→ltb (length rest) (length ts) (omega (arith, both)) in
    (
      buf,
      refl,
      rw (read, fits, enough) (ap₂ unpacked (take-append ts values) (drop-append ts values)),
    )
