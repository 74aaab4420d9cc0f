-- ===== src/Examples/CodecCases.antt =====
-- Encodings: storage/codec/utils.go and storage/codec/bool.go.
use equinoxdb.Base.{ℕ, ◌-◌, ◌^◌, ◌≡◌, refl, Bool, true, false, some, List, [], ◌∷◌}
use equinoxdb.Base.{arith}
use equinoxdb.Block.{zig_zag_encode, unpacked, panics, pack_block}
use equinoxdb.Block.{unpack_block, unpack_block-pack_block}
use equinoxdb.Booleans.{reset, write_all, encoded, new_decoder, set_bytes, read_all}
use equinoxdb.Booleans.RoundTrip.{read_all-encoded}
use equinoxdb.Varint.{put_uvarint, uvarint}

-- A test: -1 is one, the smallest number is all ones.
zig_zag_encode_test : (zig_zag_encode (2 ^ 64 - 1) ≡ 1) × (zig_zag_encode (2 ^ 63) ≡ 2 ^ 64 - 1)
unfolding zig_zag_encode
zig_zag_encode_test = (refl, refl)

put_uvarint_test : put_uvarint 300 ≡ 172 ∷ 2 ∷ []
unfolding put_uvarint
put_uvarint_test = refl

abbrev two_times : List ℕ
two_times = 1 ∷ 2 ∷ []

abbrev one_value : List ℕ
one_value = 9 ∷ []

unpack_block-pack_block_example :
    (body : List ℕ) × (pack_block 1 two_times one_value ≡ 1 ∷ body)
    × (unpack_block body ≡ unpacked two_times one_value)
unpack_block-pack_block_example = unpack_block-pack_block 1 two_times one_value (omega arith)

-- A test: a length of 2^63, which no block has, makes `unpackBlock` panic.
unpack_block_test : unpack_block (put_uvarint (2 ^ 63)) ≡ panics
unfolding unpack_block put_uvarint uvarint
unpack_block_test = refl

abbrev nine : List Bool
nine = true ∷ false ∷ true ∷ true ∷ false ∷ false ∷ true ∷ false ∷ true ∷ []

read_all-encoded_example :
    read_all (set_bytes new_decoder (encoded (write_all reset nine))) ≡ some nine
read_all-encoded_example = read_all-encoded nine (omega arith)

encoded_test : encoded (write_all reset nine) ≡ 16 ∷ 9 ∷ 178 ∷ 128 ∷ []
unfolding encoded write_all reset put_uvarint
encoded_test = refl
