-- ===== src/Wal/Fields.antt =====
-- Single values in entries of storage/store/wal_file.go: what is written is read back.
use equinoxdb.Wal.Outcome.{or_fail}
use equinoxdb.Base.{◌+◌, ◌%◌, true, append_assoc, le→ltb, length-append, take-append}
use equinoxdb.Base.{drop-append}
use equinoxdb.Wal.Reads.{read_values}
use equinoxdb.Wal.Writes.{payload_bytes}
use equinoxdb.Words.{length-be_bytes}
use equinoxdb.Wal.Outcome.{◌>>=◌}
use equinoxdb.Base.{ℕ, ◌^◌, ◌<◌, ◌≡◌, refl, ap, ◌∙◌, false, not, List, [], ◌∷◌, ◌++◌}
use equinoxdb.Base.{arith, ◌==◌, ==_refl, length, All}
use equinoxdb.Values.{Value, boolean_value, float_value, integer_value, string_value}
use equinoxdb.Values.{unsigned_value, unix_nano}
use equinoxdb.Wal.Outcome.{Outcome, ok, slice_of}
use equinoxdb.Wal.Reads.{read_number, read_boolean, read_string}
use equinoxdb.Wal.Sizes.{entry_type}
use equinoxdb.Wal.Writes.{value_bytes, encode_values}
use equinoxdb.Words.{limit, be_bytes, read_word, read_word-be_bytes, time_bits}
use equinoxdb.Words.{time_bits_twice, time_bits-lt}

-- The parts of a value fit the words that they are written to.
abbrev pub PayloadFits : Value → Type 0
PayloadFits (float_value t v) = v < 2 ^ 64
PayloadFits (integer_value t v) = v < 2 ^ 64
PayloadFits (unsigned_value t v) = v < 2 ^ 64
PayloadFits (boolean_value t v) = Unit {0}
PayloadFits (string_value t v) = length v < 2 ^ 32

abbrev pub ValueFits : Value → Type 0
ValueFits v = (unix_nano v < 2 ^ 64) × PayloadFits v

-- The values of a key: the type of the first, and in range.
abbrev pub AllLike : ℕ → List Value → Type 0
AllLike typ = All (λ v. (entry_type v ≡ typ) × ValueFits v)

abbrev pub values_bytes : List Value → List ℕ
values_bytes [] = []
values_bytes (v ∷ vs) = value_bytes v ++ values_bytes vs

pub encode_values-values_bytes :
    (typ : ℕ) (vs : List Value) → AllLike typ vs → encode_values typ vs ≡ ok (values_bytes vs)
unfolding encode_values
encode_values-values_bytes typ [] h = refl
encode_values-values_bytes typ (v ∷ vs) h =
    let alike : not (entry_type v == typ) ≡ false = rw h.0.0 (ap not (==_refl typ)) in
    rw (alike, encode_values-values_bytes typ vs h.1) refl

-- The reader of the values of a type.
abbrev pub reader : Value → List ℕ → Outcome (Value × List ℕ)
reader (float_value t v) = read_number float_value
reader (integer_value t v) = read_number integer_value
reader (unsigned_value t v) = read_number unsigned_value
reader (boolean_value t v) = read_boolean
reader (string_value t v) = read_string

reader-entry_type : (v w : Value) → entry_type v ≡ entry_type w → reader v ≡ reader w
unfolding entry_type
reader-entry_type (float_value t v) (float_value s w) e = refl
reader-entry_type (integer_value t v) (integer_value s w) e = refl
reader-entry_type (unsigned_value t v) (unsigned_value s w) e = refl
reader-entry_type (boolean_value t v) (boolean_value s w) e = refl
reader-entry_type (string_value t v) (string_value s w) e = refl
reader-entry_type v w e = absurd (omega arith)

-- A word read where there is one, before more code.
pub slice_then {κ} :
    {C : Type κ} (n x : ℕ) (rest : List ℕ) (k : ℕ × List ℕ → Outcome C)
    → x < limit n
    → (slice_of (read_word n (be_bytes n x ++ rest)) >>= k) ≡ k (x, rest)
slice_then n x rest k h = rw (read_word-be_bytes n x rest h) refl

-- A word that the code has tested the room for.
pub checked_then {κ} :
    {C : Type κ} (n x : ℕ) (rest : List ℕ) (k : ℕ × List ℕ → Outcome C)
    → x < limit n
    → (or_fail (read_word n (be_bytes n x ++ rest)) >>= k) ≡ k (x, rest)
checked_then n x rest k h = rw (read_word-be_bytes n x rest h) refl

number_lem :
    (make : ℕ → ℕ → Value) (t v : ℕ) (rest : List ℕ)
    → t < 2 ^ 64
    → v < 2 ^ 64
    → read_number make (be_bytes 8 (time_bits t) ++ (be_bytes 8 v ++ rest)) ≡ ok (make t v, rest)
unfolding read_number
number_lem make t v rest h k =
    slice_then 8 _ _ _ (time_bits-lt t) ∙ slice_then 8 _ _ _ k ∙ rw (time_bits_twice t h) refl

pub one_byte : (x : ℕ) (rest : List ℕ) → x < 256 → x ∷ rest ≡ be_bytes 1 x ++ rest
unfolding be_bytes
one_byte x rest h = let same : x % 256 ≡ x = omega arith in rw same refl

boolean_lem :
    (t x : ℕ) (rest : List ℕ)
    → t < 2 ^ 64
    → x < 2
    → read_boolean (be_bytes 8 (time_bits t) ++ (x ∷ rest)) ≡ ok (boolean_value t (x == 1), rest)
unfolding read_boolean
boolean_lem t x rest h k = rw (one_byte x rest (omega arith)) (
    slice_then 8 _ _ _ (time_bits-lt t)
    ∙ slice_then 1 _ _ _ (omega arith)
    ∙ rw (time_bits_twice t h) refl)

string_lem :
    (t : ℕ) (v rest : List ℕ)
    → t < 2 ^ 64
    → length v < 2 ^ 32
    → read_string (be_bytes 8 (time_bits t) ++ (be_bytes 4 (length v) ++ (v ++ rest)))
      ≡ ok (string_value t v, rest)
unfolding read_string
string_lem t v rest h k =
    let n = length v in
    let tail = be_bytes 4 n ++ (v ++ rest) in
    let b = be_bytes 8 (time_bits t) ++ tail in
    let size : length b ≡ 12 + length (v ++ rest) =
      omega (arith, length-append {0}, length-be_bytes) in
    let tail_size : length tail ≡ 4 + length (v ++ rest) =
      omega (arith, length-append {0}, length-be_bytes) in
    let payload = length-append v rest in
    rw (le→ltb (length b) 12 (omega (arith, size))) (
      slice_then 8 _ _ _ (time_bits-lt t)
      ∙ slice_then 4 _ _ _ k
      ∙ rw
          (
            le→ltb (length tail) n (omega (arith, tail_size, payload)),
            le→ltb (length (v ++ rest)) n (omega (arith, payload)),
            take-append v rest,
            drop-append v rest,
            time_bits_twice t h,
          )
          refl)

-- A value that is written is read back, whatever follows it.
pub reader-value_bytes :
    (v : Value) (rest : List ℕ) → ValueFits v → reader v (value_bytes v ++ rest) ≡ ok (v, rest)
unfolding payload_bytes
reader-value_bytes (float_value t v) rest h =
    simp append_assoc (number_lem float_value t v rest h.0 h.1)
reader-value_bytes (integer_value t v) rest h =
    simp append_assoc (number_lem integer_value t v rest h.0 h.1)
reader-value_bytes (unsigned_value t v) rest h =
    simp append_assoc (number_lem unsigned_value t v rest h.0 h.1)
reader-value_bytes (boolean_value t true) rest h =
    simp append_assoc (boolean_lem t 1 rest h.0 (omega arith))
reader-value_bytes (boolean_value t false) rest h =
    simp append_assoc (boolean_lem t 0 rest h.0 (omega arith))
reader-value_bytes (string_value t v) rest h = simp append_assoc (string_lem t v rest h.0 h.1)

-- All values of a key, read by the reader of the first.
pub read_values-values_bytes :
    (w : Value) (vs : List Value) (rest : List ℕ)
    → AllLike (entry_type w) vs
    → read_values (reader w) (length vs) (values_bytes vs ++ rest) ≡ ok (vs, rest)
unfolding read_values
read_values-values_bytes w [] rest h = refl
read_values-values_bytes w (v ∷ vs) rest h =
    rw (append_assoc (value_bytes v) (values_bytes vs) rest, ← reader-entry_type v w h.0.0)
      (rw (reader-value_bytes v (values_bytes vs ++ rest) h.0.1)
        (rw (read_values-values_bytes w vs rest h.1) refl))
