-- ===== src/Words.antt =====
-- encoding/binary's BigEndian: words of a fixed number of bytes, the highest byte first.
use equinoxdb.Base.{◌>>=◌}
use equinoxdb.Base.{ℕ, zero, suc, ◌+◌, ◌*◌, ◌/◌, ◌%◌, ◌^◌, ◌<◌, ◌≡◌, refl, ◌∙◌, subst, false}
use equinoxdb.Base.{Option, none, some, List, [], ◌∷◌, ◌++◌, arith, ltb, if◌then◌else◌, le→ltb}
use equinoxdb.Base.{length, take, drop, length-append, take-append, drop-append}

-- 256 ^ n, by recursion.
abbrev pub limit : ℕ → ℕ
limit zero = 1
limit (suc n) = 256 * limit n

-- `PutUint16`, `PutUint32` and `PutUint64`, for the number of bytes: the higher bytes of a larger
-- number are cut off, as the conversion to the word does.
unfoldable pub be_bytes : ℕ → ℕ → List ℕ
be_bytes zero x = []
be_bytes (suc n) x = be_bytes n (x / 256) ++ (x % 256 ∷ [])

unfoldable pub be_value : ℕ → List ℕ → ℕ
be_value acc [] = acc
be_value acc (b ∷ bs) = be_value (acc * 256 + b) bs

-- `b[i:i+n]` as a word, and what follows it; `none` is a slice out of range.
unfoldable pub read_word : ℕ → List ℕ → Option (ℕ × List ℕ)
unfolding be_value
read_word n b = if ltb (length b) n then none else some (be_value 0 (take n b), drop n b)

be_value-append :
    (acc : ℕ) (bs : List ℕ) (b : ℕ) → be_value acc (bs ++ (b ∷ [])) ≡ be_value acc bs * 256 + b
unfolding be_value
be_value-append acc [] b = refl
be_value-append acc (x ∷ bs) b = be_value-append (acc * 256 + x) bs b

pub length-be_bytes : (n x : ℕ) → length (be_bytes n x) ≡ n
unfolding be_bytes
length-be_bytes zero x = refl
length-be_bytes (suc n) x =
    omega (arith, length-append (be_bytes n (x / 256)) (x % 256 ∷ []), length-be_bytes n (x / 256))

be_value-be_bytes : (n x : ℕ) → x < limit n → be_value 0 (be_bytes n x) ≡ x
unfolding be_bytes be_value
be_value-be_bytes zero x h = omega arith
be_value-be_bytes (suc n) x h =
    be_value-append 0 (be_bytes n (x / 256)) (x % 256)
    ∙ omega (arith, be_value-be_bytes n (x / 256) (omega arith))

-- A word that is written is read back, whatever follows it.
pub read_word-be_bytes :
    (n x : ℕ) (rest : List ℕ) → x < limit n → read_word n (be_bytes n x ++ rest) ≡ some (x, rest)
unfolding read_word
read_word-be_bytes n x rest h =
    let size = length-be_bytes n x in
    let enough : ltb (length (be_bytes n x ++ rest)) n ≡ false =
      le→ltb _ n (omega (arith, length-append (be_bytes n x) rest)) in
    let front : take n (be_bytes n x ++ rest) ≡ be_bytes n x =
      subst (λ (k : ℕ). take k (be_bytes n x ++ rest) ≡ be_bytes n x) size
        (take-append (be_bytes n x) rest) in
    let back : drop n (be_bytes n x ++ rest) ≡ rest =
      subst (λ (k : ℕ). drop k (be_bytes n x ++ rest) ≡ rest) size
        (drop-append (be_bytes n x) rest) in
    rw (enough, front, back, be_value-be_bytes n x h) refl

pub read_then {κ} :
    {C : Type κ} (n x : ℕ) (rest : List ℕ) (k : ℕ × List ℕ → Option C)
    → x < limit n
    → (read_word n (be_bytes n x ++ rest) >>= k) ≡ k (x, rest)
read_then n x rest k h = rw (read_word-be_bytes n x rest h) refl

-- An int64 by its distance from math.MinInt64, as here, against its 64 bits: the sign bit differs.
abbrev pub time_bits : ℕ → ℕ
time_bits t = (t + 2 ^ 63) % 2 ^ 64

pub time_bits_twice : (t : ℕ) → t < 2 ^ 64 → time_bits (time_bits t) ≡ t
time_bits_twice t h = omega arith

pub time_bits-lt : (t : ℕ) → time_bits t < 2 ^ 64
time_bits-lt t = omega arith
