-- ===== src/Varint.antt =====
-- encoding/binary's PutUvarint and Uvarint, as the codecs use them: seven bits a byte, the lowest
-- first, with the top bit set on all bytes but the last.
use equinoxdb.Base.{◌≤◌, length}
use equinoxdb.Base.{ℕ, zero, suc, ◌+◌, ◌*◌, ◌/◌, ◌%◌, ◌^◌, ◌<◌, ◌≡◌, refl, ap, ◌∙◌, inl, inr}
use equinoxdb.Base.{◌&&◌, Option, none, some, List, [], ◌∷◌, ◌++◌, arith, ltb, ◌==◌}
use equinoxdb.Base.{if◌then◌else◌, Bool-cases}

-- `byte(x) | 0x80` and `x >>= 7`, while x is at least 0x80; ten bytes hold every uint64.
pub put_loop : ℕ → ℕ → List ℕ
put_loop zero x = x ∷ []
put_loop (suc fuel) x =
    let rest = put_loop fuel (x / 128) in if ltb x 128 then x ∷ [] else (x % 128 + 128) ∷ rest

unfoldable pub put_uvarint : ℕ → List ℕ
unfolding put_loop
put_uvarint x = put_loop 9 x

-- `x |= uint64(b&0x7f) << s`, with `scale` for 2 ^ s; the bits are disjoint. `none` is a count of
-- bytes that is not positive: the input ends early or the number overflows.
pub get_loop : ℕ → ℕ → ℕ → List ℕ → Option (ℕ × List ℕ)
get_loop i scale acc [] = none
get_loop i scale acc (b ∷ bs) =
    let more = get_loop (suc i) (scale * 128) (acc + b % 128 * scale) bs in
    let last = if i == 9 && ltb 1 b then none else some (acc + b * scale, bs) in
    if i == 10 then none else if ltb b 128 then last else more

-- The number, and the bytes behind it.
unfoldable pub uvarint : List ℕ → Option (ℕ × List ℕ)
unfolding get_loop
uvarint bs = get_loop 0 1 0 bs

-- The lowest group and the others make up the number.
groups : (x scale : ℕ) → x % 128 * scale + x / 128 * (scale * 128) ≡ x * scale
groups x scale =
    let parts : x % 128 + x / 128 * 128 ≡ x = omega arith in
    omega (arith, ap (λ (t : ℕ). t * scale) parts)

get_loop-put_loop :
    (fuel i scale acc x : ℕ) (rest : List ℕ)
    → i + fuel ≡ 9
    → x < 2 * 128 ^ fuel
    → get_loop i scale acc (put_loop fuel x ++ rest) ≡ some (acc + x * scale, rest)
unfolding get_loop put_loop
get_loop-put_loop zero i scale acc x rest h lt = ground arith
get_loop-put_loop (suc fuel) i scale acc x rest h lt = elim (Bool-cases (ltb x 128)) [
  | inl small ↦ rw small (ground arith)
  | inr large ↦
      let ih =
        get_loop-put_loop fuel (suc i) (scale * 128) (acc + (x % 128 + 128) % 128 * scale) (x / 128)
          rest (omega arith) (omega arith) in
      rw large (ground (arith, ih, groups x scale))
]

-- `Uvarint` reads back what `PutUvarint` wrote, and leaves the bytes behind it.
pub uvarint-put_uvarint :
    (x : ℕ) (rest : List ℕ) → x < 2 ^ 64 → uvarint (put_uvarint x ++ rest) ≡ some (x, rest)
unfolding uvarint put_uvarint
uvarint-put_uvarint x rest h = get_loop-put_loop 9 0 1 0 x rest refl (omega arith) ∙ ground arith

length-put_loop : (fuel x : ℕ) → length (put_loop fuel x) ≤ suc fuel
unfolding put_loop
length-put_loop zero x = omega arith
length-put_loop (suc fuel) x = ground (arith, length-put_loop fuel (x / 128))

-- At most ten bytes are written.
pub length-put_uvarint : (x : ℕ) → length (put_uvarint x) ≤ 10
unfolding put_uvarint
length-put_uvarint x = length-put_loop 9 x
