-- ===== src/Booleans/Bits.antt =====
-- The bits of bytes, highest first.
use equinoxdb.Base.{◌+◌, ◌-◌, ◌<◌, ap₂, subst, Option, some}
use equinoxdb.Base.{ℕ, zero, suc, ◌*◌, ◌/◌, ◌%◌, ◌≡◌, refl, sym, ap, ◌∙◌, Bool, List, [], ◌∷◌}
use equinoxdb.Base.{◌++◌, append_assoc, arith, ◌==◌, length, get_elem?, length-append}
use equinoxdb.Booleans.{read_at}

-- The lowest `k` bits of a number.
abbrev pub low_bits : ℕ → ℕ → List Bool
low_bits zero v = []
low_bits (suc k) v = low_bits k (v / 2) ++ ((v % 2 == 1) ∷ [])

abbrev pub bits : List ℕ → List Bool
bits [] = []
bits (v ∷ vs) = low_bits 8 v ++ bits vs

pub bits-append : (a b : List ℕ) → bits (a ++ b) ≡ bits a ++ bits b
bits-append [] b = refl
bits-append (v ∷ a) b =
    ap (◌++◌ (low_bits 8 v)) (bits-append a b) ∙ sym (append_assoc (low_bits 8 v) (bits a) (bits b))

pub length-bits : (a : List ℕ) → length (bits a) ≡ 8 * length a
length-bits [] = refl
length-bits (v ∷ a) = omega (arith, length-append (low_bits 8 v) (bits a), length-bits a)

abbrev bit_of : ℕ → Option Bool
bit_of t = some (t % 2 == 1)

-- Reading by index and mask is reading the list of bits.
pub read_at-bits : (block : List ℕ) (i : ℕ) → read_at block i ≡ get_elem? (bits block) i
unfolding read_at
read_at-bits [] i = refl
read_at-bits (v ∷ vs) zero =
    let same : v / 128 ≡ v / 2 / 2 / 2 / 2 / 2 / 2 / 2 = omega arith in ap bit_of same
read_at-bits (v ∷ vs) (suc zero) =
    let same : v / 64 ≡ v / 2 / 2 / 2 / 2 / 2 / 2 = omega arith in ap bit_of same
read_at-bits (v ∷ vs) (suc (suc zero)) =
    let same : v / 32 ≡ v / 2 / 2 / 2 / 2 / 2 = omega arith in ap bit_of same
read_at-bits (v ∷ vs) (suc (suc (suc zero))) =
    let same : v / 16 ≡ v / 2 / 2 / 2 / 2 = omega arith in ap bit_of same
read_at-bits (v ∷ vs) (suc (suc (suc (suc zero)))) =
    let same : v / 8 ≡ v / 2 / 2 / 2 = omega arith in ap bit_of same
read_at-bits (v ∷ vs) (suc (suc (suc (suc (suc zero))))) =
    let same : v / 4 ≡ v / 2 / 2 = omega arith in ap bit_of same
read_at-bits (v ∷ vs) (suc (suc (suc (suc (suc (suc zero)))))) =
    let same : v / 2 ≡ v / 2 = omega arith in ap bit_of same
read_at-bits (v ∷ vs) (suc (suc (suc (suc (suc (suc (suc zero))))))) =
    let same : v / 1 ≡ v = omega arith in ap bit_of same
read_at-bits (v ∷ vs) (suc (suc (suc (suc (suc (suc (suc (suc i)))))))) =
    let j : ℕ = suc (suc (suc (suc (suc (suc (suc (suc i))))))) in
    let q : j / 8 ≡ suc (i / 8) = omega arith in
    let r : j % 8 ≡ i % 8 = omega arith in rw (q, r) (read_at-bits vs i)

-- The same lowest `k` bits.
abbrev Agree : ℕ → ℕ → ℕ → Type 0
Agree zero v w = Unit {0}
Agree (suc k) v w = (v % 2 ≡ w % 2) × Agree k (v / 2) (w / 2)

low_bits-Agree : (k v w : ℕ) → Agree k v w → low_bits k v ≡ low_bits k w
low_bits-Agree zero v w a = refl
low_bits-Agree (suc k) v w a =
    ap₂ (λ (l : List Bool) (t : ℕ). l ++ ((t == 1) ∷ [])) (low_bits-Agree k (v / 2) (w / 2) a.1) a.0

Agree-fewer : (k v w : ℕ) → Agree (suc k) v w → Agree k v w
Agree-fewer zero v w a = tt
Agree-fewer (suc k) v w a = (a.0, Agree-fewer k (v / 2) (w / 2) a.1)

Agree-less : (more k v w : ℕ) → Agree (more + k) v w → Agree k v w
Agree-less zero k v w a = subst (λ (n : ℕ). Agree n v w) (omega arith) a
Agree-less (suc more) k v w a =
    let step : suc more + k ≡ suc (more + k) = omega arith in
    Agree-less more k v w (Agree-fewer (more + k) v w (subst (λ (n : ℕ). Agree n v w) step a))

seven : (b : ℕ) → Agree 7 (b % 128) b
seven b = omega arith

-- Shifting a bit in on the right, in a byte that has room for it.
pub low_bits-shift :
    (i b d : ℕ)
    → i < 8
    → d < 2
    → low_bits (suc i) (b * 2 % 256 + d) ≡ low_bits i b ++ ((d == 1) ∷ [])
low_bits-shift i b d h k =
    let half : (b * 2 % 256 + d) / 2 ≡ b % 128 = omega arith in
    let low : (b * 2 % 256 + d) % 2 ≡ d = omega arith in
    let fits : 7 ≡ (7 - i) + i = omega arith in
    let agree =
      Agree-less (7 - i) i (b % 128) b (subst (λ (n : ℕ). Agree n (b % 128) b) fits (seven b)) in
    rw (half, low) (ap (λ l. l ++ ((d == 1) ∷ [])) (low_bits-Agree i (b % 128) b agree))
