-- ===== src/Wal/Appends.antt =====
-- `write` of storage/store/wal_file.go: bytes put behind those that the file holds.
use equinoxdb.Base.{◌-◌, ◌%◌, sym, ap₂, Bool, true, false, append_assoc, ltb, ◌==◌, le→ltb}
use equinoxdb.Base.{length-append, All-append}
use equinoxdb.Wal.Log.{word32, make_room}
use equinoxdb.Base.{ℕ, zero, suc, ◌+◌, ◌^◌, ◌≤◌, ◌<◌, ◌≡◌, refl, ap, ◌∙◌, List, [], ◌∷◌, ◌++◌}
use equinoxdb.Base.{arith, leb, if◌then◌else◌, length, take, drop, All}
use equinoxdb.Base.Bisect.{front}
use equinoxdb.Base.Slices.{copy_at}
use equinoxdb.Wal.Log.{WalFile, zero_bytes, truncate, copy_in, write_bytes}
use equinoxdb.Wal.Outcome.{ok}

abbrev pub AreZeros : List ℕ → Type 0
AreZeros = All (λ b. b ≡ 0)

pub AreZeros-zero_bytes : (n : ℕ) → AreZeros (zero_bytes n)
AreZeros-zero_bytes zero = tt
AreZeros-zero_bytes (suc n) = (refl, AreZeros-zero_bytes n)

pub zero_bytes_lem : (z : List ℕ) → AreZeros z → z ≡ zero_bytes (length z)
zero_bytes_lem [] h = refl
zero_bytes_lem (x ∷ z) h = ap (λ (b : ℕ). b ∷ z) h.0 ∙ ap (◌∷◌ 0) (zero_bytes_lem z h.1)

AreZeros-drop : (n : ℕ) (z : List ℕ) → AreZeros z → AreZeros (drop n z)
AreZeros-drop zero z h = h
AreZeros-drop (suc n) [] h = h
AreZeros-drop (suc n) (x ∷ z) h = AreZeros-drop n z h.1

take_all : (n : ℕ) (b : List ℕ) → length b ≤ n → take n b ≡ b
take_all zero [] h = refl
take_all (suc n) [] h = refl
take_all zero (x ∷ b) h = absurd (omega arith)
take_all (suc n) (x ∷ b) h = ap (◌∷◌ x) (take_all n b (omega arith))

pub length-zero_bytes : (n : ℕ) → length (zero_bytes n) ≡ n
length-zero_bytes zero = refl
length-zero_bytes (suc n) = ap suc (length-zero_bytes n)

copy_at_start : (z b : List ℕ) → length b ≤ length z → copy_at z 0 b ≡ b ++ drop (length b) z
copy_at_start [] [] h = refl
copy_at_start (y ∷ z) [] h = refl
copy_at_start [] (x ∷ b) h = absurd (omega arith)
copy_at_start (y ∷ z) (x ∷ b) h = ap (◌∷◌ x) (copy_at_start z b (omega arith))

pub copy_at_behind :
    (front z b : List ℕ)
    → length b ≤ length z
    → copy_at (front ++ z) (length front) b ≡ front ++ (b ++ drop (length b) z)
copy_at_behind [] z b h = copy_at_start z b h
copy_at_behind (x ∷ front) z b h = ap (◌∷◌ x) (copy_at_behind front z b h)

-- The file holds some bytes up to its position, and zeros behind them.
abbrev pub Holds : WalFile → List ℕ → Type 0
Holds f front = (f.pos ≡ length front) × ((z : List ℕ) × (f.bytes ≡ front ++ z) × AreZeros z)

module _ (P : WalFile → Type 0) where
  if_file :
      (b : Bool) (x y : WalFile) → (b ≡ true → P x) → (b ≡ false → P y) → P (if b then x else y)
  if_file true x y h k = h refl
  if_file false x y h k = k refl

-- The file that `write` copies to is long enough, and holds what it held.
abbrev HasRoom : List ℕ → ℕ → WalFile → Type 0
HasRoom front new f = Holds f front × (new ≤ length f.bytes)

make_room-HasRoom :
    (f : WalFile) (front : List ℕ) (new : ℕ) → Holds f front → HasRoom front new (make_room f new)
unfolding make_room truncate
make_room-HasRoom f front new h =
    let (z, whole, zeros) = h.1 in
    if_file (HasRoom front new) (leb (length f.bytes) new) (truncate f new) f
      (λ short.
        if_file (HasRoom front new) (length f.bytes == new) f
          (record f { size = new; bytes = take new f.bytes ++ zero_bytes (new - length f.bytes) })
          (λ full. (h, ground arith))
          (λ less.
            let pad = zero_bytes (new - length f.bytes) in
            let kept_bytes : take new f.bytes ≡ f.bytes = take_all new f.bytes (ground arith) in
            (
              (
                h.0,
                (
                  z ++ pad,
                  ap (λ (xs : List ℕ). xs ++ pad) (kept_bytes ∙ whole) ∙ append_assoc front z pad,
                  All-append (λ b. b ≡ 0) z pad zeros (AreZeros-zero_bytes (new - length f.bytes)),
                ),
              ),
              rw kept_bytes (
                  omega
                    (arith, length-append f.bytes pad, length-zero_bytes (new - length f.bytes))),
            )))
      (λ long. (h, ground arith))

-- `write` puts bytes behind those that the file holds, whether or not it has to grow, as long as
-- the position stays below 2^32.
pub write_bytes-Holds :
    (f : WalFile) (front b : List ℕ)
    → Holds f front
    → length front + length b < 2 ^ 32
    → (g : WalFile) × (write_bytes f b ≡ ok g) × Holds g (front ++ b)
unfolding write_bytes copy_in
write_bytes-Holds f front b h small =
    let new = (f.pos + length b) % word32 in
    let at : new ≡ length front + length b = omega (arith, h.0) in
    let start : new - length b ≡ length front = omega (arith, at) in
    let (held, room) = make_room-HasRoom f front new h in
    let (z, whole, zeros) = held.1 in
    let fits : length b ≤ length z =
      omega (arith, room, ap length whole, length-append front z, at) in
    let in_range : ltb new (length b) ≡ false = le→ltb _ _ (omega (arith, at)) in
    let copied : copy_at (make_room f new).bytes (new - length b) b
        ≡ (front ++ b) ++ drop (length b) z =
      ap₂ (λ (xs : List ℕ) (i : ℕ). copy_at xs i b) whole start
      ∙ copy_at_behind front z b fits
      ∙ sym (append_assoc front b (drop (length b) z)) in
    (
      record {
        pos = new;
        size = ((make_room f new).size + length b) % word32;
        bytes = copy_at (make_room f new).bytes (new - length b) b;
      },
      rw in_range refl,
      (
        at ∙ sym (length-append front b),
        (drop (length b) z, copied, AreZeros-drop (length b) z zeros),
      ),
    )
