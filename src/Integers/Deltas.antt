-- ===== src/Integers/Deltas.antt =====
-- The numbers that the encoder of storage/codec/int.go keeps, and the values that the decoder makes of
-- them.
use equinoxdb.Base.{ℕ, suc, ◌+◌, ◌%◌, ◌^◌, ◌<◌, ◌≡◌, refl, sym, ap, ap₂, ◌∙◌, Bool, true, false}
use equinoxdb.Base.{◌&&◌, List, [], ◌∷◌, ◌++◌, append-nil, append_assoc, arith, ltb}
use equinoxdb.Base.{if◌then◌else◌, length, All}
use equinoxdb.Block.{zig_zag_encode, zig_zag_decode, zig_zag_lem}
use equinoxdb.Integers.{IntegerEncoder, ends_in, delta, write_integer, write_integers}

unfoldable pub deltas : ℕ → List ℕ → List ℕ
deltas prev [] = []
deltas prev (v ∷ vs) = zig_zag_encode (delta prev v) ∷ deltas v vs

unfoldable pub sums : ℕ → List ℕ → List ℕ
sums prev [] = []
sums prev (x ∷ xs) =
    (zig_zag_decode x + prev) % 2 ^ 64 ∷ sums ((zig_zag_decode x + prev) % 2 ^ 64) xs

pub delta_back :
    (prev v : ℕ)
    → prev < 2 ^ 64
    → v < 2 ^ 64
    → (zig_zag_decode (zig_zag_encode (delta prev v)) + prev) % 2 ^ 64 ≡ v
delta_back prev v h g =
    let word : delta prev v < 2 ^ 64 = omega arith in
    rw ((zig_zag_lem (delta prev v) word).0) (omega (arith, h, g))

pub sums-deltas :
    (prev : ℕ) (vs : List ℕ)
    → prev < 2 ^ 64
    → All (λ v. v < 2 ^ 64) vs
    → sums prev (deltas prev vs) ≡ vs
unfolding sums deltas
sums-deltas prev [] h g = refl
sums-deltas prev (v ∷ vs) h g =
    let same = delta_back prev v h g.0 in
    ap₂ (λ (w : ℕ) (ws : List ℕ). w ∷ ws) same
      (ap (λ (w : ℕ). sums w (deltas v vs)) same ∙ sums-deltas v vs g.0 g.1)

pub length-deltas : (prev : ℕ) (vs : List ℕ) → length (deltas prev vs) ≡ length vs
unfolding deltas
length-deltas prev [] = refl
length-deltas prev (v ∷ vs) = ap suc (length-deltas v vs)

pub deltas-words : (prev : ℕ) (vs : List ℕ) → All (λ x. x < 2 ^ 64) (deltas prev vs)
unfolding deltas
deltas-words prev [] = tt
deltas-words prev (v ∷ vs) =
    let word : delta prev v < 2 ^ 64 = omega arith in
    ((zig_zag_lem (delta prev v) word).2, deltas-words v vs)

pub write_integers-deltas :
    (e : IntegerEncoder) (vs : List ℕ) → (write_integers e vs).values ≡ e.values ++ deltas e.prev vs
unfolding write_integers write_integer deltas
write_integers-deltas e [] = sym (append-nil e.values)
write_integers-deltas e (v ∷ vs) =
    write_integers-deltas (write_integer e v) vs
    ∙ append_assoc e.values (zig_zag_encode (delta e.prev v) ∷ []) (deltas v vs)

-- All numbers behind the first are the same.
abbrev pub IsRun : List ℕ → Type 0
IsRun [] = Unit
IsRun (x ∷ []) = Unit
IsRun (x ∷ y ∷ ys) = All (λ z. z ≡ y) ys

run_further :
    (y : ℕ) (ys : List ℕ) (x enc : ℕ)
    → All (λ z. z ≡ y) ys
    → x ≡ y
    → ends_in (x ∷ ys) enc ≡ true
    → All (λ z. z ≡ y) (ys ++ (enc ∷ []))
run_further y [] x enc h e f = (let g : x ≡ enc = ground arith in sym g ∙ e, tt)
run_further y (z ∷ ys) x enc h e f = (h.0, run_further y ys z enc h.1 h.0 f)

write_integer-IsRun :
    (e : IntegerEncoder) (v : ℕ)
    → (e.rle ≡ true → IsRun e.values)
    → (write_integer e v).rle ≡ true
    → IsRun (write_integer e v).values
unfolding write_integer
write_integer-IsRun e v h f = further e.values e.rle (zig_zag_encode (delta e.prev v)) h f
  where
    further :
        (xs : List ℕ) (r : Bool) (enc : ℕ)
        → (r ≡ true → IsRun xs)
        → (if ltb 1 (length xs) then r && ends_in xs enc else r) ≡ true
        → IsRun (xs ++ (enc ∷ []))
    further [] r enc h f = tt
    further (x ∷ []) r enc h f = tt
    further (x ∷ y ∷ ys) false enc h f = absurd (ground arith)
    further (x ∷ y ∷ ys) true enc h f =
        let g : ends_in (y ∷ ys) enc ≡ true = ground arith in run_further y ys y enc (h refl) refl g

pub write_integers-IsRun :
    (e : IntegerEncoder) (vs : List ℕ)
    → (e.rle ≡ true → IsRun e.values)
    → (write_integers e vs).rle ≡ true
    → IsRun (write_integers e vs).values
unfolding write_integers
write_integers-IsRun e [] h f = h f
write_integers-IsRun e (v ∷ vs) h f =
    write_integers-IsRun (write_integer e v) vs (write_integer-IsRun e v h) f
