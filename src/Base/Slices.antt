-- ===== src/Base/Slices.antt =====
-- Go's slice expressions and `copy`, on lists.
use equinoxdb.Base.Lists.{length, take, drop}
use equinoxdb.Base.Tests.{leb, if◌then◌else◌, ◌>>=◌}
use Prim.Native.Nat.{ℕ, zero, suc, ◌+◌, ◌≤◌}
use mathlib.Core.Path.{◌≡◌, refl, ap}
use mathlib.Core.List.{List, [], ◌∷◌, ◌++◌}
use mathlib.Core.Option.{Option, none, some}
use native.Mathlib.Omega.{arith}

module _ {ℓ} {A : Type ℓ} where
  -- `a[:n]`. A bound above the length is a fault: no code modelled here slices up to its capacity.
  abbrev pub slice_to : List A → ℕ → Option (List A)
  slice_to a n = if leb n (length a) then some (take n a) else none

  -- `a[n:]`
  abbrev pub slice_from : List A → ℕ → Option (List A)
  slice_from a n = if leb n (length a) then some (drop n a) else none

  -- `a[lo:hi]`
  abbrev pub slice : List A → ℕ → ℕ → Option (List A)
  slice a lo hi = slice_to a hi >>= λ upto. slice_from upto lo

  -- `copy(dst[i:], src)`: as many elements as both have room for; `src` is read first.
  abbrev pub copy_at : List A → ℕ → List A → List A
  copy_at [] i src = []
  copy_at (d ∷ ds) zero [] = d ∷ ds
  copy_at (d ∷ ds) zero (s ∷ ss) = s ∷ copy_at ds zero ss
  copy_at (d ∷ ds) (suc i) src = d ∷ copy_at ds i src

  -- A copy that fills the rest of the destination.
  pub copy_at_full :
      (dst : List A) (i : ℕ) (src : List A)
      → i + length src ≡ length dst
      → copy_at dst i src ≡ take i dst ++ src
  copy_at_full [] zero [] h = refl
  copy_at_full [] zero (s ∷ ss) h = absurd (omega arith)
  copy_at_full [] (suc i) src h = absurd (omega arith)
  copy_at_full (d ∷ ds) zero [] h = absurd (omega arith)
  copy_at_full (d ∷ ds) zero (s ∷ ss) h = ap (◌∷◌ s) (copy_at_full ds zero ss (omega arith))
  copy_at_full (d ∷ ds) (suc i) src h = ap (◌∷◌ d) (copy_at_full ds i src (omega arith))

  pub take-take : (m n : ℕ) (xs : List A) → m ≤ n → take m (take n xs) ≡ take m xs
  take-take zero n xs h = refl
  take-take (suc m) zero xs h = absurd (omega arith)
  take-take (suc m) (suc n) [] h = refl
  take-take (suc m) (suc n) (x ∷ xs) h = ap (◌∷◌ x) (take-take m n xs (omega arith))

  pub drop-take_self : (n : ℕ) (xs : List A) → drop n (take n xs) ≡ []
  drop-take_self zero xs = refl
  drop-take_self (suc n) [] = refl
  drop-take_self (suc n) (x ∷ xs) = drop-take_self n xs
