-- ===== src/Base/Bisect.antt =====
-- The bisection loop of `sort.Search`, which the code also writes out in places: the first index
-- of a list at which a test fails, for a test that never passes again after it has failed.
use equinoxdb.Base.Tests.{ltb, if◌then◌else◌, Bool-cases, ◌>>=◌}
use equinoxdb.Base.Lists.{length, get_elem?, All, get_elem?-some}
use Prim.Native.Nat.{ℕ, zero, suc, ◌+◌, ◌/◌, ◌≤◌, ◌<◌}
use mathlib.Core.Path.{◌≡◌, refl}
use mathlib.Core.Logic.{inl, inr}
use mathlib.Core.Bool.{Bool, false}
use mathlib.Core.List.{List, [], ◌∷◌}
use mathlib.Core.Option.{Option, none, some}
use native.Mathlib.Omega.{arith}

module _ {A : Type 0} (before : A → Bool) where
  -- The elements at the front that pass.
  abbrev pub front : List A → ℕ
  front [] = 0
  front (x ∷ xs) = if before x then suc (front xs) else 0

  abbrev pub Behind : List A → Type 0
  Behind = All (λ x. before x ≡ false)

  -- Once an element fails, all behind it fail.
  abbrev pub Bisected : List A → Type 0
  Bisected [] = Unit {0}
  Bisected (x ∷ xs) = (before x ≡ false → Behind xs) × Bisected xs

  -- `none` is an index out of range or fuel that ran out; no bisected list gives it.
  unfoldable pub bisect_loop : ℕ → List A → ℕ → ℕ → Option ℕ
  bisect_loop zero a lo hi = none
  bisect_loop (suc fuel) a lo hi =
      let mid = (lo + hi) / 2 in
      let upper = bisect_loop fuel a (mid + 1) hi in
      let lower = bisect_loop fuel a lo mid in
      let probe = get_elem? a mid >>= λ x. if before x then upper else lower in
      if ltb lo hi then probe else some lo

  unfoldable pub bisect : List A → Option ℕ
  unfolding bisect_loop
  bisect a = bisect_loop (suc (length a)) a 0 (length a)

  pub front-le-length : (xs : List A) → front xs ≤ length xs
  front-le-length [] = omega arith
  front-le-length (x ∷ xs) = ground (arith, front-le-length xs)

  front-Behind : (xs : List A) → Behind xs → front xs ≡ 0
  front-Behind [] b = refl
  front-Behind (x ∷ xs) b = rw (b.0)

  pub front-get_elem? :
      (xs : List A) (i : ℕ) (x : A)
      → Bisected xs
      → get_elem? xs i ≡ some x
      → before x ≡ ltb i (front xs)
  front-get_elem? [] i x o e = cc
  front-get_elem? (y ∷ ys) zero x o e = ground arith
  front-get_elem? (y ∷ ys) (suc i) x o e = elim (Bool-cases (before y)) [
    | inl passed ↦ rw passed (ground (arith, front-get_elem? ys i x o.1 e))
    | inr failed ↦
        rw failed (ground (arith, front-get_elem? ys i x o.1 e, front-Behind ys (o.0 failed)))
  ]

  bisect_loop-front :
      (fuel : ℕ) (a : List A) (lo hi : ℕ)
      → Bisected a
      → lo ≤ front a
      → front a ≤ hi
      → hi ≤ length a
      → hi < fuel + lo
      → bisect_loop fuel a lo hi ≡ some (front a)
  unfolding bisect_loop
  bisect_loop-front zero a lo hi o l r h f = absurd (omega arith)
  bisect_loop-front (suc fuel) a lo hi o l r h f = elim (Bool-cases (ltb lo hi)) [
    | inr done ↦ rw done (ground arith)
    | inl more ↦
        let mid = (lo + hi) / 2 in
        let (x, e) = get_elem?-some a mid (ground arith) in
        rw (more, e, front-get_elem? a mid x o e)
          (ground
            (arith, bisect_loop-front fuel a (mid + 1) hi o, bisect_loop-front fuel a lo mid o))
  ]

  pub bisect-front : (a : List A) → Bisected a → bisect a ≡ some (front a)
  unfolding bisect
  bisect-front a o =
      bisect_loop-front (suc (length a)) a 0 (length a) o (omega arith) (front-le-length a)
        (omega arith) (omega arith)
