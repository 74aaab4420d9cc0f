-- ===== src/Wal/Outcome.antt =====
-- The results of encoding and decoding: a value, an error of the code, or a run-time panic.
use equinoxdb.Base.{◌≡◌, refl}
use equinoxdb.Base.{Bool, true, false, Option, none, some}

pub data Outcome {ℓ} (A : Type ℓ) : Type ℓ where
  ok : A → Outcome A
  failed : Outcome A
  panicked : Outcome A

infixl 5 ◌>>=◌ ◌>>◌
abbrev pub ◌>>=◌ {ℓ κ} : {X : Type ℓ} {Y : Type κ} → Outcome X → (X → Outcome Y) → Outcome Y
panicked >>= next = panicked
failed >>= next = failed
ok x >>= next = next x

abbrev pub ◌>>◌ {ℓ} : {Y : Type ℓ} → Outcome (Unit {0}) → Outcome Y → Outcome Y
first >> second = first >>= λ done. second

-- An early `return` of an error.
abbrev pub guard : Bool → Outcome (Unit {0})
guard true = failed
guard false = ok tt

-- A read that the code checks the room for.
abbrev pub or_fail {ℓ} : {A : Type ℓ} → Option A → Outcome A
or_fail none = failed
or_fail (some a) = ok a

-- A slice expression: out of range it panics.
abbrev pub slice_of {ℓ} : {A : Type ℓ} → Option A → Outcome A
slice_of none = panicked
slice_of (some a) = ok a

-- A chain that succeeds, taken apart.
abbrev pub Parts {ℓ κ} : {X : Type ℓ} {Y : Type κ} → Outcome X → (X → Outcome Y) → Y → Type (ℓ ⊔ κ)
Parts {X} first next y = (x : X) × (first ≡ ok x) × (next x ≡ ok y)

pub >>=-Parts {ℓ κ} :
    {X : Type ℓ} {Y : Type κ} (first : Outcome X) (next : X → Outcome Y) {y : Y}
    → first >>= next ≡ ok y
    → Parts first next y
>>=-Parts panicked next done = absurd (cc)
>>=-Parts failed next done = absurd (cc)
>>=-Parts (ok x) next done = (x, refl, done)
