-- ===== src/Values/Order.antt =====
-- Values in ascending time without duplicates, and the position of a time among them.
use equinoxdb.Base.{sym, inl, inr, lt→ltb, le→ltb, Bool-cases}
use equinoxdb.Base.{◌-◌, ap, false, ◌&&◌, ◌||◌, not, ◌++◌, take, drop}
use equinoxdb.Base.{ℕ, zero, suc, ◌≤◌, ◌<◌, ◌≡◌, refl, List, [], ◌∷◌, length, get_elem?}
use equinoxdb.Base.{some, Bool, true, arith, ltb}
use equinoxdb.Base.{if◌then◌else◌, All}
use equinoxdb.Values.{Value, unix_nano, ordered}

-- Every value of the list is later than `t`.
abbrev pub After : ℕ → List Value → Type 0
After t = All (λ x. t < unix_nano x)

abbrev pub Ordered : List Value → Type 0
Ordered [] = Unit {0}
Ordered (x ∷ xs) = After (unix_nano x) xs × Ordered xs

-- How many values at the front are before `v`.
abbrev pub rank : ℕ → List Value → ℕ
rank v [] = 0
rank v (x ∷ xs) = if ltb (unix_nano x) v then suc (rank v xs) else 0

-- The values that satisfy a test on their time.
abbrev pub keep : (ℕ → Bool) → List Value → List Value
keep p [] = []
keep p (x ∷ xs) = if p (unix_nano x) then x ∷ keep p xs else keep p xs

pub After-mono : {s t : ℕ} (xs : List Value) → s ≤ t → After t xs → After s xs
After-mono [] h a = tt
After-mono (x ∷ xs) h a = (omega arith, After-mono xs h a.1)

pub rank-le-length : (v : ℕ) (xs : List Value) → rank v xs ≤ length xs
rank-le-length v [] = omega arith
rank-le-length v (x ∷ xs) = ground (arith, rank-le-length v xs)

pub rank_mono : (u v : ℕ) (xs : List Value) → u ≤ v → rank u xs ≤ rank v xs
rank_mono u v [] h = omega arith
rank_mono u v (x ∷ xs) h = ground (arith, rank_mono u v xs)

pub rank-After : (v t : ℕ) (xs : List Value) → v ≤ suc t → After t xs → rank v xs ≡ 0
rank-After v t [] h a = refl
rank-After v t (x ∷ xs) h a = ground arith

-- In an ordered list the value at an index is before `v` exactly if the index is below the rank.
pub rank-get_elem? :
    (v : ℕ) (xs : List Value) (i : ℕ) (x : Value)
    → Ordered xs
    → get_elem? xs i ≡ some x
    → ltb (unix_nano x) v ≡ ltb i (rank v xs)
rank-get_elem? v [] i x o e = ground arith
rank-get_elem? v (y ∷ ys) zero x o e = ground arith
rank-get_elem? v (y ∷ ys) (suc i) x o e =
    ground (arith, rank-get_elem? v ys i x o.1 e, rank-After v (unix_nano y) ys)

-- The code's adjacent test decides the order.
pub ordered→Ordered : (xs : List Value) → ordered xs ≡ true → Ordered xs
unfolding ordered
ordered→Ordered [] h = tt
ordered→Ordered (x ∷ []) h = (tt, tt)
ordered→Ordered (x ∷ y ∷ r) h =
    let rest : Ordered (y ∷ r) = ordered→Ordered (y ∷ r) (ground arith) in
    let less : unix_nano x < unix_nano y = ground arith in
    ((less, After-mono r (omega arith) rest.0), rest)

pub Ordered→ordered : (xs : List Value) → Ordered xs → ordered xs ≡ true
unfolding ordered
Ordered→ordered [] o = refl
Ordered→ordered (x ∷ []) o = refl
Ordered→ordered (x ∷ y ∷ r) o = ground (arith, Ordered→ordered (y ∷ r) o.1)

pub rank-last :
    (v : ℕ) (xs : List Value) (x : Value)
    → Ordered xs
    → get_elem? xs (length xs - 1) ≡ some x
    → unix_nano x < v
    → rank v xs ≡ length xs
rank-last v xs x o e h =
    ground (arith, rank-get_elem? v xs (length xs - 1) x o e, rank-le-length v xs)

pub rank-first :
    (v : ℕ) (xs : List Value) (x : Value)
    → Ordered xs
    → get_elem? xs 0 ≡ some x
    → v ≤ unix_nano x
    → rank v xs ≡ 0
rank-first v xs x o e h = ground (arith, rank-get_elem? v xs 0 x o e)

abbrev pub not_within : ℕ → ℕ → ℕ → Bool
not_within min max t = ltb t min || ltb max t

abbrev pub within : ℕ → ℕ → ℕ → Bool
within min max t = not (ltb t min) && not (ltb max t)

keep-After : (min max : ℕ) (xs : List Value) → After max xs → keep (not_within min max) xs ≡ xs
keep-After min max [] a = refl
keep-After min max (x ∷ xs) a = ground (arith, keep-After min max xs a.1)

-- The values out of a range are those in front of it and those behind it.
pub keep-not_within :
    (min max : ℕ) (xs : List Value)
    → min ≤ max
    → Ordered xs
    → take (rank min xs) xs ++ drop (rank (suc max) xs) xs ≡ keep (not_within min max) xs
keep-not_within min max [] h o = refl
keep-not_within min max (x ∷ xs) h o =
    let t = unix_nano x in
    let ih = keep-not_within min max xs h o.1 in
    elim (Bool-cases (ltb t min)) [
      | inl early ↦ rw (early, lt→ltb t (suc max) (ground arith)) (ap (◌∷◌ x) ih)
      | inr not_early ↦ elim (Bool-cases (ltb max t)) [
        | inl late ↦
            let behind = keep-After min max xs (After-mono xs (ground arith) o.0) in
            rw (not_early, late, le→ltb t (suc max) (ground arith)) (ap (◌∷◌ x) (sym behind))
        | inr inside ↦
            let front = rank-After min t xs (ground arith) o.0 in
            rw (not_early, inside, lt→ltb t (suc max) (ground arith)) (rw front at ih)
      ]
    ]

keep-within-After : (min max : ℕ) (xs : List Value) → After max xs → keep (within min max) xs ≡ []
keep-within-After min max [] a = refl
keep-within-After min max (x ∷ xs) a = ground (arith, keep-within-After min max xs a.1)

-- The values in a range stand together.
pub keep-within :
    (min max : ℕ) (xs : List Value)
    → min ≤ max
    → Ordered xs
    → drop (rank min xs) (take (rank (suc max) xs) xs) ≡ keep (within min max) xs
keep-within min max [] h o = refl
keep-within min max (x ∷ xs) h o =
    let t = unix_nano x in
    let ih = keep-within min max xs h o.1 in
    elim (Bool-cases (ltb t min)) [
      | inl early ↦ rw (early, lt→ltb t (suc max) (ground arith)) ih
      | inr not_early ↦ elim (Bool-cases (ltb max t)) [
        | inl late ↦
            let behind = keep-within-After min max xs (After-mono xs (ground arith) o.0) in
            rw (not_early, late, le→ltb t (suc max) (ground arith)) (sym behind)
        | inr inside ↦
            let front = rank-After min t xs (ground arith) o.0 in
            rw (not_early, inside, lt→ltb t (suc max) (ground arith)) (ap (◌∷◌ x) (rw front at ih))
      ]
    ]

pub keep-all : (p : ℕ → Bool) (xs : List Value) → ((t : ℕ) → p t ≡ true) → keep p xs ≡ xs
keep-all p [] h = refl
keep-all p (x ∷ xs) h = rw (h (unix_nano x)) (ap (◌∷◌ x) (keep-all p xs h))

pub keep-none : (p : ℕ → Bool) (xs : List Value) → ((t : ℕ) → p t ≡ false) → keep p xs ≡ []
keep-none p [] h = refl
keep-none p (x ∷ xs) h = rw (h (unix_nano x)) (keep-none p xs h)
