-- ===== src/Ranges.antt =====
-- storage/store/util.go: IsOverlapAny, a test of a time range against the ranges of tombstones.
use equinoxdb.Base.{ℕ, ◌≤◌, ◌<◌, ◌≡◌, refl, Bool, true, false, ◌&&◌, List, [], ◌∷◌, arith, ltb}
use equinoxdb.Base.{leb, if◌then◌else◌, All, any}

pub record TimeRange : Type 0 where
  pub min : ℕ
  pub max : ℕ

unfoldable pub is_overlap_any : TimeRange → List TimeRange → Bool
is_overlap_any r [] = false
is_overlap_any r (tr ∷ ranges) =
    let next = is_overlap_any r ranges in
    if ltb tr.max r.max
    then next
    else if leb tr.min r.min && leb r.max tr.max
    then true
    else if ltb r.min tr.min
    then false
    else next

-- One range lies within another.
abbrev pub covers : TimeRange → TimeRange → Bool
covers r tr = leb tr.min r.min && leb r.max tr.max

abbrev pub From : ℕ → List TimeRange → Type 0
From t = All (λ tr. t ≤ tr.min)

-- The ranges in ascending order of where they begin.
abbrev pub IsRising : List TimeRange → Type 0
IsRising [] = Unit {0}
IsRising (tr ∷ ranges) = From tr.min ranges × IsRising ranges

covers-From :
    (r : TimeRange) (t : ℕ) (ranges : List TimeRange)
    → r.min < t
    → From t ranges
    → any (covers r) ranges ≡ false
covers-From r t [] h a = refl
covers-From r t (tr ∷ ranges) h a =
    let rest = covers-From r t ranges h a.1 in let first = a.0 in ground arith

-- On ranges in ascending order of where they begin, the early exit of the loop loses nothing: the
-- result tells whether the time range lies within one of them.
pub is_overlap_any-covers :
    (r : TimeRange) (ranges : List TimeRange)
    → IsRising ranges
    → is_overlap_any r ranges ≡ any (covers r) ranges
unfolding is_overlap_any
is_overlap_any-covers r [] h = refl
is_overlap_any-covers r (tr ∷ ranges) h =
    let rest = is_overlap_any-covers r ranges h.1 in ground (arith, covers-From r tr.min ranges)
