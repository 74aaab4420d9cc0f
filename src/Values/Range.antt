-- ===== src/Values/Range.antt =====
-- `Exclude` and `Include` against the filters that they stand for.
use equinoxdb.Base.{◌+◌, sym, ◌∙◌, append-nil, le→leb, take-append-drop, length-take}
use equinoxdb.Base.{length-drop, drop-length}
use equinoxdb.Base.Slices.{copy_at_full, take-take, drop-take_self}
use equinoxdb.Values.{include}
use equinoxdb.Values.Order.{rank-le-length, rank_mono, rank-After, within, keep-within, keep-all}
use equinoxdb.Values.Order.{keep-none}
use equinoxdb.Base.{lt→ltb, suc-ne-zero}
use equinoxdb.Base.{ℕ, suc, ◌-◌, ◌≤◌, ◌≡◌, refl, ap, inl, inr, ◌||◌, Option, some}
use equinoxdb.Base.{List, [], ◌∷◌, ◌++◌, arith, ltb, ltb→lt, Bool-cases, length, take, drop}
use equinoxdb.Base.{get_elem?-some}
use equinoxdb.Values.{Value, unix_nano, Positions, outside, between, find_range, past_max}
use equinoxdb.Values.{cut_out, exclude, cut_to}
use equinoxdb.Values.Find.{search-rank}
use equinoxdb.Values.Order.{Ordered, rank, keep, rank-last, rank-first, not_within}
use equinoxdb.Values.Order.{keep-not_within}

-- The two outcomes of `FindRange`: nothing lies in the range, or the ranks of its ends.
data Found (a : List Value) (min max : ℕ) (r : Option Positions) : Type 0 where
  missed : r ≡ some outside → (min ≤ max → rank min a ≡ rank (suc max) a) → Found a min max r
  hit : r ≡ some (between (rank min a) (rank max a)) → min ≤ max → Found a min max r

find_range-Found :
    (a : List Value) (min max : ℕ) → Ordered a → Found a min max (find_range a min max)
unfolding find_range
find_range-Found [] min max o = missed refl (λ h. refl)
find_range-Found (x ∷ xs) min max o =
    let a : List Value = x ∷ xs in
    let (y, e) = get_elem?-some a (length a - 1) (omega arith) in
    elim (Bool-cases (ltb max min)) [
      | inl none_at_all ↦
          missed (rw (suc-ne-zero (length xs), none_at_all))
            (λ h. absurd (omega (arith, ltb→lt _ _ none_at_all)))
      | inr proper ↦ elim (Bool-cases (ltb (unix_nano y) min || ltb max (unix_nano x))) [
        | inl miss ↦ missed (rw (suc-ne-zero (length xs), proper, e, miss)) (λ h. ground (
          arith,
          rank-last min a y o e,
          rank-last (suc max) a y o e,
          rank-first min a x o,
          rank-first (suc max) a x o,
        ))
        | inr meet ↦
            hit
              (rw (
                suc-ne-zero (length xs),
                proper,
                e,
                meet,
                search-rank a min o,
                search-rank a max o,
              ))
              (ground arith)
      ]
    ]

-- The position behind `max`, whether or not `max` is the time of a value.
past_max-rank :
    (a : List Value) (max : ℕ) → Ordered a → past_max a (rank max a) max ≡ rank (suc max) a
unfolding past_max
past_max-rank [] max o = refl
past_max-rank (x ∷ xs) max o = elim (Bool-cases (ltb (unix_nano x) max)) [
  | inl less ↦
      rw (less, lt→ltb (unix_nano x) (suc max) (ground arith))
        (ground (arith, past_max-rank xs max o.1))
  | inr more ↦ ground (arith, rank-After (suc max) (unix_nano x) xs)
]

cut_out_lem :
    (a : List Value) (r s : ℕ) → r ≤ s → s ≤ length a → cut_out a r s ≡ some (take r a ++ drop s a)
unfolding cut_out
cut_out_lem a r s h k = elim (Bool-cases (ltb s (length a))) [
  | inl inner ↦
      let n = r + (length a - s) in
      let full =
        copy_at_full (take n a) r (drop s a) (omega (arith, length-take n a, length-drop s a)) in
      rw (inner, le→leb n (length a) (omega arith), le→leb s (length a) k, full)
        (rw (take-take r n a (omega arith)))
  | inr all ↦
      let e : s ≡ length a = ground arith in
      let last : drop s a ≡ [] = rw e (drop-length a) in
      rw (all, le→leb r (length a) (omega arith), last) (rw append-nil)
]

cut_to_lem :
    (a : List Value) (r s : ℕ) → r ≤ s → s ≤ length a → cut_to a r s ≡ some (drop r (take s a))
unfolding cut_to
cut_to_lem a r s h k =
    let inner = length-take s a k in
    let full =
      copy_at_full (take (s - r) a) 0 (drop r (take s a))
        (omega (arith, length-take (s - r) a, length-drop r (take s a), inner)) in
    rw (le→leb (s - r) (length a) (omega arith), le→leb s (length a) k)
      (rw (le→leb r (length (take s a)) (omega (arith, inner))) (rw full))

-- On ordered values `Exclude` ends without a panic and leaves the values whose time is not in
-- [min, max], in order, whatever the two bounds are.
pub exclude-keep :
    (a : List Value) (min max : ℕ)
    → Ordered a
    → exclude a min max ≡ some (keep (not_within min max) a)
unfolding exclude
exclude-keep a min max o = elim (find_range-Found a min max o) [
  | missed e same ↦ rw e (
      ap some (elim (Bool-cases (ltb max min)) [
        | inl none_at_all ↦ sym (keep-all (not_within min max) a (λ t. ground arith))
        | inr proper ↦
            let h : min ≤ max = ground arith in
            sym (take-append-drop (rank (suc max) a) a)
            ∙ rw (same h) at (keep-not_within min max a h o)
      ]))
  | hit e h ↦
      let ends = rank_mono min (suc max) a (omega arith) in
      rw (e, past_max-rank a max o)
        (cut_out_lem a (rank min a) (rank (suc max) a) ends (rank-le-length (suc max) a)
          ∙ ap some (keep-not_within min max a h o))
]

-- On ordered values `Include` ends without a panic and leaves the values whose time is in
-- [min, max], in order, whatever the two bounds are.
pub include-keep :
    (a : List Value) (min max : ℕ) → Ordered a → include a min max ≡ some (keep (within min max) a)
unfolding include
include-keep a min max o = elim (find_range-Found a min max o) [
  | missed e same ↦ rw e (
      ap some (elim (Bool-cases (ltb max min)) [
        | inl none_at_all ↦ sym (keep-none (within min max) a (λ t. ground arith))
        | inr proper ↦
            let h : min ≤ max = ground arith in
            sym (drop-take_self (rank (suc max) a) a) ∙ rw (same h) at (keep-within min max a h o)
      ]))
  | hit e h ↦
      let ends = rank_mono min (suc max) a (omega arith) in
      rw (e, past_max-rank a max o)
        (cut_to_lem a (rank min a) (rank (suc max) a) ends (rank-le-length (suc max) a)
          ∙ ap some (keep-within min max a h o))
]
