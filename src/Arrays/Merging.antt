-- ===== src/Arrays/Merging.antt =====
-- `Merge` of storage/types/arrayvalues.gen.go against `Merge` of `Values` in
-- storage/types/values.gen.go.
use equinoxdb.Arrays.{TypedArray}
use equinoxdb.Base.{Bool, true, ltb, if◌then◌else◌}
use equinoxdb.Base.{ap, ◌∙◌, suc-ne-zero, get_elem?-some}
use equinoxdb.Arrays.{append_columns, last_time, merge_arrays}
use equinoxdb.Arrays.Columns.{length-map, get_elem?-map, append-map}
use equinoxdb.Base.{◌-◌, false, Option, none, ◌++◌, ◌==◌, ◌>>=◌, length, get_elem?}
use equinoxdb.Values.{max_time, merge_ordered, merge}
use equinoxdb.Values.Dedup.{deduplicate_self}
use equinoxdb.Arrays.{merge_columns}
use equinoxdb.Arrays.Cuts.{columns}
use equinoxdb.Base.{ℕ, ◌≡◌, refl, subst, some, List, [], ◌∷◌, map, arith, lt→ltb, le→ltb}
use equinoxdb.Base.{==_refl}
use equinoxdb.Values.{Value, unix_nano, merge_loop}
use equinoxdb.Values.Merging.{less, more, round}
use equinoxdb.Values.Order.{After, Ordered}
use mathlib.Core.Option
use equinoxdb.Values.Merging.{equal}

-- The next value of the second operand comes first where all values of the first are later.
merge_loop-After :
    (y : Value) (a b : List Value)
    → After (unix_nano y) a
    → merge_loop [] a (y ∷ b) ≡ y ∷ merge_loop [] a b
unfolding merge_loop
merge_loop-After y [] b h = refl
merge_loop-After y (x ∷ a) b h = elim (round x y a b) [
  | less lt e ↦ absurd (omega arith)
  | equal eq e ↦ absurd (omega arith)
  | more gt e ↦ e
]

module _ {A : Type 0} (f : Value → A) where
  pub merge_columns-merge_loop :
      (a b : List Value)
      → Ordered a
      → merge_columns (map unix_nano a) (map f a) (map unix_nano b) (map f b)
        ≡ some (columns f (merge_loop [] a b))
  unfolding merge_columns merge_loop
  merge_columns-merge_loop [] b o = refl
  merge_columns-merge_loop (x ∷ a) [] o = refl
  merge_columns-merge_loop (x ∷ a) (y ∷ b) o = elim (round x y a b) [
    | less lt e ↦
        rw (e, lt→ltb (unix_nano x) (unix_nano y) lt)
          (rw (merge_columns-merge_loop a (y ∷ b) o.1) refl)
    | equal eq e ↦
        let later : After (unix_nano y) a = subst (λ (t : ℕ). After t a) eq o.0 in
        let first = merge_loop-After y a b later in
        rw (e, le→ltb (unix_nano x) (unix_nano y) (omega arith), eq, ==_refl (unix_nano y), first)
          (rw (merge_columns-merge_loop a b o.1) refl)
    | more gt e ↦
        let apart : (unix_nano x == unix_nano y) ≡ false = ground arith in
        rw (e, le→ltb (unix_nano x) (unix_nano y) (omega arith), apart)
          (rw (merge_columns-merge_loop (x ∷ a) b o) refl)
  ]

  pub append_columns-append :
      (a b : List Value) → append_columns (columns f a) (columns f b) ≡ columns f (a ++ b)
  append_columns-append a b i = record {
    timestamps = append-map unix_nano a b i;
    values = append-map f a b i;
  }

  last_time-max_time : (a : List Value) → last_time (columns f a) ≡ max_time a
  last_time-max_time a =
      rw (length-map unix_nano a, get_elem?-map unix_nano a (length a - 1))
        (map_time (get_elem? a (length a - 1)))
    where
      map_time : (o : Option Value) → Option.map unix_nano o ≡ (o >>= λ x. some (unix_nano x))
      map_time none = refl
      map_time (some x) = refl

  choose_both :
      (c d : Bool) (x y z : List Value) {p q : TypedArray A} {r : Option (TypedArray A)}
      → p ≡ columns f x
      → q ≡ columns f y
      → r ≡ some (columns f z)
      → (if c then some p else if d then some q else r)
        ≡ some (columns f (if c then x else if d then y else z))
  choose_both true d x y z e h k = ap some e
  choose_both false true x y z e h k = ap some h
  choose_both false false x y z e h k = k

  -- For values in ascending time without duplicates, `Merge` of their columns is the columns of
  -- what `Merge` of the values returns.
  pub merge_arrays-merge :
      (a b : List Value)
      → Ordered a
      → Ordered b
      → merge_arrays (columns f a) (columns f b) ≡ Option.map (columns f) (merge a b)
  unfolding merge_arrays merge merge_ordered
  merge_arrays-merge [] b o p = refl
  merge_arrays-merge (x ∷ a) [] o p = rw (suc-ne-zero (length (map unix_nano a))) refl
  merge_arrays-merge (x ∷ a) (y ∷ b) o p =
      let time_of : Option Value → Option ℕ = λ r. r >>= λ v. some (unix_nano v) in
      let (s, e) = get_elem?-some (x ∷ a) (length (x ∷ a) - 1) (omega arith) in
      let (t, h) = get_elem?-some (y ∷ b) (length (y ∷ b) - 1) (omega arith) in
      let last_x = last_time-max_time (x ∷ a) ∙ ap time_of e in
      let last_y = last_time-max_time (y ∷ b) ∙ ap time_of h in
      rw
        (
          deduplicate_self (x ∷ a) o,
          deduplicate_self (y ∷ b) p,
          suc-ne-zero (length (map unix_nano a)),
          suc-ne-zero (length (map unix_nano b)),
          last_x,
          last_y,
          e,
          h,
        )
        (choose_both (ltb (unix_nano s) (unix_nano y)) (ltb (unix_nano t) (unix_nano x))
          ((x ∷ a) ++ (y ∷ b)) ((y ∷ b) ++ (x ∷ a)) (merge_loop [] (x ∷ a) (y ∷ b))
          (append_columns-append (x ∷ a) (y ∷ b)) (append_columns-append (y ∷ b) (x ∷ a))
          (merge_columns-merge_loop (x ∷ a) (y ∷ b) o))
