-- ===== src/Arrays/Equivalence.antt =====
-- `Exclude` and `Include` of storage/types/arrayvalues.gen.go against those of `Values` in
-- storage/types/values.gen.go: two implementations of one contract.
use equinoxdb.Base.{ap, ◌∙◌}
use equinoxdb.Arrays.{keep_column, include_times}
use equinoxdb.Arrays.Columns.{length-map, keep_column-map, cut_column-map}
use equinoxdb.Arrays.Cuts.{after_max-past_max}
use equinoxdb.Base.{[]}
use equinoxdb.Values.{cut_to, include}
use equinoxdb.Arrays.{missing, span, after_max, cut_column, exclude_times}
use equinoxdb.Arrays.Cuts.{as_interval, columns, find_interval-find_range}
use equinoxdb.Base.{ℕ, ◌≡◌, refl, Option, none, some, List, map, length}
use equinoxdb.Values.{Value, unix_nano, Positions, outside, between, find_range, past_max}
use equinoxdb.Values.{cut_out, exclude}
use mathlib.Core.Option
use equinoxdb.Base.{◌>>=◌}

cut_column-cut_out : (vs : List Value) (r s : ℕ) → cut_column (length vs) r s vs ≡ cut_out vs r s
unfolding cut_column cut_out
cut_column-cut_out vs r s = refl

keep_column-cut_to : (vs : List Value) (r s : ℕ) → keep_column r s vs ≡ cut_to vs r s
unfolding keep_column cut_to
keep_column-cut_to vs r s = refl

module _ {A : Type 0} (f : Value → A) where
  -- One list cut out of both columns.
  columns_both :
      (o : Option (List Value)) {p : Option (List ℕ)} {q : Option (List A)}
      → p ≡ Option.map (map unix_nano) o
      → q ≡ Option.map (map f) o
      → (do ts ← p; ws ← q; some (record { timestamps = ts; values = ws }))
        ≡ Option.map (columns f) o
  columns_both none e h = rw e refl
  columns_both (some x) e h = rw (e, h) refl

  -- For every list of values, in order or not, `Exclude` on its columns is `Exclude` on the values:
  -- both give the same points, or both panic.
  pub exclude_times-exclude :
      (vs : List Value) (min max : ℕ)
      → exclude_times (columns f vs) min max ≡ Option.map (columns f) (exclude vs min max)
  unfolding exclude_times exclude
  exclude_times-exclude vs min max =
      rw (find_interval-find_range vs min max) (from (find_range vs min max))
    where
      from :
          (r : Option Positions)
          → (do
            i ← Option.map as_interval r
            elim i [
              | missing ↦ some (columns f vs)
              | span rmin rmax ↦ do
                let past = after_max (map unix_nano vs) rmax max
                ts ← cut_column (length (map unix_nano vs)) rmin past (map unix_nano vs)
                ws ← cut_column (length (map unix_nano vs)) rmin past (map f vs)
                some (record { timestamps = ts; values = ws })
            ])
            ≡ Option.map (columns f) (do
              i ← r
              elim i [
                | outside ↦ some vs
                | between rmin rmax ↦ cut_out vs rmin (past_max vs rmax max)
              ])
      from none = refl
      from (some outside) = refl
      from (some (between r s)) =
          let t = past_max vs s max in
          let n = length (map unix_nano vs) in
          let cut : cut_column n r t vs ≡ cut_out vs r t =
            ap (λ (size : ℕ). cut_column size r t vs) (length-map unix_nano vs)
            ∙ cut_column-cut_out vs r t in
          rw (after_max-past_max vs s max) (
            columns_both (cut_column n r t vs) (cut_column-map unix_nano n r t vs)
              (cut_column-map f n r t vs)
            ∙ ap (Option.map (columns f)) cut)

  -- For every list of values, in order or not, `Include` on its columns is `Include` on the values:
  -- both give the same points, or both panic.
  pub include_times-include :
      (vs : List Value) (min max : ℕ)
      → include_times (columns f vs) min max ≡ Option.map (columns f) (include vs min max)
  unfolding include_times include
  include_times-include vs min max =
      rw (find_interval-find_range vs min max) (from (find_range vs min max))
    where
      from :
          (r : Option Positions)
          → (do
            i ← Option.map as_interval r
            elim i [
              | missing ↦ some (record { timestamps = []; values = [] })
              | span rmin rmax ↦ do
                let past = after_max (map unix_nano vs) rmax max
                ts ← keep_column rmin past (map unix_nano vs)
                ws ← keep_column rmin past (map f vs)
                some (record { timestamps = ts; values = ws })
            ])
            ≡ Option.map (columns f) (do
              i ← r
              elim i [
                | outside ↦ some []
                | between rmin rmax ↦ cut_to vs rmin (past_max vs rmax max)
              ])
      from none = refl
      from (some outside) = refl
      from (some (between r s)) =
          let t = past_max vs s max in
          rw (after_max-past_max vs s max, ← keep_column-cut_to vs r t)
            (columns_both (keep_column r t vs) (keep_column-map unix_nano r t vs)
              (keep_column-map f r t vs))

  -- For every list of values, in order or not, `Exclude` and `Include` on its columns are those on the
  -- values: both give the same points, or both panic.
  pub cut_times_lem :
      (vs : List Value) (min max : ℕ)
      → (exclude_times (columns f vs) min max ≡ Option.map (columns f) (exclude vs min max))
        × (include_times (columns f vs) min max ≡ Option.map (columns f) (include vs min max))
  cut_times_lem vs min max = (exclude_times-exclude vs min max, include_times-include vs min max)
