-- ===== src/Tombstones/Walks.antt =====
-- What `Walk` of storage/store/tombstone.go sees after `AddRange`.
use equinoxdb.Base.{suc-ne-zero}
use equinoxdb.Tombstones.{Visits}
use equinoxdb.Base.{subst, drop}
use equinoxdb.Tombstones.{tomb_header, add_kept, then_waiting, read_unzipped}
use equinoxdb.Base.{zero, suc, ◌+◌, refl, sym, ap, inl, inr, Bool, true, false, ◌&&◌, not}
use equinoxdb.Base.{Option, [], ◌∷◌, append-nil, arith, ltb, ◌==◌, if◌then◌else◌, le→ltb}
use equinoxdb.Base.{Bool-cases, All, length-append}
use equinoxdb.Bytes.{Bytes}
use equinoxdb.Tombstones.{Gzip, Tombstoner, passes, all_tombstones, skip_keys, append_keys}
use equinoxdb.Tombstones.{write_tombstone, add_range, read_full, visit, read_tombstones}
use equinoxdb.Tombstones.{read_file, walk_tombstones}
use equinoxdb.Words.{length-be_bytes, time_bits_twice}
use equinoxdb.Base.{ℕ, ◌^◌, ◌<◌, ◌≡◌, ◌∙◌, some, List, ◌++◌, append_assoc, length, take-append}
use equinoxdb.Base.{drop-append}
use equinoxdb.Tombstones.{Tombstone, tombstone_bytes, read_one}
use equinoxdb.Words.{be_bytes, read_then, time_bits-lt}
use equinoxdb.Base.{◌>>=◌}

-- The fields fit the words that they are written to.
abbrev pub TombstoneFits : Tombstone → Type 0
TombstoneFits t = (length t.key < 2 ^ 32) × (t.min < 2 ^ 64) × (t.max < 2 ^ 64)

read_full_lem : (k rest : List ℕ) → read_full (length k) (k ++ rest) ≡ some (k, rest)
unfolding read_full
read_full_lem k rest =
    let enough : ltb (length (k ++ rest)) (length k) ≡ false =
      le→ltb _ _ (omega (arith, length-append k rest)) in
    rw (enough, take-append k rest, drop-append k rest) refl

full_then {κ} :
    {C : Type κ} (k rest : List ℕ) (f : List ℕ × List ℕ → Option C)
    → (read_full (length k) (k ++ rest) >>= f) ≡ f (k, rest)
full_then k rest f = rw (read_full_lem k rest) refl

read_one-tombstone_bytes :
    (t : Tombstone) (rest : List ℕ)
    → TombstoneFits t
    → read_one (tombstone_bytes t ++ rest) ≡ some (t, rest)
unfolding read_one tombstone_bytes
read_one-tombstone_bytes t rest h = simp append_assoc (
    read_then 4 (length t.key) _ _ (h.0)
    ∙ full_then t.key _ _
    ∙ read_then 8 _ _ _ (time_bits-lt t.min)
    ∙ read_then 8 _ _ _ (time_bits-lt t.max)
    ∙ rw (time_bits_twice t.min h.1, time_bits_twice t.max h.2) refl)

length-tombstone_bytes : (t : Tombstone) → length (tombstone_bytes t) ≡ 20 + length t.key
unfolding tombstone_bytes
length-tombstone_bytes t = omega (arith, length-append {0}, length-be_bytes)

read_tombstones-all_tombstones :
    (fuel : ℕ) (ts : List Tombstone)
    → All TombstoneFits ts
    → length (all_tombstones ts) < fuel
    → read_tombstones fuel (all_tombstones ts) ≡ (ts, true)
unfolding read_tombstones all_tombstones
read_tombstones-all_tombstones zero ts h f = absurd (omega arith)
read_tombstones-all_tombstones (suc fuel) [] h f = refl
read_tombstones-all_tombstones (suc fuel) (t ∷ ts) h f =
    let size : length (all_tombstones (t ∷ ts)) ≡ 20 + length t.key + length (all_tombstones ts) =
      omega
        (arith, length-append (tombstone_bytes t) (all_tombstones ts), length-tombstone_bytes t) in
    let more : ltb (length (all_tombstones (t ∷ ts))) 4 ≡ false =
      le→ltb _ _ (omega (arith, size)) in
    rw more (
      ap (λ (r : Option (Tombstone × List ℕ)). visit r (read_tombstones fuel))
        (read_one-tombstone_bytes t (all_tombstones ts) h.0)
      ∙ rw (read_tombstones-all_tombstones fuel ts h.1 (omega (arith, size))) refl)

-- The tombstones of a call for the keys that pass the filter.
abbrev pub tombs : Option (Bytes → Bool) → ℕ → ℕ → List Bytes → List Tombstone
tombs f min max [] = []
tombs f min max (k ∷ ks) =
    if passes f k
    then record { key = k; min = min; max = max } ∷ tombs f min max ks
    else tombs f min max ks

append_keys-tombs :
    (f : Option (Bytes → Bool)) (min max : ℕ) (ks : List Bytes) (ts : List Tombstone)
    → append_keys f min max ks ts ≡ ts ++ tombs f min max ks
unfolding append_keys
append_keys-tombs f min max [] ts = sym (append-nil ts)
append_keys-tombs f min max (k ∷ ks) ts = elim (Bool-cases (passes f k)) [
  | inl e ↦
      let one : List Tombstone = record { key = k; min = min; max = max } ∷ [] in
      rw e (append_keys-tombs f min max ks (ts ++ one) ∙ append_assoc ts one (tombs f min max ks))
  | inr e ↦ rw e (append_keys-tombs f min max ks ts)
]

-- The keys that are left after the first loop: none, and then none passes, or the first passes.
data Skipped (f : Option (Bytes → Bool)) (min max : ℕ) (ks : List Bytes) : Type 0 where
  all_skipped : skip_keys f ks ≡ [] → tombs f min max ks ≡ [] → Skipped f min max ks
  first_passes :
      (j : Bytes) (js : List Bytes) (t : Tombstone) (ts : List Tombstone)
      → skip_keys f ks ≡ j ∷ js
      → tombs f min max ks ≡ t ∷ ts
      → tombs f min max (j ∷ js) ≡ t ∷ ts
      → Skipped f min max ks

skip_keys-Skipped :
    (f : Option (Bytes → Bool)) (min max : ℕ) (ks : List Bytes) → Skipped f min max ks
unfolding skip_keys
skip_keys-Skipped f min max [] = all_skipped refl refl
skip_keys-Skipped f min max (k ∷ ks) = elim (Bool-cases (passes f k)) [
  | inl e ↦
      let here : tombs f min max (k ∷ ks)
          ≡ record { key = k; min = min; max = max } ∷ tombs f min max ks =
        rw e refl in
      first_passes k ks _ _ (rw e refl) here here
  | inr e ↦ elim (skip_keys-Skipped f min max ks) [
    | all_skipped no_keys no_tombs ↦ all_skipped (rw e no_keys) (rw e no_tombs)
    | first_passes j js t ts left same at_first ↦
        first_passes j js t ts (rw e left) (rw e same) at_first
  ]
]

module _ (g : Gzip) where
  walk_tombstones-write_tombstone :
      (t : Tombstoner) (ts : List Tombstone)
      → All TombstoneFits ts
      → walk_tombstones g (write_tombstone g t ts) ≡ (ts, true)
  unfolding walk_tombstones read_file write_tombstone
  walk_tombstones-write_tombstone t ts h =
      let body = all_tombstones ts in
      let head : drop 4 (be_bytes 4 tomb_header ++ g.compress body) ≡ g.compress body =
        subst (λ (k : ℕ). drop k (be_bytes 4 tomb_header ++ g.compress body) ≡ g.compress body)
          (length-be_bytes 4 tomb_header)
          (drop-append (be_bytes 4 tomb_header) (g.compress body)) in
      ap (λ (b : List ℕ). read_unzipped [] (g.decompress b)) head
      ∙ ap (read_unzipped []) (g.decompress-compress body)
      ∙ ap (then_waiting []) (read_tombstones-all_tombstones (suc (length body)) ts h (omega arith))
      ∙ ap (λ (r : List Tombstone). (r, true)) (append-nil ts)

  -- What `AddRange` does with all tombstones of the call.
  add_range-tombs :
      (t : Tombstoner) (keys : List Bytes) (min max : ℕ)
      → add_range g t keys min max ≡ (
          if t.has_path && not (length (tombs t.filter_fn min max keys) == 0)
          then write_tombstone g t (t.waiting ++ tombs t.filter_fn min max keys)
          else t)
  unfolding add_range
  add_range-tombs t keys min max = elim (skip_keys-Skipped t.filter_fn min max keys) [
    | all_skipped no_keys no_tombs ↦
        ap (λ (ks : List Bytes). add_kept g t min max ks) no_keys
        ∙ rw no_tombs (elim (Bool-cases t.has_path) [ inl e ↦ rw e refl | inr e ↦ rw e refl ])
    | first_passes j js one more left same at_first ↦
        let appended : append_keys t.filter_fn min max (j ∷ js) t.waiting
            ≡ t.waiting ++ one ∷ more =
          append_keys-tombs t.filter_fn min max (j ∷ js) t.waiting ∙ ap (◌++◌ t.waiting) at_first in
        ap (λ (ks : List Bytes). add_kept g t min max ks) left
        ∙ ap (λ (ts : List Tombstone). if t.has_path then write_tombstone g t ts else t) appended
        ∙ rw (same, suc-ne-zero (length more))
            (elim (Bool-cases t.has_path) [ inl e ↦ rw e refl | inr e ↦ rw e refl ])
  ]

  if_walk :
      (b : Bool) (x y : Tombstoner) (v : Visits)
      → walk_tombstones g x ≡ v
      → walk_tombstones g (if b then x else y) ≡ (if b then v else walk_tombstones g y)
  if_walk true x y v h = h
  if_walk false x y v h = refl

  -- With tombstones whose keys and times fit their words: after `AddRange` at a set path of keys of
  -- which some passes the filter, `Walk` calls its function with the tombstones that were waiting in
  -- memory and those of this call, in order, and without an error: whatever the file held before is
  -- gone; and `AddRange` has written just these to the file. With no such key, or no path, it leaves
  -- the tombstones that wait, the file and all else as they were.
  pub walk_tombstones-add_range :
      (t : Tombstoner) (keys : List Bytes) (min max : ℕ)
      → All TombstoneFits (t.waiting ++ tombs t.filter_fn min max keys)
      → (walk_tombstones g (add_range g t keys min max) ≡ (
          if t.has_path && not (length (tombs t.filter_fn min max keys) == 0)
          then (t.waiting ++ tombs t.filter_fn min max keys, true)
          else walk_tombstones g t))
        × (add_range g t keys min max ≡ (
            if t.has_path && not (length (tombs t.filter_fn min max keys) == 0)
            then write_tombstone g t (t.waiting ++ tombs t.filter_fn min max keys)
            else t))
  walk_tombstones-add_range t keys min max h =
      let ts = t.waiting ++ tombs t.filter_fn min max keys in
      let b = t.has_path && not (length (tombs t.filter_fn min max keys) == 0) in
      let whole = add_range-tombs t keys min max in
      (
        ap (walk_tombstones g) whole
            ∙ if_walk b (write_tombstone g t ts) t (ts, true)
                (walk_tombstones-write_tombstone t ts h),
        whole,
      )
