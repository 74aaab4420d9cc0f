-- ===== src/Planner/Limits.antt =====
-- Which groups `PlanLevel` of storage/compactor/planner.go keeps.
use equinoxdb.Base.{ℕ, ◌≤◌, ◌≡◌, ◌⊎◌, inl, inr, true, false, ◌&&◌, not, List, [], ◌∷◌}
use equinoxdb.Base.{arith, ltb, ◌==◌, Bool-cases, length, All, All-append, filter}
use equinoxdb.Planner.{FileStore, Generation, group_level, any_tombstones, chunk}
use equinoxdb.Planner.Chunks.{chunk-lengths}
use equinoxdb.Planner.Plans.{group_loop, level_chunks, min_generations}
use equinoxdb.Planner.Plans.{level_candidates}
use equinoxdb.Values.{size}

-- What `PlanLevel` asks of a group.
abbrev pub IsWorth : ℕ → List Generation → Type 0
IsWorth size c = (length c ≤ size) × ((length c ≡ size) ⊎ (any_tombstones c ≡ true))

module _ (fs : FileStore) where
  filter-IsWorth :
      (size : ℕ) (cs : List (List Generation))
      → All (λ c. length c ≤ size) cs
      → All (IsWorth size) (filter (λ c. not (ltb (length c) size && not (any_tombstones c))) cs)
  filter-IsWorth size [] a = tt
  filter-IsWorth size (c ∷ cs) a =
      elim (Bool-cases (not (ltb (length c) size && not (any_tombstones c)))) [
        | inl worth ↦ rw worth ((a.0, ground arith), filter-IsWorth size cs a.1)
        | inr small ↦ rw small (filter-IsWorth size cs a.1)
      ]

  level_chunks-IsWorth :
      (size : ℕ) (gss : List (List Generation)) → All (IsWorth size) (level_chunks fs size gss)
  unfolding level_chunks
  level_chunks-IsWorth size [] = tt
  level_chunks-IsWorth size (g ∷ gss) =
      All-append (IsWorth size)
        (filter (λ c. not (ltb (length c) size && not (any_tombstones c))) (chunk size g))
        (level_chunks fs size gss) (filter-IsWorth size (chunk size g) (chunk-lengths size g))
        (level_chunks-IsWorth size gss)

  pub level_candidates-IsWorth :
      (l : ℕ) (gs : List Generation)
      → All (IsWorth (min_generations fs l)) (level_candidates fs l gs)
  unfolding level_candidates
  level_candidates-IsWorth l gs =
      level_chunks-IsWorth (min_generations fs l)
        (filter (λ g. group_level fs g 0 == l) (group_loop fs (λ _. false) [] gs))
