-- ===== src/Planner/Chunks.antt =====
-- `chunk` cuts a list of generations into pieces of the given size.
use equinoxdb.Values.{size}
use equinoxdb.Base.{ℕ, zero, suc, ◌≤◌, ◌<◌, ◌≡◌, refl, ap, ◌∙◌, inl, inr, List, [], ◌∷◌, ◌++◌}
use equinoxdb.Base.{append-nil, arith, leb, Bool-cases, length, take, drop, All}
use equinoxdb.Base.{take-append-drop, length-take, length-drop, flatten}
use equinoxdb.Planner.{Generation, chunk_loop, chunk}

chunk_loop-flatten :
    (fuel size : ℕ) (gs : List Generation)
    → 0 < size
    → length gs ≤ fuel
    → flatten (chunk_loop fuel size gs) ≡ gs
unfolding chunk_loop
chunk_loop-flatten fuel size [] h f = refl
chunk_loop-flatten zero size (g ∷ gs) h f = absurd (omega arith)
chunk_loop-flatten (suc fuel) size (g ∷ gs) h f = elim (Bool-cases (leb size (length (g ∷ gs)))) [
  | inl full ↦
      let le : size ≤ length (g ∷ gs) = ground arith in
      let shorter = length-drop size (g ∷ gs) le in
      let ih = chunk_loop-flatten fuel size (drop size (g ∷ gs)) h (omega arith) in
      rw full (ap (◌++◌ (take size (g ∷ gs))) ih ∙ take-append-drop size (g ∷ gs))
  | inr short ↦ rw short (append-nil (g ∷ gs))
]

-- For a size that is not 0 the chunks are the whole list, in order: the loop ends, and no
-- generation is lost or repeated.
pub flatten-chunk : (size : ℕ) (gs : List Generation) → 0 < size → flatten (chunk size gs) ≡ gs
unfolding chunk
flatten-chunk size gs h = chunk_loop-flatten (length gs) size gs h (omega arith)

chunk_loop-lengths :
    (fuel size : ℕ) (gs : List Generation) → All (λ c. length c ≤ size) (chunk_loop fuel size gs)
unfolding chunk_loop
chunk_loop-lengths fuel size [] = tt
chunk_loop-lengths zero size (g ∷ gs) = tt
chunk_loop-lengths (suc fuel) size (g ∷ gs) = elim (Bool-cases (leb size (length (g ∷ gs)))) [
  | inl full ↦ rw full (
    omega (arith, length-take size (g ∷ gs) (ground arith)),
    chunk_loop-lengths fuel size (drop size (g ∷ gs)),
  )
  | inr short ↦ rw short (ground arith, tt)
]

-- No chunk is longer than the size.
pub chunk-lengths : (size : ℕ) (gs : List Generation) → All (λ c. length c ≤ size) (chunk size gs)
unfolding chunk
chunk-lengths size gs = chunk_loop-lengths (length gs) size gs
