-- ===== src/Values/Merge.antt =====
-- `Merge` as a whole, its shortcuts for disjoint operands included.
use equinoxdb.Base.{ℕ, ◌≤◌, ◌<◌, ◌≡◌, refl, sym, ap₂, ◌∙◌, inl, inr, none, some, List, [], ◌∷◌}
use equinoxdb.Base.{◌++◌, arith, ltb, ltb→lt, Bool-cases, length, get_elem?, All, All-append}
use equinoxdb.Base.{List-cases, get_elem?-last}
use equinoxdb.Values.{Value, unix_nano, deduplicate, merge_loop, merge_ordered, merge}
use equinoxdb.Values.Dedup.{latest, or_else, latest-append, deduplicate-Ordered}
use equinoxdb.Values.Dedup.{latest-deduplicate}
use equinoxdb.Values.Merging.{merge_loop-Ordered, latest-After, latest-merge_loop}
use equinoxdb.Values.Order.{After, Ordered, After-mono}

abbrev Below : ℕ → List Value → Type 0
Below t = All (λ x. unix_nano x ≤ t)

Below-last :
    (x : Value) (xs : List Value) (y : Value)
    → Ordered (x ∷ xs)
    → get_elem? (x ∷ xs) (length xs) ≡ some y
    → Below (unix_nano y) (x ∷ xs)
Below-last x [] y o e = (ground arith, tt)
Below-last x (z ∷ r) y o e =
    let below = Below-last z r y o.1 e in (omega (arith, o.0.0, below.0), below)

Ordered-append :
    (t : ℕ) (a b : List Value) → Below t a → After t b → Ordered a → Ordered b → Ordered (a ++ b)
Ordered-append t [] b h k oa ob = ob
Ordered-append t (x ∷ a) b h k oa ob = (
  All-append (λ y. unix_nano x < unix_nano y) a b oa.0 (After-mono b h.0 k),
  Ordered-append t a b h.1 k oa.1 ob,
)

latest-Below : (t s : ℕ) (xs : List Value) → t < s → Below t xs → latest s xs ≡ none
latest-Below t s [] h a = refl
latest-Below t s (x ∷ xs) h a = ground (arith, latest-Below t s xs h a.1)

-- If one operand ends before the other begins, no time has a value in both.
or_else-disjoint :
    (s t : ℕ) (a b : List Value)
    → Below s a
    → After s b
    → or_else (latest t a) (latest t b) ≡ or_else (latest t b) (latest t a)
or_else-disjoint s t a b h k =
    ground (arith, latest-Below s t a, latest-After s t b, Bool-cases (ltb s t))

-- What a merge of `a` and `b` is to return.
pub record IsMerge (a b m : List Value) : Type 0 where
  pub is_ordered : Ordered m
  pub latest_wins : (t : ℕ) → latest t m ≡ or_else (latest t b) (latest t a)

module _ (x y : Value) (a b : List Value) (oa : Ordered (x ∷ a)) (ob : Ordered (y ∷ b)) where
  merge_ordered-IsMerge :
      (m : List Value) × (merge_ordered (x ∷ a) (y ∷ b) ≡ some m) × IsMerge (x ∷ a) (y ∷ b) m
  unfolding merge_ordered
  merge_ordered-IsMerge =
      let (p, ep, ep') = get_elem?-last x a in
      let (q, eq, eq') = get_elem?-last y b in
      let below_p = Below-last x a p oa ep' in
      let below_q = Below-last y b q ob eq' in
      elim (Bool-cases (ltb (unix_nano p) (unix_nano y))) [
        | inl first ↦
            let after : After (unix_nano p) (y ∷ b) =
              (ltb→lt _ _ first, After-mono b (omega (arith, ltb→lt _ _ first)) ob.0) in
            (
              (x ∷ a) ++ (y ∷ b),
              rw (ep, eq, first),
              record {
                is_ordered = Ordered-append (unix_nano p) (x ∷ a) (y ∷ b) below_p after oa ob;
                latest_wins = λ t. latest-append t (x ∷ a) (y ∷ b);
              },
            )
        | inr not_first ↦ elim (Bool-cases (ltb (unix_nano q) (unix_nano x))) [
          | inl second ↦
              let after : After (unix_nano q) (x ∷ a) =
                (ltb→lt _ _ second, After-mono a (omega (arith, ltb→lt _ _ second)) oa.0) in
              (
                (y ∷ b) ++ (x ∷ a),
                rw (ep, eq, not_first, second),
                record {
                  is_ordered = Ordered-append (unix_nano q) (y ∷ b) (x ∷ a) below_q after ob oa;
                  latest_wins = λ t.
                      latest-append t (y ∷ b) (x ∷ a)
                      ∙ sym (or_else-disjoint (unix_nano q) t (y ∷ b) (x ∷ a) below_q after);
                },
              )
          | inr mixed ↦ (
            merge_loop [] (x ∷ a) (y ∷ b),
            rw (ep, eq, not_first, mixed),
            record {
              is_ordered = merge_loop-Ordered (x ∷ a) (y ∷ b) oa ob;
              latest_wins = λ t. latest-merge_loop t (x ∷ a) (y ∷ b) oa ob;
            },
          )
        ]
      ]

deduplicate-cons :
    (x : Value) (a : List Value) → (y : Value) × (r : List Value) × (deduplicate (x ∷ a) ≡ y ∷ r)
deduplicate-cons x a = elim (List-cases (deduplicate (x ∷ a))) [
  | inl e ↦ absurd (ground (arith, e, latest-deduplicate (unix_nano x) (x ∷ a)))
  | inr found ↦ found
]

-- Of any two operands that hold values, in whatever order and with whatever duplicates, `Merge`
-- ends without a panic; its result is in strictly ascending time, and for every time it has the
-- last value of the second operand with that time, or else the last one of the first operand.
pub merge-IsMerge :
    (x y : Value) (a b : List Value)
    → (m : List Value) × (merge (x ∷ a) (y ∷ b) ≡ some m) × IsMerge (x ∷ a) (y ∷ b) m
unfolding merge
merge-IsMerge x y a b =
    let (p, r, e) = deduplicate-cons x a in
    let (q, s, f) = deduplicate-cons y b in
    let (m, eq, is) =
      merge_ordered-IsMerge p q r s (rw e at (deduplicate-Ordered (x ∷ a)))
        (rw f at (deduplicate-Ordered (y ∷ b))) in
    (
      m,
      rw (e, f) eq,
      record {
        is_ordered = is.is_ordered;
        latest_wins = λ t.
            is.latest_wins t
            ∙ ap₂ or_else (rw f at (latest-deduplicate t (y ∷ b)))
                (rw e at (latest-deduplicate t (x ∷ a)));
      },
    )
