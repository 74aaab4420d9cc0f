-- ===== src/Wal/RoundTrip.antt =====
-- WriteWALEntry of storage/store/wal_file.go: `UnmarshalBinary` after `Encode`.
use equinoxdb.Wal.Fields.{checked_then}
use equinoxdb.Wal.Reads.{unmarshal_writes}
use equinoxdb.Base.{zero, suc, ◌*◌, Option, append-nil, append_assoc, All-append}
use equinoxdb.Values.{boolean_value, float_value, integer_value, string_value, unsigned_value}
use equinoxdb.Wal.Fields.{reader, read_values-values_bytes}
use equinoxdb.Wal.Lengths.{length-values_bytes, length-all_fixed, length-key_bytes}
use equinoxdb.Wal.Reads.{put_values, unmarshal_loop}
use equinoxdb.Wal.Writes.{encode_sized}
use equinoxdb.Base.{ℕ, ◌^◌, ◌≤◌, ◌<◌, ◌≡◌, refl, sym, ap, ◌∙◌, false, ◌||◌, some, List, [], ◌∷◌}
use equinoxdb.Base.{◌++◌, arith, ltb, ◌==◌, le→ltb, length, All, length-append, take-append}
use equinoxdb.Base.{drop-append}
use equinoxdb.Bytes.{Bytes}
use equinoxdb.Values.{Value, size}
use equinoxdb.Wal.Fields.{AllLike, values_bytes, encode_values-values_bytes}
use equinoxdb.Wal.Lengths.{key_bytes, key_size-length}
use equinoxdb.Wal.Outcome.{Outcome, ok}
use equinoxdb.Wal.Reads.{read_sized, read_typed, read_key}
use equinoxdb.Wal.Sizes.{KeyValues, entry_type, marshal_size}
use equinoxdb.Wal.Writes.{encode_key, encode_keys, encode_writes}
use equinoxdb.Words.{be_bytes}
use equinoxdb.Wal.Outcome.{◌>>=◌}
use equinoxdb.Bytes.{equal}

-- The values of a key: some, of one type, in range; the key and the count fit their words.
abbrev pub IsEncodable : Bytes → List Value → Type 0
IsEncodable k [] = ⊥
IsEncodable k (v ∷ vs) =
    (length k < 2 ^ 16) × (length (v ∷ vs) < 2 ^ 32) × AllLike (entry_type v) (v ∷ vs)

-- The keys of a map are distinct from a key.
abbrev pub Apart : Bytes → KeyValues → Type 0
Apart k = All (λ e. equal k e.0 ≡ false)

-- A map whose keys are distinct and whose values can be encoded.
abbrev pub IsEntry : KeyValues → Type 0
IsEntry [] = Unit {0}
IsEntry ((k, vs) ∷ m) = IsEncodable k vs × Apart k m × IsEntry m

abbrev pub entry_bytes : KeyValues → List ℕ
entry_bytes [] = []
entry_bytes ((k, []) ∷ m) = entry_bytes m
entry_bytes ((k, v ∷ vs) ∷ m) = key_bytes k v vs ++ entry_bytes m

encode_keys-entry_bytes : (m : KeyValues) → IsEntry m → encode_keys m ≡ ok (entry_bytes m)
unfolding encode_keys encode_key
encode_keys-entry_bytes [] h = refl
encode_keys-entry_bytes ((k, []) ∷ m) h = absurd (h.0)
encode_keys-entry_bytes ((k, v ∷ vs) ∷ m) h =
    rw (encode_values-values_bytes (entry_type v) (v ∷ vs) h.0.2, encode_keys-entry_bytes m h.2)
      refl

marshal_size-entry_bytes :
    (m : KeyValues) → IsEntry m → marshal_size m ≡ some (length (entry_bytes m))
unfolding marshal_size
marshal_size-entry_bytes [] h = refl
marshal_size-entry_bytes ((k, []) ∷ m) h = absurd (h.0)
marshal_size-entry_bytes ((k, v ∷ vs) ∷ m) h =
    rw (key_size-length k v vs h.0.2, marshal_size-entry_bytes m h.2)
      (ap some (sym (length-append (key_bytes k v vs) (entry_bytes m))))

-- `Encode` of a map with encodable values neither fails nor panics, and writes exactly as many
-- bytes as `MarshalSize` counts.
pub encode_writes-entry_bytes :
    (m : KeyValues)
    → IsEntry m
    → (encode_writes m ≡ ok (entry_bytes m)) × (marshal_size m ≡ some (length (entry_bytes m)))
unfolding encode_writes encode_sized
encode_writes-entry_bytes [] h = (refl, marshal_size-entry_bytes [] h)
encode_writes-entry_bytes (e ∷ m) h =
    let size = marshal_size-entry_bytes (e ∷ m) h in
    (ap (λ (n : Option ℕ). encode_sized n (e ∷ m)) size ∙ encode_keys-entry_bytes (e ∷ m) h, size)

read_sized-values_bytes :
    (size : ℕ) (v : Value) (vs : List Value) (rest : List ℕ)
    → AllLike (entry_type v) vs
    → length (values_bytes vs) ≡ size * length vs
    → read_sized size (reader v) (length vs) (values_bytes vs ++ rest) ≡ ok (vs, rest)
unfolding read_sized
read_sized-values_bytes size v vs rest h e =
    let room : ltb (length (values_bytes vs ++ rest)) (size * length vs) ≡ false =
      le→ltb _ _ (omega (arith, length-append (values_bytes vs) rest, e)) in
    rw room (read_values-values_bytes v vs rest h)

-- The switch on the type reads the values back.
read_typed-values_bytes :
    (v : Value) (vs : List Value) (rest : List ℕ)
    → AllLike (entry_type v) vs
    → read_typed (entry_type v) (length vs) (values_bytes vs ++ rest) ≡ ok (vs, rest)
unfolding read_typed entry_type
read_typed-values_bytes (float_value t x) vs rest h =
    read_sized-values_bytes 16 (float_value t x) vs rest h (length-all_fixed 1 vs (omega arith) h)
read_typed-values_bytes (integer_value t x) vs rest h =
    read_sized-values_bytes 16 (integer_value t x) vs rest h (length-all_fixed 2 vs (omega arith) h)
read_typed-values_bytes (unsigned_value t x) vs rest h =
    read_sized-values_bytes 16 (unsigned_value t x) vs rest h
      (length-all_fixed 5 vs (omega arith) h)
read_typed-values_bytes (boolean_value t x) vs rest h =
    read_sized-values_bytes 9 (boolean_value t x) vs rest h (length-all_fixed 3 vs (omega arith) h)
read_typed-values_bytes (string_value t x) vs rest h =
    read_values-values_bytes (string_value t x) vs rest h

read_key-key_bytes :
    (len : ℕ) (k : Bytes) (v : Value) (vs : List Value) (rest : List ℕ)
    → IsEncodable k (v ∷ vs)
    → length (v ∷ vs) ≤ len
    → read_key len (entry_type v) (
        be_bytes 2 (length k)
        ++ (k ++ (be_bytes 4 (length (v ∷ vs)) ++ (values_bytes (v ∷ vs) ++ rest))))
      ≡ ok ((k, v ∷ vs), rest)
unfolding read_key
read_key-key_bytes len k v vs rest h enough =
    let n = length (v ∷ vs) in
    let tail = be_bytes 4 n ++ (values_bytes (v ∷ vs) ++ rest) in
    let room : ltb (length (k ++ tail)) (length k) ≡ false =
      le→ltb _ _ (omega (arith, length-append k tail)) in
    let count : (n == 0 || ltb len n) ≡ false = ground arith in
    checked_then 2 (length k) (k ++ tail) _ h.0
    ∙ rw (room, take-append k tail, drop-append k tail)
        (checked_then 4 n (values_bytes (v ∷ vs) ++ rest) _ h.1
          ∙ rw (count, read_typed-values_bytes v (v ∷ vs) rest h.2) refl)

put_values-Apart :
    (k : Bytes) (vs : List Value) (m : KeyValues)
    → All (λ e. equal e.0 k ≡ false) m
    → put_values k vs m ≡ m ++ ((k, vs) ∷ [])
unfolding put_values
put_values-Apart k vs [] h = refl
put_values-Apart k vs ((j, ws) ∷ m) h = rw (h.0) (ap (◌∷◌ (j, ws)) (put_values-Apart k vs m h.1))

-- No key of one map is in the other.
abbrev AllApart : KeyValues → KeyValues → Type 0
AllApart m [] = Unit {0}
AllApart m (e ∷ r) = All (λ d. equal d.0 e.0 ≡ false) m × AllApart m r

AllApart-append :
    (m r : KeyValues) (k : Bytes) (vs : List Value)
    → AllApart m r
    → Apart k r
    → AllApart (m ++ ((k, vs) ∷ [])) r
AllApart-append m [] k vs h a = tt
AllApart-append m (e ∷ r) k vs h a = (
  All-append (λ d. equal d.0 e.0 ≡ false) m ((k, vs) ∷ []) h.0 (a.0, tt),
  AllApart-append m r k vs h.1 a.1,
)

AllApart-nil : (r : KeyValues) → AllApart [] r
AllApart-nil [] = tt
AllApart-nil (e ∷ r) = (tt, AllApart-nil r)

-- A round of the outer loop.
unmarshal_round :
    (fuel len typ : ℕ) (m : KeyValues) (b rest : List ℕ) (k : Bytes) (vs : List Value)
    → read_key len typ b ≡ ok ((k, vs), rest)
    → unmarshal_loop (suc fuel) len m (typ ∷ b) ≡ unmarshal_loop fuel len (put_values k vs m) rest
unfolding unmarshal_loop
unmarshal_round fuel len typ m b rest k vs h =
    ap
      (λ (o : Outcome ((Bytes × List Value) × List ℕ)).
        o >>= λ r. unmarshal_loop fuel len (put_values r.0.0 r.0.1 m) r.1)
      h

regroup : (a b c d rest : List ℕ) → (a ++ (b ++ (c ++ d))) ++ rest ≡ a ++ (b ++ (c ++ (d ++ rest)))
regroup a b c d rest = simp append_assoc

unmarshal_loop-entry_bytes :
    (fuel len : ℕ) (m r : KeyValues)
    → IsEntry r
    → AllApart m r
    → length (entry_bytes r) < fuel
    → length (entry_bytes r) ≤ len
    → unmarshal_loop fuel len m (entry_bytes r) ≡ ok (m ++ r)
unfolding unmarshal_loop
unmarshal_loop-entry_bytes zero len m r h a f l = absurd (omega arith)
unmarshal_loop-entry_bytes (suc fuel) len m [] h a f l = ap ok (sym (append-nil m))
unmarshal_loop-entry_bytes (suc fuel) len m ((k, []) ∷ r) h a f l = absurd (h.0)
unmarshal_loop-entry_bytes (suc fuel) len m ((k, v ∷ vs) ∷ r) h a f l =
    let size = length-append (key_bytes k v vs) (entry_bytes r) in
    let first = length-key_bytes k v vs in
    let few = length-values_bytes (v ∷ vs) in
    let next =
      unmarshal_loop-entry_bytes fuel len (m ++ ((k, v ∷ vs) ∷ [])) r h.2
        (AllApart-append m r k (v ∷ vs) a.1 h.1) (omega (arith, size, first))
        (omega (arith, size)) in
    let tail =
      regroup (be_bytes 2 (length k)) k (be_bytes 4 (length (v ∷ vs))) (values_bytes (v ∷ vs))
        (entry_bytes r) in
    ap (λ (b : List ℕ). unmarshal_loop (suc fuel) len m (entry_type v ∷ b)) tail
    ∙ unmarshal_round fuel len (entry_type v) m _ (entry_bytes r) k (v ∷ vs)
        (read_key-key_bytes len k v vs (entry_bytes r) h.0 (omega (arith, size, first, few)))
    ∙ ap (λ (n : KeyValues). unmarshal_loop fuel len n (entry_bytes r))
        (put_values-Apart k (v ∷ vs) m a.0)
    ∙ next
    ∙ ap ok (append_assoc m ((k, v ∷ vs) ∷ []) r)

-- `Encode` of a map with distinct keys and encodable values neither fails nor panics; it writes as
-- many bytes as `MarshalSize` counts, and `UnmarshalBinary` reads the map back, key by key in the
-- order written.
pub unmarshal_writes-encode_writes :
    (m : KeyValues)
    → IsEntry m
    → (b : List ℕ) × (encode_writes m ≡ ok b)
      × (marshal_size m ≡ some (length b))
      × (unmarshal_writes [] b ≡ ok m)
unfolding unmarshal_writes
unmarshal_writes-encode_writes m h =
    let b = entry_bytes m in
    let (done, size) = encode_writes-entry_bytes m h in
    (
      b,
      done,
      size,
      unmarshal_loop-entry_bytes (suc (length b)) (length b) [] m h (AllApart-nil m) (omega arith)
          (omega arith),
    )
