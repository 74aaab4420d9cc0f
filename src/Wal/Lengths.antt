-- ===== src/Wal/Lengths.antt =====
-- The sizes that `MarshalSize` of storage/store/wal_file.go counts against the bytes written.
use equinoxdb.Base.{ℕ, ◌+◌, ◌*◌, ◌≤◌, ◌≡◌, refl, ap, subst, ◌≢◌, some, List, [], ◌∷◌, ◌++◌}
use equinoxdb.Base.{arith, ◌==◌, if◌then◌else◌, length, length-append}
use equinoxdb.Bytes.{Bytes}
use equinoxdb.Values.{Value, boolean_value, float_value, integer_value, string_value}
use equinoxdb.Values.{unsigned_value, size}
use equinoxdb.Wal.Fields.{AllLike, values_bytes}
use equinoxdb.Wal.Sizes.{entry_type, strings_size, payload_size, key_size}
use equinoxdb.Wal.Writes.{payload_bytes, value_bytes}
use equinoxdb.Words.{be_bytes, length-be_bytes}

-- The bytes of a value that is not a string, time included.
abbrev fixed_len : ℕ → ℕ
fixed_len typ = if typ == 3 then 9 else 16

length-value_bytes : (v : Value) → 8 ≤ length (value_bytes v)
length-value_bytes v = omega (arith, length-append {0}, length-be_bytes)

pub length-values_bytes : (vs : List Value) → 8 * length vs ≤ length (values_bytes vs)
length-values_bytes [] = omega arith
length-values_bytes (v ∷ vs) = omega (
  arith,
  length-append (value_bytes v) (values_bytes vs),
  length-value_bytes v,
  length-values_bytes vs,
)

length-fixed : (v : Value) → entry_type v ≢ 4 → length (value_bytes v) ≡ fixed_len (entry_type v)
unfolding entry_type payload_bytes
length-fixed (float_value t v) h = omega (arith, length-append {0}, length-be_bytes)
length-fixed (integer_value t v) h = omega (arith, length-append {0}, length-be_bytes)
length-fixed (unsigned_value t v) h = omega (arith, length-append {0}, length-be_bytes)
length-fixed (boolean_value t v) h = omega (arith, length-append {0}, length-be_bytes)
length-fixed (string_value t v) h = absurd (h refl)

pub length-all_fixed :
    (typ : ℕ) (vs : List Value)
    → typ ≢ 4
    → AllLike typ vs
    → length (values_bytes vs) ≡ fixed_len typ * length vs
length-all_fixed typ [] n h = omega arith
length-all_fixed typ (v ∷ vs) n h =
    let one : length (value_bytes v) ≡ fixed_len typ =
      subst (λ (t : ℕ). t ≢ 4 → length (value_bytes v) ≡ fixed_len t) h.0.0 (length-fixed v) n in
    omega
      (arith, one, length-append (value_bytes v) (values_bytes vs), length-all_fixed typ vs n h.1)

strings_size-length :
    (vs : List Value)
    → AllLike 4 vs
    → (n : ℕ) × (strings_size vs ≡ some n) × (8 * length vs + n ≡ length (values_bytes vs))
unfolding strings_size entry_type payload_bytes
strings_size-length [] h = (0, refl, omega arith)
strings_size-length (string_value t v ∷ vs) h =
    let (n, e, size) = strings_size-length vs h.1 in
    (4 + length v + n, rw e refl, omega (arith, size, length-append {0}, length-be_bytes))
strings_size-length (float_value t v ∷ vs) h = absurd (omega (arith, h.0.0))
strings_size-length (integer_value t v ∷ vs) h = absurd (omega (arith, h.0.0))
strings_size-length (unsigned_value t v ∷ vs) h = absurd (omega (arith, h.0.0))
strings_size-length (boolean_value t v ∷ vs) h = absurd (omega (arith, h.0.0))

payload_size-length :
    (v : Value) (vs : List Value)
    → AllLike (entry_type v) vs
    → (n : ℕ) × (payload_size v vs ≡ some n) × (8 * length vs + n ≡ length (values_bytes vs))
unfolding payload_size entry_type
payload_size-length (float_value t v) vs h =
    (8 * length vs, refl, omega (arith, length-all_fixed 1 vs (omega arith) h))
payload_size-length (integer_value t v) vs h =
    (8 * length vs, refl, omega (arith, length-all_fixed 2 vs (omega arith) h))
payload_size-length (unsigned_value t v) vs h =
    (8 * length vs, refl, omega (arith, length-all_fixed 5 vs (omega arith) h))
payload_size-length (boolean_value t v) vs h =
    (length vs, refl, omega (arith, length-all_fixed 3 vs (omega arith) h))
payload_size-length (string_value t v) vs h = strings_size-length vs h

-- The bytes of a key and its values.
abbrev pub key_bytes : Bytes → Value → List Value → List ℕ
key_bytes k v vs =
    entry_type v
    ∷ (be_bytes 2 (length k) ++ (k ++ (be_bytes 4 (length (v ∷ vs)) ++ values_bytes (v ∷ vs))))

pub length-key_bytes :
    (k : Bytes) (v : Value) (vs : List Value)
    → length (key_bytes k v vs) ≡ 7 + length k + length (values_bytes (v ∷ vs))
length-key_bytes k v vs = omega (arith, length-append {0}, length-be_bytes)

pub key_size-length :
    (k : Bytes) (v : Value) (vs : List Value)
    → AllLike (entry_type v) (v ∷ vs)
    → key_size k (v ∷ vs) ≡ some (length (key_bytes k v vs))
unfolding key_size
key_size-length k v vs h =
    let (n, e, size) = payload_size-length v (v ∷ vs) h in
    rw e (ap some (omega (arith, size, length-key_bytes k v vs)))
