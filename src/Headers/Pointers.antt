-- ===== src/Headers/Pointers.antt =====
-- Round trips of the records of fixed size: value pointers and value file headers.
use equinoxdb.Base.{◌+◌, ◌*◌, ◌/◌, sym, ap, subst, none, [], ◌∷◌, append-nil, if◌then◌else◌}
use equinoxdb.Base.{take, drop, All, take-append, drop-append}
use equinoxdb.Headers.{append_to, decode_loop, decode_value_ptrs, VFileHeader, header_size}
use equinoxdb.Headers.{header_bytes, is_empty_header, unmarshal_header}
use equinoxdb.Base.{refl, ◌∙◌, false, append_assoc, arith, ltb, le→ltb, length-append}
use equinoxdb.Words.{length-be_bytes, read_then, time_bits_twice, time_bits-lt}
use equinoxdb.Base.{ℕ, ◌^◌, ◌<◌, ◌≡◌, some, List, ◌++◌, length}
use equinoxdb.Headers.{ValuePtr, value_ptr_size, ptr_bytes, unmarshal_ptr}

-- The fields fit their words.
abbrev pub Fits : ValuePtr → Type 0
Fits v =
    (v.min_time < 2 ^ 64)
    × (v.max_time < 2 ^ 64)
    × (v.offset < 2 ^ 64)
    × (v.file_no < 2 ^ 32)
    × (v.size < 2 ^ 32)
    × (v.life_cycle < 2 ^ 16)

pub length-ptr_bytes : (v : ValuePtr) → length (ptr_bytes v) ≡ value_ptr_size
unfolding ptr_bytes
length-ptr_bytes v = omega (arith, length-append {0}, length-be_bytes)

read_ptr : (v : ValuePtr) (rest : List ℕ) → Fits v → unmarshal_ptr (ptr_bytes v ++ rest) ≡ some v
unfolding unmarshal_ptr ptr_bytes
read_ptr v rest h =
    let enough : ltb (length (ptr_bytes v ++ rest)) value_ptr_size ≡ false =
      le→ltb _ _ (omega (arith, length-append (ptr_bytes v) rest, length-ptr_bytes v)) in
    rw enough (
      simp append_assoc (
        read_then 8 _ _ _ (time_bits-lt v.min_time)
        ∙ read_then 8 _ _ _ (time_bits-lt v.max_time)
        ∙ read_then 8 _ _ _ (h.2)
        ∙ read_then 4 _ _ _ (h.3)
        ∙ read_then 4 _ _ _ (h.4)
        ∙ read_then 2 _ _ _ (h.5)
        ∙ rw (time_bits_twice v.min_time h.0, time_bits_twice v.max_time h.1) refl))

abbrev pub AllFit : List ValuePtr → Type 0
AllFit = All Fits

abbrev pub all_bytes : List ValuePtr → List ℕ
all_bytes [] = []
all_bytes (v ∷ vs) = ptr_bytes v ++ all_bytes vs

length-all_bytes : (vs : List ValuePtr) → length (all_bytes vs) ≡ value_ptr_size * length vs
length-all_bytes [] = omega arith
length-all_bytes (v ∷ vs) =
    omega
      (arith, length-append (ptr_bytes v) (all_bytes vs), length-ptr_bytes v, length-all_bytes vs)

module _ (v : ValuePtr) (rest : List ℕ) where
  take-ptr_bytes : take value_ptr_size (ptr_bytes v ++ rest) ≡ ptr_bytes v
  take-ptr_bytes =
      subst (λ (k : ℕ). take k (ptr_bytes v ++ rest) ≡ ptr_bytes v) (length-ptr_bytes v)
        (take-append (ptr_bytes v) rest)

  drop-ptr_bytes : drop value_ptr_size (ptr_bytes v ++ rest) ≡ rest
  drop-ptr_bytes =
      subst (λ (k : ℕ). drop k (ptr_bytes v ++ rest) ≡ rest) (length-ptr_bytes v)
        (drop-append (ptr_bytes v) rest)

decode_loop-all_bytes :
    (vs : List ValuePtr) (rest : List ℕ)
    → AllFit vs
    → decode_loop (length vs) (all_bytes vs ++ rest) ≡ some vs
unfolding decode_loop
decode_loop-all_bytes [] rest h = refl
decode_loop-all_bytes (v ∷ vs) rest h =
    let whole = append_assoc (ptr_bytes v) (all_bytes vs) rest in
    let first : unmarshal_ptr (ptr_bytes v) ≡ some v =
      ap unmarshal_ptr (sym (append-nil (ptr_bytes v))) ∙ read_ptr v [] h.0 in
    rw (whole, take-ptr_bytes v (all_bytes vs ++ rest), drop-ptr_bytes v (all_bytes vs ++ rest))
      (rw (first, decode_loop-all_bytes vs rest h.1) refl)

-- `DecodeValuePtrs` gives back the pointers that `AppendTo` wrote one behind the other, whatever
-- fewer than 34 bytes follow them.
pub decode_value_ptrs-all_bytes :
    (v : ValuePtr) (vs : List ValuePtr) (rest : List ℕ)
    → AllFit (v ∷ vs)
    → length rest < value_ptr_size
    → decode_value_ptrs (all_bytes (v ∷ vs) ++ rest) ≡ some (v ∷ vs)
unfolding decode_value_ptrs
decode_value_ptrs-all_bytes v vs rest h short =
    let b = all_bytes (v ∷ vs) ++ rest in
    let size : length b ≡ value_ptr_size * length (v ∷ vs) + length rest =
      omega (arith, length-append (all_bytes (v ∷ vs)) rest, length-all_bytes (v ∷ vs)) in
    let enough : ltb (length b) value_ptr_size ≡ false = le→ltb _ _ (omega (arith, size)) in
    let count : length b / value_ptr_size ≡ length (v ∷ vs) = omega (arith, size) in
    rw (enough, count) (decode_loop-all_bytes (v ∷ vs) rest h)

-- `UnmarshalBinary` reads what `AppendTo` wrote to the front of a buffer, and the bytes behind the
-- pointer are those that were there.
pub unmarshal_ptr-append_to :
    (v : ValuePtr) (b : List ℕ)
    → Fits v
    → (unmarshal_ptr (append_to v b) ≡ some v)
      × (drop value_ptr_size (append_to v b) ≡ drop value_ptr_size b)
unfolding append_to
unmarshal_ptr-append_to v b h =
    (read_ptr v (drop value_ptr_size b) h, drop-ptr_bytes v (drop value_ptr_size b))

abbrev pub HeaderFits : VFileHeader → Type 0
HeaderFits f =
    (f.key_len < 2 ^ 16)
    × (f.data_len < 2 ^ 32)
    × (f.key_hash < 2 ^ 64)
    × (f.min_time < 2 ^ 64)
    × (f.max_time < 2 ^ 64)

-- `UnmarshalBinary` gives back a header that `MarshalBinary` wrote, whatever follows it, unless
-- all its fields are 0: then it is refused.
pub unmarshal_header-header_bytes :
    (f : VFileHeader) (rest : List ℕ)
    → HeaderFits f
    → unmarshal_header (header_bytes f ++ rest) ≡ (if is_empty_header f then none else some f)
unfolding unmarshal_header header_bytes
unmarshal_header-header_bytes f rest h =
    let enough : ltb (length (header_bytes f ++ rest)) header_size ≡ false =
      le→ltb _ _ (omega (arith, length-append {0}, length-be_bytes)) in
    rw enough (
      simp append_assoc (
        read_then 8 _ _ _ (h.2)
        ∙ read_then 8 _ _ _ (time_bits-lt f.min_time)
        ∙ read_then 8 _ _ _ (time_bits-lt f.max_time)
        ∙ read_then 4 _ _ _ (h.1)
        ∙ read_then 2 _ _ _ (h.0)
        ∙ rw (time_bits_twice f.min_time h.3, time_bits_twice f.max_time h.4) refl))
