-- ===== src/Booleans/RoundTrip.antt =====
-- What the encoder holds after some writes, and reading it back.
use equinoxdb.Base.{◌^◌, lt→ltb, le→ltb, take-append}
use equinoxdb.Booleans.{reset, encoded, new_decoder, set_bytes, read_all}
use equinoxdb.Booleans.Bits.{length-bits}
use equinoxdb.Varint.{uvarint-put_uvarint}
use equinoxdb.Base.{ℕ, zero, suc, ◌+◌, ◌-◌, ◌*◌, ◌%◌, ◌≤◌, ◌<◌, ◌≡◌, refl, sym, ap, ◌∙◌, subst}
use equinoxdb.Base.{inl, inr, Bool, true, false, some, List, [], ◌∷◌, ◌++◌, append-nil}
use equinoxdb.Base.{append_assoc, arith, ltb, if◌then◌else◌, ltb→lt, Bool-cases, length}
use equinoxdb.Base.{get_elem?, take, drop, length-append, get_elem?-some}
use equinoxdb.Booleans.{BooleanEncoder, pad, flush, push_bit, write, write_all, read_loop}
use equinoxdb.Booleans.Bits.{low_bits, bits, bits-append, read_at-bits, low_bits-shift}

abbrev falses : ℕ → List Bool
falses zero = []
falses (suc k) = false ∷ falses k

-- The encoder holds `vs`: whole bytes, and the bits of the current one.
record Holds (e : BooleanEncoder) (vs : List Bool) : Type 0 where
  stored : bits e.bytes ++ low_bits e.i e.b ≡ vs
  counted : e.n ≡ length vs
  room : e.i ≤ 8

pad-falses :
    (rounds i b : ℕ) → rounds + i ≡ 8 → low_bits 8 (pad rounds b) ≡ low_bits i b ++ falses rounds
unfolding pad
pad-falses zero i b h =
    let full : i ≡ 8 = omega arith in
    subst (λ (k : ℕ). low_bits 8 b ≡ low_bits k b ++ []) (sym full)
      (sym (append-nil (low_bits 8 b)))
pad-falses (suc rounds) i b h =
    let plain : b * 2 % 256 ≡ b * 2 % 256 + 0 = omega arith in
    pad-falses rounds (suc i) (b * 2 % 256) (omega arith)
    ∙ ap (λ l. l ++ falses rounds)
        (ap (low_bits (suc i)) plain ∙ low_bits-shift i b 0 (omega arith) (omega arith))
    ∙ append_assoc (low_bits i b) (false ∷ []) (falses rounds)

flush-bits :
    (e : BooleanEncoder)
    → e.i ≤ 8
    → bits (flush e).bytes ≡ (bits e.bytes ++ low_bits e.i e.b) ++ falses (8 - e.i)
unfolding flush
flush-bits e h =
    bits-append e.bytes (pad (8 - e.i) e.b ∷ [])
    ∙ ap (◌++◌ (bits e.bytes))
        (append-nil (low_bits 8 (pad (8 - e.i) e.b)) ∙ pad-falses (8 - e.i) e.i e.b (omega arith))
    ∙ sym (append_assoc (bits e.bytes) (low_bits e.i e.b) (falses (8 - e.i)))

push_bit-low_bits :
    (i b : ℕ) (v : Bool)
    → i < 8
    → low_bits (suc i) (if v then b * 2 % 256 + 1 else b * 2 % 256) ≡ low_bits i b ++ (v ∷ [])
push_bit-low_bits i b true h = low_bits-shift i b 1 h (omega arith)
push_bit-low_bits i b false h =
    let plain : b * 2 % 256 ≡ b * 2 % 256 + 0 = omega arith in
    ap (low_bits (suc i)) plain ∙ low_bits-shift i b 0 h (omega arith)

push_bit-Holds :
    (e : BooleanEncoder) (vs : List Bool) (v : Bool)
    → e.i < 8
    → Holds e vs
    → Holds (push_bit e v) (vs ++ (v ∷ []))
unfolding push_bit
push_bit-Holds e vs v h k = record {
  stored =
      ap (◌++◌ (bits e.bytes)) (push_bit-low_bits e.i e.b v h)
      ∙ sym (append_assoc (bits e.bytes) (low_bits e.i e.b) (v ∷ []))
      ∙ ap (λ l. l ++ (v ∷ [])) k.stored;
  counted = omega (arith, k.counted, length-append vs (v ∷ []));
  room = omega arith;
}

flush-empty : (e : BooleanEncoder) → (flush e).i < 8
unfolding flush
flush-empty e = omega arith

flush-Holds : (e : BooleanEncoder) (vs : List Bool) → e.i ≡ 8 → Holds e vs → Holds (flush e) vs
unfolding flush
flush-Holds e vs h k =
    let none_left : 8 - e.i ≡ 0 = omega arith in
    record {
      stored =
          append-nil (bits (e.bytes ++ (pad (8 - e.i) e.b ∷ [])))
          ∙ flush-bits e k.room
          ∙ ap (λ (r : ℕ). (bits e.bytes ++ low_bits e.i e.b) ++ falses r) none_left
          ∙ append-nil (bits e.bytes ++ low_bits e.i e.b)
          ∙ k.stored;
      counted = k.counted;
      room = omega arith;
    }

write-Holds :
    (e : BooleanEncoder) (vs : List Bool) (v : Bool)
    → Holds e vs
    → Holds (write e v) (vs ++ (v ∷ []))
unfolding write
write-Holds e vs v k = elim (Bool-cases (ltb e.i 8)) [
  | inl open_byte ↦ rw open_byte (push_bit-Holds e vs v (ltb→lt e.i 8 open_byte) k)
  | inr full ↦
      let h : e.i ≡ 8 = ground (arith, k.room) in
      rw full (push_bit-Holds (flush e) vs v (flush-empty e) (flush-Holds e vs h k))
]

write_all-Holds :
    (e : BooleanEncoder) (ws vs : List Bool) → Holds e ws → Holds (write_all e vs) (ws ++ vs)
unfolding write_all
write_all-Holds e ws [] k = rw append-nil k
write_all-Holds e ws (v ∷ vs) k =
    subst (Holds (write_all (write e v) vs)) (append_assoc ws (v ∷ []) vs)
      (write_all-Holds (write e v) (ws ++ (v ∷ [])) vs (write-Holds e ws v k))

reset-Holds : Holds reset []
unfolding reset
reset-Holds = record { stored = refl; counted = refl; room = omega arith }

drop-get_elem? :
    {A : Type 0} (l : List A) (i : ℕ) (x : A)
    → get_elem? l i ≡ some x
    → drop i l ≡ x ∷ drop (suc i) l
drop-get_elem? [] i x e = cc
drop-get_elem? (y ∷ l) zero x e = cc
drop-get_elem? (y ∷ l) (suc i) x e = drop-get_elem? l i x e

read_loop-take :
    (left : ℕ) (block : List ℕ) (i : ℕ)
    → i + left ≤ length (bits block)
    → read_loop left block i ≡ some (take left (drop i (bits block)))
unfolding read_loop
read_loop-take zero block i h = refl
read_loop-take (suc left) block i h =
    let (x, e) = get_elem?-some (bits block) i (omega arith) in
    let rest = read_loop-take left block (suc i) (omega arith) in
    rw (read_at-bits block i, e, rest, drop-get_elem? (bits block) i x e)

take-append_more : {A : Type 0} (n : ℕ) (xs ys : List A) → n ≡ length xs → take n (xs ++ ys) ≡ xs
take-append_more n xs ys e = rw e (take-append xs ys)

-- The decoder reads back the booleans that were written, in order and no others, after any number
-- of writes to a new encoder that an int can count.
pub read_all-encoded :
    (vs : List Bool)
    → length vs < 2 ^ 63
    → read_all (set_bytes new_decoder (encoded (write_all reset vs))) ≡ some vs
unfolding read_all set_bytes encoded
read_all-encoded vs h =
    let e = write_all reset vs in
    let k : Holds e vs = write_all-Holds reset [] vs reset-Holds in
    let block = (flush e).bytes in
    let packed : bits block ≡ vs ++ falses (8 - e.i) =
      flush-bits e k.room ∙ ap (λ l. l ++ falses (8 - e.i)) k.stored in
    let read = uvarint-put_uvarint e.n block (omega (arith, k.counted)) in
    let size : length (bits block) ≡ length vs + length (falses (8 - e.i)) =
      ap length packed ∙ length-append vs (falses (8 - e.i)) in
    let enough : ltb (length block * 8) e.n ≡ false =
      le→ltb (length block * 8) e.n (omega (arith, size, length-bits block, k.counted)) in
    let small : ltb e.n (2 ^ 63) ≡ true = lt→ltb e.n (2 ^ 63) (omega (arith, k.counted)) in
    let all = read_loop-take e.n block 0 (omega (arith, size, k.counted)) in
    let whole : e.n - 0 ≡ e.n = omega arith in
    rw (read, small, enough, whole)
      (all ∙ ap some (ap (take e.n) packed ∙ take-append_more e.n vs (falses (8 - e.i)) k.counted))
