-- ===== src/Headers.antt =====
-- storage/store/vfile_ptr.go and storage/store/vfile_footer.go: records of fixed size.
pub mod Pointers
use equinoxdb.Base.{◌>>=◌}
use equinoxdb.Base.{ℕ, zero, suc, ◌/◌, ◌^◌, Bool, ◌&&◌, Option, none, some, List, [], ◌∷◌, ◌++◌}
use equinoxdb.Base.{ltb, ◌==◌, if◌then◌else◌, length, take, drop}
use equinoxdb.Words.{be_bytes, read_word, time_bits}

-- `Offset` is its 64 bits.
pub record ValuePtr : Type 0 where
  pub min_time : ℕ
  pub max_time : ℕ
  pub offset : ℕ
  pub file_no : ℕ
  pub size : ℕ
  pub life_cycle : ℕ

-- ValuePtrSize
abbrev pub value_ptr_size : ℕ
value_ptr_size = 34

unfoldable pub ptr_bytes : ValuePtr → List ℕ
ptr_bytes v =
    be_bytes 8 (time_bits v.min_time)
    ++ (be_bytes 8 (time_bits v.max_time)
        ++ (be_bytes 8 v.offset
            ++ (be_bytes 4 v.file_no ++ (be_bytes 4 v.size ++ be_bytes 2 v.life_cycle))))

-- `AppendTo`: the first 34 bytes of the buffer are overwritten; a shorter one is replaced.
unfoldable pub append_to : ValuePtr → List ℕ → List ℕ
unfolding ptr_bytes
append_to v b = ptr_bytes v ++ drop value_ptr_size b

-- `UnmarshalBinary`; `none` is the error for a short buffer.
unfoldable pub unmarshal_ptr : List ℕ → Option ValuePtr
unmarshal_ptr b = if ltb (length b) value_ptr_size then none else (do
  x ← read_word 8 b
  y ← read_word 8 x.1
  o ← read_word 8 y.1
  f ← read_word 4 o.1
  s ← read_word 4 f.1
  l ← read_word 2 s.1
  some (record {
    min_time = time_bits x.0;
    max_time = time_bits y.0;
    offset = o.0;
    file_no = f.0;
    size = s.0;
    life_cycle = l.0;
  }))

-- The loop of `DecodeValuePtrs`; a piece that cannot be read would be a pointer of zeros.
unfoldable pub decode_loop : ℕ → List ℕ → Option (List ValuePtr)
unfolding unmarshal_ptr
decode_loop zero b = some []
decode_loop (suc count) b = do
  v ← unmarshal_ptr (take value_ptr_size b)
  r ← decode_loop count (drop value_ptr_size b)
  some (v ∷ r)

unfoldable pub decode_value_ptrs : List ℕ → Option (List ValuePtr)
unfolding decode_loop
decode_value_ptrs b =
    if ltb (length b) value_ptr_size then none else decode_loop (length b / value_ptr_size) b

pub record VFileHeader : Type 0 where
  pub key_len : ℕ
  pub data_len : ℕ
  pub key_hash : ℕ
  pub min_time : ℕ
  pub max_time : ℕ

-- VFileHeaderSize
abbrev pub header_size : ℕ
header_size = 30

-- `MarshalBinary`
unfoldable pub header_bytes : VFileHeader → List ℕ
header_bytes f =
    be_bytes 8 f.key_hash
    ++ (be_bytes 8 (time_bits f.min_time)
        ++ (be_bytes 8 (time_bits f.max_time) ++ (be_bytes 4 f.data_len ++ be_bytes 2 f.key_len)))

-- A header of zeros is refused; the time 0 stands 2^63 above the smallest one.
unfoldable pub is_empty_header : VFileHeader → Bool
is_empty_header f =
    f.key_len == 0
    && f.min_time == 2 ^ 63
    && f.max_time == 2 ^ 63
    && f.data_len == 0
    && f.key_hash == 0

-- `UnmarshalBinary`; `none` is either of its errors.
unfoldable pub unmarshal_header : List ℕ → Option VFileHeader
unfolding is_empty_header
unmarshal_header b = if ltb (length b) header_size then none else (do
  h ← read_word 8 b
  x ← read_word 8 h.1
  y ← read_word 8 x.1
  d ← read_word 4 y.1
  k ← read_word 2 d.1
  let f : VFileHeader = record {
    key_len = k.0;
    data_len = d.0;
    key_hash = h.0;
    min_time = time_bits x.0;
    max_time = time_bits y.0;
  }
  if is_empty_header f then none else some f)
