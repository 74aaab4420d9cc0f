-- ===== src/Examples/HeaderCases.antt =====
-- Records of fixed size: storage/store/vfile_ptr.go and storage/store/vfile_footer.go.
use equinoxdb.Words.{be_bytes, read_word}
use equinoxdb.Base.{◌^◌, ◌≡◌, refl, none, some, [], ◌∷◌, ◌++◌, arith}
use equinoxdb.Headers.{ValuePtr, decode_value_ptrs, VFileHeader, header_bytes, is_empty_header}
use equinoxdb.Headers.{unmarshal_header}
use equinoxdb.Headers.Pointers.{Fits, all_bytes, decode_value_ptrs-all_bytes}

abbrev first_ptr : ValuePtr
first_ptr = record {
  min_time = 3;
  max_time = 9;
  offset = 100;
  file_no = 2;
  size = 40;
  life_cycle = 1;
}

first_ptr-Fits : Fits first_ptr
first_ptr-Fits = (omega arith, omega arith, omega arith, omega arith, omega arith, omega arith)

decode_value_ptrs-all_bytes_example :
    decode_value_ptrs (all_bytes (first_ptr ∷ first_ptr ∷ []) ++ (5 ∷ []))
    ≡ some (first_ptr ∷ first_ptr ∷ [])
decode_value_ptrs-all_bytes_example =
    decode_value_ptrs-all_bytes first_ptr (first_ptr ∷ []) (5 ∷ [])
      (first_ptr-Fits, (first_ptr-Fits, tt)) (omega arith)

-- A test: a header of zeros is refused.
abbrev zero_header : VFileHeader
zero_header = record {
  key_len = 0;
  data_len = 0;
  key_hash = 0;
  min_time = 2 ^ 63;
  max_time = 2 ^ 63;
}

unmarshal_header_test : unmarshal_header (header_bytes zero_header) ≡ none
unfolding unmarshal_header header_bytes is_empty_header be_bytes read_word
unmarshal_header_test = refl
