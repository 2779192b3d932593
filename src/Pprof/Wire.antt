-- ===== src/Pprof/Wire.antt =====
-- The protobuf encoder of src/pprof.rs. A buffer is a list of bytes, and the functions return what
-- they append to it. `& 0x7F` is `% 128`, and `| 0x80` on such a byte is `+ 128`.
pub mod Varint
pub mod Fields
use clmalloc.Base.{
  ℕ, zero, suc, ◌+◌, ◌*◌, ◌/◌, ◌%◌, ◌^◌, List, [], ◌∷◌, ◌++◌, ◌==◌, if◌then◌else◌, length,
}

-- The fuel bounds the number of groups of seven bits.
unfoldable pub varint_loop : ℕ → ℕ → List ℕ
varint_loop zero val = []
varint_loop (suc fuel) val =
    let byte = val % 128 in
    let rest = varint_loop fuel (val / 128) in
    if val / 128 == 0 then byte ∷ [] else (byte + 128) ∷ rest

-- A u64 has ten groups at most.
unfoldable pub encode_varint : ℕ → List ℕ
encode_varint val = varint_loop 10 val

unfoldable pub encode_varint_field : ℕ → ℕ → List ℕ
encode_varint_field field val = encode_varint (field * 8) ++ encode_varint val

unfoldable pub encode_field : ℕ → List ℕ → List ℕ
encode_field field bytes = encode_varint (field * 8 + 2) ++ (encode_varint (length bytes) ++ bytes)

abbrev pub encode_bytes_field : ℕ → List ℕ → List ℕ
encode_bytes_field field bytes = encode_field field bytes

unfoldable pub encode_value_type : ℕ → ℕ → List ℕ
encode_value_type type_idx unit_idx =
    encode_varint_field 1 type_idx ++ encode_varint_field 2 unit_idx

unfoldable pub encode_label : ℕ → ℕ → List ℕ
encode_label key str_val = encode_varint_field 1 key ++ encode_varint_field 2 str_val
