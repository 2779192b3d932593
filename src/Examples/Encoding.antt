-- ===== src/Examples/Encoding.antt =====
-- Numbers and fields in the wire format.
use clmalloc.Base.{◌≡◌, refl, some, [], ◌∷◌, ◌++◌, arith}
use clmalloc.Pprof.Wire.{varint_loop, encode_varint, encode_value_type, encode_label}
use clmalloc.Pprof.Wire.Varint.{read_varint, read-encode_varint}
use clmalloc.Pprof.Wire.Fields.{number, read_message, read_message-pairs}

-- 300 takes two bytes.
two_bytes : encode_varint 300 ≡ 172 ∷ 2 ∷ []
unfolding encode_varint varint_loop
two_bytes = refl

read-encode_varint_example : read_varint (encode_varint 300 ++ (7 ∷ [])) ≡ some (300, 7 ∷ [])
read-encode_varint_example = read-encode_varint 300 (7 ∷ []) (omega arith)

read_message-pairs_example :
    (read_message 2 (encode_value_type 1 300) ≡ some (number 1 1 ∷ number 2 300 ∷ []))
    × (read_message 2 (encode_label 1 300) ≡ some (number 1 1 ∷ number 2 300 ∷ []))
read_message-pairs_example = read_message-pairs 1 300 (omega arith) (omega arith)
