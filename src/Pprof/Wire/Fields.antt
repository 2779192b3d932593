-- ===== src/Pprof/Wire/Fields.antt =====
-- A reader of protobuf fields, written from the format, and the round trip of a whole message.
use mathlib.Core.List.{append_assoc, append-nil}
use clmalloc.Base.{
  ℕ, zero, suc, ◌+◌, ◌*◌, ◌/◌, ◌%◌, ◌^◌, ◌<◌, ◌≡◌, refl, Option, none, some, List, [], ◌∷◌, ◌++◌,
  arith, ◌==◌, if◌then◌else◌, length,
}
use clmalloc.Pprof.Wire.{
  encode_varint, encode_varint_field, encode_field, encode_value_type, encode_label,
}
use clmalloc.Pprof.Wire.Varint.{read_varint, read-encode_varint}

-- A field with its number: a varint, or a block of bytes.
pub data Field : Type 0 where
  number : (field val : ℕ) → Field
  block : (field : ℕ) (bytes : List ℕ) → Field

unfoldable pub split_at : ℕ → List ℕ → Option (List ℕ × List ℕ)
split_at zero xs = some ([], xs)
split_at (suc n) [] = none
split_at (suc n) (x ∷ xs) = elim (split_at n xs) [
  | none ↦ none
  | some (front, back) ↦ some (x ∷ front, back)
]

unfoldable pub read_payload : ℕ → List ℕ → Option (Field × List ℕ)
read_payload tag bytes = elim (read_varint bytes) [
  | none ↦ none
  | some (n, rest) ↦
      if tag % 8 == 0
      then some (number (tag / 8) n, rest)
      else if tag % 8 == 2
      then (elim (split_at n rest) [
        | none ↦ none
        | some (front, back) ↦ some (block (tag / 8) front, back)
      ])
      else none
]

unfoldable pub read_field : List ℕ → Option (Field × List ℕ)
read_field bytes = elim (read_varint bytes) [
  | none ↦ none
  | some (tag, rest) ↦ read_payload tag rest
]

split_at-append : (xs ys : List ℕ) → split_at (length xs) (xs ++ ys) ≡ some (xs, ys)
unfolding split_at
split_at-append [] ys = refl
split_at-append (x ∷ xs) ys = rw (split_at-append xs ys)

-- A varint field is read back as its number and value.
pub read_field-number :
    (field val : ℕ) (rest : List ℕ)
    → field < 2 ^ 32
    → val < 2 ^ 64
    → read_field (encode_varint_field field val ++ rest) ≡ some (number field val, rest)
unfolding read_field read_payload encode_varint_field
read_field-number field val rest hf hv =
    rw
      (
        append_assoc,
        read-encode_varint (field * 8) (encode_varint val ++ rest) (omega arith),
        read_field,
        read-encode_varint val rest hv,
        read_payload,
      )
      (ground arith)

-- A length-delimited field is read back as its number and bytes.
pub read_field-block :
    (field : ℕ) (bytes rest : List ℕ)
    → field < 2 ^ 32
    → length bytes < 2 ^ 64
    → read_field (encode_field field bytes ++ rest) ≡ some (block field bytes, rest)
unfolding read_field read_payload encode_field
read_field-block field bytes rest hf hv =
    rw
      (
        append_assoc,
        append_assoc,
        read-encode_varint (field * 8 + 2) (encode_varint (length bytes) ++ (bytes ++ rest))
            (omega arith),
        read_field,
        read-encode_varint (length bytes) (bytes ++ rest) hv,
        read_payload,
      )
      (ground (arith, split_at-append bytes rest))

-- A message is a list of fields; the fuel bounds their number.
unfoldable pub read_message : ℕ → List ℕ → Option (List Field)
read_message fuel [] = some []
read_message zero (b ∷ bytes) = none
read_message (suc fuel) (b ∷ bytes) = elim (read_field (b ∷ bytes)) [
  | none ↦ none
  | some (f, rest) ↦ elim (read_message fuel rest) [ none ↦ none | some fs ↦ some (f ∷ fs) ]
]

read_message-cons :
    (fuel : ℕ) (bytes : List ℕ) (f : Field) (rest : List ℕ) (fs : List Field)
    → read_field bytes ≡ some (f, rest)
    → read_message fuel rest ≡ some fs
    → read_message (suc fuel) bytes ≡ some (f ∷ fs)
unfolding read_message
read_message-cons fuel [] f rest fs h k = unfold read_field read_varint in cc
read_message-cons fuel (b ∷ bytes) f rest fs h k = rw (h, read_message, k) refl

-- The two-number messages, value types and labels, are read back as their two fields.
pub read_message-pairs :
    (a b : ℕ)
    → a < 2 ^ 64
    → b < 2 ^ 64
    → (read_message 2 (encode_value_type a b) ≡ some (number 1 a ∷ number 2 b ∷ []))
      × (read_message 2 (encode_label a b) ≡ some (number 1 a ∷ number 2 b ∷ []))
unfolding encode_value_type encode_label
read_message-pairs a b ha hb = (pair, pair)
  where
    last : read_message 1 (encode_varint_field 2 b) ≡ some (number 2 b ∷ [])
    last =
        read_message-cons 0 (encode_varint_field 2 b) (number 2 b) [] []
          (rw append-nil at (read_field-number 2 b [] (omega arith) hb))
          (unfold read_message in refl)

    pair :
        read_message 2 (encode_varint_field 1 a ++ encode_varint_field 2 b)
        ≡ some (number 1 a ∷ number 2 b ∷ [])
    pair =
        read_message-cons 1 _ (number 1 a) (encode_varint_field 2 b) (number 2 b ∷ [])
          (read_field-number 1 a (encode_varint_field 2 b) (omega arith) ha) last
