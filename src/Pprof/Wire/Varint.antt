-- ===== src/Pprof/Wire/Varint.antt =====
-- A reader of protobuf varints, written from the format and not from the encoder, and the round trip.
use native.Mathlib.Nat.{pow-suc}
use clmalloc.Base.{
  ℕ, zero, suc, ◌+◌, ◌*◌, ◌/◌, ◌%◌, ◌^◌, ◌≤◌, ◌<◌, ◌≡◌, ap, Option, none, some, List, [], ◌∷◌, ◌++◌,
  arith, ltb, ◌==◌, if◌then◌else◌, length, inl, inr, Bool-cases, All, false,
}
use clmalloc.Pprof.Wire.{varint_loop, encode_varint}

-- The bytes of a varint carry seven bits each, the lowest first; the last one is below 128.
unfoldable pub read_varint : List ℕ → Option (ℕ × List ℕ)
read_varint [] = none
read_varint (b ∷ rest) =
    let more : Option (ℕ × List ℕ) = elim (read_varint rest) [
      | none ↦ none
      | some (high, rest') ↦ some (b % 128 + 128 * high, rest')
    ] in
    if ltb b 128 then some (b, rest) else more

pow128 : (k : ℕ) → 128 ^ suc k ≡ 128 * 128 ^ k
pow128 k = omega (arith, pow-suc 128 k)

read-varint_loop :
    (fuel val : ℕ) (rest : List ℕ)
    → val < 128 ^ suc fuel
    → read_varint (varint_loop (suc fuel) val ++ rest) ≡ some (val, rest)
unfolding read_varint varint_loop
read-varint_loop zero val rest h = ground arith
read-varint_loop (suc fuel) val rest h = elim (Bool-cases (val / 128 == 0)) [
  | inl e ↦ rw (e, varint_loop) (ground arith)
  | inr e ↦
      let ih = read-varint_loop fuel (val / 128) rest (omega (arith, pow128 (suc fuel))) in
      rw e (
        let high : ltb (val % 128 + 128) 128 ≡ false = ground arith in
        rw (high, ih) (ap (λ (n : ℕ). some (n, rest)) (omega arith)))
]

-- What `encode_varint` writes for a u64 is read back as that number, and nothing behind it is read.
pub read-encode_varint :
    (val : ℕ) (rest : List ℕ)
    → val < 2 ^ 64
    → read_varint (encode_varint val ++ rest) ≡ some (val, rest)
unfolding encode_varint
read-encode_varint val rest h = read-varint_loop 9 val rest (omega arith)

varint_loop_bytes :
    (fuel val : ℕ)
    → All (λ b. b < 256) (varint_loop fuel val) × (length (varint_loop fuel val) ≤ fuel)
unfolding varint_loop
varint_loop_bytes zero val = (tt, omega arith)
varint_loop_bytes (suc fuel) val = ground (arith, varint_loop_bytes fuel (val / 128))

-- Every element that `encode_varint` writes is a byte, and there are ten at most.
pub encode_varint_bytes :
    (val : ℕ) → All (λ b. b < 256) (encode_varint val) × (length (encode_varint val) ≤ 10)
unfolding encode_varint
encode_varint_bytes val = varint_loop_bytes 10 val
