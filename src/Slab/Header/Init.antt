-- ===== src/Slab/Header/Init.antt =====
-- A fresh slab: `SlabHeader::init` meets its assertions and the invariant.
use native.Mathlib.Nat.{div-add-mod, mod-lt}
use clmalloc.Base.{
  ℕ, zero, suc, ◌+◌, ◌-◌, ◌*◌, ◌/◌, ◌%◌, ◌^◌, ◌≤◌, ◌<◌, ◌≡◌, refl, [], arith, ◌==◌, inl, inr,
  Bool-cases,
}
use clmalloc.SizeClass.{class_size, next_multiple_of}
use clmalloc.SizeClass.Fit.{class_size_mono}
use clmalloc.SizeClass.Lookup.{class_size_range}
use clmalloc.SizeClass.Align.{next_multiple_of_lem}
use clmalloc.Slab.Links.{Words}
use clmalloc.Slab.Header.{init, u16}
use clmalloc.Slab.Header.Region.{IsShape, IsSlab}

next_multiple_of_near : (a b : ℕ) → 0 < b → next_multiple_of a b < a + b
unfolding next_multiple_of
next_multiple_of_near a b h = elim (Bool-cases (a % b == 0)) [
  | inl e ↦ rw e (omega arith)
  | inr e ↦ let r : a % b < b = mod-lt a h in rw e (ground arith)
]

largest : class_size 48 ≡ 32768
unfolding class_size
largest = refl

second : class_size 47 ≡ 28672
unfolding class_size
second = refl

-- Every class leaves room for one slot behind the header.
room_for_one : (i : ℕ) → i < 49 → next_multiple_of 72 (class_size i) + class_size i ≤ 2 ^ 16
room_for_one i h = elim (Bool-cases (i == 48)) [
  | inl e ↦
      let top : i ≡ 48 = ground arith in rw (top, largest) (unfold next_multiple_of in omega arith)
  | inr e ↦ elim (Bool-cases (i == 47)) [
    | inl e' ↦
        let top : i ≡ 47 = ground arith in rw (top, second) (unfold next_multiple_of in omega arith)
    | inr e' ↦
        let small : i < 47 = ground arith in
        omega (
          arith,
          class_size_mono i 47 small (omega arith),
          second,
          next_multiple_of_near 72 (class_size i) (omega (arith, class_size_range i h)),
        )
  ]
]

u16-id : (n : ℕ) → n < 2 ^ 16 → u16 n ≡ n
u16-id n h = omega arith

start_cursor : (off n size : ℕ) → u16 off ≡ u16 (u16 off + (n - n) * size)
start_cursor off n size = let z : n - n ≡ 0 = omega arith in rw z (omega arith)

-- How many slots fit: at least one, and they fill the slab up to less than one slot.
quotient :
    (off size : ℕ)
    → 8 ≤ size
    → off + size ≤ 2 ^ 16
    → (0 < (2 ^ 16 - off) / size)
      × ((2 ^ 16 - off) / size < 2 ^ 16)
      × (off + (2 ^ 16 - off) / size * size ≤ 2 ^ 16)
quotient off size wide fits =
    let x = 2 ^ 16 - off in
    let q = x / size in
    let whole = div-add-mod x size in
    let rest = mod-lt x {m = size} (omega arith) in
    let some_slots : 0 < q = positive q x size (x % size) whole rest (omega arith) in
    let scaled : q * 8 ≤ q * size = scale q 8 size wide in
    (some_slots, omega (arith, whole, scaled), omega (arith, whole))
  where
    positive : (q x size r : ℕ) → size * q + r ≡ x → r < size → size ≤ x → 0 < q
    positive zero x size r e lt le = omega arith
    positive (suc q) x size r e lt le = omega arith

    scale : (q a b : ℕ) → a ≤ b → q * a ≤ q * b
    scale q a b h = grind arith

-- The header that `init` writes for any class describes slots that fit, and a slab with no slot
-- handed out.
pub init-IsSlab :
    (base : ℕ) (w : Words) (class heap_id : ℕ)
    → 0 < base
    → class < 49
    → IsSlab base w (init class heap_id) [] [] []
unfolding init
init-IsSlab base w class heap_id pos known = record {
  shape = shape;
  held = record { chain = refl; counted = refl };
  sent = refl;
  once = λ a. omega arith;
  carved = λ a p. absurd (omega arith);
  counted = omega arith;
  cursor = start_cursor off (u16 ((2 ^ 16 - off) / size)) (u16 size);
}
  where
    size : ℕ
    size = class_size class

    off : ℕ
    off = next_multiple_of 72 size

    fits : off + size ≤ 2 ^ 16
    fits = room_for_one class known

    shape : IsShape base (u16 size) (u16 off) (u16 ((2 ^ 16 - off) / size))
    shape =
        let (wide, top) = class_size_range class known in
        let (stride, behind) = next_multiple_of_lem 72 size (omega (arith, wide)) in
        let (some_slots, few, inside) = quotient off size wide fits in
        rw
          (
            u16-id size (omega (arith, top)),
            u16-id off (omega (arith, fits, wide)),
            u16-id ((2 ^ 16 - off) / size) few,
          )
          (record {
            at = pos;
            wide = wide;
            behind = behind;
            inside = inside;
            some_slots = some_slots;
            few = few;
            stride = stride;
          })
