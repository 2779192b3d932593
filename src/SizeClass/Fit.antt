-- ===== src/SizeClass/Fit.antt =====
-- The class that `class_index_from_size` picks is the smallest that fits, and wastes a quarter at most.
use clmalloc.Base.{
  ℕ, zero, suc, ◌+◌, ◌-◌, ◌*◌, ◌/◌, ◌%◌, ◌^◌, ◌≤◌, ◌<◌, ◌≡◌, refl, inl, inr, arith, ltb, ◌==◌,
  Bool-cases, ltb→lt, ap,
}
use clmalloc.SizeClass.{class_index_from_size, class_size}
use clmalloc.SizeClass.Locate.{Located, locate, pow_pos, class_size_step}

class_size_next : (i : ℕ) → i < 48 → class_size i < class_size (suc i)
class_size_next i h =
    let g = i / 4 in
    let this : i ≡ 4 * g + i % 4 = omega arith in
    let next : suc i ≡ 4 * g + (i % 4 + 1) = omega arith in
    omega (
      arith,
      class_size_step g (i % 4) (omega arith) (omega arith),
      class_size_step g (i % 4 + 1) (omega arith) (omega arith),
      ap class_size this,
      ap class_size next,
      pow_pos (suc g),
    )

mul_pred : (j q : ℕ) → 0 < j → j * q ≡ (j - 1) * q + q
mul_pred zero q h = absurd (omega arith)
mul_pred (suc j) q h = let e : suc j - 1 ≡ j = omega arith in rw e (omega arith)

-- Larger class indices have larger sizes.
pub class_size_mono : (i j : ℕ) → i < j → j < 49 → class_size i < class_size j
class_size_mono i zero h top = absurd (omega arith)
class_size_mono i (suc j) h top = elim (Bool-cases (i == j)) [
  | inl e ↦ let same : i ≡ j = ground arith in rw same (class_size_next j (omega arith))
  | inr e ↦
      let below : i < j = ground arith in
      omega (arith, class_size_mono i j below (omega arith), class_size_next j (omega arith))
]

-- Class `i` is the smallest one that holds `s` bytes.
pub record Best (s i : ℕ) : Type 0 where
  pub known : i < 49
  pub fit : s ≤ class_size i
  pub smallest : (c : ℕ) → c < i → class_size c < s

pub Best-unique : (s i j : ℕ) → Best s i → Best s j → i ≡ j
Best-unique s i j a b = elim (Bool-cases (ltb i j)) [
  | inl e ↦ absurd (omega (arith, a.fit, b.smallest i (ltb→lt _ _ e)))
  | inr e ↦ elim (Bool-cases (ltb j i)) [
    | inl e' ↦ absurd (omega (arith, b.fit, a.smallest j (ltb→lt _ _ e')))
    | inr e' ↦ ground arith
  ]
]

-- Every class is the best one for its own size.
pub class_size-Best : (i : ℕ) → i < 49 → Best (class_size i) i
class_size-Best i h = record {
  known = h;
  fit = omega arith;
  smallest = λ c lt. class_size_mono c i lt h;
}

class_size_top : class_size 48 ≡ 32768
unfolding class_size
class_size_top = refl

module _ (s : ℕ) (at : Located s) where
  open at use {g, j, g_lt, j_le, index, low, reach, tight}

  size_at : class_size (4 * g + j) ≡ 4 * 2 ^ suc g + j * 2 ^ suc g
  size_at = class_size_step g j g_lt j_le

  -- The class just below holds less, also across the border of a group.
  size_before : (c : ℕ) → 4 * g + j ≡ suc c → class_size c < s
  size_before c e = elim (Bool-cases (j == 0)) [
    | inl z ↦
        let first : j ≡ 0 = ground arith in
        omega (
          arith,
          class_size_next c (omega arith),
          ap class_size e,
          size_at,
          ap (λ (t : ℕ). t * 2 ^ suc g) first,
        )
    | inr n ↦
        let before : c ≡ 4 * g + (j - 1) = ground arith in
        let split : j * 2 ^ suc g ≡ (j - 1) * 2 ^ suc g + 2 ^ suc g =
          mul_pred j (2 ^ suc g) (ground arith) in
        omega (arith, ap class_size before, class_size_step g (j - 1) g_lt (omega arith), split)
  ]

  below : (c : ℕ) → c < 4 * g + j → class_size c < s
  below c lt = elim (Bool-cases (suc c == 4 * g + j)) [
    | inl e ↦ size_before c (ground arith)
    | inr e ↦
        let (p, is) = pred_of (4 * g + j) (omega arith) in
        omega (arith, size_before p is, class_size_mono c p (ground arith) (omega arith))
  ]
    where
      pred_of : (n : ℕ) → 0 < n → (p : ℕ) × (n ≡ suc p)
      pred_of zero h = absurd (omega arith)
      pred_of (suc p) h = (p, refl)

  known : 4 * g + j < 49
  known = omega arith

  located-Best : Best s (class_index_from_size s)
  located-Best =
      rw index (record { known = omega arith; fit = omega (arith, size_at); smallest = below })

  located_waste : 4 * class_size (class_index_from_size s) ≤ 5 * s
  located_waste = rw index (omega (arith, size_at))

index_top : (s : ℕ) → 32768 ≤ s → class_index_from_size s ≡ 48
unfolding class_index_from_size
index_top s h = ground arith

-- For every size that the assertion admits, the bit arithmetic finds the smallest class that fits.
pub class_index_from_size-Best : (s : ℕ) → 8 ≤ s → s ≤ 32768 → Best s (class_index_from_size s)
class_index_from_size-Best s lo hi = elim (Bool-cases (ltb s 32768)) [
  | inl e ↦ located-Best s (locate s lo (ltb→lt _ _ e))
  | inr e ↦
      let top : s ≡ 32768 = ground arith in
      rw (top, index_top 32768 (omega arith))
        (rw class_size_top at (class_size-Best 48 (omega arith)))
]

-- The chosen class is at most a quarter larger than the size.
pub class_index_from_size_waste :
    (s : ℕ) → 8 ≤ s → s ≤ 32768 → 4 * class_size (class_index_from_size s) ≤ 5 * s
class_index_from_size_waste s lo hi = elim (Bool-cases (ltb s 32768)) [
  | inl e ↦ located_waste s (locate s lo (ltb→lt _ _ e))
  | inr e ↦
      let top : s ≡ 32768 = ground arith in
      rw (top, index_top 32768 (omega arith)) (omega (arith, class_size_top))
]
