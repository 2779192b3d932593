-- ===== src/SizeClass/Locate.antt =====
-- Where a size lies: its power-of-two group `g` and its step `j` in the group.
use native.Mathlib.Nat.{pow-suc, div-add-mod, mod-lt}
use clmalloc.Base.{
  ℕ, zero, suc, ◌+◌, ◌-◌, ◌*◌, ◌/◌, ◌%◌, ◌^◌, ◌≤◌, ◌<◌, ◌≡◌, refl, inl, inr, arith, ltb, Bool-cases,
  leb, leb→le, ltb→lt, ◌∙◌, if◌then◌else◌,
}
use native.Mathlib.Numerals.{towards_suc}
use clmalloc.SizeClass.{significant, leading_zeros, div_ceil, class_index_from_size, class_size}

pub pow_double : (n : ℕ) → 2 ^ suc n ≡ 2 * 2 ^ n
pow_double n = omega (arith, pow-suc 2 n)

pub pow_pos : (n : ℕ) → 0 < 2 ^ n
pow_pos zero = omega arith
pow_pos (suc n) = omega (arith, pow_double n, pow_pos n)

-- A number has `k + 1` significant bits when it lies between two powers of two.
pub significant-eq : (f k s : ℕ) → k < f → 2 ^ k ≤ s → s < 2 ^ suc k → significant f s ≡ suc k
unfolding significant
significant-eq zero k s h lo hi = absurd (omega arith)
significant-eq (suc f) zero s h lo hi = let e : s ≡ 1 = omega arith in rw e (zero_bits f)
  where
    zero_bits : (f : ℕ) → suc (significant f 0) ≡ 1
    zero_bits zero = refl
    zero_bits (suc f) = refl
significant-eq (suc f) (suc k) s h lo hi = ground (
  arith,
  pow_double k,
  pow_double (suc k),
  pow_pos k,
  significant-eq f k (s / 2) (omega arith) (omega (arith, pow_double k))
      (omega (arith, pow_double (suc k))),
)

pub power_below : (n s : ℕ) → 0 < s → s < 2 ^ n → (k : ℕ) × (k < n) × (2 ^ k ≤ s) × (s < 2 ^ suc k)
power_below zero s pos h = absurd (omega arith)
power_below (suc n) s pos h = elim (Bool-cases (ltb s (2 ^ n))) [
  | inl small ↦ let (k, lt, lo, hi) = power_below n s pos (ground arith) in (k, omega arith, lo, hi)
  | inr large ↦ (n, omega arith, ground arith, h)
]

-- Rounding up reaches the dividend and stays less than one divisor above it.
pub div_ceil_bounds : (x q : ℕ) → 0 < q → (x ≤ div_ceil x q * q) × (div_ceil x q * q < x + q)
unfolding div_ceil
div_ceil_bounds x q h = elim (Bool-cases (ltb 0 (x % q))) [
  | inl e ↦
      let r : 0 < x % q = ltb→lt _ _ e in
      rw e (omega (arith, div-add-mod x q, mod-lt x h), omega (arith, div-add-mod x q, mod-lt x h))
  | inr e ↦
      let r : x % q ≡ 0 = ground arith in
      rw e (omega (arith, div-add-mod x q), omega (arith, div-add-mod x q))
]

-- A size in group `g` is at step `j`: its class is `4 g + j`, of size `2 ^ (g + 3) + j 2 ^ (g + 1)`,
-- which is the size rounded up to a multiple of the step.
pub record Located (s : ℕ) : Type 0 where
  pub g : ℕ
  pub j : ℕ
  pub g_lt : g < 12
  pub j_le : j ≤ 4
  pub index : class_index_from_size s ≡ 4 * g + j
  pub low : 4 * 2 ^ suc g ≤ s
  pub reach : s ≤ 4 * 2 ^ suc g + j * 2 ^ suc g
  pub tight : 4 * 2 ^ suc g + j * 2 ^ suc g < s + 2 ^ suc g

-- The largest step that a group can need is the next group's first.
step_le : (x q j : ℕ) → x < 4 * q → j * q < x + q → j ≤ 4
step_le x q j h b = elim (Bool-cases (leb j 4)) [
  | inl e ↦ leb→le _ _ e
  | inr e ↦ absurd (far (ground arith))
]
  where
    far : 5 ≤ j → ⊥
    far l = grind arith

-- The steps of group `g`, in units of the step `q`.
group_power : (g : ℕ) → (2 ^ (g + 3) ≡ 4 * 2 ^ suc g) × (2 ^ (g + 3) / 4 ≡ 2 ^ suc g)
group_power g =
    let e : 2 ^ (g + 3) ≡ 4 * 2 ^ suc g =
      simp towards_suc (omega (arith, pow_double (suc g), pow_double (suc (suc g)))) in
    (e, omega arith)

-- The tests of the lookup, once the step `d` is known.
choose_index :
    (g d s : ℕ)
    → g < 12
    → s < 32768
    → d ≤ 4
    → (if leb 32768 s
        then 48
        else if leb 4 d
        then (if ltb 14 (g + 3 + 1) then 48 else (g + 3 + 1 - 3) * 4)
        else (g + 3 - 3) * 4 + d)
      ≡ 4 * g + d
choose_index g d s lt top le = ground arith

group_index :
    (g s : ℕ)
    → g < 12
    → s < 32768
    → significant 64 s ≡ g + 4
    → div_ceil (s - 4 * 2 ^ suc g) (2 ^ suc g) ≤ 4
    → class_index_from_size s ≡ 4 * g + div_ceil (s - 4 * 2 ^ suc g) (2 ^ suc g)
unfolding class_index_from_size leading_zeros
group_index g s lt top e fits =
    let shift : 64 - 1 - (64 - (g + 4)) ≡ g + 3 = omega arith in
    let (base, step) = group_power g in
    rw (e, shift, step, base)
      (choose_index g (div_ceil (s - 4 * 2 ^ suc g) (2 ^ suc g)) s lt top fits)

pub locate : (s : ℕ) → 8 ≤ s → s < 32768 → Located s
locate s lo hi =
    let (k, lt, low, high) = power_below 15 s (omega arith) (omega arith) in from k lt low high
  where
    at_group :
        (g : ℕ) → g < 12 → 2 ^ suc (suc (suc g)) ≤ s → s < 2 ^ suc (suc (suc (suc g))) → Located s
    at_group g lt low high =
        let d1 = pow_double (suc g) in
        let d2 = pow_double (suc (suc g)) in
        let d3 = pow_double (suc (suc (suc g))) in
        let bits : significant 64 s ≡ g + 4 =
          significant-eq 64 (suc (suc (suc g))) s (omega arith) low high ∙ omega arith in
        let (reach, tight) = div_ceil_bounds (s - 4 * 2 ^ suc g) (2 ^ suc g) (pow_pos (suc g)) in
        let few : div_ceil (s - 4 * 2 ^ suc g) (2 ^ suc g) ≤ 4 =
          step_le (s - 4 * 2 ^ suc g) (2 ^ suc g) _ (omega arith) tight in
        record {
          g = g;
          j = div_ceil (s - 4 * 2 ^ suc g) (2 ^ suc g);
          g_lt = lt;
          j_le = few;
          index = group_index g s lt hi bits few;
          low = omega arith;
          reach = omega arith;
          tight = omega arith;
        }

    from : (k : ℕ) → k < 15 → 2 ^ k ≤ s → s < 2 ^ suc k → Located s
    from zero lt low high = absurd (omega arith)
    from (suc zero) lt low high = absurd (omega arith)
    from (suc (suc zero)) lt low high = absurd (omega arith)
    from (suc (suc (suc g))) lt low high = at_group g (omega arith) low high

class_size_inner :
    (g j : ℕ) → g < 12 → j < 4 → class_size (4 * g + j) ≡ 4 * 2 ^ suc g + j * 2 ^ suc g
unfolding class_size
class_size_inner g j lt j_lt =
    let group : (4 * g + j) / 4 + 3 ≡ g + 3 = omega arith in
    let sub : (4 * g + j) % 4 ≡ j = omega arith in
    let (base, step) = group_power g in rw (group, sub, step, base) (ground arith)

-- The last step of a group is the first of the next one, or the largest class.
class_size_next : (g : ℕ) → g < 12 → class_size (4 * g + 4) ≡ 8 * 2 ^ suc g
class_size_next g lt = elim (Bool-cases (ltb g 11)) [
  | inl e ↦
      let same : 4 * g + 4 ≡ 4 * suc g + 0 = omega arith in
      rw same (
        class_size_inner (suc g) 0 (ground arith) (omega arith) ∙ omega (arith, pow_double (suc g)))
  | inr e ↦ let last : g ≡ 11 = ground arith in rw last class_size_top
]
  where
    class_size_top : class_size 48 ≡ 8 * 2 ^ 12
    class_size_top = unfold class_size in refl

-- The sizes of the classes, where step 4 stands for the class behind the group.
pub class_size_step :
    (g j : ℕ) → g < 12 → j ≤ 4 → class_size (4 * g + j) ≡ 4 * 2 ^ suc g + j * 2 ^ suc g
class_size_step g j lt le = elim (Bool-cases (ltb j 4)) [
  | inl e ↦ class_size_inner g j lt (ltb→lt _ _ e)
  | inr e ↦ let last : j ≡ 4 = ground arith in rw last (class_size_next g lt ∙ omega arith)
]
