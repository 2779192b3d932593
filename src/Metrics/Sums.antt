-- ===== src/Metrics/Sums.antt =====
-- Sums of a function over consecutive indices, and how they change with it.
use clmalloc.Base.{
  ℕ, zero, suc, ◌+◌, ◌≤◌, ◌<◌, ◌≡◌, ◌≢◌, ap, refl, arith, ◌==◌, Bool-cases, inl, inr,
}

-- `g i + … + g (i + n - 1)`
abbrev pub sum_from : (ℕ → ℕ) → ℕ → ℕ → ℕ
sum_from g zero i = 0
sum_from g (suc n) i = g i + sum_from g n (i + 1)

sum_from-last : (g : ℕ → ℕ) (n i : ℕ) → sum_from g (suc n) i ≡ sum_from g n i + g (i + n)
sum_from-last g zero i = omega (arith, ap g zero_end)
  where
    zero_end : i + 0 ≡ i
    zero_end = omega arith
sum_from-last g (suc n) i = omega (arith, sum_from-last g n (i + 1), ap g shift)
  where
    shift : i + 1 + n ≡ i + suc n
    shift = omega arith

pub sum_from-same :
    (g f : ℕ → ℕ) (n i : ℕ)
    → ((j : ℕ) → i ≤ j → j < i + n → f j ≡ g j)
    → sum_from f n i ≡ sum_from g n i
sum_from-same g f zero i h = refl
sum_from-same g f (suc n) i h = omega (
  arith,
  h i (omega arith) (omega arith),
  sum_from-same g f n (i + 1) (λ j l k. h j (omega arith) (omega arith)),
)

-- Two sequences that differ at `k` alone.
sum_from-change :
    (g f : ℕ → ℕ) (n i k : ℕ)
    → ((j : ℕ) → j < i + n → j ≢ k → f j ≡ g j)
    → i ≤ k
    → k < i + n
    → sum_from f n i + g k ≡ sum_from g n i + f k
sum_from-change g f zero i k same lo hi = absurd (omega arith)
sum_from-change g f (suc n) i k same lo hi = elim (Bool-cases (i == k)) [
  | inl e ↦
      let at : i ≡ k = ground arith in
      omega (
        arith,
        ap g at,
        ap f at,
        sum_from-same g f n (i + 1) (λ j l h. same j (omega arith) (omega arith)),
      )
  | inr e ↦
      let ne : i ≢ k = ground arith in
      omega (
        arith,
        same i (omega arith) ne,
        sum_from-change g f n (i + 1) k (λ j h. same j (omega arith)) (omega arith) (omega arith),
      )
]

-- The last term takes the place of the one at `i`, which is left out.
pub sum_from-swap :
    (g f : ℕ → ℕ) (last i : ℕ)
    → ((j : ℕ) → j < last → j ≢ i → f j ≡ g j)
    → i ≤ last
    → (i < last → f i ≡ g last)
    → sum_from f last 0 + g i ≡ sum_from g (suc last) 0
sum_from-swap g f last i same le moved = elim (Bool-cases (i == last)) [
  | inl e ↦
      let at : i ≡ last = ground arith in
      omega (
        arith,
        ap g at,
        sum_from-same g f last 0 (λ j l h. same j (omega arith) (omega arith)),
        sum_from-last g last 0,
        ap g start,
      )
  | inr e ↦
      let ne : i < last = ground arith in
      omega (
        arith,
        moved ne,
        sum_from-change g f last 0 i (λ j l. same j (omega arith)) (omega arith) (omega arith),
        sum_from-last g last 0,
        ap g start,
      )
]
  where
    start : 0 + last ≡ last
    start = omega arith
