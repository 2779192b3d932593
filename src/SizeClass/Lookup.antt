-- ===== src/SizeClass/Lookup.antt =====
-- `class_index` and its table: what a layout is mapped to, and that the class serves it.
use clmalloc.Base.{
  ℕ, zero, suc, ◌+◌, ◌-◌, ◌*◌, ◌/◌, ◌%◌, ◌^◌, ◌≤◌, ◌<◌, ◌≡◌, true, refl, ap, ◌∙◌, inl, inr, none,
  some, arith, ltb, ◌==◌, Bool-cases, ltb→lt, get_or, if◌then◌else◌, ◌⊎◌,
}
use clmalloc.SizeClass.{
  Layout, effective_size, next_multiple_of, class_index_from_size, table_entry, fill, class_table,
  class_index, class_size,
}
use clmalloc.SizeClass.Locate.{pow_double, class_size_step}
use clmalloc.SizeClass.Fit.{
  Best, Best-unique, class_size_mono, class_size-Best, class_index_from_size-Best,
}

get_or-fill : (n i j d : ℕ) → j < n → get_or (fill n i) j d ≡ table_entry (i + j)
unfolding fill
get_or-fill zero i j d h = absurd (omega arith)
get_or-fill (suc n) i zero d h = ap table_entry (omega arith)
get_or-fill (suc n) i (suc j) d h =
    get_or-fill n (i + 1) j d (omega arith) ∙ ap table_entry (omega arith)

-- The step `2 ^ (g + 1)` is even, and so is the size of each class.
class_size_even : (i : ℕ) → i < 49 → class_size i % 2 ≡ 0
class_size_even i h = elim (Bool-cases (ltb i 48)) [
  | inl e ↦
      let small : i < 48 = ltb→lt _ _ e in
      let g = i / 4 in
      let this : i ≡ 4 * g + i % 4 = omega arith in
      rw this (
        rw (class_size_step g (i % 4) (omega arith) (omega arith), pow_double g)
          (even (2 ^ g) (i % 4)))
  | inr e ↦ let top : i ≡ 48 = ground arith in rw top (unfold class_size in refl)
]
  where
    even : (p r : ℕ) → (4 * (2 * p) + r * (2 * p)) % 2 ≡ 0
    even p r =
        let e : 4 * (2 * p) + r * (2 * p) ≡ 2 * (4 * p + r * p) = omega arith in rw e (omega arith)

-- Rounding a size up to an even number does not change its class: classes end on even sizes.
index_of_even :
    (s t : ℕ)
    → 8 ≤ s
    → s ≤ t
    → t ≤ s + s % 2
    → t ≤ 32768
    → class_index_from_size t ≡ class_index_from_size s
index_of_even s t lo le near hi =
    let b = class_index_from_size-Best s lo (omega arith) in
    Best-unique t _ _ (class_index_from_size-Best t (omega arith) hi) (record {
      known = b.known;
      fit = omega (arith, b.fit, class_size_even (class_index_from_size s) b.known);
      smallest = λ c lt. omega (arith, b.smallest c lt);
    })

-- The table agrees with the bit arithmetic at every size from 8 to 32768, odd ones included.
pub class_table_lem :
    (s : ℕ) → 8 ≤ s → s ≤ 32768 → get_or class_table ((s - 1) / 2) 0 ≡ class_index_from_size s
unfolding class_table
class_table_lem s lo hi = get_or-fill 16384 0 ((s - 1) / 2) 0 (omega arith) ∙ entry
  where
    zero_add : (n : ℕ) → 0 + n ≡ n
    zero_add n = omega arith

    entry : table_entry (0 + (s - 1) / 2) ≡ class_index_from_size s
    entry =
        unfold table_entry in
        let even : (if ltb (((s - 1) / 2 + 1) * 2) 8 then 8 else ((s - 1) / 2 + 1) * 2)
            ≡ ((s - 1) / 2 + 1) * 2 =
          ground arith in
        ap (λ (t : ℕ). class_index_from_size (if ltb ((t + 1) * 2) 8 then 8 else (t + 1) * 2))
          (zero_add ((s - 1) / 2))
        ∙ ap class_index_from_size even
        ∙ index_of_even s (((s - 1) / 2 + 1) * 2) lo (omega arith) (omega arith) (omega arith)

effective_bounds : (l : Layout) → 8 ≤ effective_size l
effective_bounds l = omega arith

-- Layouts whose rounded size passes 32768 have no class, and every other one has the smallest
-- class that holds the rounded size.
pub class_index-Best :
    (l : Layout)
    → ((32768 < effective_size l) × (class_index l ≡ none))
      ⊎ ((i : ℕ) × (class_index l ≡ some i)
          × (effective_size l ≤ 32768)
          × Best (effective_size l) i)
unfolding class_index
class_index-Best l = elim (Bool-cases (ltb 32768 (effective_size l))) [
  | inl e ↦ inl (ltb→lt _ _ e, rw e)
  | inr e ↦
      let hi : effective_size l ≤ 32768 = ground arith in
      let lo = effective_bounds l in
      inr (
        class_index_from_size (effective_size l),
        rw (e, class_table_lem (effective_size l) lo hi),
        hi,
        class_index_from_size-Best (effective_size l) lo hi,
      )
]

pub class_size_range : (i : ℕ) → i < 49 → (8 ≤ class_size i) × (class_size i ≤ 32768)
class_size_range i h = (low, high)
  where
    first : class_size 0 ≡ 8
    first = unfold class_size in refl

    last : class_size 48 ≡ 32768
    last = unfold class_size in refl

    low : 8 ≤ class_size i
    low = elim (Bool-cases (i == 0)) [
      | inl e ↦ omega (arith, ap class_size (zero_of e), first)
      | inr e ↦ omega (arith, class_size_mono 0 i (ground arith) h, first)
    ]
      where
        zero_of : (i == 0) ≡ true → i ≡ 0
        zero_of e = ground arith

    high : class_size i ≤ 32768
    high = elim (Bool-cases (i == 48)) [
      | inl e ↦ omega (arith, ap class_size (last_of e), last)
      | inr e ↦ omega (arith, class_size_mono i 48 (ground arith) (omega arith), last)
    ]
      where
        last_of : (i == 48) ≡ true → i ≡ 48
        last_of e = ground arith

-- A layout of the size of a class, at alignment 1, is served by that class.
pub class_index-class_size :
    (i : ℕ) → i < 49 → class_index (record { size = class_size i; align = 1 }) ≡ some i
class_index-class_size i h = elim (class_index-Best l) [
  | inl (large, _) ↦ absurd (omega (arith, same, class_size_range i h))
  | inr (j, is, _, best) ↦
      is ∙ ap some (Best-unique (class_size i) j i (rw same at best) (class_size-Best i h))
]
  where
    l : Layout
    l = record { size = class_size i; align = 1 }

    same : effective_size l ≡ class_size i
    same = unfold next_multiple_of in let (lo, hi) = class_size_range i h in ground arith
