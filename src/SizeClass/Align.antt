-- ===== src/SizeClass/Align.antt =====
-- The class of a layout has a size that is a multiple of the layout's alignment.
use native.Mathlib.Nat.{div-add-mod, mod-lt}
use Prim.Native.Nat.{max}
use clmalloc.Base.{
  ℕ, zero, suc, ◌+◌, ◌*◌, ◌/◌, ◌%◌, ◌^◌, ◌≤◌, ◌<◌, ◌≡◌, refl, sym, ap, ◌∙◌, inl, inr, some, arith,
  ltb, leb, ◌==◌, Bool-cases, leb→le, ltb→lt,
}
use clmalloc.SizeClass.{Layout, IsLayout, effective_size, next_multiple_of, class_index, class_size}
use clmalloc.SizeClass.Locate.{pow_double, pow_pos, Located, locate, class_size_step}
use clmalloc.SizeClass.Fit.{Best, Best-unique}
use clmalloc.SizeClass.Fit
use clmalloc.SizeClass.Lookup.{class_index-Best}

-- `n` is a multiple of `d`.
abbrev pub Multiple : ℕ → ℕ → Type 0
Multiple d n = (m : ℕ) × (n ≡ m * d)

pow_split : (e f : ℕ) → e ≤ f → Multiple (2 ^ e) (2 ^ f)
pow_split e zero h = let z : e ≡ 0 = omega arith in (1, rw z refl)
pow_split e (suc f) h = elim (Bool-cases (e == suc f)) [
  | inl same ↦ let is : e ≡ suc f = ground arith in (1, rw is (omega arith))
  | inr less ↦
      let (m, is) = pow_split e f (ground arith) in (2 * m, pow_double f ∙ rw is (omega arith))
]

pub next_multiple_of_lem :
    (a b : ℕ) → 0 < b → Multiple b (next_multiple_of a b) × (a ≤ next_multiple_of a b)
unfolding next_multiple_of
next_multiple_of_lem a b h = elim (Bool-cases (a % b == 0)) [
  | inl e ↦
      let z : a % b ≡ 0 = ground arith in
      rw e ((a / b, omega (arith, div-add-mod a b)), omega arith)
  | inr e ↦
      let r : a % b < b = mod-lt a h in
      rw e ((a / b + 1, omega (arith, div-add-mod a b, r)), omega (arith, r))
]

-- A multiple of a power of two that is positive and below 8 shows that the power divides 8.
small_power : (e n : ℕ) → 0 < n → n < 8 → Multiple (2 ^ e) n → Multiple (2 ^ e) 8
small_power e n pos lt (m, is) = elim (Bool-cases (leb e 3)) [
  | inl le ↦ pow_split e 3 (leb→le _ _ le)
  | inr gt ↦
      let (k, big) = pow_split 3 e (ground arith) in
      absurd (too_big (2 ^ e) m k big (pow_pos e) (rw (← is) pos) (rw (← is) lt))
]
  where
    too_big : (p m k : ℕ) → p ≡ k * 2 ^ 3 → 0 < p → 0 < m * p → m * p < 8 → ⊥
    too_big p zero k big pp pos lt = omega arith
    too_big p (suc m) zero big pp pos lt = omega arith
    too_big p (suc m) (suc k) big pp pos lt = omega arith

-- A positive size rounded up to a power of two, and to 8 at least, is still a multiple.
effective-Multiple :
    (l : Layout) (e : ℕ) → l.align ≡ 2 ^ e → 0 < l.size → Multiple (2 ^ e) (effective_size l)
effective-Multiple l e is pos =
    rw is (pick (next_multiple_of l.size (2 ^ e)) (next_multiple_of_lem l.size (2 ^ e) (pow_pos e)))
  where
    pick : (n : ℕ) → Multiple (2 ^ e) n × (l.size ≤ n) → Multiple (2 ^ e) (max n 8)
    pick n (m, le) = elim (Bool-cases (ltb n 8)) [
      | inl lt ↦
          let eight : max n 8 ≡ 8 = ground arith in
          rw eight (small_power e n (omega arith) (ltb→lt _ _ lt) m)
      | inr ge ↦ let same : max n 8 ≡ n = ground arith in rw same m
    ]

mul_gap : (a b q : ℕ) → a < b → a * q + q ≤ b * q
mul_gap a b q h = grind arith

-- Between two multiples of a step there is none.
multiples_meet : (q x y : ℕ) → 0 < q → Multiple q x → Multiple q y → x ≤ y → y < x + q → y ≡ x
multiples_meet q x y pos (m, xm) (n, yn) le lt = elim (Bool-cases (n == m)) [
  | inl e ↦ let same : n ≡ m = ground arith in yn ∙ ap (λ (t : ℕ). t * q) same ∙ sym xm
  | inr e ↦ elim (Bool-cases (ltb n m)) [
    | inl e' ↦ absurd (omega (arith, mul_gap n m q (ltb→lt _ _ e')))
    | inr e' ↦ absurd (omega (arith, mul_gap m n q (ground arith)))
  ]
]

Located-Multiple :
    (s e : ℕ)
    → (at : Located s) → Multiple (2 ^ e) s
    → Multiple (2 ^ e) (class_size (4 * at.g + at.j))
Located-Multiple s e at ms =
    rw (class_size_step at.g at.j at.g_lt at.j_le) (elim (Bool-cases (leb e (suc at.g))) [
      | inl le ↦
          let (m, is) = pow_split e (suc at.g) (leb→le _ _ le) in
          ((4 + at.j) * m, rw is (omega arith))
      | inr gt ↦
          let (m, is) = pow_split (suc at.g) e (ground arith) in
          let (n, is') = ms in
          let whole : Multiple (2 ^ suc at.g) s = (n * m, is' ∙ rw is (omega arith)) in
          rw
            (multiples_meet (2 ^ suc at.g) s (4 * 2 ^ suc at.g + at.j * 2 ^ suc at.g)
              (pow_pos (suc at.g)) whole (4 + at.j, omega arith) at.reach at.tight)
            ms
    ])

Best-Multiple :
    (s e i : ℕ)
    → 8 ≤ s
    → s ≤ 32768
    → Multiple (2 ^ e) s
    → Best s i
    → Multiple (2 ^ e) (class_size i)
Best-Multiple s e i lo hi ms best = elim (Bool-cases (ltb s 32768)) [
  | inl lt ↦
      let at = locate s lo (ltb→lt _ _ lt) in
      let same : i ≡ 4 * at.g + at.j =
        Best-unique s i _ best (rw at.index at (Fit.class_index_from_size-Best s lo hi)) in
      rw same (Located-Multiple s e at ms)
  | inr ge ↦
      let top : s ≡ 32768 = ground arith in
      let best48 = Fit.class_size-Best 48 (omega arith) in
      let last : class_size 48 ≡ 32768 = unfold class_size in refl in
      let same : i ≡ 48 = Best-unique s i 48 best (rw (last, ← top) at best48) in
      rw (same, last, ← top) ms
]

-- Whatever class a layout of positive size is given, the size of that class is at least the
-- layout's size and a multiple of its alignment.
pub class_index-align :
    (l : Layout) (i : ℕ)
    → IsLayout l
    → 0 < l.size
    → class_index l ≡ some i
    → (l.size ≤ class_size i) × Multiple l.align (class_size i)
class_index-align l i valid pos is = elim (class_index-Best l) [
  | inl (_, gone) ↦ cc (is, gone)
  | inr (j, found, hi, best) ↦
      let same : j ≡ i = cc (found, is) in
      let (m, le) =
        next_multiple_of_lem l.size l.align (rw valid.align_pow (pow_pos valid.exponent)) in
      rw (← same) (
        omega (arith, best.fit, le),
        rw valid.align_pow (
            Best-Multiple (effective_size l) valid.exponent j (omega arith) hi
              (effective-Multiple l valid.exponent valid.align_pow pos) best),
      )
]
