-- ===== src/Sys/Trim.antt =====
-- Over-allocating and trimming leaves exactly the block that was asked for.
use native.Mathlib.Nat.{div-add-mod, mod-lt, mul-sub, mul_comm}
use clmalloc.Base.Words64.{add64, sub64}
use clmalloc.Base.{
  ℕ, ◌∙◌, ap, sym, true, false, ◌==◌, ◌+◌, ◌-◌, ◌*◌, ◌/◌, ◌^◌, ◌≤◌, ◌<◌, ◌≡◌, refl, some, List, [],
  ◌∷◌, ◌++◌, arith, ltb, ◌⊎◌, inl, inr, Bool-cases, ltb→lt,
}
use clmalloc.SizeClass.{Layout}
use clmalloc.Sys.{Region, aligned_addr, unmap, mmap_alloc}
use clmalloc.SizeClass.Align.{Multiple}

-- Some call of the list removes the byte; `removes` says which bytes a call of `munmap` removes.
abbrev pub Covers : (Region → ℕ → Type 0) → List Region → ℕ → Type 0
Covers removes [] a = ⊥
Covers removes (r ∷ rs) a = removes r a ⊎ Covers removes rs a

-- The documented behaviour of `munmap` on whole pages: it removes the bytes of the region and no others.
-- Nothing is said of a call whose start or length is no multiple of the page.
pub record IsMunmap (page : ℕ) (removes : Region → ℕ → Type 0) : Type 0 where
  pub all :
      (r : Region)
      → Multiple page r.start
      → Multiple page r.len
      → 0 < r.len
      → (a : ℕ) → r.start ≤ a
      → a < r.start + r.len
      → removes r a
  pub only :
      (r : Region)
      → Multiple page r.start
      → Multiple page r.len
      → 0 < r.len
      → (a : ℕ) → removes r a
      → (r.start ≤ a) × (a < r.start + r.len)

abbrev block : ℕ → ℕ → ℕ
block raw align = (raw + align - 1) / align * align

block_bounds :
    (raw align : ℕ) → 0 < align → (raw ≤ block raw align) × (block raw align < raw + align)
block_bounds raw align pos =
    let whole = div-add-mod (raw + align - 1) align in
    let rest = mod-lt (raw + align - 1) {m = align} pos in
    (omega (arith, whole, rest), omega (arith, whole))

-- With no sum that wraps.
mmap_alloc-plain :
    (raw : ℕ) (layout : Layout)
    → 0 < raw
    → 0 < layout.align
    → raw + (layout.size + layout.align) < 2 ^ 64
    → mmap_alloc (some raw) layout ≡ (
      some (block raw layout.align),
      unmap raw (block raw layout.align - raw)
          ++ unmap
              (block raw layout.align + layout.size)
              ((raw + (layout.size + layout.align)) - (block raw layout.align + layout.size)),
    )
unfolding mmap_alloc
mmap_alloc-plain raw layout pos apos fits =
    let (low, high) = block_bounds raw layout.align apos in
    let sum : sub64 (add64 raw layout.align) 1 ≡ raw + layout.align - 1 = omega arith in
    let at : aligned_addr raw layout.align ≡ block raw layout.align =
      ap (λ (n : ℕ). n / layout.align * layout.align) sum in
    let some_block : (block raw layout.align == 0) ≡ false = ground arith in
    let whole : add64 raw (add64 layout.size layout.align) ≡ raw + (layout.size + layout.align) =
      omega arith in
    let last : add64 (block raw layout.align) layout.size ≡ block raw layout.align + layout.size =
      omega arith in
    let head : sub64 (block raw layout.align) raw ≡ block raw layout.align - raw = omega arith in
    let tail : sub64 (raw + (layout.size + layout.align)) (block raw layout.align + layout.size)
        ≡ (raw + (layout.size + layout.align)) - (block raw layout.align + layout.size) =
      omega arith in
    rw (at, some_block, whole, last, head, tail) refl

Multiple-sum : (p x y : ℕ) → Multiple p x → Multiple p y → Multiple p (x + y)
Multiple-sum p x y (i, e) (j, f) = (i + j, grind arith)

mul-sub-right : (i j p : ℕ) → (i - j) * p ≡ i * p - j * p
mul-sub-right i j p = mul_comm (i - j) p ∙ mul-sub p i j ∙ rw (mul_comm p i, mul_comm p j) refl

Multiple-difference : (p x y : ℕ) → Multiple p x → Multiple p y → Multiple p (x - y)
Multiple-difference p x y (i, e) (j, f) = (i - j, rw (e, f) (sym (mul-sub-right i j p)))

Multiple-trans : (p x y : ℕ) → Multiple p x → Multiple x y → Multiple p y
Multiple-trans p x y (i, e) (j, f) = (j * i, grind arith)

module _ (removes : Region → ℕ → Type 0) where
  Covers-left : (xs ys : List Region) (a : ℕ) → Covers removes xs a → Covers removes (xs ++ ys) a
  Covers-left [] ys a c = absurd c
  Covers-left (x ∷ xs) ys a (inl c) = inl c
  Covers-left (x ∷ xs) ys a (inr c) = inr (Covers-left xs ys a c)

  Covers-right : (xs ys : List Region) (a : ℕ) → Covers removes ys a → Covers removes (xs ++ ys) a
  Covers-right [] ys a c = c
  Covers-right (x ∷ xs) ys a c = inr (Covers-right xs ys a c)

  append-Covers :
      (xs ys : List Region) (a : ℕ)
      → Covers removes (xs ++ ys) a
      → Covers removes xs a ⊎ Covers removes ys a
  append-Covers [] ys a c = inr c
  append-Covers (x ∷ xs) ys a (inl c) = inl (inl c)
  append-Covers (x ∷ xs) ys a (inr c) = elim (append-Covers xs ys a c) [
    | inl d ↦ inl (inr d)
    | inr d ↦ inr d
  ]

module _ (page : ℕ) {removes : Region → ℕ → Type 0} (works : IsMunmap page removes) where
  -- A call of whole pages removes the bytes it names.
  unmap-Covers :
      (start len a : ℕ)
      → Multiple page start
      → Multiple page len
      → start ≤ a
      → a < start + len
      → Covers removes (unmap start len) a
  unmap-Covers start len a at whole low high = elim (Bool-cases (ltb 0 len)) [
    | inl e ↦
        rw e
          (inl (works.all (record { start = start; len = len }) at whole (ltb→lt _ _ e) a low high))
    | inr e ↦ absurd (ground arith)
  ]

  Covers-unmap :
      (start len a : ℕ)
      → Multiple page start
      → Multiple page len
      → Covers removes (unmap start len) a
      → (start ≤ a) × (a < start + len)
  Covers-unmap start len a at whole c = elim (Bool-cases (ltb 0 len)) [
    | inl e ↦ one e (rw e at c)
    | inr e ↦ absurd (rw e at c)
  ]
    where
      one :
          ltb 0 len ≡ true
          → removes (record { start = start; len = len }) a ⊎ ⊥
          → (start ≤ a) × (a < start + len)
      one e (inl c) = works.only (record { start = start; len = len }) at whole (ltb→lt _ _ e) a c
      one e (inr c) = absurd c

  -- With a mapping at a positive address and a layout, all of whole pages, and no address that wraps, the
  -- block returned is aligned and lies in the mapping; the calls of `munmap` remove each other byte of the
  -- mapping, and no byte of the block, nor any outside the mapping.
  pub mmap_alloc_lem :
      (raw : ℕ) (layout : Layout)
      → 0 < raw
      → 0 < layout.align
      → Multiple page raw
      → Multiple page layout.align
      → Multiple page layout.size
      → raw + (layout.size + layout.align) < 2 ^ 64
      → (addr : ℕ) × ((mmap_alloc (some raw) layout).0 ≡ some addr)
        × Multiple layout.align addr
        × (raw ≤ addr)
        × (addr + layout.size ≤ raw + (layout.size + layout.align))
        × ((a : ℕ)
            → raw ≤ a
            → a < raw + (layout.size + layout.align)
            → ((addr ≤ a) × (a < addr + layout.size))
              ⊎ Covers removes (mmap_alloc (some raw) layout).1 a)
        × ((a : ℕ)
            → Covers removes (mmap_alloc (some raw) layout).1 a
            → (raw ≤ a)
              × (a < raw + (layout.size + layout.align))
              × ((a < addr) ⊎ (addr + layout.size ≤ a)))
  mmap_alloc_lem raw layout pos apos at aligned whole fits =
      let (low, high) = block_bounds raw layout.align apos in
      let addr = block raw layout.align in
      let leading = addr - raw in
      let stop = raw + (layout.size + layout.align) in
      let trailing = stop - (addr + layout.size) in
      let multiple : Multiple layout.align addr = ((raw + layout.align - 1) / layout.align, refl) in
      let start = Multiple-trans page layout.align addr aligned multiple in
      let end = Multiple-sum page addr layout.size start whole in
      let head = Multiple-difference page addr raw start at in
      let size = Multiple-sum page layout.size layout.align whole aligned in
      let tail =
        Multiple-difference page stop (addr + layout.size)
          (Multiple-sum page raw (layout.size + layout.align) at size) end in
      (
        addr,
        rw (mmap_alloc-plain raw layout pos apos fits) refl,
        multiple,
        low,
        omega arith,
        λ a h k. rw (mmap_alloc-plain raw layout pos apos fits) (elim (Bool-cases (ltb a addr)) [
          | inl e ↦ inr (
              Covers-left removes (unmap raw leading) (unmap (addr + layout.size) trailing) a
                (unmap-Covers raw leading a at head h (ground arith)))
          | inr e ↦ elim (Bool-cases (ltb a (addr + layout.size))) [
            | inl e' ↦ inl (ground arith, ltb→lt _ _ e')
            | inr e' ↦ inr (
                Covers-right removes (unmap raw leading) (unmap (addr + layout.size) trailing) a (
                  unmap-Covers (addr + layout.size) trailing a end tail (ground arith)
                    (ground arith)))
          ]
        ]),
        λ a c.
            elim (append-Covers removes (unmap raw leading) (unmap (addr + layout.size) trailing) a
              (rw (mmap_alloc-plain raw layout pos apos fits) at c)) [
                | inl d ↦
                    let (from, below) = Covers-unmap raw leading a at head d in
                    (from, omega arith, inl (omega arith))
                | inr d ↦
                    let (from, below) = Covers-unmap (addr + layout.size) trailing a end tail d in
                    (omega arith, omega arith, inr from)
              ],
      )
