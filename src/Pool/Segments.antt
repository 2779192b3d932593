-- ===== src/Pool/Segments.antt =====
-- The table of segments: lookups by address, and the removal of an entry.
use clmalloc.Base.{
  ℕ, zero, suc, ◌+◌, ◌-◌, ◌≤◌, ◌<◌, ◌≡◌, ◌≢◌, refl, true, false, some, arith, ◌==◌, Bool-cases, inl,
  inr, ◌⊎◌,
}
use clmalloc.Pool.State.{PoolState, inside, segment_size, find_from, find_segment}
use clmalloc.Pool.Return.{swap_remove_segment}

-- The segments in use do not overlap.
pub record IsTable (s : PoolState) : Type 0 where
  pub apart :
      (i j : ℕ)
      → i < j
      → j < s.segment_count
      → (s.segments i + segment_size ≤ s.segments j) ⊎ (s.segments j + segment_size ≤ s.segments i)

find_from-hit :
    (s : PoolState) (addr n i k : ℕ)
    → i ≤ k
    → k < i + n
    → inside (s.segments k) addr ≡ true
    → ((j : ℕ) → j < k → inside (s.segments j) addr ≡ false)
    → find_from s addr n i ≡ some k
unfolding find_from
find_from-hit s addr zero i k lo hi at before = absurd (omega arith)
find_from-hit s addr (suc n) i k lo hi at before = elim (Bool-cases (i == k)) [
  | inl e ↦ let same : i ≡ k = ground arith in rw (same, at) refl
  | inr e ↦
      let below : i < k = ground arith in
      rw (before i below) (find_from-hit s addr n (i + 1) k (omega arith) (omega arith) at before)
]

inside-apart :
    (a b addr : ℕ)
    → (a + segment_size ≤ b) ⊎ (b + segment_size ≤ a)
    → inside b addr ≡ true
    → inside a addr ≡ false
inside-apart a b addr h e = ground arith

-- `find_segment` finds the one segment that an address lies in.
pub find_segment_lem :
    (s : PoolState) (addr k : ℕ)
    → IsTable s
    → k < s.segment_count
    → s.segments k ≤ addr
    → addr < s.segments k + segment_size
    → find_segment s addr ≡ some k
unfolding find_segment
find_segment_lem s addr k t lt lo hi =
    let here : inside (s.segments k) addr ≡ true = ground arith in
    find_from-hit s addr s.segment_count 0 k (omega arith) (omega arith) here
      (λ j l. inside-apart (s.segments j) (s.segments k) addr (t.apart j k l lt) here)

-- Removing entry `idx` keeps each other segment in the table, with its count of pages in use, and
-- the entry that is carved stays the one that is carved; no entry with the removed base is left.
pub swap_remove_segment_lem :
    (s : PoolState) (idx : ℕ)
    → IsTable s
    → idx < s.segment_count
    → IsTable (swap_remove_segment s idx)
      × ((k : ℕ)
          → k < s.segment_count
          → k ≢ idx
          → (k' : ℕ) × (k' < (swap_remove_segment s idx).segment_count)
            × ((swap_remove_segment s idx).segments k' ≡ s.segments k)
            × ((swap_remove_segment s idx).seg_outstanding k' ≡ s.seg_outstanding k)
            × (s.carving_idx ≡ k → (swap_remove_segment s idx).carving_idx ≡ k'))
      × ((k : ℕ)
          → k < (swap_remove_segment s idx).segment_count
          → (swap_remove_segment s idx).segments k ≢ s.segments idx)
unfolding swap_remove_segment
swap_remove_segment_lem s idx t lt = (
  record {
    apart = λ i j l h.
        ground
          (arith, t.apart i j, t.apart i (s.segment_count - 1), t.apart j (s.segment_count - 1));
  },
  λ k l ne. elim (Bool-cases (k == s.segment_count - 1)) [
    | inl e ↦ (idx, ground arith, ground arith, ground arith, λ h. ground arith)
    | inr e ↦ (k, ground arith, ground arith, ground arith, λ h. ground arith)
  ],
  λ k l h. ground (arith, t.apart k idx, t.apart idx k, t.apart idx (s.segment_count - 1)),
)
