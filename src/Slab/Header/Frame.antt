-- ===== src/Slab/Header/Frame.antt =====
-- What the operations of a slab write: link words of its own slots, and no link of its header.
use clmalloc.Base.{
  ℕ, zero, suc, ◌+◌, ◌^◌, ltb, ltb→lt, ◌≤◌, ◌<◌, ◌≡◌, ◌≢◌, ◌⊎◌, inl, inr, ◌∙◌, refl, false, some,
  List, [], ◌∷◌, arith, ◌==◌, length, Bool-cases,
}
use clmalloc.SizeClass.Align.{Multiple}
use clmalloc.Slab.Links.{Words, null, count, Chain, Chain-update}
use clmalloc.Slab.FreeList.{SlotFreeList, push, pop}
use clmalloc.Slab.Header.{SlabHeader, slab_size, u16, bump, alloc, drain_loop, drain_remote}
use clmalloc.Slab.Header.Region.{IsSlab}
use clmalloc.Slab.Header.Ops.{IsCarved-bounds, alloc-free, alloc-bump}

-- The same words outside the page at `base`.
abbrev pub SameOutside : ℕ → Words → Words → Type 0
SameOutside base w v = (a : ℕ) → (a < base) ⊎ (base + 2 ^ 16 ≤ a) → v a ≡ w a

Chain-frame :
    (w v : Words) (p : ℕ) (xs : List ℕ)
    → Chain w p xs
    → ((a : ℕ) → 0 < count a xs → v a ≡ w a)
    → Chain v p xs
Chain-frame w v p [] c same = c
Chain-frame w v p (x ∷ xs) c same =
    let (at, some_slot, rest) = c in
    let word : v x ≡ w x = same x (ground arith) in
    (at, some_slot, rw word (Chain-frame w v (w x) xs rest (λ a h. same a (ground arith))))

-- A slab depends on the words of its own slots alone.
pub IsSlab-frame :
    {base : ℕ} {w : Words} {h : SlabHeader} {frees remotes outs : List ℕ} (v : Words)
    → IsSlab base w h frees remotes outs
    → ((a : ℕ) → base + 72 ≤ a → a + 8 ≤ base + 2 ^ 16 → v a ≡ w a)
    → IsSlab base v h frees remotes outs
IsSlab-frame {base} {w} {h} {frees} {remotes} {outs} v s same = record {
  shape = s.shape;
  held = record {
    chain = Chain-frame w v h.«local».head frees s.held.chain (λ a m. word a (omega arith));
    counted = s.held.counted;
  };
  sent = Chain-frame w v h.remote remotes s.sent (λ a m. word a (omega arith));
  once = s.once;
  carved = s.carved;
  counted = s.counted;
  cursor = s.cursor;
}
  where
    word : (a : ℕ) → 0 < count a frees + count a remotes + count a outs → v a ≡ w a
    word a m =
        let (low, high) = IsCarved-bounds h a s.shape (s.carved a m) in
        same a low (omega (arith, high, s.shape.wide))

-- A slot of one slab lies in the page of no other.
pub pages_apart :
    (base other a : ℕ)
    → Multiple slab_size base
    → Multiple slab_size other
    → other ≢ base
    → base + 72 ≤ a
    → a + 8 ≤ base + 2 ^ 16
    → (a < other) ⊎ (other + 2 ^ 16 ≤ a)
pages_apart base other a (i, e) (j, f) ne low high = elim (Bool-cases (ltb j i)) [
  | inl t ↦ inr (omega (arith, ltb→lt _ _ t))
  | inr t ↦ inl (apart (ground arith))
]
  where
    apart : i ≤ j → a < other
    apart le = omega arith

-- Allocating keeps the links, the owner and the class of the header.
pub alloc-links :
    (base : ℕ) (w : Words) (h : SlabHeader)
    → ((alloc base w h).1.next_link ≡ h.next_link)
      × ((alloc base w h).1.prev_link ≡ h.prev_link)
      × ((alloc base w h).1.heap_id ≡ h.heap_id)
      × ((alloc base w h).1.size_class_index ≡ h.size_class_index)
unfolding alloc bump pop
alloc-links base w h = ground arith

-- A slab with a free slot, or one left to carve, serves an allocation.
pub alloc-room :
    {base : ℕ} {w : Words} {h : SlabHeader} (frees : List ℕ) {remotes outs : List ℕ}
    → IsSlab base w h frees remotes outs
    → 0 < length frees + h.bump_remaining
    → (slot : ℕ) × (frees' : List ℕ) × ((alloc base w h).0 ≡ some slot)
      × IsSlab base w (alloc base w h).1 frees' remotes (slot ∷ outs)
alloc-room [] s room =
    let (slot, got, _, after) = alloc-bump s (omega arith) in (slot, [], got, after)
alloc-room (x ∷ frees) s room = let (got, after) = alloc-free s in (x, frees, got, after)

drain_loop-frame :
    (fuel : ℕ) (w : Words) (l : SlotFreeList) (n cursor : ℕ) (rs : List ℕ) (a : ℕ)
    → Chain w cursor rs
    → ((b : ℕ) → count b rs ≤ 1)
    → count a rs ≡ 0
    → (drain_loop fuel w l n cursor).1 a ≡ w a
unfolding drain_loop push
drain_loop-frame zero w l n cursor rs a c once out = refl
drain_loop-frame (suc fuel) w l n cursor [] a c once out = rw c refl
drain_loop-frame (suc fuel) w l n cursor (r ∷ rs) a c once out =
    let (at, some_slot, rest) = c in
    let alone : (r == null) ≡ false = ground arith in
    let apart : (a == r) ≡ false = ground arith in
    let ih =
      drain_loop-frame fuel (push w l r).0 (push w l r).1 (u16 (n + 1)) (w r) rs a
        (Chain-update w r l.head (w r) rs rest (ground (arith, once r)))
        (λ b. ground (arith, once b)) (ground arith) in
    rw (at, alone) (ih ∙ ground (arith, apart))

-- Draining writes only slots of its slab, and keeps the links of the header.
pub drain_remote-SameOutside :
    {base : ℕ} {w : Words} {h : SlabHeader} {frees remotes outs : List ℕ}
    → IsSlab base w h frees remotes outs
    → SameOutside base w (drain_remote w h).1
unfolding drain_remote
drain_remote-SameOutside {base} {w} {h} {frees} {remotes} {outs} s a far =
    drain_loop-frame h.slot_count w h.«local» 0 h.remote remotes a s.sent
      (λ b. omega (arith, s.once b)) absent
  where
    absent : count a remotes ≡ 0
    absent = elim (Bool-cases (count a remotes == 0)) [
      | inl e ↦ ground arith
      | inr e ↦
          let (low, high) = IsCarved-bounds h a s.shape (s.carved a (ground arith)) in
          absurd (omega (arith, s.shape.wide, far))
    ]

pub drain_remote-links :
    (w : Words) (h : SlabHeader)
    → ((drain_remote w h).2.next_link ≡ h.next_link)
      × ((drain_remote w h).2.prev_link ≡ h.prev_link)
      × ((drain_remote w h).2.bump_remaining ≡ h.bump_remaining)
unfolding drain_remote
drain_remote-links w h = (refl, refl, refl)
