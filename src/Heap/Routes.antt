-- ===== src/Heap/Routes.antt =====
-- Which slab an allocation or a free ends up at.
use mathlib.Core.List.{reverse_aux}
use clmalloc.Base.{
  ℕ, suc, ◌<◌, ◌≡◌, ◌≢◌, ◌∙◌, refl, ap, true, false, Option, some, none, List, [], ◌∷◌, arith, ◌==◌,
}
use clmalloc.Base.Fun.{update}
use clmalloc.SizeClass.{class_size}
use clmalloc.SizeClass.Align.{Multiple}
use clmalloc.Slab.Links.{Words, null, count}
use clmalloc.Slab.Header.{SlabHeader, slab_size, from_ptr}
use clmalloc.Slab.Header
use clmalloc.Slab.Header.Region.{IsSlab}
use clmalloc.Slab.Header.Ops.{IsCarved-bounds, alloc-free, alloc-full}
use clmalloc.Slab.Header.Lifecycle.{drain_remote-IsSlab}
use clmalloc.Metrics.{on_alloc}
use clmalloc.Pool.State.{Machine, bind-some}
use clmalloc.Heap.State.{Heap, header_at, set_header, slab_alloc, slab_drain_remote, count_with}
use clmalloc.Heap.Alloc.{alloc_class, alloc_active}

-- The slab at `base` in the shared memory.
abbrev pub InSlab : Machine → ℕ → List ℕ → List ℕ → List ℕ → Type 0
InSlab m base frees remotes outs = IsSlab base m.words (header_at m base) frees remotes outs

-- Masking a pointer to an allocated slot gives the base of its slab.
pub from_ptr-slot :
    (m : Machine) (base : ℕ) {frees remotes outs : List ℕ}
    → Multiple slab_size base
    → InSlab m base frees remotes outs
    → (ptr : ℕ) → 0 < count ptr outs
    → from_ptr ptr ≡ base
from_ptr-slot m base (q, is) s ptr out =
    let (low, high) = IsCarved-bounds (header_at m base) ptr s.shape (s.carved ptr (omega arith)) in
    omega (arith, s.shape.wide)

slab_alloc-result :
    (m : Machine) (base : ℕ) (got : Option ℕ)
    → (Header.alloc base m.words (header_at m base)).0 ≡ got
    → slab_alloc base m
      ≡ some (got, set_header m base (Header.alloc base m.words (header_at m base)).1)
unfolding slab_alloc
slab_alloc-result m base got e = rw e refl

-- A slab's operation writes back its header and the words.
abbrev pub stored : Machine → ℕ → Words → SlabHeader → Machine
stored m base w hd = record (set_header m base hd) { words = w }

pub stored-InSlab :
    (m : Machine) (base : ℕ) (w : Words) (hd : SlabHeader) {frees remotes outs : List ℕ}
    → IsSlab base w hd frees remotes outs
    → InSlab (stored m base w hd) base frees remotes outs
stored-InSlab m base w hd s = let same : (base == base) ≡ true = ground arith in rw same s

reverse_aux-cons :
    (xs : List ℕ) (y : ℕ) (ys : List ℕ)
    → (slot : ℕ) × (rest : List ℕ) × (reverse_aux xs (y ∷ ys) ≡ slot ∷ rest)
reverse_aux-cons [] y ys = (y, ys, refl)
reverse_aux-cons (x ∷ xs) y ys = reverse_aux-cons xs x (y ∷ ys)

alloc_active-drained :
    (class : ℕ) (h : Heap) (m : Machine) {x slot : ℕ} {remotes outs rest : List ℕ}
    → InSlab m (h.bins class) [] (x ∷ remotes) outs
    → (header_at m (h.bins class)).bump_remaining ≡ 0
    → reverse_aux (x ∷ remotes) [] ≡ slot ∷ rest
    → (m' : Machine) × (alloc_active class h m ≡ some (some slot, m'))
      × InSlab m' (h.bins class) rest [] (slot ∷ outs)
unfolding alloc_active slab_drain_remote
alloc_active-drained class h m {x = x} {remotes = remotes} {outs = outs} s full order =
    let base = h.bins class in
    let nothing : (Header.alloc base m.words (header_at m base)).0 ≡ none =
      ap (λ r. r.0) (alloc-full s full) in
    let m1 = set_header m base (Header.alloc base m.words (header_at m base)).1 in
    let quiet : (Header.alloc base m.words (header_at m base)).1 ≡ header_at m base =
      ap (λ r. r.1) (alloc-full s full) in
    let s0 : IsSlab base m.words (Header.alloc base m.words (header_at m base)).1 [] (x ∷ remotes)
        outs =
      rw quiet s in
    let s1 = stored-InSlab m base m.words _ s0 in
    let (_, drained) = drain_remote-IsSlab s1 in
    let (_, w, hd) = Header.drain_remote m1.words (header_at m1 base) in
    let s2 = stored-InSlab m1 base w hd (rw order at drained) in
    let (got, s3) = alloc-free s2 in
    let m2 = stored m1 base w hd in
    (
      set_header m2 base (Header.alloc base m2.words (header_at m2 base)).1,
      bind-some (slab_alloc base) _ m (slab_alloc-result m base none nothing)
          ∙ slab_alloc-result m2 base _ got,
      stored-InSlab m2 base m2.words _ s3,
    )

-- When the active slab has no free slot and none to carve, but other threads have freed slots of it, an
-- allocation drains them and takes one; the others go to the free list.
pub alloc_class-drained :
    (fuel : ℕ) (answer : Option ℕ) (class : ℕ) (h : Heap) (m : Machine) {x : ℕ}
    {remotes outs : List ℕ}
    → h.bins class ≢ null
    → InSlab m (h.bins class) [] (x ∷ remotes) outs
    → (header_at m (h.bins class)).bump_remaining ≡ 0
    → (m' : Machine) × (slot : ℕ) × (rest : List ℕ) × (reverse_aux (x ∷ remotes) [] ≡ slot ∷ rest)
      × (alloc_class (suc fuel) answer class h m ≡ some ((some slot, h), m'))
      × InSlab m' (h.bins class) rest [] (slot ∷ outs)
unfolding alloc_class count_with
alloc_class-drained fuel answer class h m {x} {remotes} ne s full =
    let (slot, rest, order) = reverse_aux-cons remotes x [] in
    let there : (h.bins class == null) ≡ false = ground arith in
    let (m', got, left) = alloc_active-drained class h m s full order in
    (
      record m' {
        counters = update m'.counters h.id (on_alloc (m'.counters h.id) class (class_size class));
      },
      slot,
      rest,
      order,
      rw (there, alloc_class) (bind-some (alloc_active class h) _ m got),
      left,
    )
