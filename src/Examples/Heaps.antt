-- ===== src/Examples/Heaps.antt =====
-- Allocations and frees at the slab of class 15 at address 65536, which heap 7 owns.
use clmalloc.Base.{ℕ, ◌≡◌, refl, some, none, List, [], ◌∷◌, arith}
use clmalloc.SizeClass.{class_size, next_multiple_of}
use clmalloc.SizeClass.Align.{Multiple}
use clmalloc.Slab.Links.{Words}
use clmalloc.Slab.Header.{SlabHeader, slab_size, from_ptr, init, alloc, dealloc_remote, bump}
use clmalloc.Slab.FreeList.{pop}
use clmalloc.Slab.Header.Region.{IsSlab}
use clmalloc.Slab.Header.Init.{init-IsSlab}
use clmalloc.Slab.Header.Ops.{alloc-bump, dealloc_remote-IsSlab}
use clmalloc.Metrics.{zero_metrics}
use clmalloc.Pool.State.{Machine, new_pool}
use clmalloc.Heap.State.{Heap}
use clmalloc.Heap.Alloc.{alloc_class}
use clmalloc.Heap.Routes.{InSlab, from_ptr-slot, alloc_class-drained}
use clmalloc.Examples.Slabs.{blank, used, used-IsSlab}

-- The machine whose slabs all have the header `h`.
abbrev pub machine : Words → SlabHeader → Machine
machine w h = record {
  pool = new_pool;
  words = w;
  nodes = record { header = λ base. h; cell = λ c. 0 };
  counters = λ ptr. zero_metrics;
  log = [];
}

abbrev owner : Heap
owner = record { id = 7; bins = λ class. 65536 }

pub base-aligned : Multiple slab_size 65536
base-aligned = (1, refl)

from_ptr-slot_example : from_ptr 65648 ≡ 65536
from_ptr-slot_example =
    from_ptr-slot (machine blank used) 65536 base-aligned used-IsSlab 65648 (omega arith)

-- A slab of the largest class has one slot, at 98304. It is out, then another thread frees it.
large_fresh : IsSlab 65536 blank (init 48 7) [] [] []
large_fresh = init-IsSlab 65536 blank 48 7 (omega arith) (omega arith)

abbrev pub large_used : SlabHeader
large_used = (alloc 65536 blank (init 48 7)).1

pub large_used-IsSlab : IsSlab 65536 blank large_used [] [] (98304 ∷ [])
unfolding init class_size next_multiple_of
large_used-IsSlab =
    let (slot, _, is, s) = alloc-bump large_fresh (omega arith) in
    let this : slot ≡ 98304 = omega (arith, is) in rw this at s

abbrev pub large_words : Words
large_words = (dealloc_remote blank large_used 98304).0

abbrev pub large_freed : SlabHeader
large_freed = (dealloc_remote blank large_used 98304).1

pub large_freed-IsSlab : IsSlab 65536 large_words large_freed [] (98304 ∷ []) []
large_freed-IsSlab = dealloc_remote-IsSlab large_used-IsSlab 98304 (omega arith)

pub large_exhausted : large_freed.bump_remaining ≡ 0
unfolding alloc init bump pop class_size next_multiple_of dealloc_remote
large_exhausted = refl

alloc_class-drained_example :
    (m' : Machine) × (slot : ℕ) × (rest : List ℕ) × (98304 ∷ [] ≡ slot ∷ rest)
    × (alloc_class 1 none 48 owner (machine large_words large_freed)
        ≡ some ((some slot, owner), m'))
    × InSlab m' 65536 rest [] (slot ∷ [])
alloc_class-drained_example =
    alloc_class-drained 0 none 48 owner (machine large_words large_freed) (omega arith)
      large_freed-IsSlab large_exhausted
