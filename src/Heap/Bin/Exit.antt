-- ===== src/Heap/Bin/Exit.antt =====
-- The drop of a heap (src/heap.rs), one size class at a time: its slabs go back to the pool's cache, or up
-- for adoption.
pub mod Hand
pub mod Empty
pub mod Class
use clmalloc.Base.{ℕ, ◌+◌, ◌≤◌, ◌<◌, ◌≡◌, ◌≢◌, List, length}
use clmalloc.Slab.Links.{count}
use clmalloc.Pool.State.{Machine, slab_cache_max}
use clmalloc.Heap.State.{Heap, header_at}
use clmalloc.Heap.Bin.{Beside, Ledger, owned, IsBin}
use clmalloc.Heap.Bin.Adopt.{IsChain}

-- The heap's slabs of the class, and the slabs `xs` of that class that are up for adoption. The cache of
-- the pool has a place for each slab of the heap.
pub record Leaving (f : Beside) (h : Heap) (class : ℕ) (m : Machine) (g : Ledger)
    (active loose partial full xs : List ℕ) : Type 0 where
  pub bin : IsBin f h class m.words m.nodes g active loose partial full
  pub waiting : IsChain class m.words m.nodes g (m.pool.abandoned class) xs
  pub apart : (a : ℕ) → owned active loose partial full a + count a xs ≤ 1
  pub others : (a : ℕ) → 0 < count a xs → ¬ f.slabs a
  pub queue : (c : ℕ) → c ≢ class → m.pool.abandoned c ≡ f.abandoned c
  pub cache :
      m.pool.slab_cache_len + length active + length loose + length partial + length full + f.spare
      ≤ slab_cache_max
