-- ===== src/Heap/Bin/Adopt/Adopting.antt =====
-- The state between two rounds of `try_adopt` of src/heap.rs.
use clmalloc.Base.{ℕ, ◌+◌, ◌≤◌, ◌<◌, ◌≡◌, Option, some, List, [], length}
use clmalloc.Slab.Links.{count}
use clmalloc.Pool.State.{Machine, slab_cache_max}
use clmalloc.Heap.State.{Heap}
use clmalloc.Heap.Bin.{Beside, Ledger, owned, IsBin, Kept}
use clmalloc.Heap.Bin.Adopt.{IsChain}

-- The heap's slabs and the chain `xs` of slabs still to adopt, with a place in the pool's cache for each.
pub record Adopting (f : Beside) (h : Heap) (class : ℕ) (m : Machine) (g : Ledger)
    (active loose partial full : List ℕ) (p : ℕ) (xs : List ℕ) : Type 0 where
  pub bin : IsBin f h class m.words m.nodes g active loose partial full
  pub rest : IsChain class m.words m.nodes g p xs
  pub apart : (a : ℕ) → owned active loose partial full a + count a xs ≤ 1
  pub others : (a : ℕ) → 0 < count a xs → ¬ f.slabs a
  pub queue : m.pool.abandoned ≡ f.abandoned
  pub cache : m.pool.slab_cache_len + length loose + length xs + f.spare ≤ slab_cache_max

-- The slabs of the heap and of the chain.
abbrev pub both : List ℕ → List ℕ → List ℕ → List ℕ → List ℕ → ℕ → ℕ
both active loose partial full xs a = owned active loose partial full a + count a xs

abbrev pub Placed :
    Beside
    → Option ((Option ℕ × Heap) × Machine)
    → Option ℕ
    → Heap
    → ℕ
    → Ledger
    → (ℕ → ℕ)
    → List ℕ
    → List ℕ
    → List ℕ
    → ℕ
    → List ℕ
    → Type 0
Placed f run result h class g own active partial full p xs =
    (m' : Machine) × (run ≡ some ((result, h), m'))
    × Adopting f h class m' g active [] partial full p xs
    × Kept h h class g g own (both active [] partial full xs)
