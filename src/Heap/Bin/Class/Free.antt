-- ===== src/Heap/Bin/Class/Free.antt =====
-- `Heap::dealloc` of src/heap.rs for one class, with the slabs of the class that are up for adoption.
use clmalloc.Base.{ℕ, ◌<◌, ◌≡◌, Option, some, List, [], refl}
use clmalloc.Slab.Links.{count}
use clmalloc.Pool.State.{Machine, slab_cache_max}
use clmalloc.Heap.State.{Heap}
use clmalloc.Heap.Free.{dealloc_class}
use clmalloc.Heap.Bin.{Beside, Ledger, owned}
use clmalloc.Heap.Bin.Free.{Freed}
use clmalloc.Heap.Bin.Free.Total.{dealloc_class-FreedBy}
use clmalloc.Heap.Bin.Class.{IsClass}
use clmalloc.Heap.Bin.Class.Waiting.{IsClass-IsBin, IsClass-after}

-- The slot `ptr` of the slab `slab` is free, and the slabs up for adoption are the same.
abbrev pub FreedClass :
    Beside → Option (Heap × Machine) → Heap → ℕ → Ledger → (ℕ → ℕ) → List ℕ → ℕ → ℕ → Type 0
FreedClass f run h class g own xs slab ptr =
    (h' : Heap) × (m' : Machine) × (g' : Ledger) × (active partial full : List ℕ) × (run
      ≡ some (h', m'))
    × IsClass f h' class m' g' active partial full xs
    × Freed h h' class g g' own (owned active [] partial full) slab ptr

pub dealloc_class-FreedClass :
    {f : Beside} (class ptr b : ℕ) (h : Heap) (m : Machine) (g : Ledger)
    (active partial full xs : List ℕ)
    → IsClass f h class m g active partial full xs
    → 0 < owned active [] partial full b
    → 0 < count ptr (g b).outs
    → m.pool.slab_cache_len < slab_cache_max
    → FreedClass f (dealloc_class class ptr h m) h class g (owned active [] partial full) xs b ptr
dealloc_class-FreedClass class ptr b h m g active partial full xs s held out cache =
    let (h', m', g', active', partial', full', run, same, i, c) =
      dealloc_class-FreedBy class ptr b h m g active partial full (IsClass-IsBin s) refl held out
        cache in
    (h', m', g', active', partial', full', run, IsClass-after s i same c.same_id, c)
