-- ===== src/Heap/Bin/Scan.antt =====
-- `Heap::scan_full_list` of src/heap.rs: the walk along the full list, slab by slab.
pub mod Found
pub mod Loop
use mathlib.Core.List.{reverse_aux}
use clmalloc.Base.{
  ℕ, ◌+◌, ◌*◌, ◌≤◌, ◌<◌, ◌≡◌, ◌≢◌, ◌∙◌, ap, sym, refl, inl, inr, Option, some, List, [], ◌∷◌, ◌++◌,
  length, arith, ◌==◌, Bool-cases,
}
use clmalloc.Base.Fun.{update}
use clmalloc.Slab.Links.{null, count}
use clmalloc.Slab.Header.{drain_remote}
use clmalloc.Slab.Header.Frame.{drain_remote-SameOutside, drain_remote-links}
use clmalloc.Slab.Header.Lifecycle.{drain_remote-IsSlab}
use clmalloc.Pool.State.{Machine, slab_cache_max}
use clmalloc.Heap.State.{Heap, header_at}
use clmalloc.Heap.Bin.{Beside, Slots, Ledger, SlabIs, room, owned, IsBin, Kept}
use clmalloc.Heap.Bin.Moves.{Rewrites}
use clmalloc.Heap.Bin.Lists.{count-append}

-- The walk has passed the slabs of `kept`, which stay on the list and have nothing to drain, and has
-- `todo` before it. `able`: the slab that it made active has a slot. `found`: only then did it put
-- slabs on the partial list. `cache`: the cache of the pool has a place for each slab that is left.
pub record IsScan (f : Beside) (h : Heap) (class : ℕ) (m : Machine) (g : Ledger)
    (active partial kept todo : List ℕ) : Type 0 where
  pub bin : IsBin f h class m.words m.nodes g active [] partial (kept ++ todo)
  pub drained : (a : ℕ) → 0 < count a kept → (g a).remotes ≡ []
  pub found : length active ≡ 0 → length partial ≡ 0
  pub able : (a : ℕ) → 0 < count a active → 0 < room m.nodes g a
  pub queue : m.pool.abandoned ≡ f.abandoned
  pub cache : m.pool.slab_cache_len + length todo + f.spare ≤ slab_cache_max

-- A run that ends with a heap and a memory in which the walk has `todo` before it.
abbrev pub Scanned :
    Beside → Option (Heap × Machine) → Heap → ℕ → Ledger → (ℕ → ℕ) → List ℕ → Type 0
Scanned f run h class g own todo =
    (h' : Heap) × (m' : Machine) × (g' : Ledger) × (active partial kept : List ℕ) × (run
      ≡ some (h', m'))
    × IsScan f h' class m' g' active partial kept todo
    × Kept h h' class g g' own (owned active [] partial (kept ++ todo))

-- The ledger of a drained slab.
abbrev pub drained_slots : Slots → Slots
drained_slots s = record { frees = reverse_aux s.remotes s.frees; remotes = []; outs = s.outs }

-- Draining a slab is a change that its place in the lists survives.
pub drain_remote-Rewrites :
    (m : Machine) (base : ℕ) (s : Slots) {id : ℕ}
    → SlabIs base m.words (header_at m base) s
    → (header_at m base).heap_id ≡ id
    → Rewrites id m.words
        (drain_remote m.words (header_at m base)).1
        m.nodes
        base
        (drain_remote m.words (header_at m base)).2
        (drained_slots s)
unfolding drain_remote
drain_remote-Rewrites m base s i mine = record {
  far = drain_remote-SameOutside i;
  slab = (drain_remote-IsSlab i).1;
  mine = mine;
  index = refl;
  next = refl;
  prev = refl;
}

-- The slab that the walk is at is on the full list, and on no other.
pub here : (b : ℕ) (kept todo : List ℕ) → 0 < count b (kept ++ b ∷ todo)
here b kept todo = ground (arith, count-append b kept (b ∷ todo))
