-- ===== src/Heap/Bin/Free.antt =====
-- `Heap::dealloc` of src/heap.rs for a slot of one of the heap's own slabs.
pub mod Settle
pub mod Total
use clmalloc.Base.{
  ℕ, suc, true, false, ◌≤◌, ◌<◌, ◌≡◌, ◌≢◌, ◌∙◌, ap, sym, refl, inl, inr, Option, some, List, [],
  ◌∷◌, arith, ◌==◌, ltb, leb, Bool-cases,
}
use clmalloc.Base.Fun.{update}
use clmalloc.Base.Words64.{add64}
use clmalloc.SizeClass.{class_size}
use clmalloc.Slab.Links.{Words, null, count, write_next}
use clmalloc.Slab.Header.{SlabHeader, from_ptr, is_fully_free, free_count, dealloc_local}
use clmalloc.Slab.Header.Lifecycle.{is_fully_free_lem}
use clmalloc.Slab.Header.Ops.{IsCarved-bounds, dealloc_local-IsSlab}
use clmalloc.Slab.Header.Ops.Remove.{remove, count-remove}
use clmalloc.Slab.FreeList.{push}
use clmalloc.Slab.Queue.{slab_list_remove, slab_list_push}
use clmalloc.Metrics.{on_dealloc}
use clmalloc.Pool.State.{Machine, pure, bind-some, slab_cache_max}
use clmalloc.Heap.State.{
  Heap, header_at, set_bin, partial_cell, count_with, slab_dealloc_local, list_remove, list_push,
}
use clmalloc.Heap.Free.{reclaim_slab, settle, dealloc_class}
use clmalloc.Heap.Routes.{stored, from_ptr-slot}
use clmalloc.Heap.Bin.{Beside, Slots, Ledger, SlabIs, room, owned, Active, Active-cases, IsBin}
use clmalloc.Heap.Bin.Moves.{Rewrites, write_active, take_full, release, activate, push_partial}
use clmalloc.Heap.Bin.Moves.Partial.{write_partial, take_partial}
use clmalloc.Heap.Bin.Scan.Found.{cache_slab-fits}

-- The slot `ptr` of the slab `slab` is not allocated any more and is the next one that the slab hands out;
-- every other slot stays as it is; a slab is given up only with none of its slots allocated.
pub record Freed (h h' : Heap) (class : ℕ) (g g' : Ledger) (own own' : ℕ → ℕ) (slab ptr : ℕ)
    : Type 0 where
  pub given_back : (g' slab).outs ≡ remove ptr (g slab).outs
  pub next_out : (g' slab).frees ≡ ptr ∷ (g slab).frees
  pub rest : (a : ℕ) → a ≢ slab → (g' a).outs ≡ (g a).outs
  pub fewer : (a : ℕ) → own' a ≤ own a
  pub released : (a : ℕ) → 0 < own a → own' a ≡ 0 → (g' a).outs ≡ []
  pub same_id : h'.id ≡ h.id
  pub others : (c : ℕ) → c ≢ class → h'.bins c ≡ h.bins c

abbrev pub FreedBy : Beside → Option (Heap × Machine) → Heap → ℕ → Ledger → (ℕ → ℕ) → ℕ → ℕ → Type 0
FreedBy f run h class g own slab ptr =
    (h' : Heap) × (m' : Machine) × (g' : Ledger) × (active partial full : List ℕ) × (run
      ≡ some (h', m'))
    × (m'.pool.abandoned ≡ f.abandoned)
    × IsBin f h' class m'.words m'.nodes g' active [] partial full
    × Freed h h' class g g' own (owned active [] partial full) slab ptr

-- The ledger of a slab after a local free of `ptr`.
abbrev pub freed_slots : Slots → ℕ → Slots
freed_slots s ptr = record { frees = ptr ∷ s.frees; remotes = s.remotes; outs = remove ptr s.outs }

pub dealloc_local-Rewrites :
    (m : Machine) (base ptr : ℕ) (s : Slots) {id : ℕ}
    → SlabIs base m.words (header_at m base) s
    → (header_at m base).heap_id ≡ id
    → 0 < count ptr s.outs
    → Rewrites id m.words
        (dealloc_local m.words (header_at m base) ptr).0
        m.nodes
        base
        (dealloc_local m.words (header_at m base) ptr).1
        (freed_slots s ptr)
unfolding dealloc_local push
dealloc_local-Rewrites m base ptr s i mine out =
    let (low, high) = IsCarved-bounds (header_at m base) ptr i.shape (i.carved ptr (omega arith)) in
    record {
      far = λ a far. ground (arith, i.shape.wide);
      slab = dealloc_local-IsSlab i ptr out;
      mine = mine;
      index = refl;
      next = refl;
      prev = refl;
    }
