-- ===== src/World/Free.antt =====
-- `Heap::dealloc` of src/heap.rs among the heaps of all threads: a slot goes back to its slab, which may be
-- another heap's.
use clmalloc.Base.{ℕ, ◌<◌, ◌≡◌, ◌≢◌, ◌⊎◌, inl, inr, Option, some, refl, List, [], ◌∷◌, arith}
use clmalloc.Base.Fun.{update, update_same}
use clmalloc.SizeClass.{Layout, num_classes, class_index}
use clmalloc.SizeClass.Lookup.{class_index-Best}
use clmalloc.Slab.Links.{null, count}
use clmalloc.Slab.Header.{dealloc_remote}
use clmalloc.Metrics.{HeapMetrics}
use clmalloc.Pool.State.{Machine}
use clmalloc.Heap.State.{Heap, header_at}
use clmalloc.Heap.Routes.{stored}
use clmalloc.Heap.Bin.{Ledger, Active}
use clmalloc.Heap.Bin.Moves.Remote.{
  write_same_room, sent_slots, dealloc_remote-Rewrites, dealloc_remote-room,
}
use clmalloc.Heap.Bin.Free.{Freed}
use clmalloc.Heap.Bin.Class.Waiting.{IsClass-IsBin, IsClass-after}
use clmalloc.World.{IsWorld, Lists, held, IsWorld-IsClass}
use clmalloc.World.Step.{put, World-step}

-- Heap `i` owns the slab `slab`, and puts `ptr` on its free list.
abbrev pub FreedIn :
    Option (Heap × Machine)
    → (ℕ → Heap)
    → Ledger
    → (ℕ → ℕ → Lists)
    → (ℕ → List ℕ)
    → ℕ
    → ℕ
    → ℕ
    → ℕ
    → Type 0
FreedIn run H g L Q i class slab ptr =
    (h' : Heap) × (m' : Machine) × (g' : Ledger) × (l : Lists) × (run ≡ some (h', m'))
    × IsWorld (update H i h') m' g' (put L i class l) Q
    × Freed (H i) h' class g g' (held (L i class)) (held l) slab ptr

-- Another heap owns the slab, and `ptr` is put on its remote stack; nothing else changes.
abbrev pub SentTo :
    Option (Heap × Machine)
    → (ℕ → Heap)
    → Ledger
    → (ℕ → ℕ → Lists)
    → (ℕ → List ℕ)
    → ℕ
    → ℕ
    → ℕ
    → Type 0
SentTo run H g L Q i slab ptr =
    (m' : Machine) × (g' : Ledger) × (run ≡ some (H i, m'))
    × IsWorld H m' g' L Q
    × (g' slab ≡ sent_slots (g slab) ptr)
    × ((a : ℕ) → a ≢ slab → g' a ≡ g a)

pub class_index-known :
    (layout : Layout) (class : ℕ) → class_index layout ≡ some class → class < num_classes
class_index-known layout class is = elim (class_index-Best layout) [
  | inl (_, gone) ↦ cc (is, gone)
  | inr (c, found, _, best) ↦ let same : c ≡ class = cc (found, is) in rw (← same) (best.known)
]

pub Active-holds :
    (bin : ℕ) (active : List ℕ) → Active bin active → bin ≢ null → 0 < count bin active
Active-holds bin [] at some_bin = absurd (some_bin at)
Active-holds bin (b ∷ []) at some_bin = ground (arith, at)
Active-holds bin (b ∷ c ∷ more) at some_bin = absurd at

-- The run of heap `i`, for a slot of a slab of heap `j`.
abbrev pub GivenBack :
    Option (Heap × Machine)
    → (ℕ → Heap)
    → Ledger
    → (ℕ → ℕ → Lists)
    → (ℕ → List ℕ)
    → ℕ
    → ℕ
    → ℕ
    → ℕ
    → ℕ
    → Type 0
GivenBack run H g L Q i j class slab ptr =
    ((j ≡ i) × FreedIn run H g L Q i class slab ptr) ⊎ ((j ≢ i) × SentTo run H g L Q i slab ptr)

module _ {H : ℕ → Heap} {m : Machine} {g : Ledger} {L : ℕ → ℕ → Lists} {Q : ℕ → List ℕ}
    (s : IsWorld H m g L Q) (i class ptr b : ℕ) (known : class < num_classes)
    (out : 0 < count ptr (g b).outs) where
  -- A slot of the slab goes to its remote stack, whatever heap owns it.
  pub write_held :
      (j : ℕ) (counters : ℕ → HeapMetrics)
      → 0 < held (L j class) b
      → IsWorld H
          (record (stored m b
            (dealloc_remote m.words (header_at m b) ptr).0
            (dealloc_remote m.words (header_at m b) ptr).1) { counters = counters })
          (update g b (sent_slots (g b) ptr))
          L
          Q
  write_held j counters has =
      let k = s.bins j class known in
      let slab = k.store.slabs b has in
      let (w, hd) = dealloc_remote m.words (header_at m b) ptr in
      let t = sent_slots (g b) ptr in
      let c = IsWorld-IsClass s j class 0 known in
      let i' =
        write_same_room b w hd t (IsClass-IsBin c) has
          (dealloc_remote-Rewrites m b ptr (g b) slab (k.store.mine b has) out)
          (omega (arith, dealloc_remote-room m.words (header_at m b) ptr)) in
      let after =
        World-step s j class 0 (H j) (record (stored m b w hd) { counters = counters })
          (update g b t) (L j class) (Q class) known (IsClass-after c i' refl refl) (s.named j)
          (λ q ne. refl) in
      rw (update_same H j, update_same Q class, update_same (L j) class, update_same L j) at after
