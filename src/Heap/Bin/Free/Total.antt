-- ===== src/Heap/Bin/Free/Total.antt =====
-- The whole of `dealloc_class` of src/heap.rs for a slot of one of the heap's own slabs.
use clmalloc.Base.{
  ℕ, true, false, ◌<◌, ◌≡◌, ◌≢◌, ◌∙◌, ap, sym, refl, inl, inr, List, [], ◌∷◌, arith, ◌==◌, ltb,
  Bool-cases,
}
use clmalloc.Base.Fun.{update}
use clmalloc.SizeClass.{class_size}
use clmalloc.Slab.Links.{null, count}
use clmalloc.Slab.Header.{from_ptr}
use clmalloc.Metrics.{on_dealloc}
use clmalloc.Pool.State.{Machine, slab_cache_max}
use clmalloc.Heap.State.{Heap, header_at, count_with, slab_dealloc_local}
use clmalloc.Heap.Free.{dealloc_class}
use clmalloc.Heap.Routes.{from_ptr-slot}
use clmalloc.Heap.Bin.{Beside, Ledger, owned, Active, IsBin}
use clmalloc.Heap.Bin.Free.{FreedBy}
use clmalloc.Heap.Bin.Free.Settle.{g1, m1, freed, settled, in_active}

Active-member :
    (bin b : ℕ) (active : List ℕ)
    → Active bin active
    → 0 < count b active
    → (active ≡ b ∷ []) × (bin ≡ b)
Active-member bin b [] at has = absurd (omega arith)
Active-member bin b (c ∷ []) at has =
    let same : b ≡ c = ground arith in (ap (λ (x : ℕ). x ∷ []) (sym same), at.0 ∙ sym same)
Active-member bin b (c ∷ d ∷ more) at has = absurd at

Active-other :
    (bin b : ℕ) (active : List ℕ) → Active bin active → b ≢ null → count b active ≡ 0 → bin ≢ b
Active-other bin b [] at ne out = ground arith
Active-other bin b (c ∷ []) at ne out = ground arith
Active-other bin b (c ∷ d ∷ more) at ne out = absurd at

-- A free of an allocated slot of a slab that the heap owns, with a place left in the pool's cache: the
-- slot goes to the free list of its slab and is the next that the slab hands out, no other slot changes
-- hands, the slabs stay well-formed, and a slab leaves the heap only with none of its slots allocated.
pub dealloc_class-FreedBy :
    {f : Beside} (class ptr b : ℕ) (h : Heap) (m : Machine) (g : Ledger)
    (active partial full : List ℕ)
    → IsBin f h class m.words m.nodes g active [] partial full
    → m.pool.abandoned ≡ f.abandoned
    → 0 < owned active [] partial full b
    → 0 < count ptr (g b).outs
    → m.pool.slab_cache_len < slab_cache_max
    → FreedBy f (dealloc_class class ptr h m) h class g (owned active [] partial full) b ptr
unfolding dealloc_class count_with slab_dealloc_local
dealloc_class-FreedBy {f} class ptr b h m g active partial full i queue held out cache =
    let m0 = record m {
      counters = update m.counters h.id (on_dealloc (m.counters h.id) class (class_size class));
    } in
    let s = i.store.slabs b held in
    let at : from_ptr ptr ≡ b = from_ptr-slot m0 b (i.store.aligned b held) s ptr out in
    elim (Bool-cases (ltb 0 (count b active))) [
      | inl e ↦
          let (only, bin) = Active-member (h.bins class) b active i.current (ground arith) in
          let here : (h.bins class == b) ≡ true = ground arith in
          (
            h,
            m1 m0 b ptr i queue held out,
            g1 m0 b ptr i queue held out,
            active,
            partial,
            full,
            rw (at, dealloc_class, here) refl,
            queue,
            in_active m0 b ptr i queue held out only,
            freed m0 b ptr i queue held out h (owned active [] partial full) (λ a ne. refl)
                (omega arith) (λ z. absurd (omega arith)) refl (λ c ne. refl),
          )
      | inr e ↦
          let inactive : count b active ≡ 0 = ground arith in
          let other =
            Active-other (h.bins class) b active i.current (omega (arith, s.shape.at)) inactive in
          let elsewhere : (h.bins class == b) ≡ false = ground arith in
          let owner : ((header_at m b).heap_id == h.id) ≡ true =
            ground (arith, i.store.mine b held) in
          rw (at, dealloc_class, elsewhere, owner)
            (settled m0 b ptr i queue held out inactive cache)
    ]
