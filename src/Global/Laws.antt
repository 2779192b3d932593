-- ===== src/Global/Laws.antt =====
-- Frees on a thread that has no heap (src/global.rs): before the first allocation, or after the heap's
-- destructor.
use clmalloc.Base.{
  ℕ, ◌+◌, ◌≤◌, ◌<◌, ◌≡◌, ◌≢◌, refl, false, some, List, length, arith, ◌==◌, ◌⊎◌, inl, inr,
}
use clmalloc.Base.Fun.{update, update_self, update_ne}
use clmalloc.SizeClass.{Layout, num_classes, class_index}
use clmalloc.Slab.Links.{count}
use clmalloc.Slab.Header.{from_ptr, dealloc_remote}
use clmalloc.Metrics
use clmalloc.Pool.State.{Machine, pure, bind-some, set_state, slab_cache_max}
use clmalloc.Pool.Shared.{deregister_heap}
use clmalloc.Heap.State.{Heap, header_at, slab_dealloc_remote}
use clmalloc.Heap.Free.{drop_heap}
use clmalloc.Heap.Routes.{stored}
use clmalloc.Heap.Bin.{Ledger}
use clmalloc.Heap.Bin.Moves.Remote.{sent_slots, dealloc_remote-Rewrites}
use clmalloc.World.{IsWorld, Lists, held, IsWorld-slot}
use clmalloc.World.Free.{write_held, class_index-known}
use clmalloc.World.Waiting.{write_waiting}
use clmalloc.World.Drop.{slabs_from, Emptied, drop_heap-Emptied}
use clmalloc.Global.{
  Tls, uninit, destroyed, live, Thread, dealloc_direct, dealloc_tls, dealloc, destroy,
  heap_destructor,
}

-- A slab of the class, of some heap or waiting for adoption.
abbrev pub OfClass : (ℕ → ℕ → Lists) → (ℕ → List ℕ) → ℕ → ℕ → Type 0
OfClass L Q class b = ((j : ℕ) × (0 < held (L j class) b)) ⊎ (0 < count b (Q class))

module _ {H : ℕ → Heap} {m : Machine} {g : Ledger} {L : ℕ → ℕ → Lists} {Q : ℕ → List ℕ}
    (s : IsWorld H m g L Q) (class ptr b : ℕ) (known : class < num_classes)
    (out : 0 < count ptr (g b).outs) where
  to_slab : OfClass L Q class b → from_ptr ptr ≡ b
  to_slab (inl (j, has)) = IsWorld-slot s b ptr (inl (j, class, known, has)) out
  to_slab (inr has) = IsWorld-slot s b ptr (inr (class, known, has)) out

  after :
      OfClass L Q class b
      → IsWorld H
          (stored m b
            (dealloc_remote m.words (header_at m b) ptr).0
            (dealloc_remote m.words (header_at m b) ptr).1)
          (update g b (sent_slots (g b) ptr))
          L
          Q
  after (inl (j, has)) = write_held s j class ptr b known out j m.counters has
  after (inr has) =
      let (w, hd) = dealloc_remote m.words (header_at m b) ptr in
      write_waiting s class b known has w hd (sent_slots (g b) ptr) m.counters
        (dealloc_remote-Rewrites m b ptr (g b) ((s.queues class known).slabs b has) refl out)

dealloc_tls-without_heap :
    (ptr : ℕ) (layout : Layout) (tls : Tls) (t : Thread)
    → (tls ≡ uninit) ⊎ (tls ≡ destroyed)
    → dealloc_tls ptr layout tls t ≡ dealloc_direct ptr layout t
unfolding dealloc_tls
dealloc_tls-without_heap ptr layout tls t (inl e) = rw e refl
dealloc_tls-without_heap ptr layout tls t (inr e) = rw e refl

-- A thread with no heap of its own, not yet or no longer, frees an allocated slot of a slab of any heap, or of
-- one that waits for adoption, of the class that the layout, of positive size, asks for. The slot goes to the
-- remote stack of its slab, the thread's state stays as it is, no other slot changes hands, and all slabs of
-- all heaps and of the pool stay well-formed, each in one place.
pub dealloc-without_heap :
    {H : ℕ → Heap} {m : Machine} {g : Ledger} {L : ℕ → ℕ → Lists} {Q : ℕ → List ℕ}
    → IsWorld H m g L Q
    → (ptr class b : ℕ) (layout : Layout) (t : Thread) → (t.tls ≡ uninit) ⊎ (t.tls ≡ destroyed)
    → 0 < layout.size
    → class_index layout ≡ some class
    → OfClass L Q class b
    → 0 < count ptr (g b).outs
    → (m' : Machine) × (g' : Ledger) × (dealloc ptr layout t m ≡ some (t, m'))
      × IsWorld H m' g' L Q
      × (g' b ≡ sent_slots (g b) ptr)
      × ((a : ℕ) → a ≢ b → g' a ≡ g a)
unfolding dealloc dealloc_direct slab_dealloc_remote
dealloc-without_heap {m = m} {g = g} s ptr class b layout t no_heap pos is has out =
    let sized : (layout.size == 0) ≡ false = ground arith in
    let known = class_index-known layout class is in
    let (w, hd) = dealloc_remote m.words (header_at m b) ptr in
    (
      stored m b w hd,
      update g b (sent_slots (g b) ptr),
      rw
          (
            sized,
            dealloc_tls-without_heap ptr layout t.tls t no_heap,
            is,
            dealloc_direct,
            to_slab s class ptr b known out has,
          )
          refl,
      after s class ptr b known out has,
      update_self g b (sent_slots (g b) ptr),
      λ a ne. update_ne g b a (sent_slots (g b) ptr) ne,
    )

-- The destructor of a thread's heap, which is heap `i`, with fuel for its lists and a place in the pool's
-- cache for each of its slabs, of which there are 512 at most then; a full cache is not covered. It ends with the thread's pointer marked as destroyed, and with no slab left in
-- the heap. Each slab that it had waits for adoption in the list of its class, or had no slot allocated; no
-- slot changes hands, and the slabs of all other heaps and those that wait stay well-formed, each in one
-- place.
pub heap_destructor-Emptied :
    {H : ℕ → Heap} {m : Machine} {g : Ledger} {L : ℕ → ℕ → Lists} {Q : ℕ → List ℕ}
    → IsWorld H m g L Q
    → (fuel i : ℕ) (t : Thread)
    → m.pool.slab_cache_len + slabs_from num_classes 0 (L i) ≤ slab_cache_max
    → ((c : ℕ) → c < num_classes → length (L i c).full < fuel)
    → ((c : ℕ) → c < num_classes → length (L i c).partial < fuel)
    → (h' : Heap) × (m' : Machine) × (g' : Ledger) × (l' : ℕ → Lists) × (Q' : ℕ → List ℕ)
      × (heap_destructor fuel (live (H i)) t m ≡ some (record t { tls = destroyed }, m'))
      × IsWorld (update H i h') m' g' (update L i l') Q'
      × Emptied (L i) l' Q Q' g g' 0
unfolding heap_destructor destroy deregister_heap
heap_destructor-Emptied {H} {m} {g} {L} {Q} s fuel i t room long enough =
    let (metrics, counters) = Metrics.deregister_heap (m.pool.state.metrics) m.counters (H i).id in
    let m1 = record (set_state m (record (m.pool.state) { metrics = metrics })) {
      counters = counters;
    } in
    let s1 : IsWorld H m1 g L Q = record {
      named = s.named;
      bins = s.bins;
      queues = s.queues;
      apart = s.apart;
    } in
    let (h', m', g', l', Q', run, s', e) = drop_heap-Emptied s1 fuel i room long enough in
    (
      h',
      m',
      g',
      l',
      Q',
      bind-some (drop_heap fuel (H i)) (λ _. pure (record t { tls = destroyed })) m1 run,
      s',
      e,
    )
