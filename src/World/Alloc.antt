-- ===== src/World/Alloc.antt =====
-- `Heap::alloc` of src/heap.rs among the heaps of all threads.
use clmalloc.Base.{
  ℕ, suc, ◌+◌, ◌<◌, ◌≡◌, ◌∙◌, ◌⊎◌, inl, inr, Option, none, some, refl, List, [], length, arith,
}
use clmalloc.Base.Fun.{update}
use clmalloc.Base.Words64.{add64}
use clmalloc.SizeClass.{Layout, num_classes, class_index}
use clmalloc.SizeClass.Lookup.{class_index-Best}
use clmalloc.Slab.Links.{count}
use clmalloc.Metrics.{on_large_alloc}
use clmalloc.Pool.State.{Machine, slab_cache_max}
use clmalloc.Pool.Shared.{alloc_large}
use clmalloc.Heap.State.{Heap, header_at, count_with}
use clmalloc.Heap.Alloc.{alloc, alloc_class}
use clmalloc.Heap.Bin.{Ledger, Kept}
use clmalloc.Heap.Bin.Outcome.{Allocated}
use clmalloc.Heap.Bin.Request.{with_page}
use clmalloc.Heap.Bin.Class.Alloc.{alloc_class-Provided}
use clmalloc.World.{IsWorld, InWorld, Lists, held, IsWorld-IsClass}
use clmalloc.World.Step.{put, World-step, fresh_everywhere, put-InWorld}

abbrev pub of_class : (ℕ → ℕ → Lists) → (ℕ → List ℕ) → ℕ → ℕ → ℕ → ℕ
of_class L Q i class a = held (L i class) a + count a (Q class)

abbrev pub full_only : List ℕ → Lists
full_only full = record { active = []; partial = []; full = full }

-- The run returns a slot of a slab that heap `i` holds then. The slot was allocated in no slab.
abbrev pub Returns :
    Option ((Option ℕ × Heap) × Machine)
    → (ℕ → Heap)
    → Ledger
    → (ℕ → ℕ → Lists)
    → (ℕ → List ℕ)
    → ℕ
    → ℕ
    → Type 0
Returns run H g L Q i class =
    (slot slab : ℕ) × (h' : Heap) × (m' : Machine) × (g' : Ledger) × (l : Lists) × (xs : List ℕ)
    × (run ≡ some ((some slot, h'), m'))
    × IsWorld (update H i h') m' g' (put L i class l) (update Q class xs)
    × (0 < held l slab)
    × ((a : ℕ) → InWorld L Q a → count slot (g a).outs ≡ 0)
    × Allocated (H i) h' class g g' (of_class L Q i class) (λ a. held l a + count a xs) slab slot

-- The run is that of `with_page`, which asks for a page and may still fail: each slot of the slabs that heap `i` holds is allocated, and none of the class
-- is up for adoption.
abbrev pub Wants :
    Option ((Option ℕ × Heap) × Machine)
    → Option ℕ
    → (ℕ → Heap)
    → Ledger
    → (ℕ → ℕ → Lists)
    → (ℕ → List ℕ)
    → ℕ
    → ℕ
    → Type 0
Wants run answer H g L Q i class =
    (h' : Heap) × (m' : Machine) × (g' : Ledger) × (full : List ℕ) × (run
      ≡ with_page answer class h' m')
    × IsWorld (update H i h') m' g' (put L i class (full_only full)) (update Q class [])
    × ((a : ℕ) → 0 < count a full → length (g' a).outs ≡ (header_at m' a).slot_count)
    × Kept (H i) h' class g g' (of_class L Q i class) (λ a. held (full_only full) a + 0)

-- A request above the largest class goes to the page allocator, whose answer is `answer`.
large :
    {H : ℕ → Heap} {m : Machine} {g : Ledger} {L : ℕ → ℕ → Lists} {Q : ℕ → List ℕ}
    → IsWorld H m g L Q
    → (fuel : ℕ) (answer : Option ℕ) (h : Heap) (layout : Layout) → class_index layout ≡ none
    → (m' : Machine) × (alloc (suc fuel) answer layout h m ≡ some ((answer, h), m'))
      × IsWorld H m' g L Q
unfolding alloc alloc_large count_with
large {m = m} s fuel none h layout none_fits = (m, rw (none_fits, alloc) refl, s)
large {m = m} s fuel (some ptr) h layout none_fits = (
  record m {
    pool = record (m.pool) {
      state = record (m.pool.state) {
        large_mapped_bytes = add64 (m.pool.state.large_mapped_bytes) layout.size;
      };
    };
    counters = update m.counters h.id (on_large_alloc (m.counters h.id) layout.size);
  },
  rw (none_fits, alloc) refl,
  record { named = s.named; bins = s.bins; queues = s.queues; apart = s.apart },
)

module _ {H : ℕ → Heap} {m : Machine} {g : Ledger} {L : ℕ → ℕ → Lists} {Q : ℕ → List ℕ}
    (s : IsWorld H m g L Q) (fuel : ℕ) (answer : Option ℕ) (i : ℕ) where
  small :
      (class : ℕ)
      → class < num_classes
      → m.pool.slab_cache_len + length (L i class).full + length (Q class) < slab_cache_max
      → length (L i class).full + 1 < fuel
      → length (Q class) < fuel
      → Returns (alloc_class (suc fuel) answer class (H i) m) H g L Q i class
        ⊎ Wants (alloc_class (suc fuel) answer class (H i) m) answer H g L Q i class
  small class known cache enough long =
      elim (alloc_class-Provided fuel answer class (H i) m g _ _ _ (Q class)
        (IsWorld-IsClass s i class 0 known) (omega (arith, cache)) enough long) [
          | inl (slot, slab, h', m', g', active, partial, full, xs, run, t, mine, c) ↦
              let l : Lists = record { active = active; partial = partial; full = full } in
              let after =
                World-step s i class 0 h' m' g' l xs known t (c.same_id ∙ s.named i) c.others in
              inl (
                slot,
                slab,
                h',
                m',
                g',
                l,
                xs,
                run,
                after,
                mine,
                fresh_everywhere s after slot slab
                    (put-InWorld L (update Q class xs) i class l slab known mine)
                    (ground (arith, c.handed.taken)) (λ old. c.handed.fresh),
                c,
              )
          | inr (h', m', g', full, run, t, all, left, k) ↦ inr (
            h',
            m',
            g',
            full,
            run,
            World-step s i class 0 h' m' g' (full_only full) [] known t (k.same_id ∙ s.named i)
                k.others,
            all,
            k,
          )
        ]

  -- What a request can come to: a slot of a class, a page of a new slab, or, above the largest class, what
  -- the page allocator answers.
  abbrev pub Answered : Layout → Type 0
  Answered layout =
      ((class : ℕ) × (class_index layout ≡ some class)
        × (Returns (alloc (suc fuel) answer layout (H i) m) H g L Q i class
            ⊎ Wants (alloc (suc fuel) answer layout (H i) m) answer H g L Q i class))
      ⊎ ((class_index layout ≡ none)
          × (m' : Machine) × (alloc (suc fuel) answer layout (H i) m ≡ some ((answer, H i), m'))
          × IsWorld H m' g L Q)

  -- An allocation by heap `i`, among the heaps of all threads, with fuel for the walk along its full list of
  -- each class and for the slabs of each class that are up for adoption, and a place in the pool's cache for
  -- all of these of a class and one more; a full cache is not covered. Above the largest class it returns what
  -- the page allocator answers. For a class it returns a slot that was not allocated in any slab, of a slab
  -- that the heap then holds, or its run is that of `with_page` from then on, and then each slot of each slab
  -- of the class that the heap holds is allocated, and no slab of the class is up for adoption. No other slot
  -- changes hands, a slab is given up only with none of its slots allocated, and all slabs of all heaps and of
  -- the pool stay well-formed, each in one place.
  pub alloc-Answered :
      (layout : Layout)
      → ((c : ℕ)
          → c < num_classes
          → m.pool.slab_cache_len + length (L i c).full + length (Q c) < slab_cache_max)
      → ((c : ℕ) → c < num_classes → length (L i c).full + 1 < fuel)
      → ((c : ℕ) → c < num_classes → length (Q c) < fuel)
      → Answered layout
  unfolding alloc
  alloc-Answered layout cache enough long = elim (class_index-Best layout) [
    | inl (_, none_fits) ↦
        let (m', run, after) = large s fuel answer (H i) layout none_fits in
        inr (none_fits, m', run, after)
    | inr (class, is, _, best) ↦ inl (
      class,
      is,
      rw (is, alloc)
          (small class best.known (cache class best.known) (enough class best.known)
            (long class best.known)),
    )
  ]
