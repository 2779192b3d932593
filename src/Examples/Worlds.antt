-- ===== src/Examples/Worlds.antt =====
-- Heap 7 holds the slab at 65536, of class 48, and no other heap holds any.
use clmalloc.Base.{
  ℕ, ◌+◌, ◌<◌, ◌≡◌, ◌≢◌, inl, inr, refl, some, none, List, [], ◌∷◌, arith, length, ◌==◌, Bool-cases,
}
use clmalloc.Base.Fun.{update, update_ne}
use clmalloc.SizeClass.{Layout, num_classes, class_size, class_index}
use clmalloc.SizeClass.Lookup.{class_index-class_size, class_size_range}
use clmalloc.Pool.State.{Machine, slab_cache_max, new_pool}
use clmalloc.Slab.Links.{null}
use clmalloc.Heap.State.{Heap, full_cell, partial_cell, new_heap}
use clmalloc.Heap.Free.{dealloc, drop_heap}
use clmalloc.Heap.Bin.{Ledger, Untouched}
use clmalloc.Heap.Bin.Adopt.{IsChain}
use clmalloc.Heap.Bin.Request.{with_page}
use clmalloc.Heap.Bin.Class.{IsClass, IsBin-beside}
use clmalloc.World.{IsWorld, Lists, no_slabs, held, rest_of}
use clmalloc.World.Start.{IsOthers, no_slabs-IsBin, new_heap-IsWorld}
use clmalloc.World.Step.{put, World-step}
use clmalloc.World.Alloc.{Answered, alloc-Answered}
use clmalloc.World.Drop.{Emptied, slabs_from, drop_heap-Emptied}
use clmalloc.World.Page.{Started, with_page-Started}
use clmalloc.Heap.Bin.Moves.Remote.{sent_slots}
use clmalloc.Global
use clmalloc.Global.{Thread, live, destroyed, heap_destructor}
use clmalloc.Global.Laws.{dealloc-without_heap, heap_destructor-Emptied}
use clmalloc.Examples.Heaps.{large_used, machine, base-aligned}
use clmalloc.Examples.Slabs.{blank}
use clmalloc.Examples.Bins.{
  idle, holder, holder-IsBin, one_out, with_cached, without_cached, with_cached-page,
}

abbrev nothing : ℕ → ℕ → Lists
nothing i c = no_slabs

abbrev none_waiting : ℕ → List ℕ
none_waiting c = []

abbrev with_slab : Machine
with_slab = machine blank large_used

abbrev one_slab : Lists
one_slab = record { active = 65536 ∷ []; partial = []; full = [] }

nothing-IsChain :
    (m : Machine) (g : Ledger) (c : ℕ)
    → m.pool.abandoned c ≡ null
    → IsChain c m.words m.nodes g (m.pool.abandoned c) []
nothing-IsChain m g c none_waits = record {
  chain = none_waits;
  aligned = λ a has. absurd (omega arith);
  slabs = λ a has. absurd (omega arith);
  indexed = λ a has. absurd (omega arith);
}

-- No heap holds a slab, and none waits.
idle_world :
    (m : Machine) (g : Ledger)
    → ((c : ℕ) → m.nodes.cell c ≡ null)
    → ((c : ℕ) → m.pool.abandoned c ≡ null)
    → IsWorld idle m g nothing none_waiting
idle_world m g no_list none_waits = record {
  named = λ i. refl;
  bins = λ i c known. no_slabs-IsBin m g (idle i) c refl (no_list _) (no_list _);
  queues = λ c known. nothing-IsChain m g c (none_waits c);
  apart = λ i c known a. omega arith;
}

new_world : IsWorld idle with_slab one_out nothing none_waiting
new_world = idle_world with_slab one_out (λ c. refl) (λ c. refl)

-- With no slab held, there is nothing beside a class.
nothing-Untouched :
    (i : ℕ) (h : Heap) (own : ℕ → ℕ)
    → Untouched
        (rest_of with_slab one_out nothing none_waiting i 48 0)
        h
        48
        blank
        with_slab.nodes
        one_out
        own
nothing-Untouched i h own = record {
  page = λ a. elim [
    | inl (j, d, other, ne, has) ↦ absurd (omega arith)
    | inr (d, other, ne, has) ↦ absurd (omega arith)
  ];
  real = λ a. elim [
    | inl (j, d, other, ne, has) ↦ absurd (omega arith)
    | inr (d, other, ne, has) ↦ absurd (omega arith)
  ];
  apart = λ a. elim [
    | inl (j, d, other, ne, has) ↦ absurd (omega arith)
    | inr (d, other, ne, has) ↦ absurd (omega arith)
  ];
  headers = λ a has. refl;
  pages = λ a q has low high. refl;
  cells = λ c ne ne'. refl;
  ledgers = λ a has. refl;
}

holder-IsClass :
    IsClass
      (rest_of with_slab one_out nothing none_waiting 7 48 0)
      holder
      48
      with_slab
      one_out
      (65536 ∷ [])
      []
      []
      []
holder-IsClass = record {
  bin =
      IsBin-beside (rest_of with_slab one_out nothing none_waiting 7 48 0) holder-IsBin
        (nothing-Untouched 7 holder (held one_slab));
  waiting = record {
    chain = refl;
    aligned = λ a h. absurd (omega arith);
    slabs = λ a h. absurd (omega arith);
    indexed = λ a h. absurd (omega arith);
  };
  apart = λ a. ground arith;
  others = λ a has. absurd (omega arith);
  queue = λ c ne. refl;
}

abbrev heaps : ℕ → Heap
heaps = update idle 7 holder

abbrev held_by : ℕ → ℕ → Lists
held_by = put nothing 7 48 one_slab

abbrev waits : ℕ → List ℕ
waits = update none_waiting 48 []

world : IsWorld heaps with_slab one_out held_by waits
world =
    World-step new_world 7 48 0 holder with_slab one_out one_slab [] (omega arith) holder-IsClass
      refl (λ c ne. ground arith)

abbrev one_large : Layout
one_large = record { size = class_size 48; align = 1 }

abbrev class_48 : class_index one_large ≡ some 48
class_48 = class_index-class_size 48 (omega arith)

one_large-size : 0 < one_large.size
one_large-size = let (low, _) = class_size_range 48 (omega arith) in omega (arith, low)

no_full : (c : ℕ) → (held_by 7 c).full ≡ []
no_full c = elim (Bool-cases (c == 48)) [ inl e ↦ rw e refl | inr e ↦ rw e refl ]

no_partial : (c : ℕ) → (held_by 7 c).partial ≡ []
no_partial c = elim (Bool-cases (c == 48)) [ inl e ↦ rw e refl | inr e ↦ rw e refl ]

none_waits : (c : ℕ) → waits c ≡ []
none_waits c = elim (Bool-cases (c == 48)) [ inl e ↦ rw e refl | inr e ↦ rw e refl ]

room_left :
    (c : ℕ) → c < num_classes → 0 + length (held_by 7 c).full + length (waits c) < slab_cache_max
room_left c known = rw (no_full c, none_waits c) (omega arith)

short_full : (c : ℕ) → c < num_classes → length (held_by 7 c).full + 1 < 2
short_full c known = rw (no_full c) (omega arith)

short_chain : (c : ℕ) → c < num_classes → length (waits c) < 2
short_chain c known = rw (none_waits c) (omega arith)

alloc-Answered_example : Answered world 2 none 7 one_large
alloc-Answered_example = alloc-Answered world 2 none 7 one_large room_left short_full short_chain

no_slabs_later : slabs_from num_classes 0 (held_by 7) ≡ 1
unfolding slabs_from
no_slabs_later = refl

drop_heap-Emptied_example :
    (h' : Heap) × (m' : Machine) × (g' : Ledger) × (l' : ℕ → Lists) × (Q' : ℕ → List ℕ) × (drop_heap
        1 holder with_slab
      ≡ some (h', m'))
    × IsWorld (update heaps 7 h') m' g' (update held_by 7 l') Q'
    × Emptied (held_by 7) l' waits Q' one_out g' 0
drop_heap-Emptied_example =
    drop_heap-Emptied world 1 7 (omega (arith, no_slabs_later))
      (λ c known. rw (no_full c) (omega arith)) (λ c known. rw (no_partial c) (omega arith))

new_world_cached : IsWorld idle with_cached one_out nothing none_waiting
new_world_cached = idle_world with_cached one_out (λ c. refl) (λ c. refl)

with_page-Started_example :
    Started
      (with_page none 48 (idle 8) with_cached)
      (some 65536)
      idle
      one_out
      nothing
      none_waiting
      8
      48
with_page-Started_example =
    with_page-Started new_world_cached 8 48 (omega arith) refl refl none (some 65536) without_cached
      with_cached-page (omega arith, base-aligned, λ j d other. refl, λ d other. refl)

-- Heap 7 has abandoned the slab, and another heap frees its slot.
abbrev abandoned : Machine
abandoned = record with_slab { pool = record new_pool { abandoned = update (λ c. 0) 48 65536 } }

-- The memory holds something where the lists of heap 8 come to stand.
abbrev junk : Machine
junk = record with_slab {
  nodes = record (with_slab.nodes) { cell = update with_slab.nodes.cell 790 77 };
}

junk-IsOthers : IsOthers 8 idle junk one_out nothing none_waiting
junk-IsOthers = record {
  named = λ j ne. refl;
  bins = λ j c ne known.
      no_slabs-IsBin junk one_out (idle j) c refl
        (update_ne with_slab.nodes.cell 790 (full_cell (idle j) c) 77 (λ e. ne (omega (arith, e))))
        (update_ne with_slab.nodes.cell 790 (partial_cell (idle j) c) 77 (λ e. omega (arith, e)));
  queues = λ c known. nothing-IsChain junk one_out c refl;
  apart = λ j c ne known a. omega arith;
}

new_heap-IsWorld_example :
    IsWorld
      (update idle 8 (new_heap 8 junk).0)
      (new_heap 8 junk).1
      one_out
      (update nothing 8 (λ c. no_slabs))
      none_waiting
new_heap-IsWorld_example = new_heap-IsWorld 8 junk-IsOthers

-- The destructor of a thread's heap has run, and the thread still frees.
abbrev gone : Thread
gone = record { tls = destroyed; next_id = 9 }

dealloc-without_heap_example :
    (m' : Machine) × (g' : Ledger) × (Global.dealloc 98304 one_large gone with_slab
      ≡ some (gone, m'))
    × IsWorld heaps m' g' held_by waits
    × (g' 65536 ≡ sent_slots (one_out 65536) 98304)
    × ((a : ℕ) → a ≢ 65536 → g' a ≡ one_out a)
dealloc-without_heap_example =
    dealloc-without_heap world 98304 48 65536 one_large gone (inr refl) one_large-size class_48
      (inl (7, omega arith)) (omega arith)

abbrev with_heap : Thread
with_heap = record { tls = live holder; next_id = 9 }

heap_destructor-Emptied_example :
    (h' : Heap) × (m' : Machine) × (g' : Ledger) × (l' : ℕ → Lists) × (Q' : ℕ → List ℕ)
    × (heap_destructor 1 (live holder) with_heap with_slab ≡ some (gone, m'))
    × IsWorld (update heaps 7 h') m' g' (update held_by 7 l') Q'
    × Emptied (held_by 7) l' waits Q' one_out g' 0
heap_destructor-Emptied_example =
    heap_destructor-Emptied world 1 7 with_heap (omega (arith, no_slabs_later))
      (λ c known. rw (no_full c) (omega arith)) (λ c known. rw (no_partial c) (omega arith))
