-- ===== src/Examples/Bins.antt =====
-- A heap with one slab of class 48, at 65536, which has a single slot, at 98304.
use clmalloc.Base.{ℕ, ◌≡◌, refl, some, none, List, [], ◌∷◌, arith}
use clmalloc.SizeClass.{class_size, next_multiple_of}
use clmalloc.SizeClass.Align.{Multiple}
use clmalloc.Slab.Header.{slab_size, init, alloc, bump, dealloc_remote, drain_remote}
use clmalloc.Slab.FreeList.{pop}
use clmalloc.Pool.State.{Machine, new_pool}
use clmalloc.Slab.Links.{null}
use clmalloc.Heap.State.{Heap, set_bin}
use clmalloc.Heap.Alloc.{get_page}
use clmalloc.Heap.Bin.{Beside, Ledger, IsBin}
use clmalloc.Heap.Bin.Rest.{around, around-Untouched}
use clmalloc.Pool.Shared.{uncache_slab}
use clmalloc.Slab.Header.Spec.{
  Call, allocate, free_remote, drain, Behaves, StoreRun, perform_all, perform_all-StoreRun,
}
use clmalloc.Examples.Heaps.{large_used, large_used-IsSlab, machine, base-aligned}
use clmalloc.Examples.Slabs.{blank}

-- The slot is allocated.
abbrev pub one_out : Ledger
one_out base = record { frees = []; remotes = []; outs = 98304 ∷ [] }

-- A heap with no slab.
abbrev pub idle : ℕ → Heap
idle id = record { id = id; bins = λ class. null }

abbrev pub holder : Heap
holder = set_bin (idle 7) 48 65536

pub large_used-owner : large_used.heap_id ≡ 7
unfolding alloc init bump pop class_size next_multiple_of
large_used-owner = refl

pub large_used-index : large_used.size_class_index ≡ 48
unfolding alloc init bump pop class_size next_multiple_of
large_used-index = refl

pub large_used-last : large_used.next_link ≡ 0
unfolding alloc init bump pop class_size next_multiple_of
large_used-last = refl

-- The slab is the active one. Beside it there is a slab of another class at 131072.
abbrev Neighbour : ℕ → Type 0
Neighbour a = a ≡ 131072

Neighbour-aligned : (a : ℕ) → Neighbour a → Multiple slab_size a
Neighbour-aligned a h = rw h (2, refl)

abbrev holder_rest : Beside
holder_rest = around (machine blank large_used) one_out Neighbour 3

pub holder-IsBin :
    IsBin holder_rest holder 48 blank (machine blank large_used).nodes one_out (65536 ∷ []) [] [] []
holder-IsBin = record {
  store = record {
    aligned = λ a h. let this : a ≡ 65536 = ground arith in rw this base-aligned;
    slabs = λ a h. let this : a ≡ 65536 = ground arith in rw this large_used-IsSlab;
    mine = λ a h. large_used-owner;
    indexed = λ a h. large_used-index;
  };
  current = ground arith;
  partials = record { links = refl; once = λ a. omega arith };
  fulls = record { links = refl; once = λ a. omega arith };
  once = λ a. ground arith;
  ready = λ a h. absurd (omega arith);
  spent = λ a h. absurd (omega arith);
  beside =
      around-Untouched (machine blank large_used) one_out Neighbour 3 holder 48 _ Neighbour-aligned
        (λ a h. ground arith) (λ a h. ground arith);
}

-- The page at 65536 is in the pool's cache.
abbrev pub with_cached : Machine
with_cached = record (machine blank large_used) {
  pool = record new_pool { slab_cache = 65536; slab_cache_len = 1 };
}

abbrev pub without_cached : Machine
without_cached = record (machine blank large_used) {
  pool = record new_pool { slab_cache = 0; slab_cache_len = 0 };
}

pub with_cached-page : get_page none with_cached ≡ some (some 65536, without_cached)
unfolding get_page uncache_slab
with_cached-page = refl

-- The only slot is allocated, freed by another thread, missed by an allocation, drained and given again.
abbrev round_trip : List Call
round_trip = allocate ∷ free_remote 98304 ∷ allocate ∷ drain ∷ allocate ∷ []

round_trip-Behaves : Behaves 65536 round_trip (blank, init 48 7) []
unfolding alloc init bump pop class_size next_multiple_of dealloc_remote drain_remote
round_trip-Behaves = (tt, (omega arith, (tt, (tt, (tt, tt)))))

perform_all-StoreRun_example :
    StoreRun
      ((init 48 7).slot_count)
      round_trip
      (perform_all 65536 round_trip (blank, init 48 7))
      (record { outs = []; sent = 0 })
perform_all-StoreRun_example =
    perform_all-StoreRun 65536 blank 48 7 round_trip (omega arith) (omega arith) round_trip-Behaves
