-- ===== src/Metrics.antt =====
-- src/metrics.rs: the counters of each heap, and the registry of heaps. An array of one
-- counter per size class is a function of the index; counters are u64 and wrap. A heap's counters
-- live at an address, and `Counters` is the memory that holds them.
pub mod Snapshot
pub mod Registry
pub mod Sums
pub mod Totals
pub mod Deregister
use clmalloc.Base.{
  ℕ, zero, suc, ◌+◌, ◌-◌, ◌%◌, ◌^◌, Option, none, some, ltb, leb, ◌==◌, if◌then◌else◌,
}
use clmalloc.Base.Fun.{update}
use clmalloc.Base.Words64.{add64}

abbrev pub max_heaps : ℕ
max_heaps = 1024

pub record HeapMetrics : Type 0 where
  pub registry_idx : ℕ
  pub alloc_bytes : ℕ
  pub free_bytes : ℕ
  pub class_alloc_count : ℕ → ℕ
  pub class_dealloc_count : ℕ → ℕ
  pub class_alloc_bytes : ℕ → ℕ
  pub class_free_bytes : ℕ → ℕ
  pub remote_free_count : ℕ
  pub large_alloc_count : ℕ
  pub large_alloc_bytes : ℕ
  pub large_dealloc_bytes : ℕ

abbrev pub zero_array : ℕ → ℕ
zero_array i = 0

-- `HeapMetrics::ZERO`; the index is `u32::MAX`.
abbrev pub zero_metrics : HeapMetrics
zero_metrics = record {
  registry_idx = 2 ^ 32 - 1;
  alloc_bytes = 0;
  free_bytes = 0;
  class_alloc_count = zero_array;
  class_dealloc_count = zero_array;
  class_alloc_bytes = zero_array;
  class_free_bytes = zero_array;
  remote_free_count = 0;
  large_alloc_count = 0;
  large_alloc_bytes = 0;
  large_dealloc_bytes = 0;
}

-- Load, add, store: each counter has one writer.
abbrev pub inc : ℕ → ℕ → ℕ
inc a v = add64 a v

abbrev pub inc_at : (ℕ → ℕ) → ℕ → ℕ → ℕ → ℕ
inc_at f i v = update f i (inc (f i) v)

unfoldable pub on_alloc : HeapMetrics → ℕ → ℕ → HeapMetrics
on_alloc m idx class_size = record m {
  alloc_bytes = inc m.alloc_bytes class_size;
  class_alloc_count = inc_at m.class_alloc_count idx 1;
  class_alloc_bytes = inc_at m.class_alloc_bytes idx class_size;
}

unfoldable pub on_dealloc : HeapMetrics → ℕ → ℕ → HeapMetrics
on_dealloc m idx class_size = record m {
  free_bytes = inc m.free_bytes class_size;
  class_dealloc_count = inc_at m.class_dealloc_count idx 1;
  class_free_bytes = inc_at m.class_free_bytes idx class_size;
}

unfoldable pub on_large_alloc : HeapMetrics → ℕ → HeapMetrics
on_large_alloc m size = record m {
  alloc_bytes = inc m.alloc_bytes size;
  large_alloc_count = inc m.large_alloc_count 1;
  large_alloc_bytes = inc m.large_alloc_bytes size;
}

unfoldable pub on_large_dealloc : HeapMetrics → ℕ → HeapMetrics
on_large_dealloc m size = record m {
  free_bytes = inc m.free_bytes size;
  large_dealloc_bytes = inc m.large_dealloc_bytes size;
}

unfoldable pub on_remote_free : HeapMetrics → ℕ → HeapMetrics
on_remote_free m n = record m { remote_free_count = inc m.remote_free_count n }

abbrev pub add_arrays : (ℕ → ℕ) → (ℕ → ℕ) → ℕ → ℕ
add_arrays f g i = add64 (f i) (g i)

unfoldable pub accumulate : HeapMetrics → HeapMetrics → HeapMetrics
accumulate m other = record m {
  alloc_bytes = add64 m.alloc_bytes other.alloc_bytes;
  free_bytes = add64 m.free_bytes other.free_bytes;
  remote_free_count = add64 m.remote_free_count other.remote_free_count;
  large_alloc_count = add64 m.large_alloc_count other.large_alloc_count;
  large_alloc_bytes = add64 m.large_alloc_bytes other.large_alloc_bytes;
  large_dealloc_bytes = add64 m.large_dealloc_bytes other.large_dealloc_bytes;
  class_alloc_count = add_arrays m.class_alloc_count other.class_alloc_count;
  class_dealloc_count = add_arrays m.class_dealloc_count other.class_dealloc_count;
  class_alloc_bytes = add_arrays m.class_alloc_bytes other.class_alloc_bytes;
  class_free_bytes = add_arrays m.class_free_bytes other.class_free_bytes;
}

abbrev pub Counters : Type 0
Counters = ℕ → HeapMetrics

pub record PoolMetrics : Type 0 where
  pub abandon_count : ℕ → ℕ
  pub adopt_count : ℕ → ℕ
  pub segment_mmap_count : ℕ
  pub segment_munmap_count : ℕ
  pub slab_purge_count : ℕ
  pub pool_lock_count : ℕ
  pub heap_ptrs : ℕ → ℕ
  pub heap_count : ℕ
  pub dead : HeapMetrics

abbrev pub new_pool_metrics : PoolMetrics
new_pool_metrics = record {
  abandon_count = zero_array;
  adopt_count = zero_array;
  segment_mmap_count = 0;
  segment_munmap_count = 0;
  slab_purge_count = 0;
  pool_lock_count = 0;
  heap_ptrs = zero_array;
  heap_count = 0;
  dead = zero_metrics;
}

abbrev pub set_registry_idx : Counters → ℕ → ℕ → Counters
set_registry_idx c ptr idx = update c ptr (record (c ptr) { registry_idx = idx % 2 ^ 32 })

-- `none` is the failed assertion "heap registry full".
unfoldable pub register_heap : PoolMetrics → Counters → ℕ → Option (PoolMetrics × Counters)
register_heap p c ptr =
    let idx = p.heap_count in
    if ltb idx max_heaps
    then some (
      record p { heap_ptrs = update p.heap_ptrs idx ptr; heap_count = idx + 1 },
      set_registry_idx c ptr idx,
    )
    else none

-- The last entry moves into the gap.
unfoldable pub deregister_heap : PoolMetrics → Counters → ℕ → PoolMetrics × Counters
deregister_heap p c ptr =
    let metrics = c ptr in
    let idx = metrics.registry_idx in
    let last = p.heap_count - 1 in
    let moved = p.heap_ptrs last in
    let ptrs = if idx == last then p.heap_ptrs else update p.heap_ptrs idx moved in
    let c' = if idx == last then c else set_registry_idx c moved idx in
    (
      record p {
        dead = accumulate p.dead metrics;
        heap_count = last;
        heap_ptrs = update ptrs last 0;
      },
      c',
    )
