-- ===== src/Metrics/Snapshot.antt =====
-- Snapshots of src/metrics.rs: the sum of the counters of all heaps, live and dead.
use clmalloc.Base.{ℕ, zero, suc, ◌+◌, ◌-◌}
use clmalloc.Base.Words64.{add64, sub64, signed64, ℤ, pos}
use clmalloc.Metrics.{HeapMetrics, PoolMetrics, Counters, zero_array, add_arrays}

pub record MetricsSnapshot : Type 0 where
  pub allocated : ℕ
  pub active : ℕ
  pub mapped : ℕ
  pub alloc_bytes : ℕ
  pub free_bytes : ℕ
  pub class_alloc_count : ℕ → ℕ
  pub class_dealloc_count : ℕ → ℕ
  pub class_alloc_bytes : ℕ → ℕ
  pub class_free_bytes : ℕ → ℕ
  pub class_live_count : ℕ → ℤ
  pub class_live_bytes : ℕ → ℤ
  pub abandon_count : ℕ → ℕ
  pub adopt_count : ℕ → ℕ
  pub segment_mmap_count : ℕ
  pub segment_munmap_count : ℕ
  pub slab_purge_count : ℕ
  pub large_alloc_count : ℕ
  pub large_alloc_bytes : ℕ
  pub large_dealloc_bytes : ℕ
  pub remote_free_count : ℕ
  pub pool_lock_count : ℕ

abbrev pub new_snapshot : MetricsSnapshot
new_snapshot = record {
  allocated = 0;
  active = 0;
  mapped = 0;
  alloc_bytes = 0;
  free_bytes = 0;
  class_alloc_count = zero_array;
  class_dealloc_count = zero_array;
  class_alloc_bytes = zero_array;
  class_free_bytes = zero_array;
  class_live_count = λ i. pos 0;
  class_live_bytes = λ i. pos 0;
  abandon_count = zero_array;
  adopt_count = zero_array;
  segment_mmap_count = 0;
  segment_munmap_count = 0;
  slab_purge_count = 0;
  large_alloc_count = 0;
  large_alloc_bytes = 0;
  large_dealloc_bytes = 0;
  remote_free_count = 0;
  pool_lock_count = 0;
}

unfoldable pub accumulate_heap : MetricsSnapshot → HeapMetrics → MetricsSnapshot
accumulate_heap s h = record s {
  alloc_bytes = add64 s.alloc_bytes h.alloc_bytes;
  free_bytes = add64 s.free_bytes h.free_bytes;
  remote_free_count = add64 s.remote_free_count h.remote_free_count;
  large_alloc_count = add64 s.large_alloc_count h.large_alloc_count;
  large_alloc_bytes = add64 s.large_alloc_bytes h.large_alloc_bytes;
  large_dealloc_bytes = add64 s.large_dealloc_bytes h.large_dealloc_bytes;
  class_alloc_count = add_arrays s.class_alloc_count h.class_alloc_count;
  class_dealloc_count = add_arrays s.class_dealloc_count h.class_dealloc_count;
  class_alloc_bytes = add_arrays s.class_alloc_bytes h.class_alloc_bytes;
  class_free_bytes = add_arrays s.class_free_bytes h.class_free_bytes;
}

-- The `for i in 0..self.heap_count` of `aggregate_heap_metrics`: the rounds left, then the index.
unfoldable pub aggregate_loop : PoolMetrics → Counters → ℕ → ℕ → MetricsSnapshot → MetricsSnapshot
aggregate_loop p c zero i s = s
aggregate_loop p c (suc n) i s =
    aggregate_loop p c n (i + 1) (accumulate_heap s (c (p.heap_ptrs i)))

unfoldable pub aggregate_heap_metrics : PoolMetrics → Counters → MetricsSnapshot → MetricsSnapshot
aggregate_heap_metrics p c s =
    let summed = aggregate_loop p c p.heap_count 0 (accumulate_heap s p.dead) in
    record summed {
      abandon_count = p.abandon_count;
      adopt_count = p.adopt_count;
      segment_mmap_count = p.segment_mmap_count;
      segment_munmap_count = p.segment_munmap_count;
      slab_purge_count = p.slab_purge_count;
      pool_lock_count = p.pool_lock_count;
    }

-- `saturating_sub` is `-` on ℕ.
unfoldable pub finalize : MetricsSnapshot → MetricsSnapshot
finalize s = record s {
  class_live_count = λ i. signed64 (sub64 (s.class_alloc_count i) (s.class_dealloc_count i));
  class_live_bytes = λ i. signed64 (sub64 (s.class_alloc_bytes i) (s.class_free_bytes i));
  allocated = s.alloc_bytes - s.free_bytes;
}
