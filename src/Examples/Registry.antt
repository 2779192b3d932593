-- ===== src/Examples/Registry.antt =====
-- Two heaps in the registry, at the addresses 100 and 200.
use clmalloc.Base.{ℕ, ◌+◌, ◌*◌, ◌<◌, ◌≡◌, ◌≢◌, refl, some, arith}
use clmalloc.Metrics.{
  PoolMetrics, Counters, zero_metrics, new_pool_metrics, register_heap, deregister_heap, on_alloc,
  set_registry_idx,
}
use clmalloc.Metrics.Snapshot.{
  new_snapshot, aggregate_heap_metrics, aggregate_loop, accumulate_heap,
}
use clmalloc.Metrics.Registry.{
  IsRegistry, Registered, register_heap-IsRegistry, deregister_heap-IsRegistry,
}
use clmalloc.Metrics.Deregister.{SameTotals, deregister_heap-snapshot}

abbrev start : Counters
start ptr = zero_metrics

start-IsRegistry : IsRegistry new_pool_metrics start
start-IsRegistry = record { bounded = omega arith; placed = λ i h. absurd (omega arith) }

register_heap-IsRegistry_example :
    (p' : PoolMetrics) × (c' : Counters) × (register_heap new_pool_metrics start 100
      ≡ some (p', c'))
    × IsRegistry p' c'
    × Registered p' 100
register_heap-IsRegistry_example =
    register_heap-IsRegistry new_pool_metrics start 100 start-IsRegistry
      (λ i h. absurd (omega arith)) (omega arith)

-- The heap at 100 has handed out a slot of 64 bytes.
abbrev counters : Counters
counters = set_registry_idx (set_registry_idx (λ ptr. on_alloc zero_metrics 12 64) 100 0) 200 1

abbrev registry : PoolMetrics
registry = record new_pool_metrics { heap_ptrs = λ i. 100 + i * 100; heap_count = 2 }

registry-IsRegistry : IsRegistry registry counters
registry-IsRegistry = record { bounded = omega arith; placed = λ i h. ground arith }

first-Registered : Registered registry 100
first-Registered = (0, omega arith, refl)

deregister_heap-IsRegistry_example :
    IsRegistry (deregister_heap registry counters 100).0 (deregister_heap registry counters 100).1
    × ((i : ℕ)
        → i < (deregister_heap registry counters 100).0.heap_count
        → (deregister_heap registry counters 100).0.heap_ptrs i ≢ 100)
    × ((other : ℕ)
        → other ≢ 100
        → Registered registry other
        → Registered (deregister_heap registry counters 100).0 other)
deregister_heap-IsRegistry_example =
    deregister_heap-IsRegistry registry counters 100 registry-IsRegistry first-Registered

deregister_heap-snapshot_example :
    SameTotals
      (aggregate_heap_metrics
        (deregister_heap registry counters 100).0
        (deregister_heap registry counters 100).1
        new_snapshot)
      (aggregate_heap_metrics registry counters new_snapshot)
deregister_heap-snapshot_example =
    deregister_heap-snapshot registry counters 100 new_snapshot registry-IsRegistry first-Registered

-- Before and after, the snapshot shows the 128 bytes that the two heaps have handed out.
shown_before : (aggregate_heap_metrics registry counters new_snapshot).alloc_bytes ≡ 128
unfolding aggregate_heap_metrics aggregate_loop accumulate_heap on_alloc
shown_before = refl
