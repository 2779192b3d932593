-- ===== src/Metrics/Deregister.antt =====
-- A snapshot before and after a heap is deregistered, for each counter of a heap.
use clmalloc.Base.{ℕ, ◌≡◌, refl}
use clmalloc.Metrics.{PoolMetrics, Counters, deregister_heap, accumulate}
use clmalloc.Metrics.Snapshot.{MetricsSnapshot, accumulate_heap, aggregate_heap_metrics}
use clmalloc.Metrics.Registry.{IsRegistry, Registered}
use clmalloc.Metrics.Totals.{IsCounter, deregister_heap-shown}

-- The counters of a heap that a snapshot sums up. The last four are per size class.
abbrev pub SameTotals : MetricsSnapshot → MetricsSnapshot → Type 0
SameTotals s t =
    (s.alloc_bytes ≡ t.alloc_bytes)
    × (s.free_bytes ≡ t.free_bytes)
    × (s.remote_free_count ≡ t.remote_free_count)
    × (s.large_alloc_count ≡ t.large_alloc_count)
    × (s.large_alloc_bytes ≡ t.large_alloc_bytes)
    × (s.large_dealloc_bytes ≡ t.large_dealloc_bytes)
    × ((i : ℕ) → s.class_alloc_count i ≡ t.class_alloc_count i)
    × ((i : ℕ) → s.class_dealloc_count i ≡ t.class_dealloc_count i)
    × ((i : ℕ) → s.class_alloc_bytes i ≡ t.class_alloc_bytes i)
    × ((i : ℕ) → s.class_free_bytes i ≡ t.class_free_bytes i)

alloc_bytes-IsCounter : IsCounter (λ h. h.alloc_bytes) (λ s. s.alloc_bytes)
unfolding accumulate accumulate_heap aggregate_heap_metrics
alloc_bytes-IsCounter = record {
  summed = λ s h. refl;
  folded = λ m h. refl;
  finished = λ p c s. refl;
  unplaced = λ m i. refl;
}

free_bytes-IsCounter : IsCounter (λ h. h.free_bytes) (λ s. s.free_bytes)
unfolding accumulate accumulate_heap aggregate_heap_metrics
free_bytes-IsCounter = record {
  summed = λ s h. refl;
  folded = λ m h. refl;
  finished = λ p c s. refl;
  unplaced = λ m i. refl;
}

remote_free_count-IsCounter : IsCounter (λ h. h.remote_free_count) (λ s. s.remote_free_count)
unfolding accumulate accumulate_heap aggregate_heap_metrics
remote_free_count-IsCounter = record {
  summed = λ s h. refl;
  folded = λ m h. refl;
  finished = λ p c s. refl;
  unplaced = λ m i. refl;
}

large_alloc_count-IsCounter : IsCounter (λ h. h.large_alloc_count) (λ s. s.large_alloc_count)
unfolding accumulate accumulate_heap aggregate_heap_metrics
large_alloc_count-IsCounter = record {
  summed = λ s h. refl;
  folded = λ m h. refl;
  finished = λ p c s. refl;
  unplaced = λ m i. refl;
}

large_alloc_bytes-IsCounter : IsCounter (λ h. h.large_alloc_bytes) (λ s. s.large_alloc_bytes)
unfolding accumulate accumulate_heap aggregate_heap_metrics
large_alloc_bytes-IsCounter = record {
  summed = λ s h. refl;
  folded = λ m h. refl;
  finished = λ p c s. refl;
  unplaced = λ m i. refl;
}

large_dealloc_bytes-IsCounter : IsCounter (λ h. h.large_dealloc_bytes) (λ s. s.large_dealloc_bytes)
unfolding accumulate accumulate_heap aggregate_heap_metrics
large_dealloc_bytes-IsCounter = record {
  summed = λ s h. refl;
  folded = λ m h. refl;
  finished = λ p c s. refl;
  unplaced = λ m i. refl;
}

class_alloc_count-IsCounter :
    (i : ℕ) → IsCounter (λ h. h.class_alloc_count i) (λ s. s.class_alloc_count i)
unfolding accumulate accumulate_heap aggregate_heap_metrics
class_alloc_count-IsCounter i = record {
  summed = λ s h. refl;
  folded = λ m h. refl;
  finished = λ p c s. refl;
  unplaced = λ m i. refl;
}

class_dealloc_count-IsCounter :
    (i : ℕ) → IsCounter (λ h. h.class_dealloc_count i) (λ s. s.class_dealloc_count i)
unfolding accumulate accumulate_heap aggregate_heap_metrics
class_dealloc_count-IsCounter i = record {
  summed = λ s h. refl;
  folded = λ m h. refl;
  finished = λ p c s. refl;
  unplaced = λ m i. refl;
}

class_alloc_bytes-IsCounter :
    (i : ℕ) → IsCounter (λ h. h.class_alloc_bytes i) (λ s. s.class_alloc_bytes i)
unfolding accumulate accumulate_heap aggregate_heap_metrics
class_alloc_bytes-IsCounter i = record {
  summed = λ s h. refl;
  folded = λ m h. refl;
  finished = λ p c s. refl;
  unplaced = λ m i. refl;
}

class_free_bytes-IsCounter :
    (i : ℕ) → IsCounter (λ h. h.class_free_bytes i) (λ s. s.class_free_bytes i)
unfolding accumulate accumulate_heap aggregate_heap_metrics
class_free_bytes-IsCounter i = record {
  summed = λ s h. refl;
  folded = λ m h. refl;
  finished = λ p c s. refl;
  unplaced = λ m i. refl;
}

-- Deregistering a registered heap changes no total that a snapshot shows: its counters move into
-- those of the dead heaps.
pub deregister_heap-snapshot :
    (p : PoolMetrics) (c : Counters) (ptr : ℕ) (s : MetricsSnapshot)
    → IsRegistry p c
    → Registered p ptr
    → SameTotals
        (aggregate_heap_metrics (deregister_heap p c ptr).0 (deregister_heap p c ptr).1 s)
        (aggregate_heap_metrics p c s)
deregister_heap-snapshot p c ptr s r reg = (
  deregister_heap-shown alloc_bytes-IsCounter p c ptr s r reg,
  deregister_heap-shown free_bytes-IsCounter p c ptr s r reg,
  deregister_heap-shown remote_free_count-IsCounter p c ptr s r reg,
  deregister_heap-shown large_alloc_count-IsCounter p c ptr s r reg,
  deregister_heap-shown large_alloc_bytes-IsCounter p c ptr s r reg,
  deregister_heap-shown large_dealloc_bytes-IsCounter p c ptr s r reg,
  λ i. deregister_heap-shown (class_alloc_count-IsCounter i) p c ptr s r reg,
  λ i. deregister_heap-shown (class_dealloc_count-IsCounter i) p c ptr s r reg,
  λ i. deregister_heap-shown (class_alloc_bytes-IsCounter i) p c ptr s r reg,
  λ i. deregister_heap-shown (class_free_bytes-IsCounter i) p c ptr s r reg,
)
