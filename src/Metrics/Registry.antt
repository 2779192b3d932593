-- ===== src/Metrics/Registry.antt =====
-- The registry of heaps: each registered heap knows its place in it.
use clmalloc.Base.{
  ℕ, ◌+◌, ◌-◌, ◌%◌, ◌^◌, ◌≤◌, ◌<◌, ◌≡◌, ◌≢◌, ◌∙◌, ap, sym, true, some, none, arith, ltb, ◌==◌,
  Bool-cases, inl, inr,
}
use clmalloc.Base.Fun.{update}
use clmalloc.Metrics.{PoolMetrics, Counters, max_heaps, register_heap, deregister_heap}

pub record IsRegistry (p : PoolMetrics) (c : Counters) : Type 0 where
  pub bounded : p.heap_count ≤ max_heaps
  pub placed : (i : ℕ) → i < p.heap_count → (c (p.heap_ptrs i)).registry_idx ≡ i

abbrev pub Registered : PoolMetrics → ℕ → Type 0
Registered p ptr = (i : ℕ) × (i < p.heap_count) × (p.heap_ptrs i ≡ ptr)

-- A new heap is accepted while fewer than 1024 are registered, and is then found in the registry.
pub register_heap-IsRegistry :
    (p : PoolMetrics) (c : Counters) (ptr : ℕ)
    → IsRegistry p c
    → ((i : ℕ) → i < p.heap_count → p.heap_ptrs i ≢ ptr)
    → p.heap_count < max_heaps
    → (p' : PoolMetrics) × (c' : Counters) × (register_heap p c ptr ≡ some (p', c'))
      × IsRegistry p' c'
      × Registered p' ptr
unfolding register_heap
register_heap-IsRegistry p c ptr r new room =
    let yes_room : ltb p.heap_count 1024 ≡ true = ground arith in
    (
      record p { heap_ptrs = update p.heap_ptrs p.heap_count ptr; heap_count = p.heap_count + 1 },
      update c ptr (record (c ptr) { registry_idx = p.heap_count % 2 ^ 32 }),
      rw yes_room,
      record { bounded = omega arith; placed = λ i h. ground (arith, r.placed i, new i) },
      (p.heap_count, omega arith, ground arith),
    )

-- A full registry refuses.
pub register_heap-full :
    (p : PoolMetrics) (c : Counters) (ptr : ℕ)
    → max_heaps ≤ p.heap_count
    → register_heap p c ptr ≡ none
unfolding register_heap
register_heap-full p c ptr h = ground arith

-- Deregistering a heap keeps every other heap in the registry, at the place it knows, and takes
-- that heap out.
pub deregister_heap-IsRegistry :
    (p : PoolMetrics) (c : Counters) (ptr : ℕ)
    → IsRegistry p c
    → Registered p ptr
    → IsRegistry (deregister_heap p c ptr).0 (deregister_heap p c ptr).1
      × ((i : ℕ)
          → i < (deregister_heap p c ptr).0.heap_count
          → (deregister_heap p c ptr).0.heap_ptrs i ≢ ptr)
      × ((other : ℕ)
          → other ≢ ptr
          → Registered p other
          → Registered (deregister_heap p c ptr).0 other)
unfolding deregister_heap
deregister_heap-IsRegistry p c ptr r (k, lt, at) =
    let place : (c ptr).registry_idx ≡ k =
      ap (λ (q : ℕ). (c q).registry_idx) (sym at) ∙ r.placed k lt in
    (
      record {
        bounded = omega (arith, r.bounded);
        placed = λ i h.
            ground (arith, place, r.bounded, r.placed i, r.placed (p.heap_count - 1), r.placed k);
      },
      λ i h e. ground (arith, place, r.placed i, r.placed (p.heap_count - 1), r.placed k),
      λ other ne (i, h, is). elim (Bool-cases (i == p.heap_count - 1)) [
        | inl e ↦ (k, ground (arith, r.placed k), ground (arith, place))
        | inr e ↦ (i, ground arith, ground (arith, place))
      ],
    )
