-- ===== src/Metrics/Totals.antt =====
-- Snapshot counters as sums over the registry, and what deregistering does to them.
use clmalloc.Base.{
  ℕ, zero, suc, Bool, ◌+◌, ◌-◌, ◌%◌, ◌^◌, ◌<◌, ◌≡◌, ◌≢◌, ◌∙◌, ap, sym, refl, true, false, arith,
  ◌==◌, if◌then◌else◌, Bool-cases, inl, inr,
}
use clmalloc.Base.Words64.{add64}
use clmalloc.Metrics.{
  HeapMetrics, PoolMetrics, Counters, set_registry_idx, deregister_heap, accumulate,
}
use clmalloc.Metrics.Snapshot.{
  MetricsSnapshot, accumulate_heap, aggregate_loop, aggregate_heap_metrics,
}
use clmalloc.Metrics.Registry.{IsRegistry, Registered}
use clmalloc.Metrics.Sums.{sum_from, sum_from-swap}

-- A counter that heaps have (`own`) and snapshots sum up (`shown`).
pub record IsCounter (own : HeapMetrics → ℕ) (shown : MetricsSnapshot → ℕ) : Type 0 where
  pub summed :
      (s : MetricsSnapshot) (h : HeapMetrics)
      → shown (accumulate_heap s h) ≡ add64 (shown s) (own h)
  pub folded : (m h : HeapMetrics) → own (accumulate m h) ≡ add64 (own m) (own h)
  pub finished :
      (p : PoolMetrics) (c : Counters) (s : MetricsSnapshot)
      → shown (aggregate_heap_metrics p c s)
        ≡ shown (aggregate_loop p c p.heap_count 0 (accumulate_heap s p.dead))
  pub unplaced : (m : HeapMetrics) (i : ℕ) → own (record m { registry_idx = i }) ≡ own m

abbrev pub live_total : (HeapMetrics → ℕ) → PoolMetrics → Counters → ℕ
live_total own p c = sum_from (λ i. own (c (p.heap_ptrs i))) p.heap_count 0

module _ {own : HeapMetrics → ℕ} {shown : MetricsSnapshot → ℕ} (k : IsCounter own shown) where
  -- The loop adds the counters of the heaps that it visits.
  pub aggregate_loop-sum :
      (p : PoolMetrics) (c : Counters) (n i : ℕ) (s : MetricsSnapshot)
      → shown (aggregate_loop p c n i s) % 2 ^ 64
        ≡ (shown s + sum_from (λ j. own (c (p.heap_ptrs j))) n i) % 2 ^ 64
  unfolding aggregate_loop
  aggregate_loop-sum p c zero i s = omega arith
  aggregate_loop-sum p c (suc n) i s = omega (
    arith,
    aggregate_loop-sum p c n (i + 1) (accumulate_heap s (c (p.heap_ptrs i))),
    k.summed s (c (p.heap_ptrs i)),
  )

  own-set_registry_idx : (c : Counters) (ptr i q : ℕ) → own (set_registry_idx c ptr i q) ≡ own (c q)
  own-set_registry_idx c ptr i q = elim (Bool-cases (q == ptr)) [
    | inl e ↦
        let same : q ≡ ptr = ground arith in
        rw e (k.unplaced (c ptr) (i % 2 ^ 32) ∙ ap (λ (t : ℕ). own (c t)) (sym same))
    | inr e ↦ rw e refl
  ]

  own-if :
      (b : Bool) (c : Counters) (ptr i q : ℕ)
      → own ((if b then c else set_registry_idx c ptr i) q) ≡ own (c q)
  own-if true c ptr i q = refl
  own-if false c ptr i q = own-set_registry_idx c ptr i q

  -- Folding a heap that goes into `dead` leaves the sum over the dead and the live as it is.
  pub deregister_heap-total :
      (p : PoolMetrics) (c : Counters) (ptr : ℕ)
      → IsRegistry p c
      → Registered p ptr
      → (own (deregister_heap p c ptr).0.dead
            + live_total own (deregister_heap p c ptr).0 (deregister_heap p c ptr).1)
          % 2 ^ 64
        ≡ (own p.dead + live_total own p c) % 2 ^ 64
  unfolding deregister_heap
  deregister_heap-total p c ptr r (i, lt, at) =
      let place : (c ptr).registry_idx ≡ i =
        ap (λ (q : ℕ). (c q).registry_idx) (sym at) ∙ r.placed i lt in
      let last_suc : p.heap_count ≡ suc (p.heap_count - 1) = omega arith in
      let g : ℕ → ℕ = λ j. own (c (p.heap_ptrs j)) in
      let f : ℕ → ℕ =
        λ j. own ((deregister_heap p c ptr).1 ((deregister_heap p c ptr).0.heap_ptrs j)) in
      let total : sum_from f (p.heap_count - 1) 0 + g i ≡ sum_from g (suc (p.heap_count - 1)) 0 =
        sum_from-swap g f (p.heap_count - 1) i
          (λ j l ne. own-deregister j ∙ ap (λ (q : ℕ). own (c q)) (kept j l ne)) (omega arith)
          (λ l. own-deregister i ∙ ap (λ (q : ℕ). own (c q)) (moved l)) in
      omega (
        arith,
        total,
        ap (λ (n : ℕ). sum_from g n 0) last_suc,
        k.folded p.dead (c ptr),
        ap (λ (q : ℕ). own (c q)) at,
      )
    where
      own-deregister :
          (j : ℕ)
          → own ((deregister_heap p c ptr).1 ((deregister_heap p c ptr).0.heap_ptrs j))
            ≡ own (c ((deregister_heap p c ptr).0.heap_ptrs j))
      own-deregister j =
          own-if ((c ptr).registry_idx == p.heap_count - 1) c (p.heap_ptrs (p.heap_count - 1))
            (c ptr).registry_idx ((deregister_heap p c ptr).0.heap_ptrs j)

      kept :
          (j : ℕ)
          → j < p.heap_count - 1
          → j ≢ i
          → (deregister_heap p c ptr).0.heap_ptrs j ≡ p.heap_ptrs j
      kept j l ne = ground (arith, ap (λ (q : ℕ). (c q).registry_idx) (sym at) ∙ r.placed i lt)

      moved :
          i < p.heap_count - 1
          → (deregister_heap p c ptr).0.heap_ptrs i ≡ p.heap_ptrs (p.heap_count - 1)
      moved l = ground (arith, ap (λ (q : ℕ). (c q).registry_idx) (sym at) ∙ r.placed i lt)

  aggregate_loop-small :
      (p : PoolMetrics) (c : Counters) (n i : ℕ) (s : MetricsSnapshot)
      → shown s < 2 ^ 64
      → shown (aggregate_loop p c n i s) < 2 ^ 64
  unfolding aggregate_loop
  aggregate_loop-small p c zero i s h = h
  aggregate_loop-small p c (suc n) i s h =
      aggregate_loop-small p c n (i + 1) (accumulate_heap s (c (p.heap_ptrs i)))
        (omega (arith, k.summed s (c (p.heap_ptrs i))))

  -- What a snapshot shows is the wrapped sum over the dead and the live heaps.
  pub aggregate_heap_metrics-sum :
      (p : PoolMetrics) (c : Counters) (s : MetricsSnapshot)
      → shown (aggregate_heap_metrics p c s)
        ≡ (shown s + (own p.dead + live_total own p c)) % 2 ^ 64
  aggregate_heap_metrics-sum p c s =
      let first = accumulate_heap s p.dead in
      omega (
        arith,
        k.finished p c s,
        k.summed s p.dead,
        aggregate_loop-sum p c p.heap_count 0 first,
        aggregate_loop-small p c p.heap_count 0 first (omega (arith, k.summed s p.dead)),
      )

  pub deregister_heap-shown :
      (p : PoolMetrics) (c : Counters) (ptr : ℕ) (s : MetricsSnapshot)
      → IsRegistry p c
      → Registered p ptr
      → shown (aggregate_heap_metrics (deregister_heap p c ptr).0 (deregister_heap p c ptr).1 s)
        ≡ shown (aggregate_heap_metrics p c s)
  deregister_heap-shown p c ptr s r reg =
      let (p', c') = deregister_heap p c ptr in
      omega (
        arith,
        aggregate_heap_metrics-sum p c s,
        aggregate_heap_metrics-sum p' c' s,
        deregister_heap-total p c ptr r reg,
      )
