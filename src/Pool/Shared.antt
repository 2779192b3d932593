-- ===== src/Pool/Shared.antt =====
-- The lock-free parts of src/pool.rs, large allocations, snapshots and the drop. Each operation runs
-- with no other thread in between, so a compare-and-swap finds the value that was loaded.
use clmalloc.Base.{ℕ, zero, suc, ◌+◌, ◌-◌, ◌*◌, Option, none, some, ◌∷◌, leb, ◌==◌, if◌then◌else◌}
use clmalloc.Base.Fun.{update}
use clmalloc.Base.Words64.{add64, sub64}
use clmalloc.SizeClass.{Layout}
use clmalloc.Slab.Links.{null, read_next, write_next}
use clmalloc.Slab.Header.{slab_size}
use clmalloc.Slab.Queue.{set_next_link}
use clmalloc.Metrics
use clmalloc.Metrics.Snapshot.{MetricsSnapshot, new_snapshot, aggregate_heap_metrics, finalize}
use clmalloc.Pool.State.{
  segment_size, slab_cache_max, Machine, Cmd, pure, ◌>>=◌, ◌>>◌, os_dealloc, set_state,
}
use clmalloc.Pool.Return.{dealloc_slab}

-- The slab's `next_link` goes to the old head of its class; `abandon_count` takes the lock again.
unfoldable pub abandon_slab : ℕ → Cmd (Unit {0})
abandon_slab base m =
    let class = (m.nodes.header base).size_class_index in
    let s = m.pool.state in
    some (
      tt,
      record m {
        nodes = set_next_link m.nodes base (m.pool.abandoned class);
        pool = record (m.pool) {
          abandoned = update m.pool.abandoned class base;
          state = record s {
            metrics = record (s.metrics) {
              abandon_count = Metrics.inc_at (s.metrics.abandon_count) class 1;
            };
          };
        };
      },
    )

-- The whole list of a class, as the base of its first slab; the list is left empty.
unfoldable pub adopt_all : ℕ → Cmd (Option ℕ)
adopt_all class m =
    let head = m.pool.abandoned class in
    if head == null
    then some (none, m)
    else some (
      some head,
      record m { pool = record (m.pool) { abandoned = update m.pool.abandoned class null } },
    )

unfoldable pub cache_slab : ℕ → Cmd (Unit {0})
cache_slab base m =
    let p = m.pool in
    let cached = record m {
      words = write_next m.words base p.slab_cache;
      pool = record p { slab_cache = base; slab_cache_len = add64 p.slab_cache_len 1 };
    } in
    if leb slab_cache_max p.slab_cache_len then dealloc_slab base m else some (tt, cached)

unfoldable pub uncache_slab : Cmd (Option ℕ)
uncache_slab m =
    let p = m.pool in
    let head = p.slab_cache in
    if head == null
    then some (none, m)
    else some (
      some head,
      record m {
        pool = record p {
          slab_cache = read_next m.words head;
          slab_cache_len = sub64 p.slab_cache_len 1;
        };
      },
    )

-- `answer` is what the page allocator returns for the layout.
unfoldable pub alloc_large : Option ℕ → Layout → Cmd (Option ℕ)
alloc_large none layout m = some (none, m)
alloc_large (some ptr) layout m =
    let s = m.pool.state in
    some (
      some ptr,
      set_state m (record s { large_mapped_bytes = add64 s.large_mapped_bytes layout.size }),
    )

unfoldable pub dealloc_large : ℕ → Layout → Cmd (Unit {0})
dealloc_large ptr layout m =
    let s = m.pool.state in
    let m' =
      set_state m (record s { large_mapped_bytes = sub64 s.large_mapped_bytes layout.size }) in
    some (tt, record m' { log = os_dealloc ptr layout.size ∷ m.log })

unfoldable pub inc_adopt_count : ℕ → Cmd (Unit {0})
inc_adopt_count class m =
    let s = m.pool.state in
    some (
      tt,
      set_state m (record s {
        metrics = record (s.metrics) {
          adopt_count = Metrics.inc_at (s.metrics.adopt_count) class 1;
        };
      }),
    )

unfoldable pub register_heap : ℕ → Cmd (Unit {0})
register_heap ptr m = elim (Metrics.register_heap m.pool.state.metrics m.counters ptr) [
  | none ↦ none
  | some (pm, c) ↦
      some (tt, record (set_state m (record (m.pool.state) { metrics = pm })) { counters = c })
]

unfoldable pub deregister_heap : ℕ → Cmd (Unit {0})
deregister_heap ptr m =
    let (pm, c) = Metrics.deregister_heap m.pool.state.metrics m.counters ptr in
    some (tt, record (set_state m (record (m.pool.state) { metrics = pm })) { counters = c })

unfoldable pub snapshot : Machine → MetricsSnapshot
snapshot m =
    let s = m.pool.state in
    let mapped = add64 (s.segment_count * segment_size) s.large_mapped_bytes in
    let snap =
      finalize
        (aggregate_heap_metrics s.metrics m.counters (record new_snapshot { mapped = mapped })) in
    record snap {
      active =
          add64 (s.outstanding_slabs * slab_size)
            (snap.large_alloc_bytes - snap.large_dealloc_bytes);
    }

-- `while let Some(slab) = self.uncache_slab()`; the fuel bounds the length of the cache.
unfoldable pub drain_cache : ℕ → Cmd (Unit {0})
drain_cache zero = pure tt
drain_cache (suc fuel) = do
  slab ← uncache_slab
  elim slab [ none ↦ pure tt | some base ↦ dealloc_slab base >> drain_cache fuel ]

-- The rounds left, then the index: every segment that is not null is unmapped.
unfoldable pub release_all : ℕ → ℕ → Cmd (Unit {0})
release_all zero i m = some (tt, m)
release_all (suc n) i m =
    let base = m.pool.state.segments i in
    let m' = record m { log = os_dealloc base segment_size ∷ m.log } in
    release_all n (i + 1) (if base == null then m else m')

unfoldable pub drop_pool : ℕ → Cmd (Unit {0})
drop_pool fuel m = (drain_cache fuel >> (λ m'. release_all m'.pool.state.segment_count 0 m')) m
