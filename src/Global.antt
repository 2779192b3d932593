-- ===== src/Global.antt =====
-- src/global.rs: the `GlobalAlloc` implementation, with the thread-local pointer to the heap.
use clmalloc.Base.{ℕ, ◌+◌, Option, none, some, ◌==◌, if◌then◌else◌}
use clmalloc.SizeClass.{Layout, class_index}
use clmalloc.Slab.Links.{null}
use clmalloc.Slab.Header.{from_ptr}
use clmalloc.Base.Fun.{update}
use clmalloc.Metrics.{zero_metrics}
use clmalloc.Pool.State.{Machine, Cmd, pure, ◌>>=◌, ◌>>◌}
use clmalloc.Pool.Shared.{register_heap, deregister_heap, dealloc_large}
use clmalloc.Heap.State.{Heap, new_heap, next_heap_id, slab_dealloc_remote}
use clmalloc.Heap.Alloc
use clmalloc.Heap.Free
pub mod Laws

-- The thread-local `HEAP`: null, `DESTROYED`, or a pointer to the thread's heap.
pub data Tls : Type 0 where
  uninit : Tls
  destroyed : Tls
  live : Heap → Tls

-- What the environment answers during a call: whether `libc::malloc` gives memory for a heap, and
-- what the page allocator would return. `fuel` bounds the loops of the heap.
pub record Env : Type 0 where
  pub malloc_ok : ℕ
  pub page : Option ℕ
  pub fuel : ℕ

-- The process: the shared memory and `NEXT_HEAP_ID`.
pub record Thread : Type 0 where
  pub tls : Tls
  pub next_id : ℕ

-- The new heap's counters start at zero and are registered; the key's value is set to the heap.
unfoldable pub init_heap : Env → Thread → Cmd (Option Heap × Thread)
init_heap env t = if env.malloc_ok == 0 then pure (none, t) else do
  let (id, next) = next_heap_id t.next_id
  h ← (λ m. some (new_heap id m))
  (λ m. some (tt, record m { counters = update m.counters id zero_metrics }))
  register_heap id
  pure (some h, record { tls = live h; next_id = next })

-- A null pointer is 0.
abbrev pub or_null : Option ℕ → ℕ
or_null none = null
or_null (some p) = p

unfoldable pub alloc_with : Env → Layout → Heap → Thread → Cmd (ℕ × Thread)
alloc_with env layout h t = do
  (ptr, h') ← Alloc.alloc env.fuel env.page layout h
  pure (or_null ptr, record t { tls = live h' })

unfoldable pub alloc_tls : Env → Layout → Tls → Thread → Cmd (ℕ × Thread)
alloc_tls env layout destroyed t = pure (null, t)
alloc_tls env layout (live h) t = alloc_with env layout h t
alloc_tls env layout uninit t = do
  (made, t') ← init_heap env t
  elim made [ none ↦ pure (null, t') | some h ↦ alloc_with env layout h t' ]

unfoldable pub alloc : Env → Layout → Thread → Cmd (ℕ × Thread)
alloc env layout t =
    if layout.size == 0 then pure (layout.align, t) else alloc_tls env layout t.tls t

-- A free with no heap at hand: the slab's remote stack, or the pool for a large allocation.
unfoldable pub dealloc_direct : ℕ → Layout → Thread → Cmd Thread
dealloc_direct ptr layout t = elim (class_index layout) [
  | some class ↦ slab_dealloc_remote (from_ptr ptr) ptr >> pure t
  | none ↦ dealloc_large ptr layout >> pure t
]

unfoldable pub dealloc_tls : ℕ → Layout → Tls → Thread → Cmd Thread
dealloc_tls ptr layout (live h) t = do
  h' ← Free.dealloc ptr layout h
  pure (record t { tls = live h' })
dealloc_tls ptr layout uninit t = dealloc_direct ptr layout t
dealloc_tls ptr layout destroyed t = dealloc_direct ptr layout t

unfoldable pub dealloc : ℕ → Layout → Thread → Cmd Thread
dealloc ptr layout t = if layout.size == 0 then pure t else dealloc_tls ptr layout t.tls t

-- The destructor of the key, run at thread exit with the heap that the key holds.
unfoldable pub destroy : ℕ → Heap → Thread → Cmd Thread
destroy fuel h t = do
  deregister_heap h.id
  gone ← Free.drop_heap fuel h
  pure (record t { tls = destroyed })

unfoldable pub heap_destructor : ℕ → Tls → Thread → Cmd Thread
heap_destructor fuel (live h) t = destroy fuel h t
heap_destructor fuel uninit t = pure t
heap_destructor fuel destroyed t = pure t
