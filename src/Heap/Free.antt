-- ===== src/Heap/Free.antt =====
-- `Heap::dealloc` and the drop of a heap of src/heap.rs.
use clmalloc.Base.{ℕ, zero, suc, ◌+◌, none, some, ◌==◌, if◌then◌else◌}
use clmalloc.SizeClass.{Layout, class_index, class_size, num_classes}
use clmalloc.Slab.Links.{null}
use clmalloc.Slab.Header.{from_ptr, is_fully_free, free_count}
use clmalloc.Metrics.{on_dealloc, on_large_dealloc, on_remote_free}
use clmalloc.Pool.State.{Cmd, pure, ◌>>=◌, ◌>>◌}
use clmalloc.Pool.Shared.{cache_slab, abandon_slab, dealloc_large}
use clmalloc.Heap.State.{
  Heap, full_cell, partial_cell, set_bin, header_at, get, slab_dealloc_local, slab_drain_remote,
  slab_dealloc_remote, list_push, list_pop, list_remove, count_with,
}

unfoldable pub reclaim_slab : ℕ → Cmd (Unit {0})
reclaim_slab target = list_remove target >> cache_slab target

-- After a local free: a slab with no slot out is reclaimed, and one that was full gets a place
-- where allocations find it.
unfoldable pub settle : ℕ → ℕ → Heap → Cmd Heap
settle class base h = do
  m ← get
  let hd = header_at m base
  if is_fully_free hd
      then (reclaim_slab base >> pure h)
      else if free_count hd == 1
      then (list_remove base
          >> (if h.bins class == null
              then pure (set_bin h class base)
              else (list_push (partial_cell h class) base >> pure h)))
      else pure h

-- A slot of some class: of the active slab, of another slab of this heap, or of another heap.
unfoldable pub dealloc_class : ℕ → ℕ → Heap → Cmd Heap
dealloc_class class ptr h = do
  count_with h (λ c. on_dealloc c class (class_size class))
  m ← get
  let base = from_ptr ptr
  if h.bins class == base
      then (slab_dealloc_local base ptr >> pure h)
      else if (header_at m base).heap_id == h.id
      then (slab_dealloc_local base ptr >> settle class base h)
      else (count_with h (λ c. on_remote_free c 1) >> (slab_dealloc_remote base ptr >> pure h))

unfoldable pub dealloc : ℕ → Layout → Heap → Cmd Heap
dealloc ptr layout h = elim (class_index layout) [
  | some class ↦ dealloc_class class ptr h
  | none ↦
      count_with h (λ c. on_large_dealloc c layout.size) >> (dealloc_large ptr layout >> pure h)
]

-- A slab of a heap that goes: back to the cache with no slot out, else up for adoption.
unfoldable pub give_up : ℕ → Cmd (Unit {0})
give_up base = do
  slab_drain_remote base
  m ← get
  if is_fully_free (header_at m base) then cache_slab base else abandon_slab base

unfoldable pub retire_slab : ℕ → Heap → Cmd Heap
retire_slab class h =
    if h.bins class == null then pure h else (give_up (h.bins class) >> pure (set_bin h class null))

-- `while let Some(slab) = slab_list_pop(…)`; `none` is fuel that ran out.
unfoldable pub empty_list : ℕ → ℕ → Cmd (Unit {0})
empty_list zero cell = λ m. none
empty_list (suc fuel) cell = do
  slab ← list_pop cell
  elim slab [ none ↦ pure tt | some base ↦ give_up base >> empty_list fuel cell ]

-- The rounds left, then the class.
unfoldable pub drop_loop : ℕ → ℕ → ℕ → Heap → Cmd Heap
drop_loop fuel zero class h = pure h
drop_loop fuel (suc rounds) class h = do
  h1 ← retire_slab class h
  empty_list fuel (full_cell h1 class)
  empty_list fuel (partial_cell h1 class)
  drop_loop fuel rounds (class + 1) h1

unfoldable pub drop_heap : ℕ → Heap → Cmd Heap
drop_heap fuel h = drop_loop fuel num_classes 0 h
