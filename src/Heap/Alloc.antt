-- ===== src/Heap/Alloc.antt =====
-- `Heap::alloc` of src/heap.rs and what it calls. The fuel bounds the recursion and the walks along
-- slab lists; `none` is a panic or fuel that ran out. `answer` is what the page allocator would
-- return, which is asked once at most.
use clmalloc.Base.{ℕ, zero, suc, Bool, true, false, Option, none, some, ltb, ◌==◌, if◌then◌else◌}
use clmalloc.SizeClass.{Layout, class_index, class_size}
use clmalloc.Slab.Links.{null}
use clmalloc.Slab.Header.{is_fully_free, free_count, has_pending_remote}
use clmalloc.Metrics.{on_alloc, on_large_alloc}
use clmalloc.Pool.State.{Cmd, pure, ◌>>=◌, ◌>>◌}
use clmalloc.Pool.Provide.{alloc_slab}
use clmalloc.Pool.Shared.{adopt_all, cache_slab, uncache_slab, alloc_large, inc_adopt_count}
use clmalloc.Heap.State.{
  Heap, full_cell, partial_cell, set_bin, header_at, get, slab_alloc, slab_drain_remote, slab_init,
  set_heap_id, unlinked, list_push, list_pop, list_remove, count_with,
}

unfoldable pub try_partial : ℕ → Heap → Cmd (Bool × Heap)
try_partial class h = do
  popped ← list_pop (partial_cell h class)
  elim popped [ some slab ↦ pure (true, set_bin h class slab) | none ↦ pure (false, h) ]

unfoldable pub retire_active : ℕ → Heap → Cmd Heap
retire_active class h =
    if h.bins class == null
    then pure h
    else (list_push (full_cell h class) (h.bins class) >> pure (set_bin h class null))

-- What the walk does with one slab of the full list, once its remote frees are drained.
unfoldable pub sort_scanned : ℕ → ℕ → Heap → Cmd Heap
sort_scanned class base h = do
  m ← get
  let hd = header_at m base
  if is_fully_free hd
      then (list_remove base >> (cache_slab base >> pure h))
      else if ltb 0 (free_count hd)
      then (list_remove base
          >> (if h.bins class == null
              then pure (set_bin h class base)
              else (list_push (partial_cell h class) base >> pure h)))
      else pure h

unfoldable pub scan_loop : ℕ → ℕ → ℕ → Heap → Cmd Heap
scan_loop zero class current h = λ m. none
scan_loop (suc fuel) class current h = elim (current == null) [
  | true ↦ pure h
  | false ↦ do
    m ← get
    let next = (header_at m current).next_link
    if has_pending_remote (header_at m current) then slab_drain_remote current else pure tt
    h' ← sort_scanned class current h
    scan_loop fuel class next h'
]

unfoldable pub scan_full_list : ℕ → ℕ → Heap → Cmd Heap
scan_full_list fuel class h = do m ← get; scan_loop fuel class (m.nodes.cell (full_cell h class)) h

-- Where an adopted slab goes; `result` is the slot found so far.
unfoldable pub place_adopted : ℕ → ℕ → Option ℕ → Heap → Cmd (Option ℕ × Heap)
place_adopted class base result h = do
  m ← get
  let hd = header_at m base
  let keep =
      (if ltb 0 (free_count hd)
        then (list_push (partial_cell h class) base >> pure (result, h))
        else (list_push (full_cell h class) base >> pure (result, h)))
  if is_fully_free hd then (cache_slab base >> pure (result, h)) else elim result [
    | some ptr ↦ keep
    | none ↦ do
      slot ← slab_alloc base
      elim slot [ some ptr ↦ pure (some ptr, set_bin h class base) | none ↦ keep ]
  ]

unfoldable pub adopt_loop : ℕ → ℕ → ℕ → Option ℕ → Heap → Cmd (Option ℕ × Heap)
adopt_loop zero class base result h = λ m. none
adopt_loop (suc fuel) class base result h = elim (base == null) [
  | true ↦ pure (result, h)
  | false ↦ do
    m ← get
    let next = (header_at m base).next_link
    unlinked base
    set_heap_id base h.id
    slab_drain_remote base
    inc_adopt_count class
    (result', h') ← place_adopted class base result h
    adopt_loop fuel class next result' h'
]

unfoldable pub try_adopt : ℕ → ℕ → Heap → Cmd (Option ℕ × Heap)
try_adopt fuel class h = do
  chain ← adopt_all class
  elim chain [ none ↦ pure (none, h) | some base ↦ adopt_loop fuel class base none h ]

-- A page from the cache, or else from the pool.
unfoldable pub get_page : Option ℕ → Cmd (Option ℕ)
get_page answer = do
  cached ← uncache_slab
  elim cached [ some base ↦ pure (some base) | none ↦ alloc_slab answer ]

-- A fresh slab becomes the active one, and serves the request.
unfoldable pub start_slab : ℕ → ℕ → Heap → Cmd (Option ℕ × Heap)
start_slab class base h = do
  slab_init base class h.id
  slot ← slab_alloc base
  elim slot [ none ↦ pure tt | some ptr ↦ count_with h (λ c. on_alloc c class (class_size class)) ]
  pure (slot, set_bin h class base)

unfoldable pub request_slab : ℕ → Option ℕ → ℕ → Heap → Cmd (Option ℕ × Heap)
request_slab fuel answer class h = do
  (adopted, h') ← try_adopt fuel class h
  elim adopted [
    | some ptr ↦ do count_with h (λ c. on_alloc c class (class_size class)); pure (some ptr, h')
    | none ↦ do
      page ← get_page answer
      elim page [ none ↦ pure (none, h') | some base ↦ start_slab class base h' ]
  ]

-- The active slab: its lists and bump region, then its remote frees.
unfoldable pub alloc_active : ℕ → Heap → Cmd (Option ℕ)
alloc_active class h = do
  first ← slab_alloc (h.bins class)
  elim first [
    | some ptr ↦ pure (some ptr)
    | none ↦ slab_drain_remote (h.bins class) >> slab_alloc (h.bins class)
  ]

-- What follows when the active slab is exhausted, or there is none. `again` is the recursive call.
unfoldable pub alloc_refill :
    ℕ → Option ℕ → ℕ → (Heap → Cmd (Option ℕ × Heap)) → Heap → Cmd (Option ℕ × Heap)
alloc_refill fuel answer class again h = do
  (found, h1) ← try_partial class h
  elim found [
    | true ↦ again h1
    | false ↦ do
      h2 ← scan_full_list fuel class h1
      elim (h2.bins class == null) [
        | false ↦ again h2
        | true ↦ do
          (found', h3) ← try_partial class h2
          elim found' [ true ↦ again h3 | false ↦ request_slab fuel answer class h3 ]
      ]
  ]

-- The body of `alloc` for a request of a class.
unfoldable pub alloc_class : ℕ → Option ℕ → ℕ → Heap → Cmd (Option ℕ × Heap)
alloc_class zero answer class h = λ m. none
alloc_class (suc fuel) answer class h = elim (h.bins class == null) [
  | true ↦ alloc_refill fuel answer class (alloc_class fuel answer class) h
  | false ↦ do
    slot ← alloc_active class h
    elim slot [
      | some ptr ↦ do count_with h (λ c. on_alloc c class (class_size class)); pure (some ptr, h)
      | none ↦ do
        h1 ← retire_active class h
        alloc_refill fuel answer class (alloc_class fuel answer class) h1
    ]
]

unfoldable pub alloc : ℕ → Option ℕ → Layout → Heap → Cmd (Option ℕ × Heap)
alloc fuel answer layout h = elim (class_index layout) [
  | some class ↦ alloc_class fuel answer class h
  | none ↦ do
    ptr ← alloc_large answer layout
    elim ptr [
      | none ↦ pure (none, h)
      | some p ↦ do count_with h (λ c. on_large_alloc c layout.size); pure (some p, h)
    ]
]
