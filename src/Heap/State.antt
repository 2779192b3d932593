-- ===== src/Heap/State.antt =====
-- The state of src/heap.rs, and the slab and list operations lifted to the shared memory.
use clmalloc.Base.{ℕ, zero, suc, ◌+◌, ◌*◌, Option, some}
use clmalloc.Base.Fun.{update}
use clmalloc.Base.Words64.{add64}
use clmalloc.SizeClass.{num_classes}
use clmalloc.Slab.Links.{null}
use clmalloc.Slab.Header.{SlabHeader}
use clmalloc.Slab.Header
use clmalloc.Slab.Queue
use clmalloc.Slab.Queue.{Nodes, set_cell}
use clmalloc.Metrics.{HeapMetrics}
use clmalloc.Pool.State.{Machine, Cmd}

-- `bins` holds the base of the active slab of each class, 0 for `None`. The list heads are cells of
-- the shared memory, and the counters of a heap stand at its id.
pub record Heap : Type 0 where
  pub id : ℕ
  pub bins : ℕ → ℕ

-- The variables `full_heads[class]` and `partial_heads[class]` of the heap.
abbrev pub full_cell : Heap → ℕ → ℕ
full_cell h class = (h.id * num_classes + class) * 2

abbrev pub partial_cell : Heap → ℕ → ℕ
partial_cell h class = (h.id * num_classes + class) * 2 + 1

-- `[None; NUM_CLASSES]` twice: the lists of the first `classes` classes are made empty.
unfoldable pub clear_heads : ℕ → Heap → Nodes → Nodes
clear_heads zero h n = n
clear_heads (suc class) h n =
    set_cell (set_cell (clear_heads class h n) (full_cell h class) null) (partial_cell h class) null

-- `Heap::new`, given the number that `next_heap_id` returns.
unfoldable pub new_heap : ℕ → Machine → Heap × Machine
new_heap id m =
    let h : Heap = record { id = id; bins = λ class. null } in
    (h, record m { nodes = clear_heads num_classes h m.nodes })

-- `fetch_add` wraps.
abbrev pub next_heap_id : ℕ → ℕ × ℕ
next_heap_id counter = (counter, add64 counter 1)

abbrev pub set_bin : Heap → ℕ → ℕ → Heap
set_bin h class slab = record h { bins = update h.bins class slab }

abbrev pub header_at : Machine → ℕ → SlabHeader
header_at m base = m.nodes.header base

abbrev pub set_header : Machine → ℕ → SlabHeader → Machine
set_header m base h = record m {
  nodes = record (m.nodes) { header = update (m.nodes.header) base h };
}

unfoldable pub slab_alloc : ℕ → Cmd (Option ℕ)
slab_alloc base m =
    let (slot, h) = Header.alloc base m.words (header_at m base) in some (slot, set_header m base h)

unfoldable pub slab_dealloc_local : ℕ → ℕ → Cmd (Unit {0})
slab_dealloc_local base ptr m =
    let (w, h) = Header.dealloc_local m.words (header_at m base) ptr in
    some (tt, record (set_header m base h) { words = w })

unfoldable pub slab_drain_remote : ℕ → Cmd (Unit {0})
slab_drain_remote base m =
    let (_, w, h) = Header.drain_remote m.words (header_at m base) in
    some (tt, record (set_header m base h) { words = w })

unfoldable pub slab_dealloc_remote : ℕ → ℕ → Cmd (Unit {0})
slab_dealloc_remote base ptr m =
    let (w, h) = Header.dealloc_remote m.words (header_at m base) ptr in
    some (tt, record (set_header m base h) { words = w })

unfoldable pub slab_init : ℕ → ℕ → ℕ → Cmd (Unit {0})
slab_init base class id m = some (tt, set_header m base (Header.init class id))

unfoldable pub set_heap_id : ℕ → ℕ → Cmd (Unit {0})
set_heap_id base id m = some (tt, set_header m base (record (header_at m base) { heap_id = id }))

unfoldable pub unlinked : ℕ → Cmd (Unit {0})
unlinked base m = some (tt, record m { nodes = Queue.clear_links m.nodes base })

unfoldable pub list_push : ℕ → ℕ → Cmd (Unit {0})
list_push cell slab m = some (tt, record m { nodes = Queue.slab_list_push m.nodes cell slab })

unfoldable pub list_pop : ℕ → Cmd (Option ℕ)
list_pop cell m =
    let (slab, n) = Queue.slab_list_pop m.nodes cell in some (slab, record m { nodes = n })

unfoldable pub list_remove : ℕ → Cmd (Unit {0})
list_remove slab m = some (tt, record m { nodes = Queue.slab_list_remove m.nodes slab })

-- The memory as it is, handed to what follows.
abbrev pub get : Cmd Machine
get m = some (m, m)

-- A change of the counters of the heap.
unfoldable pub count_with : Heap → (HeapMetrics → HeapMetrics) → Cmd (Unit {0})
count_with h f m = some (tt, record m { counters = update m.counters h.id (f (m.counters h.id)) })
