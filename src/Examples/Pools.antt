-- ===== src/Examples/Pools.antt =====
-- A list of three free pages, and a table of two segments.
use clmalloc.Base.{ℕ, none, ◌+◌, ◌*◌, ◌<◌, ◌≡◌, ◌≢◌, refl, some, [], ◌∷◌, arith, ltb}
use clmalloc.Base.Fun.{update}
use clmalloc.Slab.Links.{Words, count}
use clmalloc.Pool.PageList.{PageFreeList, remove_if}
use clmalloc.Pool.PageList.Laws.{HasPages}
use clmalloc.Pool.PageList.Removal.{remove_if-HasPages}
use clmalloc.Pool.State.{PoolState, new_state, find_segment}
use clmalloc.Pool.State.{Machine, new_pool}
use clmalloc.Pool.Provide.{alloc_slab}
use clmalloc.Pool.Recycle.{IsStock, alloc_slab-next_page}
use clmalloc.Slab.Header
use clmalloc.Metrics.{zero_metrics}
use clmalloc.Pool.Return.{swap_remove_segment}
use clmalloc.Pool.Segments.{IsTable, find_segment_lem, swap_remove_segment_lem}

-- 10 leads to 90, and 90 to 20.
abbrev words : Words
words = update (update (λ a. 0) 90 20) 10 90

abbrev pages : PageFreeList
pages = record { head = 10; len = 3 }

pages-HasPages : HasPages words pages (10 ∷ 90 ∷ 20 ∷ [])
pages-HasPages = record {
  chain = (refl, omega arith, (refl, omega arith, (refl, omega arith, refl)));
  counted = refl;
  once = λ a. ground arith;
}

-- The pages below 50 go.
remove_if-HasPages_example :
    HasPages
      (remove_if (λ a. ltb a 50) words pages).0
      (remove_if (λ a. ltb a 50) words pages).1
      (90 ∷ [])
    × ((a : ℕ)
        → count a (10 ∷ 90 ∷ 20 ∷ []) ≡ 0
        → (remove_if (λ a. ltb a 50) words pages).0 a ≡ words a)
remove_if-HasPages_example =
    remove_if-HasPages (λ a. ltb a 50) words pages (10 ∷ 90 ∷ 20 ∷ []) pages-HasPages

-- Segments at 2 MiB and 6 MiB, with 3 and 5 pages in use; the second is carved.
abbrev table : PoolState
table = record new_state {
  segments = λ i. 2097152 + i * 4194304;
  segment_count = 2;
  seg_outstanding = λ i. 3 + i * 2;
  carving_idx = 1;
}

table-IsTable : IsTable table
table-IsTable = record { apart = λ i j l h. ground arith }

find_segment_lem_example : find_segment table 6357000 ≡ some 1
find_segment_lem_example =
    find_segment_lem table 6357000 1 table-IsTable (omega arith) (omega arith) (omega arith)

swap_remove_segment_lem_example :
    IsTable (swap_remove_segment table 0)
    × ((k : ℕ)
        → k < 2
        → k ≢ 0
        → (k' : ℕ) × (k' < (swap_remove_segment table 0).segment_count)
          × ((swap_remove_segment table 0).segments k' ≡ table.segments k)
          × ((swap_remove_segment table 0).seg_outstanding k' ≡ table.seg_outstanding k)
          × (1 ≡ k → (swap_remove_segment table 0).carving_idx ≡ k'))
    × ((k : ℕ)
        → k < (swap_remove_segment table 0).segment_count
        → (swap_remove_segment table 0).segments k ≢ table.segments 0)
swap_remove_segment_lem_example = swap_remove_segment_lem table 0 table-IsTable (omega arith)

-- One dirty page, at the start of the first segment.
abbrev stocked : Machine
stocked = record {
  pool = record new_pool {
    state = record table { dirty_list = record { head = 2097152; len = 1 } };
  };
  words = λ a. 0;
  nodes = record { header = λ base. Header.init 15 7; cell = λ c. 0 };
  counters = λ ptr. zero_metrics;
  log = [];
}

stocked-IsStock : IsStock stocked (2097152 ∷ []) []
stocked-IsStock = record {
  table = record { apart = λ i j l h. ground arith };
  used = record { chain = (refl, omega arith, refl); counted = refl; once = λ a. ground arith };
  zeroed = record { chain = refl; counted = refl; once = λ a. omega arith };
  placed = λ page h. (0, omega arith, ground arith, ground arith);
}

alloc_slab-next_page_example :
    (m' : Machine) × (alloc_slab none stocked ≡ some (some 2097152, m'))
    × IsStock m' [] []
    × (m'.pool.state.segment_cursor ≡ 0)
alloc_slab-next_page_example =
    alloc_slab-next_page none stocked (2097152 ∷ []) [] stocked-IsStock (omega arith)
