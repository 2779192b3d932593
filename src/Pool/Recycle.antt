-- ===== src/Pool/Recycle.antt =====
-- Where `alloc_slab` of src/pool.rs takes a page from.
use clmalloc.Base.{
  ℕ, ◌+◌, ◌-◌, ◌≤◌, ◌<◌, ◌≡◌, ◌∙◌, ap, refl, true, Option, some, none, List, [], ◌∷◌, arith, ltb,
  length,
}
use clmalloc.Slab.Links.{count}
use clmalloc.Slab.Header.{slab_size}
use clmalloc.Pool.PageList.{pop}
use clmalloc.Pool.PageList.Laws.{HasPages, pop-HasPages, pop-no_pages}
use clmalloc.Pool.State.{
  PoolState, Machine, set_state, lock, segment_size, find_segment, more_outstanding, one_slab_out,
}
use clmalloc.Pool.Provide.{pop_free, carve, alloc_slab}
use clmalloc.Pool.Segments.{IsTable, find_segment_lem}

-- The free pages: those that were used before, and those that the OS has zeroed. Each lies in a segment
-- of the table.
pub record IsStock (m : Machine) (dirty clean : List ℕ) : Type 0 where
  pub table : IsTable m.pool.state
  pub used : HasPages m.words m.pool.state.dirty_list dirty
  pub zeroed : HasPages m.words m.pool.state.clean_list clean
  pub placed :
      (page : ℕ)
      → 0 < count page dirty + count page clean
      → (k : ℕ) × (k < m.pool.state.segment_count)
        × (m.pool.state.segments k ≤ page)
        × (page < m.pool.state.segments k + segment_size)

pop_free-dirty :
    (m : Machine) (page : ℕ) (pages : List ℕ)
    → HasPages m.words m.pool.state.dirty_list (page ∷ pages)
    → pop_free m.words (lock m.pool.state) ≡ (
      some page,
      record (lock m.pool.state) { dirty_list = (pop m.words m.pool.state.dirty_list).1 },
    )
unfolding pop_free
pop_free-dirty m page pages h =
    let (got, _) = pop-HasPages m.words m.pool.state.dirty_list page pages h in
    rw (pop_free, got) refl

pop_free-clean :
    (m : Machine)
    → HasPages m.words m.pool.state.dirty_list []
    → pop_free m.words (lock m.pool.state) ≡ (
      (pop m.words m.pool.state.clean_list).0,
      record (lock m.pool.state) { clean_list = (pop m.words m.pool.state.clean_list).1 },
    )
unfolding pop_free
pop_free-clean m h = rw (pop_free, nothing) refl
  where
    nothing : (pop m.words m.pool.state.dirty_list).0 ≡ none
    nothing = ap (λ r. r.0) (pop-no_pages m.words m.pool.state.dirty_list h)

alloc_slab-found :
    (answer : Option ℕ) (m : Machine) (page k : ℕ) (s : PoolState)
    → pop_free m.words (lock m.pool.state) ≡ (some page, s)
    → find_segment s page ≡ some k
    → alloc_slab answer m ≡ some (some page, set_state m (one_slab_out (more_outstanding s k)))
unfolding alloc_slab
alloc_slab-found answer m page k s popped found =
    rw (popped, alloc_slab, popped, found, alloc_slab, popped) refl

alloc_slab-dirty :
    (answer : Option ℕ) (m : Machine) {page : ℕ} {dirty clean : List ℕ}
    → IsStock m (page ∷ dirty) clean
    → (m' : Machine) × (alloc_slab answer m ≡ some (some page, m'))
      × IsStock m' dirty clean
      × (m'.pool.state.segment_cursor ≡ m.pool.state.segment_cursor)
alloc_slab-dirty answer m {page} {dirty} {clean} s =
    let (k, lt, lo, hi) = s.placed page (ground arith) in
    let (_, rest) = pop-HasPages m.words m.pool.state.dirty_list page dirty s.used in
    let s1 = record (lock m.pool.state) { dirty_list = (pop m.words m.pool.state.dirty_list).1 } in
    let found : find_segment s1 page ≡ some k =
      find_segment_lem s1 page k (record { apart = s.table.apart }) lt lo hi in
    (
      set_state m (one_slab_out (more_outstanding s1 k)),
      alloc_slab-found answer m page k s1 (pop_free-dirty m page dirty s.used) found,
      record {
        table = record { apart = s.table.apart };
        used = rest;
        zeroed = s.zeroed;
        placed = λ p h. s.placed p (ground arith);
      },
      refl,
    )

alloc_slab-clean :
    (answer : Option ℕ) (m : Machine) {page : ℕ} {clean : List ℕ}
    → IsStock m [] (page ∷ clean)
    → (m' : Machine) × (alloc_slab answer m ≡ some (some page, m'))
      × IsStock m' [] clean
      × (m'.pool.state.segment_cursor ≡ m.pool.state.segment_cursor)
alloc_slab-clean answer m {page} {clean} s =
    let (k, lt, lo, hi) = s.placed page (ground arith) in
    let (got, rest) = pop-HasPages m.words m.pool.state.clean_list page clean s.zeroed in
    let s1 = record (lock m.pool.state) { clean_list = (pop m.words m.pool.state.clean_list).1 } in
    let found : find_segment s1 page ≡ some k =
      find_segment_lem s1 page k (record { apart = s.table.apart }) lt lo hi in
    let popped : pop_free m.words (lock m.pool.state) ≡ (some page, s1) =
      pop_free-clean m s.used ∙ ap (λ (o : Option ℕ). (o, s1)) got in
    (
      set_state m (one_slab_out (more_outstanding s1 k)),
      alloc_slab-found answer m page k s1 popped found,
      record {
        table = record { apart = s.table.apart };
        used = s.used;
        zeroed = rest;
        placed = λ p h. s.placed p (ground arith);
      },
      refl,
    )

alloc_slab-carved :
    (answer : Option ℕ) (m : Machine)
    → IsStock m [] []
    → m.pool.state.segment_cursor < m.pool.state.segment_end
    → (m' : Machine) × (alloc_slab answer m ≡ some (some m.pool.state.segment_cursor, m'))
      × IsStock m' [] []
      × (m'.pool.state.segment_cursor ≡ m.pool.state.segment_cursor + slab_size)
unfolding alloc_slab carve
alloc_slab-carved answer m s lt =
    let nothing : pop_free m.words (lock m.pool.state) ≡ (
      none,
      record (lock m.pool.state) { clean_list = (pop m.words m.pool.state.clean_list).1 },
    ) =
      pop_free-clean m s.used
      ∙ ap
          (λ (o : Option ℕ). (
            o,
            record (lock m.pool.state) { clean_list = (pop m.words m.pool.state.clean_list).1 },
          ))
          (ap (λ r. r.0) (pop-no_pages m.words m.pool.state.clean_list s.zeroed)) in
    let room : ltb m.pool.state.segment_cursor m.pool.state.segment_end ≡ true = ground arith in
    (
      set_state m (carve (lock m.pool.state)),
      rw (nothing, alloc_slab, room) refl,
      record {
        table = record { apart = s.table.apart };
        used = s.used;
        zeroed = s.zeroed;
        placed = λ p h. absurd (omega arith);
      },
      refl,
    )

-- The page that comes next, what it leaves of the two lists, and where the cursor goes.
abbrev pub next_page : List ℕ → List ℕ → ℕ → ℕ
next_page (page ∷ dirty) clean cursor = page
next_page [] (page ∷ clean) cursor = page
next_page [] [] cursor = cursor

abbrev pub rest_dirty : List ℕ → List ℕ
rest_dirty [] = []
rest_dirty (page ∷ dirty) = dirty

abbrev pub rest_clean : List ℕ → List ℕ → List ℕ
rest_clean (page ∷ dirty) clean = clean
rest_clean [] [] = []
rest_clean [] (page ∷ clean) = clean

abbrev pub next_cursor : List ℕ → List ℕ → ℕ → ℕ
next_cursor [] [] cursor = cursor + slab_size
next_cursor _ _ cursor = cursor

-- While a free page or a page to carve is left, a page comes from the dirty list if that has one, else
-- from the clean list, else from the cursor, which then moves on by one page. The other free pages
-- stay free.
pub alloc_slab-next_page :
    (answer : Option ℕ) (m : Machine) (dirty clean : List ℕ)
    → IsStock m dirty clean
    → 0 < length dirty + length clean + (m.pool.state.segment_end - m.pool.state.segment_cursor)
    → (m' : Machine) × (alloc_slab answer m
        ≡ some (some (next_page dirty clean m.pool.state.segment_cursor), m'))
      × IsStock m' (rest_dirty dirty) (rest_clean dirty clean)
      × (m'.pool.state.segment_cursor ≡ next_cursor dirty clean m.pool.state.segment_cursor)
alloc_slab-next_page answer m (page ∷ dirty) clean s left = alloc_slab-dirty answer m s
alloc_slab-next_page answer m [] (page ∷ clean) s left = alloc_slab-clean answer m s
alloc_slab-next_page answer m [] [] s left = alloc_slab-carved answer m s (omega arith)
