-- ===== src/Pool/Provide.antt =====
-- `alloc_slab` and `alloc_slab_slow` of src/pool.rs: a free page, or one carved from a segment. The
-- answer that the page allocator would give to a request for a segment is an argument.
use clmalloc.Base.{ℕ, zero, suc, ◌+◌, ◌-◌, ◌*◌, Option, none, some, ◌∷◌, ltb, leb, if◌then◌else◌}
use clmalloc.Base.Fun.{update}
use clmalloc.Base.Words64.{add64}
use clmalloc.Slab.Links.{Words}
use clmalloc.Slab.Header.{slab_size}
use clmalloc.Pool.PageList.{PageFreeList, pop, push}
use clmalloc.Pool.State.{
  segment_size, max_segments, slabs_per_segment, PoolState, Cmd, os_dealloc, set_state, lock,
  find_segment, more_outstanding, one_slab_out,
}

-- `dirty_list.pop().or_else(|| clean_list.pop())`
unfoldable pub pop_free : Words → PoolState → Option ℕ × PoolState
pop_free w s =
    let (dirty, rest) = pop w s.dirty_list in
    let (clean, others) = pop w s.clean_list in
    elim dirty [
      | some slab ↦ (some slab, record s { dirty_list = rest })
      | none ↦ (clean, record s { clean_list = others })
    ]

-- The page at the cursor of the segment that is being carved.
unfoldable pub carve : PoolState → PoolState
carve s =
    one_slab_out
      (more_outstanding (record s { segment_cursor = s.segment_cursor + slab_size }) s.carving_idx)

-- `for i in (1..SLABS_PER_SEGMENT).rev()`: pages `n` down to 1 of a segment go on the list.
unfoldable pub push_rest : ℕ → ℕ → Words → PageFreeList → Words × PageFreeList
push_rest base zero w l = (w, l)
push_rest base (suc n) w l =
    let (w', l') = push w l (base + suc n * slab_size) in push_rest base n w' l'

-- A new segment becomes the last entry of the table, with its first page handed out.
unfoldable pub add_segment : PoolState → ℕ → PoolState
add_segment s base = one_slab_out (record s {
  segments = update s.segments s.segment_count base;
  segment_count = s.segment_count + 1;
  seg_outstanding = update s.seg_outstanding s.segment_count 1;
})

unfoldable pub alloc_slab_slow : Option ℕ → Cmd (Option ℕ)
alloc_slab_slow none m = some (none, m)
alloc_slab_slow (some base) m =
    let locked = lock m.pool.state in
    let s = record locked {
      metrics = record (locked.metrics) {
        segment_mmap_count = add64 (locked.metrics.segment_mmap_count) 1;
      };
    } in
    let s1 = add_segment s base in
    let (w', rest) = push_rest base (slabs_per_segment - 1) m.words s1.clean_list in
    let refused = record (set_state m s) { log = os_dealloc base segment_size ∷ m.log } in
    let kept = record (set_state m (record s1 { clean_list = rest })) { words = w' } in
    let carving = set_state m (record s1 {
      carving_idx = s.segment_count;
      segment_cursor = base + slab_size;
      segment_end = base + segment_size;
    }) in
    if leb max_segments s.segment_count
    then some (none, refused)
    else if ltb s1.segment_cursor s1.segment_end
    then some (some base, kept)
    else some (some base, carving)

unfoldable pub alloc_slab : Option ℕ → Cmd (Option ℕ)
alloc_slab answer m =
    let s = lock m.pool.state in
    let (free, s1) = pop_free m.words s in
    elim free [
      | some slab ↦ elim (find_segment s1 slab) [
        | none ↦ none
        | some seg ↦ some (some slab, set_state m (one_slab_out (more_outstanding s1 seg)))
      ]
      | none ↦
          if ltb s.segment_cursor s.segment_end
          then some (some s.segment_cursor, set_state m (carve s))
          else alloc_slab_slow answer (set_state m s)
    ]
