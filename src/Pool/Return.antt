-- ===== src/Pool/Return.antt =====
-- `dealloc_slab` and `purge_excess` of src/pool.rs: pages come back, whole segments are released, and
-- dirty pages in excess are purged.
use clmalloc.Base.{
  ℕ, zero, suc, ◌-◌, ◌&&◌, Option, none, some, List, [], ◌∷◌, ltb, ◌==◌, if◌then◌else◌, length,
}
use clmalloc.Base.Fun.{update}
use clmalloc.Base.Words64.{add64}
use clmalloc.Slab.Links.{Words, null}
use clmalloc.Slab.Header.{slab_size}
use clmalloc.Pool.PageList.{pop, push, remove_if}
use clmalloc.Pool.State.{
  segment_size, purge_high_water, purge_low_water, PoolState, Cmd, os_dealloc, os_purge, OsCall,
  set_state, lock, inside, find_segment, segment_fully_carved, more_outstanding, less_outstanding,
  one_slab_back,
}

-- Both lists lose the pages of the segment.
unfoldable pub remove_segment_slabs : Words → PoolState → ℕ → Words × PoolState
remove_segment_slabs w s seg_base =
    let (w1, dirty) = remove_if (inside seg_base) w s.dirty_list in
    let (w2, clean) = remove_if (inside seg_base) w1 s.clean_list in
    (w2, record s { dirty_list = dirty; clean_list = clean })

-- The last segment moves into the gap.
unfoldable pub swap_remove_segment : PoolState → ℕ → PoolState
swap_remove_segment s seg_idx =
    let last = s.segment_count - 1 in
    let moved = record s {
      segments = update s.segments seg_idx (s.segments last);
      seg_outstanding = update s.seg_outstanding seg_idx (s.seg_outstanding last);
      carving_idx = if s.carving_idx == last then seg_idx else s.carving_idx;
    } in
    let s1 = if seg_idx == last then s else moved in
    record s1 {
      segments = update s1.segments last null;
      seg_outstanding = update s1.seg_outstanding last 0;
      segment_count = last;
    }

-- The first critical section of `purge_excess`: pages leave the dirty list for the buffer, and
-- count as outstanding. The fuel is the room left in the buffer.
unfoldable pub collect : ℕ → Words → PoolState → List ℕ → Option (List ℕ × PoolState)
collect zero w s buf = some (buf, s)
collect (suc room) w s buf =
    let (popped, rest) = pop w s.dirty_list in
    let step : Option (List ℕ × PoolState) = elim popped [
      | none ↦ some (buf, s)
      | some slab ↦ elim (find_segment s slab) [
        | none ↦ none
        | some seg ↦
            collect room w (more_outstanding (record s { dirty_list = rest }) seg) (slab ∷ buf)
      ]
    ] in
    if ltb purge_low_water s.dirty_list.len then step else some (buf, s)

-- The second one: the purged pages go on the clean list.
unfoldable pub put_clean : List ℕ → Words → PoolState → Option (Words × PoolState)
put_clean [] w s = some (w, s)
put_clean (slab ∷ slabs) w s = elim (find_segment s slab) [
  | none ↦ none
  | some seg ↦
      let (w', clean) = push w s.clean_list slab in
      put_clean slabs w' (record (less_outstanding s seg) { clean_list = clean })
]

abbrev pub purge_calls : List ℕ → List OsCall → List OsCall
purge_calls [] log = log
purge_calls (slab ∷ slabs) log = purge_calls slabs (os_purge slab slab_size ∷ log)

-- `buf[..count]` in the order of the pops.
abbrev pub in_order : List ℕ → List ℕ → List ℕ
in_order [] acc = acc
in_order (x ∷ xs) acc = in_order xs (x ∷ acc)

unfoldable pub purge_excess : Cmd (Unit {0})
purge_excess m =
    elim (collect (purge_high_water - purge_low_water) m.words (lock m.pool.state) []) [
      | none ↦ none
      | some (popped, s1) ↦
          let buf = in_order popped [] in
          let s2 = lock s1 in
          let s3 = record s2 {
            metrics = record (s2.metrics) {
              slab_purge_count = add64 (s2.metrics.slab_purge_count) (length buf);
            };
          } in
          elim (put_clean buf m.words s3) [
            | none ↦ none
            | some (w', s4) ↦
                some (tt, record (set_state m s4) { words = w'; log = purge_calls buf m.log })
          ]
    ]

-- The release of a segment with no page in use: its pages leave the lists, then it is unmapped.
unfoldable pub release_segment : ℕ → Cmd (Unit {0})
release_segment seg m =
    let s = m.pool.state in
    let base = s.segments seg in
    let (w', s1) = remove_segment_slabs m.words s base in
    let s2 = swap_remove_segment s1 seg in
    let s3 = record s2 {
      metrics = record (s2.metrics) {
        segment_munmap_count = add64 (s2.metrics.segment_munmap_count) 1;
      };
    } in
    some (tt, record (set_state m s3) { words = w'; log = os_dealloc base segment_size ∷ m.log })

unfoldable pub dealloc_slab : ℕ → Cmd (Unit {0})
dealloc_slab base m =
    let s = lock m.pool.state in
    let (w', dirty) = push m.words s.dirty_list base in
    let s1 = record s { dirty_list = dirty } in
    elim (find_segment s1 base) [
      | none ↦ none
      | some seg ↦
          let s2 = one_slab_back (less_outstanding s1 seg) in
          let m' = record (set_state m s2) { words = w' } in
          let released = release_segment seg m' in
          let purged = purge_excess m' in
          if (s2.seg_outstanding seg == 0) && segment_fully_carved s2 seg
          then released
          else if ltb purge_high_water s2.dirty_list.len
          then purged
          else some (tt, m')
    ]
