-- ===== src/Heap/Bin/Request/Page.antt =====
-- The page of a new slab: `request_slab` of src/heap.rs with `uncache_slab` and `alloc_slab` of src/pool.rs.
use clmalloc.Base.{
  ℕ, Bool, true, false, ◌<◌, ◌≡◌, ◌≢◌, ◌∙◌, refl, inl, inr, Option, none, some, List, [], ◌∷◌, ◌==◌,
  ltb, leb, if◌then◌else◌, Bool-cases,
}
use clmalloc.SizeClass.{num_classes}
use clmalloc.SizeClass.Align.{Multiple}
use clmalloc.Slab.Links.{null}
use clmalloc.Slab.Header.{slab_size}
use clmalloc.Pool.State.{
  Machine, Cmd, pure, bind-some, find_segment, lock, max_segments, set_state, PoolState,
  one_slab_out, more_outstanding,
}
use clmalloc.Pool.Provide.{pop_free, carve, alloc_slab, alloc_slab_slow, add_segment}
use clmalloc.Pool.Shared.{uncache_slab}
use clmalloc.Heap.State.{Heap, set_bin}
use clmalloc.Heap.Alloc.{get_page, start_slab}
use clmalloc.Heap.Bin.{Beside, Ledger, owned, IsBin}
use clmalloc.Heap.Bin.Request.{start_slab-Served, with_page}

-- The link words, the slab headers and the slabs up for adoption are as they were.
abbrev SameMemory : Machine → Option (Option ℕ × Machine) → Type 0
SameMemory m none = Unit {0}
SameMemory m (some (page, m')) =
    (m'.words ≡ m.words) × (m'.nodes ≡ m.nodes) × (m'.pool.abandoned ≡ m.pool.abandoned)

alloc_slab_slow-SameMemory :
    (answer : Option ℕ) (m : Machine)
    → ltb m.pool.state.segment_cursor m.pool.state.segment_end ≡ false
    → SameMemory m (alloc_slab_slow answer m)
unfolding alloc_slab_slow add_segment
alloc_slab_slow-SameMemory none m end = (refl, refl, refl)
alloc_slab_slow-SameMemory (some base) m end =
    elim (Bool-cases (leb max_segments m.pool.state.segment_count)) [
      | inl e ↦ rw e (refl, refl, refl)
      | inr e ↦ rw (e, end) (refl, refl, refl)
    ]

alloc_slab-SameMemory : (answer : Option ℕ) (m : Machine) → SameMemory m (alloc_slab answer m)
unfolding alloc_slab
alloc_slab-SameMemory answer m = popped (pop_free m.words s).0 (pop_free m.words s).1
  where
    s : PoolState
    s = lock m.pool.state

    carved :
        (more : Bool)
        → ltb s.segment_cursor s.segment_end ≡ more
        → SameMemory m (
            if more
            then some (some s.segment_cursor, set_state m (carve s))
            else alloc_slab_slow answer (set_state m s))
    carved true e = (refl, refl, refl)
    carved false e = alloc_slab_slow-SameMemory answer (set_state m s) e

    found :
        (slab : ℕ) (s1 : PoolState) (seg : Option ℕ)
        → SameMemory m (elim seg [
          | none ↦ none
          | some i ↦ some (some slab, set_state m (one_slab_out (more_outstanding s1 i)))
        ])
    found slab s1 none = tt
    found slab s1 (some i) = (refl, refl, refl)

    popped :
        (free : Option ℕ) (s1 : PoolState)
        → SameMemory m (elim free [
          | some slab ↦ elim (find_segment s1 slab) [
            | none ↦ none
            | some i ↦ some (some slab, set_state m (one_slab_out (more_outstanding s1 i)))
          ]
          | none ↦
              if ltb s.segment_cursor s.segment_end
              then some (some s.segment_cursor, set_state m (carve s))
              else alloc_slab_slow answer (set_state m s)
        ])
    popped none s1 = carved (ltb s.segment_cursor s.segment_end) refl
    popped (some slab) s1 = found slab s1 (find_segment s1 slab)

get_page-SameMemory : (answer : Option ℕ) (m : Machine) → SameMemory m (get_page answer m)
unfolding get_page uncache_slab
get_page-SameMemory answer m = elim (Bool-cases (m.pool.slab_cache == null)) [
  | inl e ↦ rw (e, SameMemory) (alloc_slab-SameMemory answer m)
  | inr e ↦ rw (e, SameMemory) (refl, refl, refl)
]

-- Getting a page writes no word and no header, and takes no slab that is up for adoption.
pub get_page-memory :
    (answer : Option ℕ) (m : Machine) (page : Option ℕ) (m' : Machine)
    → get_page answer m ≡ some (page, m')
    → (m'.words ≡ m.words) × (m'.nodes ≡ m.nodes) × (m'.pool.abandoned ≡ m.pool.abandoned)
get_page-memory answer m page m' got =
    let same : SameMemory m (get_page answer m) = get_page-SameMemory answer m in rw got at same

-- A page that no slab of the heap and no slab beside it is in.
abbrev pub IsNew : Beside → (ℕ → ℕ) → Option ℕ → Type 0
IsNew f own none = Unit {0}
IsNew f own (some base) =
    (base ≢ null) × Multiple slab_size base × (own base ≡ 0) × (¬ f.slabs base)

-- With no page the request fails, and nothing happens to the heap's slabs; with one it is served.
abbrev pub NewSlab :
    Beside
    → Option ((Option ℕ × Heap) × Machine)
    → Option ℕ
    → Heap
    → ℕ
    → Ledger
    → List ℕ
    → List ℕ
    → Type 0
NewSlab f run none h class g partial full =
    (m' : Machine) × (run ≡ some ((none, h), m'))
    × (m'.pool.abandoned ≡ f.abandoned)
    × IsBin f h class m'.words m'.nodes g [] [] partial full
NewSlab f run (some base) h class g partial full =
    (slot : ℕ) × (m' : Machine) × (g' : Ledger) × (run
      ≡ some ((some slot, set_bin h class base), m'))
    × (m'.pool.abandoned ≡ f.abandoned)
    × IsBin f (set_bin h class base) class m'.words m'.nodes g' (base ∷ []) [] partial full
    × ((g' base).outs ≡ slot ∷ [])
    × ((a : ℕ) → a ≢ base → (g' a).outs ≡ (g a).outs)

abbrev use_page : ℕ → Heap → Option ℕ → Cmd (Option ℕ × Heap)
use_page class h page = elim page [ none ↦ pure (none, h) | some base ↦ start_slab class base h ]

pub with_page-NewSlab :
    {f : Beside} (answer page : Option ℕ) (class : ℕ) (h : Heap) (m m' : Machine) (g : Ledger)
    (partial full : List ℕ)
    → m.pool.abandoned ≡ f.abandoned
    → IsBin f h class m.words m.nodes g [] [] partial full
    → class < num_classes
    → get_page answer m ≡ some (page, m')
    → IsNew f (owned [] [] partial full) page
    → NewSlab f (with_page answer class h m) page h class g partial full
with_page-NewSlab {f} answer none class h m m' g partial full queue i known got new =
    let (words, nodes, waits) = get_page-memory answer m none m' got in
    (m', bind-some (get_page answer) (use_page class h) m got, waits ∙ queue, rw (words, nodes) i)
with_page-NewSlab {f} answer (some base) class h m m' g partial full queue i known got
      (some_page, aligned, unowned, free) =
    let (words, nodes, waits) = get_page-memory answer m (some base) m' got in
    let i' : IsBin f h class m'.words m'.nodes g [] [] partial full = rw (words, nodes) i in
    let (slot, m2, g2, run, same, after, out, rest) =
      start_slab-Served class base h m' g partial full i' known some_page aligned unowned free in
    (
      slot,
      m2,
      g2,
      bind-some (get_page answer) (use_page class h) m got ∙ run,
      same ∙ waits ∙ queue,
      after,
      out,
      rest,
    )
