-- ===== src/Heap/Bin/Request.antt =====
-- `Heap::request_slab` of src/heap.rs: the abandoned slabs of the class, then a page for a new slab.
pub mod Page
use clmalloc.Base.{
  ℕ, ◌+◌, ◌≤◌, true, false, ◌<◌, ◌≡◌, ◌≢◌, ◌∙◌, ◌⊎◌, ap, sym, refl, inl, inr, Option, none, some,
  List, [], ◌∷◌, length, arith, ◌==◌,
}
use clmalloc.Base.Fun.{update, update_same, update_self, update_ne}
use clmalloc.SizeClass.{num_classes, class_size}
use clmalloc.SizeClass.Align.{Multiple}
use clmalloc.Slab.Links.{null, count}
use clmalloc.Slab.Header.{slab_size, init}
use clmalloc.Slab.Header.Init.{init-IsSlab}
use clmalloc.Metrics.{on_alloc}
use clmalloc.Pool.State.{Machine, slab_cache_max, PagePool, Cmd, pure, ◌>>=◌, ◌>>◌, bind-some}
use clmalloc.Pool.Shared.{adopt_all}
use clmalloc.Heap.State.{Heap, header_at, set_header, set_bin, slab_init, slab_alloc, count_with}
use clmalloc.Heap.Alloc.{try_adopt, adopt_loop, request_slab, get_page, start_slab}
use clmalloc.Heap.Bin.{Beside, Slots, Ledger, room, owned, IsBin, Kept, Kept-refl}
use clmalloc.Heap.Bin.Outcome.{Served}
use clmalloc.Heap.Bin.Moves.{activate}
use clmalloc.Heap.Bin.Active.{slab_alloc-room}
use clmalloc.Heap.Bin.Adopt.{bring_in}
use clmalloc.Heap.Bin.Adopt.Adopting.{Adopting, both}
use clmalloc.Heap.Bin.Adopt.Loop.{Adopted, Adopted-from, adopt_loop-Adopted}

abbrev walk_chain : ℕ → ℕ → Heap → Option ℕ → Cmd (Option ℕ × Heap)
walk_chain fuel class h chain = elim chain [
  | none ↦ pure (none, h)
  | some base ↦ adopt_loop fuel class base none h
]

-- The memory when the chain of a class has been taken.
abbrev pub without_chain : Machine → ℕ → Machine
without_chain m class = record m {
  pool = record (m.pool) { abandoned = update m.pool.abandoned class null };
}

without_chain-empty :
    (m : Machine) (class : ℕ) → m.pool.abandoned class ≡ null → without_chain m class ≡ m
without_chain-empty m class e =
    ap (λ (a : ℕ → ℕ). record m { pool = record (m.pool) { abandoned = a } })
      (ap (λ (v : ℕ). update m.pool.abandoned class v) (sym e) ∙ update_same m.pool.abandoned class)

-- The whole chain is taken, and each of its slabs gets its place.
pub try_adopt-Adopted :
    {f : Beside} (fuel class : ℕ) (h : Heap) (m : Machine) (g : Ledger) (partial full xs : List ℕ)
    → Adopting f h class (without_chain m class) g [] [] partial full (m.pool.abandoned class) xs
    → ((a : ℕ) → 0 < count a full → (g a).remotes ≡ [])
    → length xs < fuel
    → Adopted f (try_adopt fuel class h m) h class g (both [] [] partial full xs) partial
unfolding try_adopt adopt_all
try_adopt-Adopted {f} fuel class h m g partial full [] s sent enough =
    let none_there : (m.pool.abandoned class == null) ≡ true = ground (arith, s.rest.chain) in
    let nothing : adopt_all class m ≡ some (none, m) = rw none_there refl in
    inr (
      m,
      g,
      full,
      bind-some (adopt_all class) (walk_chain fuel class h) m nothing,
      ap (λ (q : Machine). q.pool.abandoned) (sym (without_chain-empty m class (s.rest.chain)))
          ∙ s.queue,
      omega (arith, s.cache),
      s.bin,
      sent,
      Kept-refl h class g _ _ (λ a. omega arith),
    )
try_adopt-Adopted {f} fuel class h m g partial full (b ∷ xs) s sent enough =
    let (at, some_slab, _) = s.rest.chain in
    let there : (m.pool.abandoned class == null) ≡ false = ground arith in
    let m1 = without_chain m class in
    let chain : adopt_all class m ≡ some (some (m.pool.abandoned class), m1) = rw there refl in
    Adopted-from (Kept-refl h class g _ _ (λ a. refl))
      (bind-some (adopt_all class) (walk_chain fuel class h) m chain)
      (adopt_loop-Adopted fuel class h m1 g partial full (m.pool.abandoned class) (b ∷ xs) s sent
        enough)

-- What an allocation does with a page.
abbrev pub with_page : Option ℕ → ℕ → Heap → Cmd (Option ℕ × Heap)
with_page answer class h = do
  page ← get_page answer
  elim page [ none ↦ pure (none, h) | some base ↦ start_slab class base h ]

abbrev served_by : Option ℕ → ℕ → Heap → Option ℕ × Heap → Cmd (Option ℕ × Heap)
served_by answer class h r = elim r.0 [
  | some ptr ↦ count_with h (λ c. on_alloc c class (class_size class)) >> pure (some ptr, r.1)
  | none ↦ with_page answer class r.1
]

init-heap_id : (class id : ℕ) → (init class id).heap_id ≡ id
unfolding init
init-heap_id class id = refl

init-index : (class id : ℕ) → (init class id).size_class_index ≡ class
unfolding init
init-index class id = refl

-- A request for a slab, from a heap with no active and no partial slab of the class and nothing to drain on
-- its full list, with a well-formed chain of abandoned slabs, a place in the pool's cache for each of them,
-- and fuel for the chain. It is served from an adopted slab with a slot that was not allocated; or every
-- slot of every slab that the heap has left, the adopted ones included, is allocated when it asks for a
-- page. The slabs stay well-formed, no other slot changes hands, and a slab goes to the cache only with none
-- of its slots allocated.
pub request_slab-Served :
    {f : Beside} (fuel : ℕ) (answer : Option ℕ) (class : ℕ) (h : Heap) (m : Machine) (g : Ledger)
    (full xs : List ℕ)
    → Adopting f h class (without_chain m class) g [] [] [] full (m.pool.abandoned class) xs
    → ((a : ℕ) → 0 < count a full → (g a).remotes ≡ [])
    → length xs < fuel
    → Served f (request_slab fuel answer class h m) h class g (both [] [] [] full xs)
      ⊎ ((m' : Machine) × (g' : Ledger) × (full' : List ℕ) × (request_slab fuel answer class h m
            ≡ with_page answer class h m')
          × (m'.pool.abandoned ≡ f.abandoned)
          × (m'.pool.slab_cache_len + f.spare ≤ slab_cache_max)
          × IsBin f h class m'.words m'.nodes g' [] [] [] full'
          × ((a : ℕ) → 0 < count a full' → length (g' a).outs ≡ (header_at m' a).slot_count)
          × Kept h h class g g' (both [] [] [] full xs) (owned [] [] [] full'))
unfolding request_slab count_with
request_slab-Served {f} fuel answer class h m g full xs s sent enough =
    elim (try_adopt-Adopted fuel class h m g [] full xs s sent enough) [
      | inl (ptr, slab, h', m', g', active', partial', full', run, queue, i, c) ↦ inl (
        ptr,
        slab,
        h',
        record m' {
          counters = update m'.counters h.id (on_alloc (m'.counters h.id) class (class_size class));
        },
        g',
        active',
        partial',
        full',
        bind-some (try_adopt fuel class h) (served_by answer class h) m run,
        queue,
        i,
        c,
      )
      | inr (m', g', full', run, queue, cache, i, sent', k) ↦ inr (
        m',
        g',
        full',
        bind-some (try_adopt fuel class h) (served_by answer class h) m run,
        queue,
        cache,
        i,
        λ a has.
            let slab = i.store.slabs a (omega arith) in
            omega (arith, slab.counted, i.spent a has, ap length (sent' a has)),
        k,
      )
    ]

-- A new slab in a page that is none of the heap's serves the request.
pub start_slab-Served :
    {f : Beside} (class base : ℕ) (h : Heap) (m : Machine) (g : Ledger) (partial full : List ℕ)
    → IsBin f h class m.words m.nodes g [] [] partial full
    → class < num_classes
    → base ≢ null
    → Multiple slab_size base
    → owned [] [] partial full base ≡ 0
    → ¬ f.slabs base
    → (slot : ℕ) × (m' : Machine) × (g' : Ledger) × (start_slab class base h m
        ≡ some ((some slot, set_bin h class base), m'))
      × (m'.pool.abandoned ≡ m.pool.abandoned)
      × IsBin f (set_bin h class base) class m'.words m'.nodes g' (base ∷ []) [] partial full
      × ((g' base).outs ≡ slot ∷ [])
      × ((a : ℕ) → a ≢ base → (g' a).outs ≡ (g a).outs)
unfolding start_slab slab_init count_with
start_slab-Served {f} class base h m g partial full i known some_page aligned new free =
    let m1 = set_header m base (init class h.id) in
    let self : (base == base) ≡ true = ground arith in
    let at : header_at m1 base ≡ init class h.id = rw self refl in
    let fresh = init-IsSlab base m.words class h.id (omega arith) known in
    let t : Slots = record { frees = []; remotes = []; outs = [] } in
    let i1 =
      bring_in base m.words m1.nodes t i new free aligned (λ a far. refl) (rw at fresh)
        (rw at (init-heap_id class h.id)) (rw at (init-index class h.id))
        (λ a ne. let apart : (a == base) ≡ false = ground arith in rw apart refl) (λ c. refl) in
    let left : 0 < room m1.nodes (update g base t) base =
      rw self (omega (arith, fresh.counted, fresh.shape.some_slots)) in
    let h2 = set_bin h class base in
    let (slot, g', m', run, i', given, pool, _, _) =
      slab_alloc-room m1 base (activate base some_page i1) left in
    (
      slot,
      record m' {
        counters = update m'.counters h.id (on_alloc (m'.counters h.id) class (class_size class));
      },
      g',
      bind-some (slab_alloc base)
          (λ (found : Option ℕ).
            elim found [
              | none ↦ pure tt
              | some ptr ↦ count_with h (λ c. on_alloc c class (class_size class))
            ]
            >> pure (found, h2))
          m1 run,
      ap (λ (q : PagePool). q.abandoned) pool,
      i',
      given.taken ∙ ap (λ (q : Slots). slot ∷ q.outs) (update_self g base t),
      λ a ne. given.rest a ne ∙ ap (λ (q : Slots). q.outs) (update_ne g base a t ne),
    )
