-- ===== src/Heap/Bin/Class/Alloc.antt =====
-- `Heap::alloc` of src/heap.rs for one class, with the slabs of the class that are up for adoption: from the
-- active slab to the page of a new one.
use clmalloc.Base.{
  ℕ, suc, ◌+◌, ◌≤◌, ◌<◌, ◌≡◌, ◌∙◌, ◌⊎◌, inl, inr, Option, some, ap, refl, List, [], ◌∷◌, length,
  arith,
}
use clmalloc.Base.Fun.{update, update_ne, update_self}
use clmalloc.Slab.Links.{Words, null, count}
use clmalloc.Slab.Queue.{Nodes}
use clmalloc.Pool.State.{Machine, slab_cache_max}
use clmalloc.Heap.State.{Heap, header_at}
use clmalloc.Heap.Alloc.{alloc_class}
use clmalloc.Heap.Bin.{Beside, Ledger, owned, Untouched, IsBin, Kept, Kept-trans, Kept-refl}
use clmalloc.Heap.Bin.Outcome.{Allocated, Kept-Allocated, Allocated-Kept}
use clmalloc.Heap.Bin.Refill.{alloc_class-Served}
use clmalloc.Heap.Bin.Adopt.Adopting.{Adopting, both}
use clmalloc.Heap.Bin.Request.{with_page, without_chain, request_slab-Served}
use clmalloc.Heap.Bin.Class.Waiting.{IsClass-IsBin, IsClass-after}
use clmalloc.Heap.Bin.Class.{IsClass, IsBin-beside}

-- The run returns a slot of the slab `slab`.
abbrev pub Provided :
    Beside → Option ((Option ℕ × Heap) × Machine) → Heap → ℕ → Ledger → (ℕ → ℕ) → Type 0
Provided f run h class g own =
    (slot slab : ℕ) × (h' : Heap) × (m' : Machine) × (g' : Ledger) × (active partial full xs : List
      ℕ)
    × (run ≡ some ((some slot, h'), m'))
    × IsClass f h' class m' g' active partial full xs
    × (0 < owned active [] partial full slab)
    × Allocated h h' class g g' own (both active [] partial full xs) slab slot

-- The run goes on with a page from the pool's cache or from the pool: no slab of the class is up for
-- adoption, and of the heap's slabs every slot is allocated.
abbrev pub PageWanted :
    Beside → Option ((Option ℕ × Heap) × Machine) → Option ℕ → Heap → ℕ → Ledger → (ℕ → ℕ) → Type 0
PageWanted f run answer h class g own =
    (h' : Heap) × (m' : Machine) × (g' : Ledger) × (full : List ℕ) × (run
      ≡ with_page answer class h' m')
    × IsClass f h' class m' g' [] [] full []
    × ((a : ℕ) → 0 < count a full → length (g' a).outs ≡ (header_at m' a).slot_count)
    × (m'.pool.slab_cache_len + f.spare ≤ slab_cache_max)
    × Kept h h' class g g' own (both [] [] [] full [])

-- The slabs up for adoption once the chain of the class has been taken.
abbrev emptied : Beside → Machine → ℕ → Beside
emptied f m class = record f { abandoned = update m.pool.abandoned class null }

-- Neither the heads for adoption nor the places of the cache matter to what stands beside the slabs.
rest_same :
    (f : Beside) (abandoned : ℕ → ℕ) {h : Heap} {class : ℕ} {w : Words} {n : Nodes} {g : Ledger}
    {own : ℕ → ℕ}
    → Untouched f h class w n g own
    → Untouched (record f { abandoned = abandoned }) h class w n g own
rest_same f abandoned u = record {
  page = u.page;
  real = u.real;
  apart = u.apart;
  headers = u.headers;
  pages = u.pages;
  cells = u.cells;
  ledgers = u.ledgers;
}

-- The chain of the class is taken.
IsClass-Adopting :
    {f : Beside} {h : Heap} {class : ℕ} {m : Machine} {g : Ledger} {full xs : List ℕ}
    → IsClass f h class m g [] [] full xs
    → m.pool.slab_cache_len + length xs + f.spare ≤ slab_cache_max
    → Adopting
        (emptied f m class)
        h
        class
        (without_chain m class)
        g
        []
        []
        []
        full
        (m.pool.abandoned class)
        xs
IsClass-Adopting {f} {h} {class} {m} s cache = record {
  bin =
      IsBin-beside (emptied f m class) s.bin
        (rest_same f (update m.pool.abandoned class null) s.bin.beside);
  rest = s.waiting;
  apart = s.apart;
  others = s.others;
  queue = refl;
  cache = omega (arith, cache);
}

-- None is left for adoption.
IsClass-none :
    {f : Beside} {h h' : Heap} {class : ℕ} {m m' : Machine} {g g' : Ledger}
    {full xs active' partial' full' : List ℕ}
    → IsClass f h class m g [] [] full xs
    → IsBin (emptied f m class) h' class m'.words m'.nodes g' active' [] partial' full'
    → m'.pool.abandoned ≡ update m.pool.abandoned class null
    → IsClass f h' class m' g' active' partial' full' []
IsClass-none {f} {class = class} {m = m} s i gone = record {
  bin = IsBin-beside f i (rest_same (emptied f m class) f.abandoned i.beside);
  waiting = record {
    chain = ap (λ (q : ℕ → ℕ). q class) gone ∙ update_self m.pool.abandoned class null;
    aligned = λ a has. absurd (omega arith);
    slabs = λ a has. absurd (omega arith);
    indexed = λ a has. absurd (omega arith);
  };
  apart = λ a. omega (arith, i.once a);
  others = λ a has. absurd (omega arith);
  queue = λ c ne.
      ap (λ (q : ℕ → ℕ). q c) gone ∙ update_ne m.pool.abandoned class c null ne ∙ s.queue c ne;
}

-- The slabs of a chain that is left alone are added on both sides.
Kept-both :
    {h h' : Heap} {class : ℕ} {g g' : Ledger} {own own' : ℕ → ℕ} (xs : List ℕ)
    → Kept h h' class g g' own own'
    → Kept h h' class g g' (λ a. own a + count a xs) (λ a. own' a + count a xs)
Kept-both xs k = record {
  outs = k.outs;
  fewer = λ a. omega (arith, k.fewer a);
  released = λ a has gone. k.released a (omega arith) (omega arith);
  same_id = k.same_id;
  others = k.others;
}

Allocated-both :
    {h h' : Heap} {class : ℕ} {g g' : Ledger} {own own' : ℕ → ℕ} {slab slot : ℕ} (xs : List ℕ)
    → Allocated h h' class g g' own own' slab slot
    → Allocated h h' class g g' (λ a. own a + count a xs) (λ a. own' a + count a xs) slab slot
Allocated-both xs c = record {
  held = omega (arith, c.held);
  handed = c.handed;
  fewer = λ a. omega (arith, c.fewer a);
  released = λ a has gone. c.released a (omega arith) (omega arith);
  same_id = c.same_id;
  others = c.others;
}

none_sent :
    {f : Beside} {h : Heap} {class : ℕ} (m : Machine) {g : Ledger} {full : List ℕ}
    → IsBin f h class m.words m.nodes g [] [] [] full
    → ((a : ℕ) → 0 < count a full → length (g a).outs ≡ (header_at m a).slot_count)
    → (a : ℕ) → 0 < count a full
    → (g a).remotes ≡ []
none_sent m {g = g} i all a has =
    let slab = i.store.slabs a (omega arith) in
    empty (g a).remotes (omega (arith, slab.counted, all a has))
  where
    empty : (xs : List ℕ) → length xs ≡ 0 → xs ≡ []
    empty [] e = refl
    empty (x ∷ xs) e = absurd (omega arith)

-- An allocation of a class, with fuel for the walk along the full list and for the chain of slabs up for
-- adoption, and a place in the pool's cache for each of these slabs and one more, beside those kept for
-- others: it returns a slot that was not allocated, of a slab that the heap has or has adopted; or each slot
-- of each slab that the heap has, the adopted ones included, is allocated when it asks for a page. The slabs
-- of the class stay well-formed, those of other classes and heaps as they were, no other slot changes hands,
-- and a slab is given up only with none of its slots allocated.
pub alloc_class-Provided :
    {f : Beside} (fuel : ℕ) (answer : Option ℕ) (class : ℕ) (h : Heap) (m : Machine) (g : Ledger)
    (active partial full xs : List ℕ)
    → IsClass f h class m g active partial full xs
    → m.pool.slab_cache_len + length full + length xs + f.spare < slab_cache_max
    → length full + 1 < fuel
    → length xs < fuel
    → Provided f
        (alloc_class (suc fuel) answer class h m)
        h
        class
        g
        (both active [] partial full xs)
      ⊎ PageWanted f
          (alloc_class (suc fuel) answer class h m)
          answer
          h
          class
          g
          (both active [] partial full xs)
alloc_class-Provided {f} fuel answer class h m g active partial full xs s cache enough long =
    elim (alloc_class-Served fuel answer class h m g active partial full (IsClass-IsBin s) refl
      (omega (arith, cache)) enough) [
        | inl (slot, slab, h', m', g', active', partial', full', run, same, i, c) ↦ inl (
          slot,
          slab,
          h',
          m',
          g',
          active',
          partial',
          full',
          xs,
          run,
          IsClass-after s i same c.same_id,
          c.held,
          Allocated-both xs c,
        )
        | inr (h1, m1, g1, full1, run, i, all, same, left, k) ↦
            let s1 = IsClass-after s i same k.same_id in
            let k1 = Kept-both xs k in
            elim (request_slab-Served fuel answer class h1 m1 g1 full1 xs
              (IsClass-Adopting s1 (omega (arith, left))) (none_sent m1 i all) long) [
                | inl (slot, slab, h', m', g', active', partial', full', run', gone, i', c) ↦ inl (
                  slot,
                  slab,
                  h',
                  m',
                  g',
                  active',
                  partial',
                  full',
                  [],
                  run ∙ run',
                  IsClass-none s1 i' gone,
                  c.held,
                  Kept-Allocated k1
                      (Allocated-Kept c (Kept-refl h' class g' _ _ (λ a. omega arith))),
                )
                | inr (m', g', full', run', gone, left', i', all', k') ↦ inr (
                  h1,
                  m',
                  g',
                  full',
                  run ∙ run',
                  IsClass-none s1 i' gone,
                  all',
                  left',
                  Kept-trans k1 (Kept-trans k' (Kept-refl h1 class g' _ _ (λ a. omega arith))),
                )
              ]
      ]
