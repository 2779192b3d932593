-- ===== src/Heap/Bin/Serve.antt =====
-- `Heap::alloc` of src/heap.rs with an active slab.
use clmalloc.Base.{
  ℕ, suc, false, ◌<◌, ◌≡◌, ◌∙◌, ap, ◌≢◌, ◌⊎◌, refl, inl, inr, Option, List, [], ◌∷◌, arith, ◌==◌,
}
use clmalloc.Base.Fun.{update}
use clmalloc.SizeClass.{class_size}
use clmalloc.Slab.Links.{null}
use clmalloc.Metrics.{on_alloc}
use clmalloc.Pool.State.{Machine, PagePool, ◌>>=◌, bind-some}
use clmalloc.Heap.State.{Heap, count_with}
use clmalloc.Heap.Alloc.{alloc_active, alloc_class, alloc_refill, retire_active}
use clmalloc.Heap.Bin.{Beside, Ledger, room, owned, IsBin}
use clmalloc.Heap.Bin.Active.{alloc_active-ActiveResult}
use clmalloc.Heap.Bin.Outcome.{Served}

-- The active slab is tried first.
pub start_active :
    {f : Beside} (fuel : ℕ) (answer : Option ℕ) (class : ℕ) (h : Heap) (m : Machine) (g : Ledger)
    (partial full : List ℕ)
    → m.pool.abandoned ≡ f.abandoned
    → h.bins class ≢ null
    → IsBin f h class m.words m.nodes g (h.bins class ∷ []) [] partial full
    → Served f
        (alloc_class (suc fuel) answer class h m)
        h
        class
        g
        (owned (h.bins class ∷ []) [] partial full)
      ⊎ ((room m.nodes g (h.bins class) ≡ 0)
          × (g' : Ledger) × (m' : Machine) × (alloc_class (suc fuel) answer class h m
              ≡ (retire_active class h
                    >>= alloc_refill fuel answer class (alloc_class fuel answer class))
                  m')
          × IsBin f h class m'.words m'.nodes g' (h.bins class ∷ []) [] partial full
          × (room m'.nodes g' (h.bins class) ≡ 0)
          × ((a : ℕ) → (g' a).outs ≡ (g a).outs)
          × (m'.pool ≡ m.pool))
unfolding alloc_class count_with
start_active {f} fuel answer class h m g partial full queue some_bin i =
    let there : (h.bins class == null) ≡ false = ground arith in
    elim (alloc_active-ActiveResult h class m g partial full i) [
      | inl (slot, g', m', run, i', given, pool) ↦ inl (
        slot,
        h.bins class,
        h,
        record m' {
          counters = update m'.counters h.id (on_alloc (m'.counters h.id) class (class_size class));
        },
        g',
        h.bins class ∷ [],
        partial,
        full,
        rw (there, alloc_class) (bind-some (alloc_active class h) _ m run),
        ap (λ (p : PagePool). p.abandoned) pool ∙ queue,
        i',
        record {
          held = ground arith;
          handed = given;
          fewer = λ a. omega arith;
          released = λ a has gone. absurd (omega arith);
          same_id = refl;
          others = λ c ne. refl;
        },
      )
      | inr (no_room, g', m', run, i', none_left, none_sent, same, pool) ↦ inr (
        no_room,
        g',
        m',
        rw (there, alloc_class) (bind-some (alloc_active class h) _ m run),
        i',
        none_left,
        same,
        pool,
      )
    ]

-- A slab that has just been made active, and has a slot, serves the request.
serve :
    {f : Beside} (fuel : ℕ) (answer : Option ℕ) (class : ℕ) (h : Heap) (m : Machine) (g : Ledger)
    (partial full : List ℕ)
    → m.pool.abandoned ≡ f.abandoned
    → h.bins class ≢ null
    → IsBin f h class m.words m.nodes g (h.bins class ∷ []) [] partial full
    → 0 < room m.nodes g (h.bins class)
    → Served f
        (alloc_class (suc fuel) answer class h m)
        h
        class
        g
        (owned (h.bins class ∷ []) [] partial full)
serve {f} fuel answer class h m g partial full queue some_bin i left =
    elim (start_active fuel answer class h m g partial full queue some_bin i) [
      | inl served ↦ served
      | inr (no_room, _, _, _, _, _, _, _) ↦ absurd (omega arith)
    ]

-- The same, for a slab that is named.
pub serve_slab :
    {f : Beside} (fuel : ℕ) (answer : Option ℕ) (class b : ℕ) (h : Heap) (m : Machine) (g : Ledger)
    (partial full : List ℕ)
    → m.pool.abandoned ≡ f.abandoned
    → IsBin f h class m.words m.nodes g (b ∷ []) [] partial full
    → 0 < room m.nodes g b
    → Served f (alloc_class (suc fuel) answer class h m) h class g (owned (b ∷ []) [] partial full)
serve_slab {f} fuel answer class b h m g partial full queue i left =
    let (at, ne) = i.current in
    let i' : IsBin f h class m.words m.nodes g (h.bins class ∷ []) [] partial full = rw at i in
    let left' : 0 < room m.nodes g (h.bins class) = rw at left in
    let served = serve fuel answer class h m g partial full queue (rw at ne) i' left' in
    rw at at served
