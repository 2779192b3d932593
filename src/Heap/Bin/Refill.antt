-- ===== src/Heap/Bin/Refill.antt =====
-- `Heap::alloc` of src/heap.rs for one class, without an active slab: the partial list, the walk of the full
-- list, and the whole of `alloc_class`.
use clmalloc.Base.{
  ℕ, Bool, zero, suc, true, false, ◌+◌, ◌≤◌, ◌<◌, ◌≡◌, ◌≢◌, ◌∙◌, ◌⊎◌, ap, refl, inl, inr, Option,
  none, some, List, [], ◌∷◌, ◌++◌, length, arith, ◌==◌,
}
use clmalloc.Slab.Links.{null}
use clmalloc.Slab.Queue.{Nodes, slab_list_pop, slab_list_push}
use clmalloc.Slab.Queue.Laws.{pop-empty}
use clmalloc.Pool.State.{Machine, Cmd, pure, ◌>>=◌, bind-some, slab_cache_max, PagePool}
use clmalloc.Heap.State.{Heap, partial_cell, full_cell, set_bin, list_pop, list_push}
use clmalloc.Heap.Alloc.{
  alloc_class, alloc_refill, try_partial, retire_active, scan_full_list, request_slab,
}
use clmalloc.Heap.Bin.{Beside, Ledger, owned, IsBin, Kept, Kept-refl}
use clmalloc.Heap.Bin.Moves.{unload_active, activate, push_full, pop_partial}
use clmalloc.Heap.Bin.Lists.{count-append, Linked-first}
use clmalloc.Heap.Bin.Scan.{IsScan}
use clmalloc.Heap.Bin.Scan.Loop.{scan_loop_lem}
use clmalloc.Heap.Bin.Outcome.{Served, Asked, Kept-Served, Asked-from}
use clmalloc.Heap.Bin.Serve.{start_active, serve_slab}

pub set_bin-Kept :
    (h : Heap) (class b : ℕ) (g : Ledger) (own own' : ℕ → ℕ)
    → ((a : ℕ) → own' a ≡ own a)
    → Kept h (set_bin h class b) class g g own own'
set_bin-Kept h class b g own own' same = record {
  outs = λ a. refl;
  fewer = λ a. omega (arith, same a);
  released = λ a p z. absurd (omega (arith, same a));
  same_id = refl;
  others = λ c ne. ground arith;
}

abbrev take_popped : ℕ → Heap → Option ℕ → Cmd (Bool × Heap)
take_popped class h popped = elim popped [
  | some slab ↦ pure (true, set_bin h class slab)
  | none ↦ pure (false, h)
]

try_partial-some :
    (class b : ℕ) (h : Heap) (m : Machine)
    → (slab_list_pop m.nodes (partial_cell h class)).0 ≡ some b
    → try_partial class h m
      ≡ some (
        (true, set_bin h class b),
        record m { nodes = (slab_list_pop m.nodes (partial_cell h class)).1 },
      )
unfolding try_partial list_pop
try_partial-some class b h m got =
    bind-some (list_pop (partial_cell h class)) (take_popped class h) m (
      ap
        (λ (o : Option ℕ).
          some (o, record m { nodes = (slab_list_pop m.nodes (partial_cell h class)).1 }))
        got)

try_partial-none :
    (class : ℕ) (h : Heap) (m : Machine)
    → slab_list_pop m.nodes (partial_cell h class) ≡ (none, m.nodes)
    → try_partial class h m ≡ some ((false, h), m)
unfolding try_partial list_pop
try_partial-none class h m got =
    bind-some (list_pop (partial_cell h class)) (take_popped class h) m
      (ap (λ (r : Option ℕ × Nodes). some (r.0, record m { nodes = r.1 })) got)

refill_partial :
    {f : Beside} (fuel : ℕ) (answer : Option ℕ) (class b : ℕ) (h : Heap) (m : Machine) (g : Ledger)
    (partial full : List ℕ)
    → m.pool.abandoned ≡ f.abandoned
    → IsBin f h class m.words m.nodes g [] [] (b ∷ partial) full
    → Served f
        (alloc_refill (suc fuel) answer class (alloc_class (suc fuel) answer class) h m)
        h
        class
        g
        (owned [] [] (b ∷ partial) full)
unfolding alloc_refill
refill_partial {f} fuel answer class b h m g partial full queue i =
    let (got, ne, left, i1) = pop_partial b i in
    let h1 = set_bin h class b in
    let m1 = record m { nodes = (slab_list_pop m.nodes (partial_cell h class)).1 } in
    Kept-Served (set_bin-Kept h class b g _ _ (λ a. omega arith))
      (bind-some (try_partial class h) _ m (try_partial-some class b h m got))
      (serve_slab fuel answer class b h1 m1 g partial full queue (activate b ne i1) left)

-- What follows the walk.
abbrev second_try : ℕ → Option ℕ → ℕ → (Heap → Cmd (Option ℕ × Heap)) → Heap → Cmd (Option ℕ × Heap)
second_try fuel answer class again h = elim (h.bins class == null) [
  | false ↦ again h
  | true ↦ do
    (found, h') ← try_partial class h
    elim found [ true ↦ again h' | false ↦ request_slab fuel answer class h' ]
]

second_try_lem :
    {f : Beside} (fuel : ℕ) (answer : Option ℕ) (class : ℕ) (h : Heap) (m : Machine) (g : Ledger)
    (active partial kept : List ℕ)
    → IsScan f h class m g active partial kept []
    → Served f
        (second_try (suc fuel) answer class (alloc_class (suc fuel) answer class) h m)
        h
        class
        g
        (owned active [] partial (kept ++ []))
      ⊎ Asked f
          (second_try (suc fuel) answer class (alloc_class (suc fuel) answer class) h m)
          (suc fuel)
          answer
          h
          class
          g
          (owned active [] partial (kept ++ []))
second_try_lem {f} fuel answer class h m g (b ∷ []) partial kept s =
    let there : (h.bins class == null) ≡ false = ground (arith, s.bin.current) in
    inl (
      rw (there, second_try)
        (serve_slab fuel answer class b h m g partial (kept ++ []) s.queue s.bin
          (s.able b (ground arith))))
second_try_lem {f} fuel answer class h m g (b ∷ c ∷ more) partial kept s = absurd s.bin.current
second_try_lem {f} fuel answer class h m g [] (p ∷ partial) kept s =
    absurd (omega (arith, s.found refl))
second_try_lem {f} fuel answer class h m g [] [] kept s =
    let idle : (h.bins class == null) ≡ true = ground (arith, s.bin.current) in
    let empty = pop-empty m.nodes (partial_cell h class) s.bin.partials in
    inr (
      h,
      m,
      g,
      kept ++ [],
      rw (idle, second_try)
          (bind-some (try_partial class h) _ m (try_partial-none class h m empty)),
      s.bin,
      λ a has.
          let slab = s.bin.store.slabs a (omega arith) in
          let none_sent = s.drained a (omega (arith, count-append a kept [])) in
          omega (arith, slab.counted, s.bin.spent a has, ap length none_sent),
      s.queue,
      omega (arith, s.cache),
      Kept-refl h class g _ _ (λ a. refl),
    )

refill_scan :
    {f : Beside} (fuel : ℕ) (answer : Option ℕ) (class : ℕ) (h : Heap) (m : Machine) (g : Ledger)
    (full : List ℕ)
    → IsBin f h class m.words m.nodes g [] [] [] full
    → m.pool.abandoned ≡ f.abandoned
    → m.pool.slab_cache_len + length full + f.spare ≤ slab_cache_max
    → length full < suc fuel
    → Served f
        (alloc_refill (suc fuel) answer class (alloc_class (suc fuel) answer class) h m)
        h
        class
        g
        (owned [] [] [] full)
      ⊎ Asked f
          (alloc_refill (suc fuel) answer class (alloc_class (suc fuel) answer class) h m)
          (suc fuel)
          answer
          h
          class
          g
          (owned [] [] [] full)
unfolding alloc_refill scan_full_list
refill_scan {f} fuel answer class h m g full i queue cache enough =
    let s : IsScan f h class m g [] [] [] full = record {
      bin = i;
      drained = λ a has. absurd (omega arith);
      found = λ z. refl;
      able = λ a has. absurd (omega arith);
      queue = queue;
      cache = cache;
    } in
    let head = Linked-first m.nodes _ _ full i.fulls.links in
    let (h', m', g', active, partial, kept, run, s', k) =
      scan_loop_lem (suc fuel) class h m g [] [] [] full s enough in
    let walk : scan_full_list (suc fuel) class h m ≡ some (h', m') = rw head run in
    let empty = pop-empty m.nodes (partial_cell h class) i.partials in
    let start =
      bind-some (try_partial class h) _ m (try_partial-none class h m empty)
      ∙ bind-some (scan_full_list (suc fuel) class h)
          (second_try (suc fuel) answer class (alloc_class (suc fuel) answer class)) m walk in
    Asked-from (suc fuel) answer k start
      (second_try_lem fuel answer class h' m' g' active partial kept s')

-- The heap has no active slab: a partial slab, or one that the walk of the full list finds, becomes the
-- active one; if there is none, the request goes on.
refill :
    {f : Beside} (fuel : ℕ) (answer : Option ℕ) (class : ℕ) (h : Heap) (m : Machine) (g : Ledger)
    (partial full : List ℕ)
    → IsBin f h class m.words m.nodes g [] [] partial full
    → m.pool.abandoned ≡ f.abandoned
    → m.pool.slab_cache_len + length full + f.spare ≤ slab_cache_max
    → length full < fuel
    → Served f
        (alloc_refill fuel answer class (alloc_class fuel answer class) h m)
        h
        class
        g
        (owned [] [] partial full)
      ⊎ Asked f
          (alloc_refill fuel answer class (alloc_class fuel answer class) h m)
          fuel
          answer
          h
          class
          g
          (owned [] [] partial full)
refill {f} zero answer class h m g partial full i queue cache enough = absurd (omega arith)
refill {f} (suc fuel) answer class h m g (b ∷ partial) full i queue cache enough =
    inl (refill_partial fuel answer class b h m g partial full queue i)
refill {f} (suc fuel) answer class h m g [] full i queue cache enough =
    refill_scan fuel answer class h m g full i queue cache enough

retire_active-full :
    (class : ℕ) (h : Heap) (m : Machine)
    → h.bins class ≢ null
    → retire_active class h m
      ≡ some (
        set_bin h class null,
        record m { nodes = slab_list_push m.nodes (full_cell h class) (h.bins class) },
      )
unfolding retire_active list_push
retire_active-full class h m some_bin =
    let there : (h.bins class == null) ≡ false = ground arith in rw there refl

-- An allocation of a class, from a heap whose slabs of that class are well-formed, with a place in the
-- pool's cache for each full slab and one more, and fuel for the walk along the full list: it is served
-- from one of the heap's slabs with a slot that was not allocated, or every slot of every slab that it has
-- left is allocated when it asks for another slab. The slabs stay well-formed, no other slot changes hands,
-- and a slab is given up only with none of its slots allocated.
pub alloc_class-Served :
    {f : Beside} (fuel : ℕ) (answer : Option ℕ) (class : ℕ) (h : Heap) (m : Machine) (g : Ledger)
    (active partial full : List ℕ)
    → IsBin f h class m.words m.nodes g active [] partial full
    → m.pool.abandoned ≡ f.abandoned
    → m.pool.slab_cache_len + length full + f.spare < slab_cache_max
    → length full + 1 < fuel
    → Served f (alloc_class (suc fuel) answer class h m) h class g (owned active [] partial full)
      ⊎ Asked f
          (alloc_class (suc fuel) answer class h m)
          fuel
          answer
          h
          class
          g
          (owned active [] partial full)
unfolding alloc_class
alloc_class-Served {f} fuel answer class h m g [] partial full i queue cache enough =
    let idle : (h.bins class == null) ≡ true = ground (arith, i.current) in
    rw (idle, alloc_class)
      (refill fuel answer class h m g partial full i queue (omega arith) (omega arith))
alloc_class-Served {f} fuel answer class h m g (b ∷ c ∷ more) partial full i queue cache enough =
    absurd i.current
alloc_class-Served {f} fuel answer class h m g (b ∷ []) partial full i queue cache enough =
    let (at, ne) = i.current in
    let some_bin : h.bins class ≢ null = rw at ne in
    let i' : IsBin f h class m.words m.nodes g (h.bins class ∷ []) [] partial full = rw at i in
    let own_at : owned (h.bins class ∷ []) [] partial full ≡ owned (b ∷ []) [] partial full =
      ap (λ (x : ℕ). owned (x ∷ []) [] partial full) at in
    elim (start_active fuel answer class h m g partial full queue some_bin i') [
      | inl served ↦ inl (rw own_at at served)
      | inr (no_room, g1, m1, run, i1, none_left, same, pool) ↦
          let h2 = set_bin h class null in
          let m2 = record m1 {
            nodes = slab_list_push m1.nodes (full_cell h class) (h.bins class);
          } in
          let i2 = push_full (h.bins class) some_bin (unload_active (h.bins class) i1) none_left in
          let k : Kept h h2 class g g1 (owned (b ∷ []) [] partial full)
              (owned [] [] partial (h.bins class ∷ full)) =
            record {
              outs = same;
              fewer = λ a. rw at (omega arith);
              released = λ a has gone. absurd (ground (arith, at));
              same_id = refl;
              others = λ c ne. ground arith;
            } in
          Asked-from fuel answer k
            (run
              ∙ bind-some (retire_active class h)
                  (alloc_refill fuel answer class (alloc_class fuel answer class)) m1
                  (retire_active-full class h m1 some_bin))
            (refill fuel answer class h2 m2 g1 partial (h.bins class ∷ full) i2
              (ap (λ (p : PagePool). p.abandoned) pool ∙ queue)
              (omega (arith, ap (λ (p : PagePool). p.slab_cache_len) pool)) (omega arith))
    ]
