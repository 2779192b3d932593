-- ===== src/Heap/Bin/Adopt/Loop.antt =====
-- `Heap::try_adopt` of src/heap.rs: the walk along the chain of abandoned slabs of a class.
use clmalloc.Base.{
  ℕ, zero, suc, false, ◌+◌, ◌≤◌, ◌<◌, ◌≡◌, ◌≢◌, ◌∙◌, ◌⊎◌, ap, refl, inl, inr, Option, none, some,
  List, [], ◌∷◌, length, arith, ◌==◌,
}
use clmalloc.Slab.Links.{null, count}
use clmalloc.Slab.Queue.{next_link}
use clmalloc.Pool.State.{Machine, slab_cache_max, Cmd, ◌>>=◌, bind-some}
use clmalloc.Pool.Shared.{inc_adopt_count}
use clmalloc.Heap.State.{Heap, set_bin, unlinked, set_heap_id, slab_drain_remote}
use clmalloc.Heap.Alloc.{place_adopted, adopt_loop}
use clmalloc.Heap.Bin.{Beside, Ledger, owned, IsBin, Kept, Kept-refl, Kept-trans}
use clmalloc.Heap.Bin.Outcome.{Allocated, Kept-Allocated, Allocated-Kept}
use clmalloc.Heap.Bin.Adopt.Prepare.{prepare, prepare-Prepared}
use clmalloc.Heap.Bin.Adopt.Place.{place_some, place_none}
use clmalloc.Heap.Bin.Adopt.Adopting.{Adopting, both}

-- What is left of a round after the preparation of its slab.
abbrev placing : ℕ → ℕ → ℕ → ℕ → Option ℕ → Heap → Cmd (Option ℕ × Heap)
placing fuel class next b result h =
    place_adopted class b result h >>= λ (r : Option ℕ × Heap). adopt_loop fuel class next r.0 r.1

adopt_round :
    (fuel class b : ℕ) (result : Option ℕ) (h : Heap) (m m' : Machine)
    → b ≢ null
    → prepare class b h.id m ≡ some (tt, m')
    → adopt_loop (suc fuel) class b result h m
      ≡ placing fuel class (next_link m.nodes b) b result h m'
unfolding adopt_loop unlinked set_heap_id slab_drain_remote inc_adopt_count
adopt_round fuel class b result h m m' some_slab run =
    let there : (b == null) ≡ false = ground arith in
    rw (there, adopt_loop)
      (bind-some (prepare class b h.id) (λ _. placing fuel class (next_link m.nodes b) b result h) m
        run)

adopt_end :
    (fuel class p : ℕ) (result : Option ℕ) (h : Heap) (m : Machine)
    → p ≡ null
    → adopt_loop (suc fuel) class p result h m ≡ some ((result, h), m)
unfolding adopt_loop
adopt_end fuel class p result h m end = rw end refl

-- The first slab of the chain becomes the loose one.
take_first :
    {f : Beside} (h : Heap) (class : ℕ) (m : Machine) (g : Ledger) (active partial full : List ℕ)
    (p b : ℕ) (xs : List ℕ)
    → Adopting f h class m g active [] partial full p (b ∷ xs)
    → (m' : Machine) × (g' : Ledger) × (prepare class b h.id m ≡ some (tt, m'))
      × Adopting f h class m' g' active (b ∷ []) partial full (next_link m.nodes b) xs
      × ((g' b).remotes ≡ [])
      × ((a : ℕ) → a ≢ b → g' a ≡ g a)
      × Kept h h class g g'
          (both active [] partial full (b ∷ xs))
          (both active (b ∷ []) partial full xs)
take_first {f} h class m g active partial full p b xs s =
    let (m', g', run, q, same) =
      prepare-Prepared h class m g active partial full p b xs s.bin s.rest
        (ground (arith, s.apart b)) (s.others b (ground arith)) (ground (arith, s.apart b)) in
    (
      m',
      g',
      run,
      record {
        bin = q.bin;
        rest = q.rest;
        apart = λ a. omega (arith, s.apart a);
        others = λ a has. s.others a (ground arith);
        queue = q.queue ∙ s.queue;
        cache = omega (arith, s.cache, q.cache);
      },
      q.drained,
      same,
      record {
        outs = q.outs;
        fewer = λ a. omega arith;
        released = λ a has gone. absurd (omega arith);
        same_id = refl;
        others = λ c ne. refl;
      },
    )

abbrev Absorbed :
    Beside
    → Option ((Option ℕ × Heap) × Machine)
    → ℕ
    → Heap
    → ℕ
    → Ledger
    → (ℕ → ℕ)
    → List ℕ
    → Type 0
Absorbed f run ptr h class g own active =
    (m' : Machine) × (g' : Ledger) × (partial full : List ℕ) × (run ≡ some ((some ptr, h), m'))
    × (m'.pool.abandoned ≡ f.abandoned)
    × IsBin f h class m'.words m'.nodes g' active [] partial full
    × Kept h h class g g' own (owned active [] partial full)

-- Once a slot is found, the slabs that are left go to the lists or to the pool's cache.
absorb :
    {f : Beside} (fuel class ptr : ℕ) (h : Heap) (m : Machine) (g : Ledger)
    (active partial full : List ℕ) (p : ℕ) (xs : List ℕ)
    → Adopting f h class m g active [] partial full p xs
    → length xs < fuel
    → Absorbed f
        (adopt_loop fuel class p (some ptr) h m)
        ptr
        h
        class
        g
        (both active [] partial full xs)
        active
absorb {f} zero class ptr h m g active partial full p xs s enough = absurd (omega arith)
absorb {f} (suc fuel) class ptr h m g active partial full p [] s enough =
    let end : p ≡ null = s.rest.chain in
    (
      m,
      g,
      partial,
      full,
      adopt_end fuel class p _ h m end,
      s.queue,
      s.bin,
      Kept-refl h class g _ _ (λ a. omega arith),
    )
absorb {f} (suc fuel) class ptr h m g active partial full p (b ∷ xs) s enough =
    let (at, some_slab, _) = s.rest.chain in
    let (m1, g1, run, s1, _, _, k1) = take_first h class m g active partial full p b xs s in
    let next = next_link m.nodes b in
    let (partial2, full2, placed) = place_some m1 b s1 ptr in
    let (m2, run2, s2, k2) = placed in
    let (m3, g3, partial3, full3, run3, queue3, i3, k3) =
      absorb fuel class ptr h m2 g1 active partial2 full2 next xs s2 (omega arith) in
    (
      m3,
      g3,
      partial3,
      full3,
      ap (λ (q : ℕ). adopt_loop (suc fuel) class q (some ptr) h m) at
          ∙ (adopt_round fuel class b (some ptr) h m m1 some_slab run
              ∙ bind-some (place_adopted class b (some ptr) h)
                  (λ (r : Option ℕ × Heap). adopt_loop fuel class next r.0 r.1) m1 run2
              ∙ run3),
      queue3,
      i3,
      Kept-trans k1 (Kept-trans k2 k3),
    )

-- What the walk comes to when no slot was found before: it finds one, or the heap is left without an
-- active slab, and with nothing to drain on its full list.
abbrev pub Adopted :
    Beside → Option ((Option ℕ × Heap) × Machine) → Heap → ℕ → Ledger → (ℕ → ℕ) → List ℕ → Type 0
Adopted f run h class g own partial =
    ((ptr slab : ℕ) × (h' : Heap) × (m' : Machine) × (g' : Ledger) × (active' partial' full' : List
        ℕ)
      × (run ≡ some ((some ptr, h'), m'))
      × (m'.pool.abandoned ≡ f.abandoned)
      × IsBin f h' class m'.words m'.nodes g' active' [] partial' full'
      × Allocated h h' class g g' own (owned active' [] partial' full') slab ptr)
    ⊎ ((m' : Machine) × (g' : Ledger) × (full' : List ℕ) × (run ≡ some ((none, h), m'))
        × (m'.pool.abandoned ≡ f.abandoned)
        × (m'.pool.slab_cache_len + f.spare ≤ slab_cache_max)
        × IsBin f h class m'.words m'.nodes g' [] [] partial full'
        × ((a : ℕ) → 0 < count a full' → (g' a).remotes ≡ [])
        × Kept h h class g g' own (owned [] [] partial full'))

pub Adopted-from :
    {f : Beside} {run run' : Option ((Option ℕ × Heap) × Machine)} {h : Heap} {class : ℕ}
    {g g1 : Ledger} {own own1 : ℕ → ℕ} {partial : List ℕ}
    → Kept h h class g g1 own own1
    → run ≡ run'
    → Adopted f run' h class g1 own1 partial
    → Adopted f run h class g own partial
Adopted-from {f} k e (inl (ptr, slab, h', m', g', active', partial', full', run, queue, i, c)) =
    inl (ptr, slab, h', m', g', active', partial', full', e ∙ run, queue, i, Kept-Allocated k c)
Adopted-from {f} k e (inr (m', g', full', run, queue, cache, i, sent, k')) =
    inr (m', g', full', e ∙ run, queue, cache, i, sent, Kept-trans k k')

pub adopt_loop-Adopted :
    {f : Beside} (fuel class : ℕ) (h : Heap) (m : Machine) (g : Ledger) (partial full : List ℕ)
    (p : ℕ) (xs : List ℕ)
    → Adopting f h class m g [] [] partial full p xs
    → ((a : ℕ) → 0 < count a full → (g a).remotes ≡ [])
    → length xs < fuel
    → Adopted f (adopt_loop fuel class p none h m) h class g (both [] [] partial full xs) partial
adopt_loop-Adopted {f} zero class h m g partial full p xs s sent enough = absurd (omega arith)
adopt_loop-Adopted {f} (suc fuel) class h m g partial full p [] s sent enough =
    let end : p ≡ null = s.rest.chain in
    inr (
      m,
      g,
      full,
      adopt_end fuel class p _ h m end,
      s.queue,
      omega (arith, s.cache),
      s.bin,
      sent,
      Kept-refl h class g _ _ (λ a. omega arith),
    )
adopt_loop-Adopted {f} (suc fuel) class h m g partial full p (b ∷ xs) s sent enough =
    let (at, some_slab, _) = s.rest.chain in
    let (m1, g1, run, s1, drained, same, k1) = take_first h class m g [] partial full p b xs s in
    let next = next_link m.nodes b in
    let sent1 : (a : ℕ) → 0 < count a full → (g1 a).remotes ≡ [] = λ a has.
      rw (same a (λ e. absurd (ground (arith, s.apart b, ap (λ (q : ℕ). count q full) e))))
        (sent a has) in
    let start : adopt_loop (suc fuel) class p none h m ≡ placing fuel class next b none h m1 =
      ap (λ (q : ℕ). adopt_loop (suc fuel) class q none h m) at
      ∙ adopt_round fuel class b none h m m1 some_slab run in
    let loop = λ (r : Option ℕ × Heap). adopt_loop fuel class next r.0 r.1 in
    elim (place_none m1 b s1 refl drained sent1) [
      | inl (full2, placed, sent2) ↦
          let (m2, run2, s2, k2) = placed in
          Adopted-from (Kept-trans k1 k2)
            (start ∙ bind-some (place_adopted class b none h) loop m1 run2)
            (adopt_loop-Adopted fuel class h m2 g1 partial full2 next xs s2 sent2 (omega arith))
      | inr (ptr, g2, m2, run2, s2, given) ↦
          let h2 = set_bin h class b in
          let (m3, g3, partial3, full3, run3, queue3, i3, k3) =
            absorb fuel class ptr h2 m2 g2 (b ∷ []) partial full next xs s2 (omega arith) in
          let c : Allocated h h2 class g1 g2 (both [] (b ∷ []) partial full xs)
              (both (b ∷ []) [] partial full xs) b ptr =
            record {
              held = ground arith;
              handed = given;
              fewer = λ a. omega arith;
              released = λ a has gone. absurd (omega arith);
              same_id = refl;
              others = λ q ne. ground arith;
            } in
          inl (
            ptr,
            b,
            h2,
            m3,
            g3,
            b ∷ [],
            partial3,
            full3,
            start ∙ bind-some (place_adopted class b none h) loop m1 run2 ∙ run3,
            queue3,
            i3,
            Kept-Allocated k1 (Allocated-Kept c k3),
          )
    ]
