-- ===== src/Heap/Bin/Exit/Class.antt =====
-- One round of the drop of a heap (src/heap.rs): the active slab, the full list and the partial list of a
-- class.
use clmalloc.Base.{
  ℕ, suc, true, false, ◌+◌, ◌<◌, ◌≡◌, ◌∙◌, refl, some, List, [], ◌∷◌, length, arith, ◌==◌,
}
use clmalloc.Slab.Links.{null, count}
use clmalloc.Pool.State.{Machine, Cmd, pure, ◌>>=◌, ◌>>◌, bind-some}
use clmalloc.Heap.State.{Heap, full_cell, partial_cell, set_bin}
use clmalloc.Heap.Free.{give_up, retire_slab, empty_list, drop_loop}
use clmalloc.Heap.Bin.{Beside, Ledger, Kept, Kept-refl, Kept-trans}
use clmalloc.Heap.Bin.Moves.{unload_active}
use clmalloc.Heap.Bin.Refill.{set_bin-Kept}
use clmalloc.Heap.Bin.Adopt.Adopting.{both}
use clmalloc.Heap.Bin.Exit.{Leaving}
use clmalloc.Heap.Bin.Exit.Hand.{give_up-GivenUp}
use clmalloc.Heap.Bin.Exit.Empty.{empty_full, empty_partial}

-- The active slab is given up too.
retire :
    {f : Beside} (class : ℕ) (h : Heap) (m : Machine) (g : Ledger) (active partial full xs : List ℕ)
    → Leaving f h class m g active [] partial full xs
    → (h' : Heap) × (m' : Machine) × (g' : Ledger) × (xs' : List ℕ) × (retire_slab class h m
        ≡ some (h', m'))
      × Leaving f h' class m' g' [] [] partial full xs'
      × Kept h h' class g g' (both active [] partial full xs) (both [] [] partial full xs')
unfolding retire_slab
retire {f} class h m g [] partial full xs s =
    let idle : (h.bins class == null) ≡ true = ground (arith, s.bin.current) in
    (h, m, g, xs, rw idle refl, s, Kept-refl h class g _ _ (λ a. refl))
retire {f} class h m g (b ∷ c ∷ more) partial full xs s = absurd s.bin.current
retire {f} class h m g (b ∷ []) partial full xs s =
    let (at, some_slab) = s.bin.current in
    let h2 = set_bin h class null in
    let s0 : Leaving f h2 class m g [] (b ∷ []) partial full xs = record {
      bin = unload_active b s.bin;
      waiting = s.waiting;
      apart = λ a. omega (arith, s.apart a);
      others = s.others;
      queue = s.queue;
      cache = omega (arith, s.cache);
    } in
    let (m', g', xs', run, s', k) = give_up-GivenUp m b s0 in
    let there : (b == null) ≡ false = ground arith in
    let own_same : (a : ℕ)
        → both [] (b ∷ []) partial full xs a ≡ both (b ∷ []) [] partial full xs a =
      λ a. omega arith in
    (
      h2,
      m',
      g',
      xs',
      rw (at, there) (bind-some (give_up b) (λ _. pure h2) m run),
      s',
      Kept-trans (set_bin-Kept h class null g _ _ own_same) k,
    )

abbrev lists : ℕ → ℕ → ℕ → Heap → Cmd Heap
lists fuel rounds class h1 = do
  empty_list fuel (full_cell h1 class)
  empty_list fuel (partial_cell h1 class)
  drop_loop fuel rounds (class + 1) h1

-- One round of the drop of a heap whose slabs are well-formed, as are those that wait, with fuel for its
-- lists and a place in the pool's cache for each slab:
-- the round ends, and the heap is left without a slab of the class. Each of them waits for adoption, in a
-- chain of well-formed slabs from the head for the class, or had no slot allocated; no slot changes hands.
pub drop_loop-Leaving :
    {f : Beside} (fuel rounds class : ℕ) (h : Heap) (m : Machine) (g : Ledger)
    (active partial full xs : List ℕ)
    → Leaving f h class m g active [] partial full xs
    → length full < fuel
    → length partial < fuel
    → (h' : Heap) × (m' : Machine) × (g' : Ledger) × (xs' : List ℕ) × (drop_loop fuel
          (suc rounds)
          class
          h
          m
        ≡ drop_loop fuel rounds (class + 1) h' m')
      × Leaving f h' class m' g' [] [] [] [] xs'
      × Kept h h' class g g' (both active [] partial full xs) (λ a. count a xs')
unfolding drop_loop
drop_loop-Leaving {f} fuel rounds class h m g active partial full xs s long enough =
    let (h1, m1, g1, xs1, run1, s1, k1) = retire class h m g active partial full xs s in
    let (m2, g2, xs2, run2, s2, k2) = empty_full fuel class h1 m1 g1 [] partial full xs1 s1 long in
    let (m3, g3, xs3, run3, s3, k3) =
      empty_partial fuel class h1 m2 g2 [] partial [] xs2 s2 enough in
    let last = λ (_ : Unit {0}). drop_loop fuel rounds (class + 1) h1 in
    (
      h1,
      m3,
      g3,
      xs3,
      bind-some (retire_slab class h) (lists fuel rounds class) m run1
          ∙ bind-some (empty_list fuel (full_cell h1 class))
              (λ _. empty_list fuel (partial_cell h1 class) >>= last) m1 run2
          ∙ bind-some (empty_list fuel (partial_cell h1 class)) last m2 run3,
      s3,
      Kept-trans k1 (
          Kept-trans k2 (
            Kept-trans k3 (
              Kept-refl h1 class g3 (both [] [] [] [] xs3) (λ a. count a xs3) (λ a. omega arith)))),
    )
