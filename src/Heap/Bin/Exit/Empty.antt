-- ===== src/Heap/Bin/Exit/Empty.antt =====
-- The lists of a class in the drop of a heap (src/heap.rs): `empty_list` gives up their slabs.
use clmalloc.Base.{
  ℕ, zero, suc, ◌+◌, ◌≤◌, ◌<◌, ◌≡◌, ◌∙◌, ap, refl, Option, none, some, List, [], ◌∷◌, length, arith,
}
use clmalloc.Slab.Links.{count}
use clmalloc.SizeClass.Align.{Multiple}
use clmalloc.Slab.Header.{slab_size}
use clmalloc.Slab.Queue.{Nodes, slab_list_pop}
use clmalloc.Slab.Queue.Linked.{IsQueue}
use clmalloc.Slab.Queue.Laws.{pop-IsQueue, pop-empty}
use clmalloc.Slab.Queue.Frame.{pop-other, pop-frame, pop-cell}
use clmalloc.Slab.Queue.Apart.{pop-apart}
use clmalloc.Slab.Queue.Bodies.{pop-SameBodies}
use clmalloc.Pool.State.{Machine, Cmd, pure, ◌>>◌, bind-some}
use clmalloc.Heap.State.{Heap, full_cell, partial_cell, list_pop}
use clmalloc.Heap.Free.{give_up, empty_list}
use clmalloc.Heap.Bin.{Beside, Ledger, owned, Kept, Kept-refl, Kept-trans}
use clmalloc.Heap.Bin.Rest.{Untouched-links}
use clmalloc.Heap.Bin.Store.{IsStore-sub, IsStore-links}
use clmalloc.Heap.Bin.Moves.{room-same, pop_partial}
use clmalloc.Heap.Bin.Adopt.{IsChain, IsChain-frame}
use clmalloc.Heap.Bin.Adopt.Adopting.{both}
use clmalloc.Heap.Bin.Exit.{Leaving}
use clmalloc.Heap.Bin.Exit.Hand.{GivenUp, give_up-GivenUp}

abbrev popped : Machine → ℕ → Machine
popped m c = record m { nodes = (slab_list_pop m.nodes c).1 }

-- Popping from a list of the heap does not touch the slabs that wait.
pop-IsChain :
    {class : ℕ} (m : Machine) (b : ℕ) (g : Ledger) (xs : List ℕ) (c p : ℕ) (ys : List ℕ)
    → IsQueue m.nodes c (b ∷ ys)
    → IsChain class m.words m.nodes g p xs
    → ((a : ℕ) → count a (b ∷ ys) + count a xs ≤ 1)
    → Multiple slab_size b
    → IsChain class m.words (popped m c).nodes g p xs
pop-IsChain m b g xs c p ys q w apart page =
    IsChain-frame b m.words (popped m c).nodes g w page (ground (arith, apart b)) (λ a far. refl)
      (λ a has.
        let s = w.slabs a has in
        (pop-other m.nodes c b a ys q (omega (arith, s.shape.at)) (omega (arith, apart a))).0)
      (λ a has. pop-SameBodies m.nodes c a) (λ a has. refl)

module _ {f : Beside} {h : Heap} {class : ℕ} {g : Ledger} {active partial full xs : List ℕ}
    (m : Machine) (b : ℕ) where
  Leaving-partial :
      Leaving f h class m g active [] (b ∷ partial) full xs
      → Leaving f h class (popped m (partial_cell h class)) g active (b ∷ []) partial full xs
  Leaving-partial s =
      let (_, _, _, i) = pop_partial b s.bin in
      record {
        bin = i;
        waiting =
            pop-IsChain m b g xs (partial_cell h class) (m.pool.abandoned class) partial
              s.bin.partials s.waiting (λ a. omega (arith, s.apart a))
              (s.bin.store.aligned b (ground arith));
        apart = λ a. omega (arith, s.apart a);
        others = s.others;
        queue = s.queue;
        cache = omega (arith, s.cache);
      }

  Leaving-full :
      Leaving f h class m g active [] partial (b ∷ full) xs
      → Leaving f h class (popped m (full_cell h class)) g active (b ∷ []) partial full xs
  Leaving-full s =
      let i = s.bin in
      let n' = (popped m (full_cell h class)).nodes in
      let same = pop-SameBodies m.nodes (full_cell h class) in
      record {
        bin = record {
          store =
              IsStore-links
                (IsStore-sub i.store (owned active (b ∷ []) partial full) (λ a. omega arith)) n'
                same;
          current = i.current;
          partials =
              pop-frame m.nodes (full_cell h class) (partial_cell h class) b full partial i.fulls
                i.partials (omega arith) (λ a. omega (arith, i.once a));
          fulls = (pop-IsQueue m.nodes (full_cell h class) b full i.fulls).1;
          once = λ a. omega (arith, i.once a);
          ready = λ a has. omega (arith, room-same m.nodes n' g a same, i.ready a has);
          spent = λ a has. room-same m.nodes n' g a same ∙ i.spent a (ground arith);
          beside =
              Untouched-links i.beside n' (owned active (b ∷ []) partial full) (λ a. omega arith)
                (λ a real out.
                  pop-apart m.nodes (full_cell h class) b a full i.fulls real (omega arith))
                (λ c ne ne'. pop-cell m.nodes (full_cell h class) c ne);
        };
        waiting =
            pop-IsChain m b g xs (full_cell h class) (m.pool.abandoned class) full i.fulls s.waiting
              (λ a. omega (arith, s.apart a)) (i.store.aligned b (ground arith));
        apart = λ a. omega (arith, s.apart a);
        others = s.others;
        queue = s.queue;
        cache = omega (arith, s.cache);
      }

-- A round of `empty_list` on a list with a slab, and the end of it.
abbrev after_pop : ℕ → ℕ → Option ℕ → Cmd (Unit {0})
after_pop fuel cell slab = elim slab [
  | none ↦ pure tt
  | some base ↦ give_up base >> empty_list fuel cell
]

empty_list-round :
    (fuel c b : ℕ) (m m' : Machine)
    → (slab_list_pop m.nodes c).0 ≡ some b
    → give_up b (popped m c) ≡ some (tt, m')
    → empty_list (suc fuel) c m ≡ empty_list fuel c m'
unfolding empty_list list_pop
empty_list-round fuel c b m m' got run =
    bind-some (list_pop c) (after_pop fuel c) m (ap (λ (o : Option ℕ). some (o, popped m c)) got)
    ∙ bind-some (give_up b) (λ _. empty_list fuel c) (popped m c) run

empty_list-end :
    (fuel c : ℕ) (m : Machine) → IsQueue m.nodes c [] → empty_list (suc fuel) c m ≡ some (tt, m)
unfolding empty_list list_pop
empty_list-end fuel c m q =
    bind-some (list_pop c) (after_pop fuel c) m
      (ap (λ (r : Option ℕ × Nodes). some (r.0, record m { nodes = r.1 })) (pop-empty m.nodes c q))

GivenUp-from :
    {f : Beside} {run run' : Option (Unit {0} × Machine)} {h : Heap} {class : ℕ} {g g1 : Ledger}
    {own own1 : ℕ → ℕ} {active partial full : List ℕ}
    → Kept h h class g g1 own own1
    → run ≡ run'
    → GivenUp f run' h class g1 own1 active partial full
    → GivenUp f run h class g own active partial full
GivenUp-from {f} k e (m', g', xs', run, s, k') = (m', g', xs', e ∙ run, s, Kept-trans k k')

pub empty_full :
    {f : Beside} (fuel class : ℕ) (h : Heap) (m : Machine) (g : Ledger)
    (active partial full xs : List ℕ)
    → Leaving f h class m g active [] partial full xs
    → length full < fuel
    → GivenUp f
        (empty_list fuel (full_cell h class) m)
        h
        class
        g
        (both active [] partial full xs)
        active
        partial
        []
empty_full {f} zero class h m g active partial full xs s enough = absurd (omega arith)
empty_full {f} (suc fuel) class h m g active partial [] xs s enough = (
  m,
  g,
  xs,
  empty_list-end fuel (full_cell h class) m s.bin.fulls,
  s,
  Kept-refl h class g _ _ (λ a. refl),
)
empty_full {f} (suc fuel) class h m g active partial (b ∷ full) xs s enough =
    let (got, _, _, _) = pop-IsQueue m.nodes (full_cell h class) b full s.bin.fulls in
    let (m1, g1, xs1, run, s1, k1) =
      give_up-GivenUp (popped m (full_cell h class)) b (Leaving-full m b s) in
    let k0 =
      Kept-refl h class g (both active [] partial (b ∷ full) xs)
        (both active (b ∷ []) partial full xs) (λ a. omega arith) in
    GivenUp-from (Kept-trans k0 k1) (empty_list-round fuel (full_cell h class) b m m1 got run)
      (empty_full fuel class h m1 g1 active partial full xs1 s1 (omega arith))

pub empty_partial :
    {f : Beside} (fuel class : ℕ) (h : Heap) (m : Machine) (g : Ledger)
    (active partial full xs : List ℕ)
    → Leaving f h class m g active [] partial full xs
    → length partial < fuel
    → GivenUp f
        (empty_list fuel (partial_cell h class) m)
        h
        class
        g
        (both active [] partial full xs)
        active
        []
        full
empty_partial {f} zero class h m g active partial full xs s enough = absurd (omega arith)
empty_partial {f} (suc fuel) class h m g active [] full xs s enough = (
  m,
  g,
  xs,
  empty_list-end fuel (partial_cell h class) m s.bin.partials,
  s,
  Kept-refl h class g _ _ (λ a. refl),
)
empty_partial {f} (suc fuel) class h m g active (b ∷ partial) full xs s enough =
    let (got, _, _, _) = pop_partial b s.bin in
    let (m1, g1, xs1, run, s1, k1) =
      give_up-GivenUp (popped m (partial_cell h class)) b (Leaving-partial m b s) in
    let k0 =
      Kept-refl h class g (both active [] (b ∷ partial) full xs)
        (both active (b ∷ []) partial full xs) (λ a. omega arith) in
    GivenUp-from (Kept-trans k0 k1) (empty_list-round fuel (partial_cell h class) b m m1 got run)
      (empty_partial fuel class h m1 g1 active partial full xs1 s1 (omega arith))
