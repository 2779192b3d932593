-- ===== src/Heap/Bin/Class.antt =====
-- A class of a heap together with the slabs of the class that are up for adoption in the pool
-- (src/heap.rs, src/pool.rs).
pub mod Waiting
pub mod Alloc
pub mod Free
pub mod Page
use clmalloc.Base.{
  ℕ, ◌+◌, ◌^◌, ◌≤◌, ◌<◌, ◌≡◌, ◌≢◌, ◌∙◌, ◌⊎◌, inl, inr, sym, ap, refl, List, [], ◌∷◌, length, arith,
}
use clmalloc.Base.Fun.{update, update_ne, update_self}
use clmalloc.SizeClass.Align.{Multiple}
use clmalloc.Slab.Links.{Words, null, count}
use clmalloc.Slab.Header.{SlabHeader, slab_size, head_of}
use clmalloc.Slab.Header.Frame.{IsSlab-frame}
use clmalloc.Slab.Queue.{Nodes, next_link}
use clmalloc.Slab.Queue.Linked.{IsQueue, Linked-frame}
use clmalloc.Pool.State.{Machine}
use clmalloc.Heap.State.{Heap, full_cell, partial_cell}
use clmalloc.Heap.Bin.{Beside, Ledger, SlabIs, room, owned, Untouched, IsBin}
use clmalloc.Heap.Bin.Rest.{around, around-Untouched}
use clmalloc.Heap.Bin.Adopt.{Chained, IsChain}

-- The heap's slabs of the class are well-formed, those up for adoption are the chain `xs`, and no slab is
-- both, nor beside them.
pub record IsClass (f : Beside) (h : Heap) (class : ℕ) (m : Machine) (g : Ledger)
    (active partial full xs : List ℕ) : Type 0 where
  pub bin : IsBin f h class m.words m.nodes g active [] partial full
  pub waiting : IsChain class m.words m.nodes g (m.pool.abandoned class) xs
  pub apart : (a : ℕ) → owned active [] partial full a + count a xs ≤ 1
  pub others : (a : ℕ) → 0 < count a xs → ¬ f.slabs a
  pub queue : (c : ℕ) → c ≢ class → m.pool.abandoned c ≡ f.abandoned c

-- The same slabs, with other things beside them.
pub IsBin-beside :
    {f : Beside} {h : Heap} {class : ℕ} {w : Words} {n : Nodes} {g : Ledger}
    {active partial full : List ℕ} (e : Beside)
    → IsBin f h class w n g active [] partial full
    → Untouched e h class w n g (owned active [] partial full)
    → IsBin e h class w n g active [] partial full
IsBin-beside e i u = record {
  store = i.store;
  current = i.current;
  partials = i.partials;
  fulls = i.fulls;
  once = i.once;
  ready = i.ready;
  spent = i.spent;
  beside = u;
}

-- What two memories agree on, for the slabs of `P`.
pub record Agree (P : ℕ → Type 0) (w w' : Words) (n n' : Nodes) (g g' : Ledger) : Type 0 where
  pub headers : (a : ℕ) → P a → n'.header a ≡ n.header a
  pub pages : (a q : ℕ) → P a → a ≤ q → q < a + 2 ^ 16 → w' q ≡ w q
  pub ledgers : (a : ℕ) → P a → g' a ≡ g a

-- What stood beside the slabs of a class is as it was.
pub around-Agree :
    (m m' : Machine) (g g' : Ledger) {slabs : ℕ → Type 0} {spare : ℕ} {h : Heap} {class : ℕ}
    {own : ℕ → ℕ} (P : ℕ → Type 0)
    → Untouched (around m g slabs spare) h class m'.words m'.nodes g' own
    → ((a : ℕ) → P a → slabs a)
    → Agree P m.words m'.words m.nodes m'.nodes g g'
around-Agree m m' g g' P u in_slabs = record {
  headers = λ a has. u.headers a (in_slabs a has);
  pages = λ a q has low high. u.pages a q (in_slabs a has) low high;
  ledgers = λ a has. u.ledgers a (in_slabs a has);
}

-- What stood beside a class before one run, and was left alone by the run after, is as it was before both.
pub around_trans :
    (m m' : Machine) (g g' : Ledger) {f : Beside} {slabs : ℕ → Type 0} {spare : ℕ} (h h' : Heap)
    {class : ℕ} {own own' : ℕ → ℕ}
    → Untouched f h class m.words m.nodes g own
    → Untouched (around m g slabs spare) h' class m'.words m'.nodes g' own'
    → ((a : ℕ) → f.slabs a → slabs a)
    → h'.id ≡ h.id
    → Untouched f h' class m'.words m'.nodes g' own'
around_trans m m' g g' h h' u v in_slabs same_id = record {
  page = u.page;
  real = u.real;
  apart = λ a has. v.apart a (in_slabs a has);
  headers = λ a has. v.headers a (in_slabs a has) ∙ u.headers a has;
  pages = λ a q has low high. v.pages a q (in_slabs a has) low high ∙ u.pages a q has low high;
  cells = λ c ne ne'. v.cells c ne ne' ∙ u.cells c (rw same_id at ne) (rw same_id at ne');
  ledgers = λ a has. v.ledgers a (in_slabs a has) ∙ u.ledgers a has;
}

module _ {P : ℕ → Type 0} {w w' : Words} {n n' : Nodes} {g g' : Ledger}
    (s : Agree P w w' n n' g g') where
  SlabIs-agree : (a : ℕ) → P a → SlabIs a w (n.header a) (g a) → SlabIs a w' (n'.header a) (g' a)
  SlabIs-agree a has i =
      rw (s.headers a has, s.ledgers a has)
        (IsSlab-frame w' i (λ q low high. s.pages a q has (omega arith) (omega arith)))

  Chained-agree :
      (p : ℕ) (xs : List ℕ) → Chained n p xs → ((a : ℕ) → 0 < count a xs → P a) → Chained n' p xs
  Chained-agree p [] c all = c
  Chained-agree p (x ∷ xs) c all =
      let (at, some_slab, rest) = c in
      let next : next_link n' x ≡ next_link n x =
        ap (λ (hd : SlabHeader). hd.next_link) (s.headers x (all x (ground arith))) in
      (at, some_slab, rw next (Chained-agree (next_link n x) xs rest (λ a h. all a (ground arith))))

  -- A chain of slabs that both memories agree on.
  pub IsChain-agree :
      {class p : ℕ} {xs : List ℕ}
      → IsChain class w n g p xs
      → ((a : ℕ) → 0 < count a xs → P a)
      → IsChain class w' n' g' p xs
  IsChain-agree {p = p} {xs = xs} c all = record {
    chain = Chained-agree p xs c.chain all;
    aligned = c.aligned;
    slabs = λ a h. SlabIs-agree a (all a h) (c.slabs a h);
    indexed = λ a h.
        ap (λ (hd : SlabHeader). hd.size_class_index) (s.headers a (all a h)) ∙ c.indexed a h;
  }

  -- A list of slabs that both memories agree on, with the same head.
  IsQueue-agree :
      (c : ℕ) (xs : List ℕ)
      → IsQueue n c xs
      → n'.cell c ≡ n.cell c
      → ((a : ℕ) → 0 < count a xs → P a)
      → IsQueue n' c xs
  IsQueue-agree c xs q head all = record {
    links = rw head (
        Linked-frame n n' (head_of c) (n.cell c) xs q.links (λ a has.
          let e = s.headers a (all a has) in
          (ap (λ (hd : SlabHeader). hd.next_link) e, ap (λ (hd : SlabHeader). hd.prev_link) e)));
    once = q.once;
  }

  room-agree : (a : ℕ) → P a → room n' g' a ≡ room n g a
  room-agree a has = rw (s.headers a has, s.ledgers a has) refl

  -- The slabs of a class of a heap, where both memories agree on them and on the heads of its lists.
  pub IsBin-agree :
      {e : Beside} {h : Heap} {class : ℕ} {active partial full : List ℕ} (e' : Beside) (h' : Heap)
      → IsBin e h class w n g active [] partial full
      → ((a : ℕ) → 0 < owned active [] partial full a → P a)
      → h'.id ≡ h.id
      → h'.bins class ≡ h.bins class
      → n'.cell (partial_cell h class) ≡ n.cell (partial_cell h class)
      → n'.cell (full_cell h class) ≡ n.cell (full_cell h class)
      → Untouched e' h' class w' n' g' (owned active [] partial full)
      → IsBin e' h' class w' n' g' active [] partial full
  IsBin-agree {e} {h} {class} {active} {partial} {full} e' h' i all same_id same_bin head head' u =
      record {
        store = record {
          aligned = i.store.aligned;
          slabs = λ a has. SlabIs-agree a (all a has) (i.store.slabs a has);
          mine = λ a has.
              ap (λ (hd : SlabHeader). hd.heap_id) (s.headers a (all a has))
              ∙ i.store.mine a has
              ∙ sym same_id;
          indexed = λ a has.
              ap (λ (hd : SlabHeader). hd.size_class_index) (s.headers a (all a has))
              ∙ i.store.indexed a has;
        };
        current = rw same_bin (i.current);
        partials = rw same_id (
            IsQueue-agree (partial_cell h class) partial i.partials head
              (λ a has. all a (omega arith)));
        fulls =
            rw same_id
              (IsQueue-agree (full_cell h class) full i.fulls head' (λ a has. all a (omega arith)));
        once = i.once;
        ready = λ a has. omega (arith, room-agree a (all a (omega arith)), i.ready a has);
        spent = λ a has. room-agree a (all a (omega arith)) ∙ i.spent a has;
        beside = u;
      }
