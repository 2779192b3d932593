-- ===== src/World/Start.antt =====
-- A heap that starts among the heaps of the other threads: `Heap::new` of src/heap.rs.
use clmalloc.Base.{
  ℕ, zero, suc, ◌+◌, ◌≤◌, ◌<◌, ◌≡◌, ◌≢◌, ◌∙◌, sym, refl, inl, inr, [], arith, ◌==◌, List,
  Bool-cases,
}
use clmalloc.Base.Fun.{update, update_self, update_ne}
use clmalloc.SizeClass.{num_classes}
use clmalloc.Slab.Links.{Words, null, count}
use clmalloc.Slab.Queue.{Nodes, set_cell}
use clmalloc.Slab.Queue.Linked.{Linked-frame}
use clmalloc.Pool.State.{Machine}
use clmalloc.Heap.State.{Heap, full_cell, partial_cell, clear_heads, new_heap}
use clmalloc.Heap.Bin.{Ledger, IsBin}
use clmalloc.Heap.Bin.Rest.{around-Untouched}
use clmalloc.Heap.Bin.Adopt.{IsChain, Chained-frame}
use clmalloc.World.{IsWorld, Lists, no_slabs, held, alone}

-- The invariant of all heaps and of the slabs up for adoption, but for what it says of heap `i`, whose list heads
-- may hold anything.
pub record IsOthers (i : ℕ) (H : ℕ → Heap) (m : Machine) (g : Ledger) (L : ℕ → ℕ → Lists)
    (Q : ℕ → List ℕ) : Type 0 where
  pub named : (j : ℕ) → j ≢ i → (H j).id ≡ j
  pub bins :
      (j c : ℕ)
      → j ≢ i
      → c < num_classes
      → IsBin (alone m g) (H j) c m.words m.nodes g (L j c).active [] (L j c).partial (L j c).full
  pub queues : (c : ℕ) → c < num_classes → IsChain c m.words m.nodes g (m.pool.abandoned c) (Q c)
  pub apart : (j c : ℕ) → j ≢ i → c < num_classes → (a : ℕ) → held (L j c) a + count a (Q c) ≤ 1

-- A class with both lists empty, in a heap with no active slab.
pub no_slabs-IsBin :
    (m : Machine) (g : Ledger) (h : Heap) (c : ℕ)
    → h.bins c ≡ null
    → m.nodes.cell (full_cell h c) ≡ null
    → m.nodes.cell (partial_cell h c) ≡ null
    → IsBin (alone m g) h c m.words m.nodes g [] [] [] []
no_slabs-IsBin m g h c idle full partial = record {
  store = record {
    aligned = λ a has. absurd (omega arith);
    slabs = λ a has. absurd (omega arith);
    mine = λ a has. absurd (omega arith);
    indexed = λ a has. absurd (omega arith);
  };
  current = idle;
  partials = record { links = partial; once = λ a. omega arith };
  fulls = record { links = full; once = λ a. omega arith };
  once = λ a. omega arith;
  ready = λ a has. absurd (omega arith);
  spent = λ a has. absurd (omega arith);
  beside =
      around-Untouched m g (λ a. ⊥) 0 h c _ (λ a x. absurd x) (λ a x. absurd x) (λ a x. absurd x);
}

clear_heads-header :
    (classes : ℕ) (h : Heap) (n : Nodes) → (clear_heads classes h n).header ≡ n.header
unfolding clear_heads set_cell
clear_heads-header zero h n = refl
clear_heads-header (suc class) h n = clear_heads-header class h n

-- The two writes of a round.
clear_heads-round :
    (class : ℕ) (h : Heap) (n : Nodes) (q : ℕ)
    → q ≢ full_cell h class
    → q ≢ partial_cell h class
    → (clear_heads (suc class) h n).cell q ≡ (clear_heads class h n).cell q
unfolding clear_heads set_cell
clear_heads-round class h n q ne ne' =
    let cell = (clear_heads class h n).cell in
    update_ne (update cell (full_cell h class) null) (partial_cell h class) q null ne'
    ∙ update_ne cell (full_cell h class) q null ne

clear_heads-here :
    (class : ℕ) (h : Heap) (n : Nodes)
    → ((clear_heads (suc class) h n).cell (full_cell h class) ≡ null)
      × ((clear_heads (suc class) h n).cell (partial_cell h class) ≡ null)
unfolding clear_heads set_cell
clear_heads-here class h n =
    let cell = (clear_heads class h n).cell in
    let there = update cell (full_cell h class) null in
    (
      update_ne there (partial_cell h class) (full_cell h class) null (λ e. omega (arith, e))
          ∙ update_self cell (full_cell h class) null,
      update_self there (partial_cell h class) null,
    )

clear_heads-null :
    (classes : ℕ) (h : Heap) (n : Nodes) (c : ℕ)
    → c < classes
    → ((clear_heads classes h n).cell (full_cell h c) ≡ null)
      × ((clear_heads classes h n).cell (partial_cell h c) ≡ null)
clear_heads-null zero h n c below = absurd (omega arith)
clear_heads-null (suc class) h n c below = elim (Bool-cases (c == class)) [
  | inl e ↦ let same : c ≡ class = ground arith in rw same (clear_heads-here class h n)
  | inr e ↦
      let ne : c ≢ class = ground arith in
      let (full, partial) = clear_heads-null class h n c (ground arith) in
      (
        clear_heads-round class h n (full_cell h c) (λ q. ne (omega (arith, q)))
              (λ q. omega (arith, q))
            ∙ full,
        clear_heads-round class h n (partial_cell h c) (λ q. omega (arith, q))
              (λ q. ne (omega (arith, q)))
            ∙ partial,
      )
]

-- The lists of another heap are left alone.
clear_heads-other :
    (classes : ℕ) (h : Heap) (n : Nodes) (k : Heap) (c : ℕ)
    → classes ≤ num_classes
    → c < num_classes
    → k.id ≢ h.id
    → ((clear_heads classes h n).cell (full_cell k c) ≡ n.cell (full_cell k c))
      × ((clear_heads classes h n).cell (partial_cell k c) ≡ n.cell (partial_cell k c))
unfolding clear_heads
clear_heads-other zero h n k c all known ne = (refl, refl)
clear_heads-other (suc class) h n k c all known ne =
    let (full, partial) = clear_heads-other class h n k c (omega arith) known ne in
    (
      clear_heads-round class h n (full_cell k c) (λ q. ne (omega (arith, q)))
            (λ q. omega (arith, q))
          ∙ full,
      clear_heads-round class h n (partial_cell k c) (λ q. omega (arith, q))
            (λ q. ne (omega (arith, q)))
          ∙ partial,
    )

-- A class depends on the headers of the slabs and on the heads of its own two lists.
IsBin-heads :
    (m : Machine) {g : Ledger} {h : Heap} {c : ℕ} {active partial full : List ℕ} (n : Nodes)
    → n.header ≡ m.nodes.header
    → n.cell (full_cell h c) ≡ m.nodes.cell (full_cell h c)
    → n.cell (partial_cell h c) ≡ m.nodes.cell (partial_cell h c)
    → IsBin (alone m g) h c m.words m.nodes g active [] partial full
    → IsBin (alone (record m { nodes = n }) g) h c m.words n g active [] partial full
IsBin-heads m {g} {h} {c} n same at at' b = record {
  store = record {
    aligned = b.store.aligned;
    slabs = λ a has. rw same (b.store.slabs a has);
    mine = λ a has. rw same (b.store.mine a has);
    indexed = λ a has. rw same (b.store.indexed a has);
  };
  current = b.current;
  partials = record {
    links =
        rw at'
          (Linked-frame m.nodes n _ _ _ b.partials.links (λ a has. (rw same refl, rw same refl)));
    once = b.partials.once;
  };
  fulls = record {
    links =
        rw at (Linked-frame m.nodes n _ _ _ b.fulls.links (λ a has. (rw same refl, rw same refl)));
    once = b.fulls.once;
  };
  once = b.once;
  ready = λ a has. rw same (b.ready a has);
  spent = λ a has. rw same (b.spent a has);
  beside =
      around-Untouched (record m { nodes = n }) g (λ a. ⊥) 0 h c _ (λ a x. absurd x)
        (λ a x. absurd x) (λ a x. absurd x);
}

IsChain-headers :
    {class : ℕ} {w : Words} {n : Nodes} {g : Ledger} {p : ℕ} {xs : List ℕ} (n' : Nodes)
    → n'.header ≡ n.header
    → IsChain class w n g p xs
    → IsChain class w n' g p xs
IsChain-headers {n} {p} {xs} n' same k = record {
  chain = Chained-frame n n' p xs k.chain (λ a has. rw same refl);
  aligned = k.aligned;
  slabs = λ a has. rw same (k.slabs a has);
  indexed = λ a has. rw same (k.indexed a has);
}

-- A heap that `Heap::new` makes under the id `i`, where the other heaps and the slabs up for adoption are
-- well-formed, whatever the memory holds where its list heads come to stand: it has no slab, and all heaps and
-- the slabs up for adoption are well-formed then, the others with the slabs they had.
pub new_heap-IsWorld :
    (i : ℕ) {H : ℕ → Heap} {m : Machine} {g : Ledger} {L : ℕ → ℕ → Lists} {Q : ℕ → List ℕ}
    → IsOthers i H m g L Q
    → IsWorld (update H i (new_heap i m).0) (new_heap i m).1 g (update L i (λ c. no_slabs)) Q
unfolding new_heap
new_heap-IsWorld i {H} {m} {g} {L} {Q} s =
    let h = (new_heap i m).0 in
    let n = clear_heads num_classes h m.nodes in
    let same = clear_heads-header num_classes h m.nodes in
    record {
      named = λ j. elim (Bool-cases (j == i)) [
        | inl e ↦ let is : j ≡ i = ground arith in rw e (sym is)
        | inr e ↦ rw e (s.named j (ground arith))
      ];
      bins = λ j c known. elim (Bool-cases (j == i)) [
        | inl e ↦
            let (full, partial) = clear_heads-null num_classes h m.nodes c known in
            rw e (no_slabs-IsBin (record m { nodes = n }) g h c refl full partial)
        | inr e ↦
            let ne : j ≢ i = ground arith in
            let (full, partial) =
              clear_heads-other num_classes h m.nodes (H j) c (omega arith) known
                (λ q. ne (omega (arith, q, s.named j ne))) in
            rw e (IsBin-heads m n same full partial (s.bins j c ne known))
      ];
      queues = λ c known. IsChain-headers n same (s.queues c known);
      apart = λ j c known a. elim (Bool-cases (j == i)) [
        | inl e ↦ rw e (omega (arith, s.apart (i + 1) c (λ q. omega (arith, q)) known a))
        | inr e ↦ rw e (s.apart j c (ground arith) known a)
      ];
    }
