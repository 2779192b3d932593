-- ===== src/Heap/Bin.antt =====
-- The invariant of a heap's slabs of one class (src/heap.rs): the active slab of `bins`, and the slabs of
-- the partial and of the full list.
pub mod Store
pub mod Rest
pub mod Moves
pub mod Lists
pub mod Scan
pub mod Active
pub mod Outcome
pub mod Serve
pub mod Refill
pub mod Free
pub mod Adopt
pub mod Request
pub mod Exit
pub mod Class
use clmalloc.Base.{
  ℕ, true, false, ◌⊎◌, ◌+◌, ◌^◌, ◌≤◌, ◌<◌, ◌≡◌, ◌≢◌, ◌∙◌, refl, sym, inl, inr, List, [], ◌∷◌,
  length, arith, ◌==◌, Bool-cases,
}
use clmalloc.SizeClass.Align.{Multiple}
use clmalloc.Slab.Links.{Words, null, count}
use clmalloc.Slab.Header.{SlabHeader, slab_size}
use clmalloc.Slab.Header.Region.{IsSlab}
use clmalloc.Slab.Queue.{Nodes}
use clmalloc.Slab.Queue.Linked.{IsQueue}
use clmalloc.Heap.State.{Heap, full_cell, partial_cell}

-- Where the carved slots of a slab are: on the free list, on the remote stack, or allocated.
pub record Slots : Type 0 where
  pub frees : List ℕ
  pub remotes : List ℕ
  pub outs : List ℕ

abbrev pub Ledger : Type 0
Ledger = ℕ → Slots

abbrev pub SlabIs : ℕ → Words → SlabHeader → Slots → Type 0
SlabIs a w hd s = IsSlab a w hd s.frees s.remotes s.outs

-- The slots that the owner can allocate from a slab without draining its remote stack.
abbrev pub room : Nodes → Ledger → ℕ → ℕ
room n g a = length (g a).frees + (n.header a).bump_remaining

-- Each of the slabs that `own` counts is aligned, well-formed, and marked with the owner's id and with the class.
pub record IsStore (id class : ℕ) (w : Words) (n : Nodes) (g : Ledger) (own : ℕ → ℕ) : Type 0 where
  pub aligned : (a : ℕ) → 0 < own a → Multiple slab_size a
  pub slabs : (a : ℕ) → 0 < own a → SlabIs a w (n.header a) (g a)
  pub mine : (a : ℕ) → 0 < own a → (n.header a).heap_id ≡ id
  pub indexed : (a : ℕ) → 0 < own a → (n.header a).size_class_index ≡ class

-- The entry of `bins` and the slab that it names.
abbrev pub Active : ℕ → List ℕ → Type 0
Active bin [] = bin ≡ null
Active bin (b ∷ []) = (bin ≡ b) × (b ≢ null)
Active bin (b ∷ c ∷ more) = ⊥

pub Active-cases :
    (bin : ℕ) (active : List ℕ)
    → Active bin active
    → ((bin == null) ≡ true) × (active ≡ []) ⊎ ((bin == null) ≡ false) × (0 < length active)
Active-cases bin [] at = inl (ground arith, refl)
Active-cases bin (b ∷ []) at = inr (ground arith, omega arith)
Active-cases bin (b ∷ c ∷ more) at = absurd at

-- `loose` holds a slab that an operation has taken out of the lists and not put back yet.
abbrev pub owned : List ℕ → List ℕ → List ℕ → List ℕ → ℕ → ℕ
owned active loose partial full a = count a active + count a loose + count a partial + count a full

-- What stands beside the slabs of one class of a heap: the slabs of its other classes, of the other heaps
-- and of the pool, as the memory had them; the slabs that are up for
-- adoption; and the places of the pool's cache that are kept for others.
pub record Beside : Type 1 where
  pub slabs : ℕ → Type 0
  pub words : Words
  pub nodes : Nodes
  pub ledger : Ledger
  pub abandoned : ℕ → ℕ
  pub spare : ℕ

-- The memory has all of `f` as it was: its slabs, which are none of `own`, and the heads of its lists.
pub record Untouched (f : Beside) (h : Heap) (class : ℕ) (w : Words) (n : Nodes) (g : Ledger)
    (own : ℕ → ℕ) : Type 0 where
  pub page : (a : ℕ) → f.slabs a → Multiple slab_size a
  pub real : (a : ℕ) → f.slabs a → a ≢ null
  pub apart : (a : ℕ) → f.slabs a → own a ≡ 0
  pub headers : (a : ℕ) → f.slabs a → n.header a ≡ f.nodes.header a
  pub pages : (a q : ℕ) → f.slabs a → a ≤ q → q < a + 2 ^ 16 → w q ≡ f.words q
  pub cells : (c : ℕ) → c ≢ full_cell h class → c ≢ partial_cell h class → n.cell c ≡ f.nodes.cell c
  pub ledgers : (a : ℕ) → f.slabs a → g a ≡ f.ledger a

-- A slab on the partial list has a slot to allocate, and one on the full list has none but those that
-- other threads freed. What stands beside the class is as it was.
pub record IsBin (f : Beside) (h : Heap) (class : ℕ) (w : Words) (n : Nodes) (g : Ledger)
    (active loose partial full : List ℕ) : Type 0 where
  pub store : IsStore h.id class w n g (owned active loose partial full)
  pub current : Active (h.bins class) active
  pub partials : IsQueue n (partial_cell h class) partial
  pub fulls : IsQueue n (full_cell h class) full
  pub once : (a : ℕ) → owned active loose partial full a ≤ 1
  pub ready : (a : ℕ) → 0 < count a partial → 0 < room n g a
  pub spent : (a : ℕ) → 0 < count a full → room n g a ≡ 0
  pub beside : Untouched f h class w n g (owned active loose partial full)

-- What the other parts of the program can see of a change: the allocated slots stay, slabs are given up
-- only with no slot allocated, none are gained, and the heap keeps its id and its other classes.
pub record Kept (h h' : Heap) (class : ℕ) (g g' : Ledger) (own own' : ℕ → ℕ) : Type 0 where
  pub outs : (a : ℕ) → (g' a).outs ≡ (g a).outs
  pub fewer : (a : ℕ) → own' a ≤ own a
  pub released : (a : ℕ) → 0 < own a → own' a ≡ 0 → (g a).outs ≡ []
  pub same_id : h'.id ≡ h.id
  pub others : (c : ℕ) → c ≢ class → h'.bins c ≡ h.bins c

pub Kept-refl :
    (h : Heap) (class : ℕ) (g : Ledger) (own own' : ℕ → ℕ)
    → ((a : ℕ) → own' a ≡ own a)
    → Kept h h class g g own own'
Kept-refl h class g own own' same = record {
  outs = λ a. refl;
  fewer = λ a. omega (arith, same a);
  released = λ a p z. absurd (omega (arith, same a));
  same_id = refl;
  others = λ c ne. refl;
}

pub Kept-trans :
    {h h1 h2 : Heap} {class : ℕ} {g g1 g2 : Ledger} {own own1 own2 : ℕ → ℕ}
    → Kept h h1 class g g1 own own1
    → Kept h1 h2 class g1 g2 own1 own2
    → Kept h h2 class g g2 own own2
Kept-trans {own} {own1} k l = record {
  outs = λ a. l.outs a ∙ k.outs a;
  fewer = λ a. omega (arith, k.fewer a, l.fewer a);
  released = λ a p z. elim (Bool-cases (own1 a == 0)) [
    | inl e ↦ k.released a p (ground arith)
    | inr e ↦ sym (k.outs a) ∙ l.released a (ground arith) z
  ];
  same_id = l.same_id ∙ k.same_id;
  others = λ c ne. l.others c ne ∙ k.others c ne;
}
