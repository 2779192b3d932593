-- ===== src/World.antt =====
-- The heaps of all threads over one pool (src/heap.rs, src/pool.rs): which slab is whose. An operation runs
-- with no other thread in between.
pub mod Step
pub mod Alloc
pub mod Free
pub mod Waiting
pub mod Drop
pub mod Page
pub mod Start
use clmalloc.Base.{
  ℕ, ◌+◌, ◌≤◌, ◌<◌, ◌≡◌, ◌≢◌, ◌∙◌, ◌⊎◌, inl, inr, sym, ap, refl, List, [], arith, ◌==◌, Bool-cases,
}
use clmalloc.Base.Fun.{update}
use clmalloc.SizeClass.{num_classes}
use clmalloc.Slab.Links.{count}
use clmalloc.Slab.Header.{from_ptr}
use clmalloc.Pool.State.{Machine}
use clmalloc.Heap.State.{Heap}
use clmalloc.Heap.Routes.{from_ptr-slot}
use clmalloc.Heap.Bin.{Beside, Ledger, owned, IsBin}
use clmalloc.Heap.Bin.Rest.{around, around-Untouched}
use clmalloc.Heap.Bin.Adopt.{IsChain}
use clmalloc.Heap.Bin.Class.{IsClass, IsBin-beside}

-- The slabs of one class of one heap.
pub record Lists : Type 0 where
  pub active : List ℕ
  pub partial : List ℕ
  pub full : List ℕ

abbrev pub no_slabs : Lists
no_slabs = record { active = []; partial = []; full = [] }

abbrev pub held : Lists → ℕ → ℕ
held l = owned l.active [] l.partial l.full

abbrev pub alone : Machine → Ledger → Beside
alone m g = around m g (λ a. ⊥) 0

-- `H` gives the heap of each id, `L` its slabs of each class, and `Q` the slabs of each class that are up for
-- adoption. All are well-formed, and each is in one place.
pub record IsWorld (H : ℕ → Heap) (m : Machine) (g : Ledger) (L : ℕ → ℕ → Lists) (Q : ℕ → List ℕ)
    : Type 0 where
  pub named : (i : ℕ) → (H i).id ≡ i
  pub bins :
      (i c : ℕ)
      → c < num_classes
      → IsBin (alone m g) (H i) c m.words m.nodes g (L i c).active [] (L i c).partial (L i c).full
  pub queues : (c : ℕ) → c < num_classes → IsChain c m.words m.nodes g (m.pool.abandoned c) (Q c)
  pub apart : (i c : ℕ) → c < num_classes → (a : ℕ) → held (L i c) a + count a (Q c) ≤ 1

-- A slab of some heap, or one that waits for adoption.
abbrev pub InWorld : (ℕ → ℕ → Lists) → (ℕ → List ℕ) → ℕ → Type 0
InWorld L Q a =
    ((i c : ℕ) × (c < num_classes) × (0 < held (L i c) a))
    ⊎ ((c : ℕ) × (c < num_classes) × (0 < count a (Q c)))

-- A slab of another class or of another heap, or of another class and up for adoption.
abbrev pub Elsewhere : (ℕ → ℕ → Lists) → (ℕ → List ℕ) → ℕ → ℕ → ℕ → Type 0
Elsewhere L Q i class a =
    ((j d : ℕ) × (d < num_classes) × ((j ≢ i) ⊎ (d ≢ class)) × (0 < held (L j d) a))
    ⊎ ((d : ℕ) × (d < num_classes) × (d ≢ class) × (0 < count a (Q d)))

-- What stands beside one class of one heap.
abbrev pub rest_of : Machine → Ledger → (ℕ → ℕ → Lists) → (ℕ → List ℕ) → ℕ → ℕ → ℕ → Beside
rest_of m g L Q i class spare = around m g (Elsewhere L Q i class) spare

module _ {H : ℕ → Heap} {m : Machine} {g : Ledger} {L : ℕ → ℕ → Lists} {Q : ℕ → List ℕ}
    (s : IsWorld H m g L Q) where
  -- The header of a slab names its heap and its class.
  pub same_heap :
      (i j c d a : ℕ)
      → c < num_classes
      → d < num_classes
      → 0 < held (L i c) a
      → 0 < held (L j d) a
      → (j ≡ i) × (d ≡ c)
  same_heap i j c d a known known' has has' = (
    sym (s.named j)
        ∙ sym ((s.bins j d known').store.mine a has')
        ∙ (s.bins i c known).store.mine a has
        ∙ s.named i,
    sym ((s.bins j d known').store.indexed a has') ∙ (s.bins i c known).store.indexed a has,
  )

  pub same_class :
      (i c d a : ℕ)
      → c < num_classes
      → d < num_classes
      → 0 < held (L i c) a
      → 0 < count a (Q d)
      → d ≡ c
  same_class i c d a known known' has has' =
      sym ((s.queues d known').indexed a has') ∙ (s.bins i c known).store.indexed a has

  -- An allocated slot leads to its slab.
  pub IsWorld-slot : (a ptr : ℕ) → InWorld L Q a → 0 < count ptr (g a).outs → from_ptr ptr ≡ a
  IsWorld-slot a ptr (inl (i, c, known, has)) out =
      let k = s.bins i c known in
      from_ptr-slot m a (k.store.aligned a has) (k.store.slabs a has) ptr out
  IsWorld-slot a ptr (inr (c, known, has)) out =
      let k = s.queues c known in from_ptr-slot m a (k.aligned a has) (k.slabs a has) ptr out

  not_here :
      (i class : ℕ)
      → class < num_classes
      → (a : ℕ) → Elsewhere L Q i class a
      → held (L i class) a ≡ 0
  not_here i class known a far = elim (Bool-cases (held (L i class) a == 0)) [
    | inl e ↦ ground arith
    | inr e ↦ absurd (clash (ground arith) far)
  ]
    where
      clash : 0 < held (L i class) a → Elsewhere L Q i class a → ⊥
      clash mine (inl (j, d, other, inl ne, has)) =
          ne (same_heap i j class d a known other mine has).0
      clash mine (inl (j, d, other, inr ne, has)) =
          ne (same_heap i j class d a known other mine has).1
      clash mine (inr (d, other, ne, has)) = ne (same_class i class d a known other mine has)

  -- One class of one heap, among all the others.
  pub IsWorld-IsClass :
      (i class spare : ℕ)
      → class < num_classes
      → IsClass
          (rest_of m g L Q i class spare)
          (H i)
          class
          m
          g
          (L i class).active
          (L i class).partial
          (L i class).full
          (Q class)
  IsWorld-IsClass i class spare known = record {
    bin = IsBin-beside (rest_of m g L Q i class spare) (s.bins i class known) (
        around-Untouched m g _ spare (H i) class _
          (λ a. elim [
            | inl (j, d, other, _, has) ↦ (s.bins j d other).store.aligned a has
            | inr (d, other, _, has) ↦ (s.queues d other).aligned a has
          ])
          (λ a. elim [
            | inl (j, d, other, _, has) ↦
                let i = (s.bins j d other).store.slabs a has in omega (arith, i.shape.at)
            | inr (d, other, _, has) ↦
                let i = (s.queues d other).slabs a has in omega (arith, i.shape.at)
          ])
          (not_here i class known));
    waiting = s.queues class known;
    apart = s.apart i class known;
    others = λ a has. elim [
      | inl (j, d, other, ne, has') ↦
          let same = same_class j d class a other known has' has in
          absurd (omega (arith, s.apart j d other a, ap (λ (c : ℕ). count a (Q c)) same))
      | inr (d, other, ne, has') ↦
          ne (sym ((s.queues d other).indexed a has') ∙ (s.queues class known).indexed a has)
    ];
    queue = λ c ne. refl;
  }
