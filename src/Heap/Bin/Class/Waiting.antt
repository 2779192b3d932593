-- ===== src/Heap/Bin/Class/Waiting.antt =====
-- The slabs of a class that are up for adoption (src/pool.rs), left alone by a run on the heap's own slabs.
use clmalloc.Base.{
  ℕ, ◌+◌, ◌<◌, ◌≡◌, ◌∙◌, ◌⊎◌, inl, inr, ap, List, [], length, arith, Bool-cases, ◌==◌,
}
use clmalloc.Slab.Links.{count}
use clmalloc.Pool.State.{Machine}
use clmalloc.Heap.State.{Heap}
use clmalloc.Heap.Bin.{Beside, Ledger, IsBin}
use clmalloc.Heap.Bin.Rest.{around, around-Untouched}
use clmalloc.Heap.Bin.Class.{IsClass, IsBin-beside, around-Agree, around_trans, IsChain-agree}

-- Beside the heap's slabs of the class, with those up for adoption.
abbrev pub with_waiting : Beside → Machine → Ledger → List ℕ → Beside
with_waiting f m g xs = around m g (λ a. f.slabs a ⊎ (0 < count a xs)) (f.spare + length xs)

module _ {f : Beside} {h : Heap} {class : ℕ} {m : Machine} {g : Ledger}
    {active partial full xs : List ℕ} (s : IsClass f h class m g active partial full xs) where
  -- The heap's slabs, with those up for adoption beside them.
  pub IsClass-IsBin : IsBin (with_waiting f m g xs) h class m.words m.nodes g active [] partial full
  IsClass-IsBin = IsBin-beside (with_waiting f m g xs) s.bin (
      around-Untouched m g _ _ h class _
        (λ a. elim [ inl has ↦ s.bin.beside.page a has | inr has ↦ s.waiting.aligned a has ])
        (λ a. elim [
          | inl has ↦ s.bin.beside.real a has
          | inr has ↦ let i = s.waiting.slabs a has in omega (arith, i.shape.at)
        ])
        (λ a. elim [ inl has ↦ s.bin.beside.apart a has | inr has ↦ omega (arith, s.apart a) ]))

  -- After a run that leaves those up for adoption alone.
  pub IsClass-after :
      {h' : Heap} {m' : Machine} {g' : Ledger} {active' partial' full' : List ℕ}
      → IsBin (with_waiting f m g xs) h' class m'.words m'.nodes g' active' [] partial' full'
      → m'.pool.abandoned ≡ m.pool.abandoned
      → h'.id ≡ h.id
      → IsClass f h' class m' g' active' partial' full' xs
  IsClass-after {h'} {m'} {g'} i same same_id = record {
    bin =
        IsBin-beside f i
          (around_trans m m' g g' h h' s.bin.beside i.beside (λ a has. inl has) same_id);
    waiting = rw same (
        IsChain-agree (around-Agree m m' g g' (λ a. 0 < count a xs) i.beside (λ a has. inr has))
          s.waiting (λ a has. has));
    apart = λ a. elim (Bool-cases (count a xs == 0)) [
      | inl e ↦ ground (arith, i.once a)
      | inr e ↦ omega (arith, s.apart a, i.beside.apart a (inr (ground arith)))
    ];
    others = s.others;
    queue = λ c ne. ap (λ (q : ℕ → ℕ). q c) same ∙ s.queue c ne;
  }
