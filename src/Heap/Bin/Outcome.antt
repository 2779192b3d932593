-- ===== src/Heap/Bin/Outcome.antt =====
-- What `Heap::alloc` of src/heap.rs can come to for one class, seen from outside.
use clmalloc.Base.{
  ℕ, ◌+◌, ◌≤◌, ◌<◌, ◌≡◌, ◌≢◌, ◌∙◌, ◌⊎◌, ap, sym, inl, inr, Option, some, List, [], ◌∷◌, length,
  arith, ◌==◌, Bool-cases,
}
use clmalloc.Slab.Links.{count}
use clmalloc.Pool.State.{Machine, slab_cache_max}
use clmalloc.Heap.State.{Heap, header_at}
use clmalloc.Heap.Alloc.{request_slab}
use clmalloc.Heap.Bin.{Beside, Ledger, owned, IsBin, Kept, Kept-trans}
use clmalloc.Heap.Bin.Active.{Handed}

-- What becomes of an allocation from the own slabs: `slot` of the slab `slab` was not allocated and is
-- now; every other slot stays as it is; a slab is given up only with none of its slots allocated.
pub record Allocated (h h' : Heap) (class : ℕ) (g g' : Ledger) (own own' : ℕ → ℕ) (slab slot : ℕ)
    : Type 0 where
  pub held : 0 < own' slab
  pub handed : Handed g g' slab slot
  pub fewer : (a : ℕ) → own' a ≤ own a
  pub released : (a : ℕ) → 0 < own a → own' a ≡ 0 → (g a).outs ≡ []
  pub same_id : h'.id ≡ h.id
  pub others : (c : ℕ) → c ≢ class → h'.bins c ≡ h.bins c

abbrev pub Served :
    Beside → Option ((Option ℕ × Heap) × Machine) → Heap → ℕ → Ledger → (ℕ → ℕ) → Type 0
Served f run h class g own =
    (slot slab : ℕ) × (h' : Heap) × (m' : Machine) × (g' : Ledger) × (active partial full : List ℕ)
    × (run ≡ some ((some slot, h'), m'))
    × (m'.pool.abandoned ≡ f.abandoned)
    × IsBin f h' class m'.words m'.nodes g' active [] partial full
    × Allocated h h' class g g' own (owned active [] partial full) slab slot

-- The request goes to `request_slab`: there is no active and no partial slab, and each slab of the full
-- list has all its slots allocated.
abbrev pub Asked :
    Beside
    → Option ((Option ℕ × Heap) × Machine)
    → ℕ
    → Option ℕ
    → Heap
    → ℕ
    → Ledger
    → (ℕ → ℕ)
    → Type 0
Asked f run fuel answer h class g own =
    (h' : Heap) × (m' : Machine) × (g' : Ledger) × (full : List ℕ) × (run
      ≡ request_slab fuel answer class h' m')
    × IsBin f h' class m'.words m'.nodes g' [] [] [] full
    × ((a : ℕ) → 0 < count a full → length (g' a).outs ≡ (header_at m' a).slot_count)
    × (m'.pool.abandoned ≡ f.abandoned)
    × (m'.pool.slab_cache_len + f.spare ≤ slab_cache_max)
    × Kept h h' class g g' own (owned [] [] [] full)

pub Kept-Allocated :
    {h h1 h' : Heap} {class : ℕ} {g g1 g' : Ledger} {own own1 own' : ℕ → ℕ} {slab slot : ℕ}
    → Kept h h1 class g g1 own own1
    → Allocated h1 h' class g1 g' own1 own' slab slot
    → Allocated h h' class g g' own own' slab slot
Kept-Allocated {own1 = own1} {slab = slab} {slot = slot} k c = record {
  held = c.held;
  handed = record {
    fresh = rw (k.outs slab) at (c.handed.fresh);
    taken = c.handed.taken ∙ ap (λ (xs : List ℕ). slot ∷ xs) (k.outs slab);
    rest = λ a ne. c.handed.rest a ne ∙ k.outs a;
  };
  fewer = λ a. omega (arith, k.fewer a, c.fewer a);
  released = λ a has gone. elim (Bool-cases (own1 a == 0)) [
    | inl e ↦ k.released a has (ground arith)
    | inr e ↦ sym (k.outs a) ∙ c.released a (ground arith) gone
  ];
  same_id = c.same_id ∙ k.same_id;
  others = λ x ne. c.others x ne ∙ k.others x ne;
}

-- What follows an allocation cannot give up the slab of the slot.
pub Allocated-Kept :
    {h h1 h' : Heap} {class : ℕ} {g g1 g' : Ledger} {own own1 own' : ℕ → ℕ} {slab slot : ℕ}
    → Allocated h h1 class g g1 own own1 slab slot
    → Kept h1 h' class g1 g' own1 own'
    → Allocated h h' class g g' own own' slab slot
Allocated-Kept {g = g} {g1 = g1} {own1 = own1} {own' = own'} {slab = slab} {slot = slot} c k =
    record {
      held = elim (Bool-cases (own' slab == 0)) [
        | inl e ↦
            let none_out = k.released slab c.held (ground arith) in
            absurd (omega (arith, ap length none_out, ap length c.handed.taken))
        | inr e ↦ ground arith
      ];
      handed = record {
        fresh = c.handed.fresh;
        taken = k.outs slab ∙ c.handed.taken;
        rest = λ a ne. k.outs a ∙ c.handed.rest a ne;
      };
      fewer = λ a. omega (arith, k.fewer a, c.fewer a);
      released = λ a has gone. elim (Bool-cases (a == slab)) [
        | inl e ↦
            let this : a ≡ slab = ground arith in
            let none_out = k.released slab c.held (rw this at gone) in
            absurd (omega (arith, ap length none_out, ap length c.handed.taken))
        | inr e ↦ elim (Bool-cases (own1 a == 0)) [
          | inl z ↦ c.released a has (ground arith)
          | inr z ↦ sym (c.handed.rest a (ground arith)) ∙ k.released a (ground arith) gone
        ]
      ];
      same_id = k.same_id ∙ c.same_id;
      others = λ x ne. k.others x ne ∙ c.others x ne;
    }

pub Kept-Served :
    {f : Beside} {run run' : Option ((Option ℕ × Heap) × Machine)} {h h1 : Heap} {class : ℕ}
    {g g1 : Ledger} {own own1 : ℕ → ℕ}
    → Kept h h1 class g g1 own own1
    → run ≡ run'
    → Served f run' h1 class g1 own1
    → Served f run h class g own
Kept-Served {f} k e (slot, slab, h', m', g', active, partial, full, run, queue, i, c) =
    (slot, slab, h', m', g', active, partial, full, e ∙ run, queue, i, Kept-Allocated k c)

pub Asked-from :
    {f : Beside} {run run' : Option ((Option ℕ × Heap) × Machine)} {h h1 : Heap} {class : ℕ}
    {g g1 : Ledger} {own own1 : ℕ → ℕ} (fuel : ℕ) (answer : Option ℕ)
    → Kept h h1 class g g1 own own1
    → run ≡ run'
    → Served f run' h1 class g1 own1 ⊎ Asked f run' fuel answer h1 class g1 own1
    → Served f run h class g own ⊎ Asked f run fuel answer h class g own
Asked-from {f} fuel answer k e (inl served) = inl (Kept-Served k e served)
Asked-from {f} fuel answer k e (inr (h', m', g', full, run, i, all_out, queue, cache, k')) =
    inr (h', m', g', full, e ∙ run, i, all_out, queue, cache, Kept-trans k k')
