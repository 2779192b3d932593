-- ===== src/Heap/Bin/Class/Page.antt =====
-- The page of a new slab (src/heap.rs), with the slabs of other classes that are up for adoption.
use clmalloc.Base.{ℕ, ◌<◌, ◌≡◌, ◌≢◌, Option, none, some, List, [], ◌∷◌, refl, arith, inl, inr}
use clmalloc.SizeClass.{num_classes}
use clmalloc.Pool.State.{Machine}
use clmalloc.Heap.State.{Heap, set_bin}
use clmalloc.Heap.Alloc.{get_page}
use clmalloc.Heap.Bin.{Beside, Ledger, owned}
use clmalloc.Heap.Bin.Request.{with_page}
use clmalloc.Heap.Bin.Request.Page.{IsNew, with_page-NewSlab}
use clmalloc.Heap.Bin.Class.Waiting.{with_waiting, IsClass-IsBin, IsClass-after}
use clmalloc.Heap.Bin.Class.{IsClass}

-- With no page the request fails, and nothing happens to the slabs; with one it is served.
abbrev pub PageUsed :
    Beside
    → Option ((Option ℕ × Heap) × Machine)
    → Option ℕ
    → Heap
    → ℕ
    → Ledger
    → List ℕ
    → List ℕ
    → Type 0
PageUsed f run none h class g partial full =
    (m' : Machine) × (run ≡ some ((none, h), m')) × IsClass f h class m' g [] partial full []
PageUsed f run (some base) h class g partial full =
    (slot : ℕ) × (m' : Machine) × (g' : Ledger) × (run
      ≡ some ((some slot, set_bin h class base), m'))
    × IsClass f (set_bin h class base) class m' g' (base ∷ []) partial full []
    × ((g' base).outs ≡ slot ∷ [])
    × ((a : ℕ) → a ≢ base → (g' a).outs ≡ (g a).outs)

IsNew-alone :
    (f : Beside) (m : Machine) (g : Ledger) (own : ℕ → ℕ) (page : Option ℕ)
    → IsNew f own page
    → IsNew (with_waiting f m g []) own page
IsNew-alone f m g own none new = tt
IsNew-alone f m g own (some base) (some_page, aligned, unowned, free) =
    (some_page, aligned, unowned, elim [ inl has ↦ free has | inr has ↦ absurd (omega arith) ])

pub with_page-PageUsed :
    {f : Beside} (answer page : Option ℕ) (class : ℕ) (h : Heap) (m m' : Machine) (g : Ledger)
    (partial full : List ℕ)
    → IsClass f h class m g [] partial full []
    → class < num_classes
    → get_page answer m ≡ some (page, m')
    → IsNew f (owned [] [] partial full) page
    → PageUsed f (with_page answer class h m) page h class g partial full
with_page-PageUsed {f} answer none class h m m' g partial full s known got new =
    let (m2, run, same, i) =
      with_page-NewSlab answer none class h m m' g partial full refl (IsClass-IsBin s) known got
        (IsNew-alone f m g (owned [] [] partial full) none new) in
    (m2, run, IsClass-after s i same refl)
with_page-PageUsed {f} answer (some base) class h m m' g partial full s known got new =
    let (slot, m2, g2, run, same, i, out, rest) =
      with_page-NewSlab answer (some base) class h m m' g partial full refl (IsClass-IsBin s) known
        got (IsNew-alone f m g (owned [] [] partial full) (some base) new) in
    (slot, m2, g2, run, IsClass-after s i same refl, out, rest)
