-- ===== src/World/Page.antt =====
-- The page of a new slab (src/heap.rs, src/pool.rs) among the slabs of all heaps.
use clmalloc.Base.{
  ℕ, ◌<◌, ◌≡◌, ◌≢◌, ◌∙◌, inl, inr, Option, none, some, sym, ap, refl, List, [], ◌∷◌, arith,
}
use clmalloc.Base.Fun.{update, update_same}
use clmalloc.SizeClass.{num_classes}
use clmalloc.SizeClass.Align.{Multiple}
use clmalloc.Slab.Links.{null, count}
use clmalloc.Slab.Header.{slab_size}
use clmalloc.Pool.State.{Machine}
use clmalloc.Heap.State.{Heap, set_bin}
use clmalloc.Heap.Alloc.{get_page}
use clmalloc.Heap.Bin.{Ledger}
use clmalloc.Heap.Bin.Request.{with_page}
use clmalloc.Heap.Bin.Request.Page.{IsNew}
use clmalloc.Heap.Bin.Class.{IsClass}
use clmalloc.Heap.Bin.Class.Page.{with_page-PageUsed}
use clmalloc.World.{IsWorld, InWorld, Lists, held, IsWorld-IsClass, rest_of}
use clmalloc.World.Step.{put, World-step, fresh_everywhere, put-InWorld}

-- A page that no slab of any heap and none that waits for adoption is in.
abbrev pub IsFree : (ℕ → ℕ → Lists) → (ℕ → List ℕ) → Option ℕ → Type 0
IsFree L Q none = Unit {0}
IsFree L Q (some base) =
    (base ≢ null)
    × Multiple slab_size base
    × ((j d : ℕ) → d < num_classes → held (L j d) base ≡ 0)
    × ((d : ℕ) → d < num_classes → count base (Q d) ≡ 0)

abbrev pub started : Lists → ℕ → Lists
started l base = record { active = base ∷ []; partial = l.partial; full = l.full }

-- With no page the request fails, and all slabs are as they were; with one it is served.
abbrev pub Started :
    Option ((Option ℕ × Heap) × Machine)
    → Option ℕ
    → (ℕ → Heap)
    → Ledger
    → (ℕ → ℕ → Lists)
    → (ℕ → List ℕ)
    → ℕ
    → ℕ
    → Type 0
Started run none H g L Q i class =
    (m' : Machine) × (run ≡ some ((none, H i), m')) × IsWorld H m' g L Q
Started run (some base) H g L Q i class =
    (slot : ℕ) × (m' : Machine) × (g' : Ledger) × (run
      ≡ some ((some slot, set_bin (H i) class base), m'))
    × IsWorld (update H i (set_bin (H i) class base)) m' g'
        (put L i class (started (L i class) base)) Q
    × ((a : ℕ) → InWorld L Q a → count slot (g a).outs ≡ 0)
    × ((g' base).outs ≡ slot ∷ [])
    × ((a : ℕ) → a ≢ base → (g' a).outs ≡ (g a).outs)

module _ {H : ℕ → Heap} {m : Machine} {g : Ledger} {L : ℕ → ℕ → Lists} {Q : ℕ → List ℕ}
    (s : IsWorld H m g L Q) (i class : ℕ) (known : class < num_classes)
    (no_active : (L i class).active ≡ []) (none_waits : Q class ≡ []) where
  here-IsClass :
      IsClass (rest_of m g L Q i class 0) (H i) class m g [] (L i class).partial (L i class).full []
  here-IsClass = rw (no_active, none_waits) at (IsWorld-IsClass s i class 0 known)

  page-IsNew :
      (page : Option ℕ)
      → IsFree L Q page
      → IsNew
          (rest_of m g L Q i class 0)
          (held (record { active = []; partial = (L i class).partial; full = (L i class).full }))
          page
  page-IsNew none free = tt
  page-IsNew (some base) (some_page, aligned, unheld, none_wait) = (
    some_page,
    aligned,
    omega (arith, unheld i class known),
    elim [
      | inl (j, d, other, _, has) ↦ absurd (omega (arith, unheld j d other))
      | inr (d, other, _, has) ↦ absurd (omega (arith, none_wait d other))
    ],
  )

  queues_same : update Q class [] ≡ Q
  queues_same = ap (λ (xs : List ℕ). update Q class xs) (sym none_waits) ∙ update_same Q class

  lists_same :
      put L i class (record { active = []; partial = (L i class).partial; full = (L i class).full })
      ≡ L
  lists_same =
      ap
        (λ (xs : List ℕ).
          put L i class
            (record { active = xs; partial = (L i class).partial; full = (L i class).full }))
        (sym no_active)
      ∙ ap (λ (q : ℕ → Lists). update L i q) (update_same (L i) class)
      ∙ update_same L i

  -- An allocation of a known class by heap `i`, which has no active slab of the class, with none up for
  -- adoption, at the point where it asks for a page. When the pool's cache and the pool have none, it fails and
  -- all slabs stay as they are. When they give a page that is aligned and that no slab is in, the page becomes
  -- the active slab and serves the request, with that slot the only one allocated in it; no other slot changes
  -- hands, and all slabs of all heaps and of the pool stay well-formed, each in one place.
  pub with_page-Started :
      (answer page : Option ℕ) (m' : Machine)
      → get_page answer m ≡ some (page, m')
      → IsFree L Q page
      → Started (with_page answer class (H i) m) page H g L Q i class
  with_page-Started answer none m' got free =
      let (m2, run, t) =
        with_page-PageUsed answer none class (H i) m m' g (L i class).partial (L i class).full
          here-IsClass known got (page-IsNew none free) in
      let l0 : Lists = record {
        active = [];
        partial = (L i class).partial;
        full = (L i class).full;
      } in
      let after = World-step s i class 0 (H i) m2 g l0 [] known t (s.named i) (λ q ne. refl) in
      (m2, run, rw (update_same H i, queues_same, lists_same) at after)
  with_page-Started answer (some base) m' got free =
      let (slot, m2, g2, run, t, out, rest) =
        with_page-PageUsed answer (some base) class (H i) m m' g (L i class).partial
          (L i class).full here-IsClass known got (page-IsNew (some base) free) in
      let after =
        World-step s i class 0 (set_bin (H i) class base) m2 g2 (started (L i class) base) [] known
          t (s.named i) (λ q ne. ground arith) in
      let final = rw queues_same at after in
      (
        slot,
        m2,
        g2,
        run,
        final,
        fresh_everywhere s final slot base
            (put-InWorld L Q i class (started (L i class) base) base known (ground arith))
            (rw out (ground arith)) (λ old. absurd (free_base old)),
        out,
        rest,
      )
    where
      free_base : InWorld L Q base → ⊥
      free_base (inl (j, d, other, has)) = omega (arith, free.2 j d other)
      free_base (inr (d, other, has)) = omega (arith, free.3 d other)
