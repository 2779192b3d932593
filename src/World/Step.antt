-- ===== src/World/Step.antt =====
-- A run on one class of one heap leaves the slabs of all others as they are (src/heap.rs, src/pool.rs).
use clmalloc.Base.{
  ℕ, true, ◌+◌, ◌≤◌, ◌<◌, ◌≡◌, ◌≢◌, ◌∙◌, ◌⊎◌, inl, inr, sym, refl, List, [], arith, ◌==◌,
  Bool-cases,
}
use clmalloc.Base.Fun.{update}
use clmalloc.SizeClass.{num_classes}
use clmalloc.Slab.Links.{count}
use clmalloc.Pool.State.{Machine}
use clmalloc.Heap.State.{Heap, full_cell, partial_cell}
use clmalloc.Heap.Bin.{Ledger, Untouched, IsBin}
use clmalloc.Heap.Bin.Rest.{around-Untouched}
use clmalloc.Heap.Bin.Adopt.{IsChain}
use clmalloc.Heap.Bin.Class.{IsClass, IsBin-beside, around-Agree, IsBin-agree, IsChain-agree}
use clmalloc.World.{IsWorld, Lists, held, alone, InWorld, IsWorld-slot, rest_of}

-- The lists of one class of one heap are others.
abbrev pub put : (ℕ → ℕ → Lists) → ℕ → ℕ → Lists → ℕ → ℕ → Lists
put L i class l = update L i (update (L i) class l)

-- Nothing is beside the slabs that could change.
pub alone-Untouched :
    (m : Machine) (g : Ledger) (h : Heap) (class : ℕ) (own : ℕ → ℕ)
    → Untouched (alone m g) h class m.words m.nodes g own
alone-Untouched m g h class own =
    around-Untouched m g (λ a. ⊥) 0 h class own (λ a x. absurd x) (λ a x. absurd x)
      (λ a x. absurd x)

-- The list heads of two classes are different variables, as are those of two heaps.
cells_apart :
    (h k : Heap) (c d : ℕ)
    → c < num_classes
    → d < num_classes
    → (k.id ≢ h.id) ⊎ (d ≢ c)
    → (full_cell k d ≢ full_cell h c)
      × (full_cell k d ≢ partial_cell h c)
      × (partial_cell k d ≢ full_cell h c)
      × (partial_cell k d ≢ partial_cell h c)
cells_apart h k c d known other (inl ne) =
    (λ e. ne (omega arith), λ e. omega arith, λ e. omega arith, λ e. ne (omega arith))
cells_apart h k c d known other (inr ne) =
    (λ e. ne (omega arith), λ e. omega arith, λ e. omega arith, λ e. ne (omega arith))

module _ {H : ℕ → Heap} {m : Machine} {g : Ledger} {L : ℕ → ℕ → Lists} {Q : ℕ → List ℕ}
    (s : IsWorld H m g L Q) (i class spare : ℕ) (h' : Heap) (m' : Machine) (g' : Ledger) (l : Lists)
    (xs : List ℕ) (known : class < num_classes)
    (t : IsClass (rest_of m g L Q i class spare) h' class m' g' l.active l.partial l.full xs)
    (named' : h'.id ≡ i) (kept : (c : ℕ) → c ≢ class → h'.bins c ≡ (H i).bins c) where
  other-IsBin :
      (k : Heap) (j d : ℕ)
      → d < num_classes
      → (j ≢ i) ⊎ (d ≢ class)
      → k.id ≡ (H j).id
      → k.bins d ≡ (H j).bins d
      → IsBin (alone m' g') k d m'.words m'.nodes g' (L j d).active [] (L j d).partial (L j d).full
  other-IsBin k j d other ne same_id same_bin =
      let b = s.bins j d other in
      let u = t.bin.beside in
      let agree =
        around-Agree m m' g g' (λ a. 0 < held (L j d) a) u (λ a has. inl (j, d, other, ne, has)) in
      let (ff, fp, pf, pp) = cells_apart h' (H j) class d known other (named_apart ne) in
      IsBin-agree agree (alone m' g') k b (λ a has. has) same_id same_bin
        (u.cells (partial_cell (H j) d) pf pp) (u.cells (full_cell (H j) d) ff fp)
        (alone-Untouched m' g' k d _)
    where
      named_apart : (j ≢ i) ⊎ (d ≢ class) → ((H j).id ≢ h'.id) ⊎ (d ≢ class)
      named_apart (inl x) = inl (λ e. x (sym (s.named j) ∙ e ∙ named'))
      named_apart (inr x) = inr x

  -- The slabs up for adoption of another class.
  other-IsChain :
      (d : ℕ)
      → d < num_classes
      → d ≢ class
      → IsChain d m'.words m'.nodes g' (m'.pool.abandoned d) (Q d)
  other-IsChain d other ne = rw (t.queue d ne) (
      IsChain-agree
        (around-Agree m m' g g' (λ a. 0 < count a (Q d)) t.bin.beside
          (λ a has. inr (d, other, ne, has)))
        (s.queues d other) (λ a has. has))

  -- A slab that waits for adoption is not held by another heap.
  still_apart : (j : ℕ) → j ≢ i → (a : ℕ) → held (L j class) a + count a xs ≤ 1
  still_apart j ne a = elim (Bool-cases (held (L j class) a == 0)) [
    | inl e ↦ ground (arith, t.apart a)
    | inr e ↦ elim (Bool-cases (count a xs == 0)) [
      | inl z ↦ ground (arith, (s.bins j class known).once a)
      | inr z ↦ absurd (t.others a (ground arith) (inl (j, class, known, inl ne, ground arith)))
    ]
  ]

  -- The world after the run.
  pub World-step : IsWorld (update H i h') m' g' (put L i class l) (update Q class xs)
  World-step = record {
    named = λ j. elim (Bool-cases (j == i)) [
      | inl e ↦ rw e (named' ∙ sym (ground arith))
      | inr e ↦ rw e (s.named j)
    ];
    bins = λ j d other. elim (Bool-cases (j == i)) [
      | inl e ↦ elim (Bool-cases (d == class)) [
        | inl z ↦
            let same : d ≡ class = ground arith in
            rw (e, z, same) (IsBin-beside (alone m' g') t.bin (alone-Untouched m' g' h' class _))
        | inr z ↦
            rw (e, z)
              (other-IsBin h' i d other (inr (ground arith)) (named' ∙ sym (s.named i))
                (kept d (ground arith)))
      ]
      | inr e ↦ rw e (other-IsBin (H j) j d other (inl (ground arith)) refl refl)
    ];
    queues = λ d other. elim (Bool-cases (d == class)) [
      | inl e ↦ let same : d ≡ class = ground arith in rw (e, same) (t.waiting)
      | inr e ↦ rw e (other-IsChain d other (ground arith))
    ];
    apart = λ j d other a. elim (Bool-cases (d == class)) [
      | inl e ↦
          let same : d ≡ class = ground arith in
          elim (Bool-cases (j == i)) [
            | inl z ↦ rw (z, e) (t.apart a)
            | inr z ↦ rw (z, e, same) (still_apart j (ground arith) a)
          ]
      | inr e ↦ elim (Bool-cases (j == i)) [
        | inl z ↦ rw (z, e) (s.apart i d other a)
        | inr z ↦ rw (z, e) (s.apart j d other a)
      ]
    ];
  }

-- A slot that was allocated in no slab of its own, and is now, was allocated in no slab at all: two slabs have
-- no slot in common.
pub fresh_everywhere :
    {H H' : ℕ → Heap} {m m' : Machine} {g g' : Ledger} {L L' : ℕ → ℕ → Lists} {Q Q' : ℕ → List ℕ}
    → IsWorld H m g L Q
    → IsWorld H' m' g' L' Q'
    → (slot slab : ℕ) → InWorld L' Q' slab
    → 0 < count slot (g' slab).outs
    → (InWorld L Q slab → count slot (g slab).outs ≡ 0)
    → (a : ℕ) → InWorld L Q a
    → count slot (g a).outs ≡ 0
fresh_everywhere {g = g} {L = L} {Q = Q} s s' slot slab there taken fresh a has =
    elim (Bool-cases (count slot (g a).outs == 0)) [
      | inl e ↦ ground arith
      | inr e ↦
          let out : 0 < count slot (g a).outs = ground arith in
          let same : a ≡ slab =
            sym (IsWorld-slot s a slot has out) ∙ IsWorld-slot s' slab slot there taken in
          let here : InWorld L Q slab = rw same at has in rw same (fresh here)
    ]

-- A slab of the lists that a run leaves.
pub put-InWorld :
    (L : ℕ → ℕ → Lists) (Q : ℕ → List ℕ) (i class : ℕ) (l : Lists) (slab : ℕ)
    → class < num_classes
    → 0 < held l slab
    → InWorld (put L i class l) Q slab
put-InWorld L Q i class l slab known has =
    let self : (i == i) ≡ true = ground arith in
    let kind : (class == class) ≡ true = ground arith in inl (i, class, known, rw (self, kind) has)
