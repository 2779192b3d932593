-- ===== src/Heap/Bin/Adopt.antt =====
-- Slabs that a heap takes over (src/heap.rs): the chain that `adopt_all` hands to `try_adopt`.
pub mod Prepare
pub mod Adopting
pub mod Place
pub mod Loop
use clmalloc.Base.{
  ℕ, true, false, ◌+◌, ◌*◌, ◌≤◌, ◌<◌, ◌≡◌, ◌≢◌, ◌∙◌, ap, sym, refl, inl, inr, List, [], ◌∷◌, length,
  arith, ◌==◌, Bool-cases,
}
use clmalloc.Base.Fun.{update}
use clmalloc.SizeClass.Align.{Multiple}
use clmalloc.Slab.Links.{Words, null, count}
use clmalloc.Slab.Header.{SlabHeader, slab_size, head_of}
use clmalloc.Slab.Header.Frame.{SameOutside, IsSlab-frame, pages_apart}
use clmalloc.Slab.Queue.{Nodes, next_link}
use clmalloc.Slab.Queue.Linked.{IsQueue, Linked-frame}
use clmalloc.Slab.Queue.Bodies.{body}
use clmalloc.Pool.State.{Machine, slab_cache_max}
use clmalloc.Heap.State.{Heap, full_cell, partial_cell}
use clmalloc.Heap.Bin.{Beside, Slots, Ledger, SlabIs, room, owned, IsBin}
use clmalloc.Heap.Bin.Rest.{Untouched-step}
use clmalloc.Heap.Bin.Store.{SlabIs-same_body, IsStore-add}

-- Forward links lead from `p` through the slabs `xs` to null.
abbrev pub Chained : Nodes → ℕ → List ℕ → Type 0
Chained n p [] = p ≡ null
Chained n p (x ∷ xs) = (p ≡ x) × (x ≢ null) × Chained n (next_link n x) xs

-- A chain of well-formed slabs of the class, whatever heap their headers name.
pub record IsChain (class : ℕ) (w : Words) (n : Nodes) (g : Ledger) (p : ℕ) (xs : List ℕ)
    : Type 0 where
  pub chain : Chained n p xs
  pub aligned : (a : ℕ) → 0 < count a xs → Multiple slab_size a
  pub slabs : (a : ℕ) → 0 < count a xs → SlabIs a w (n.header a) (g a)
  pub indexed : (a : ℕ) → 0 < count a xs → (n.header a).size_class_index ≡ class

pub Chained-frame :
    (n n' : Nodes) (p : ℕ) (xs : List ℕ)
    → Chained n p xs
    → ((a : ℕ) → 0 < count a xs → next_link n' a ≡ next_link n a)
    → Chained n' p xs
Chained-frame n n' p [] c same = c
Chained-frame n n' p (x ∷ xs) c same =
    let (at, some_slab, rest) = c in
    let next : next_link n' x ≡ next_link n x = same x (ground arith) in
    (
      at,
      some_slab,
      rw next (Chained-frame n n' (next_link n x) xs rest (λ a h. same a (ground arith))),
    )

-- A chain survives what happens to a slab `x` that is none of its own, and to back links.
pub IsChain-frame :
    {class : ℕ} {w : Words} {n : Nodes} {g : Ledger} {p : ℕ} {xs : List ℕ} (x : ℕ) (v : Words)
    (n' : Nodes) (g' : Ledger)
    → IsChain class w n g p xs
    → Multiple slab_size x
    → count x xs ≡ 0
    → SameOutside x w v
    → ((a : ℕ) → 0 < count a xs → next_link n' a ≡ next_link n a)
    → ((a : ℕ) → 0 < count a xs → body (n'.header a) ≡ body (n.header a))
    → ((a : ℕ) → 0 < count a xs → g' a ≡ g a)
    → IsChain class v n' g' p xs
IsChain-frame {class} {w} {n} {g} {p} {xs} x v n' g' c page out far next bodies same = record {
  chain = Chained-frame n n' p xs c.chain next;
  aligned = c.aligned;
  slabs = λ a h.
      let apart : x ≢ a = λ e. absurd (omega (arith, ap (λ (q : ℕ). count q xs) e)) in
      let s =
        IsSlab-frame v (c.slabs a h)
          (λ q low high. far q (pages_apart a x q (c.aligned a h) page apart low high)) in
      rw (same a h) (SlabIs-same_body a v (n.header a) (n'.header a) (g a) (bodies a h) s);
  indexed = λ a h. ap (λ (hd : SlabHeader). hd.size_class_index) (bodies a h) ∙ c.indexed a h;
}

-- A slab that was not the heap's comes into its hands, as the loose one.
pub bring_in :
    {f : Beside} {h : Heap} {class : ℕ} {w : Words} {n : Nodes} {g : Ledger}
    {active partial full : List ℕ} (b : ℕ) (v : Words) (n' : Nodes) (t : Slots)
    → IsBin f h class w n g active [] partial full
    → owned active [] partial full b ≡ 0
    → ¬ f.slabs b
    → Multiple slab_size b
    → SameOutside b w v
    → SlabIs b v (n'.header b) t
    → (n'.header b).heap_id ≡ h.id
    → (n'.header b).size_class_index ≡ class
    → ((a : ℕ) → a ≢ b → n'.header a ≡ n.header a)
    → ((c : ℕ) → n'.cell c ≡ n.cell c)
    → IsBin f h class v n' (update g b t) active (b ∷ []) partial full
bring_in {f} {h} {class} {w} {n} {g} {active} {partial} {full} b v n' t i new free page far s mine
      kind same cells =
    record {
      store =
          IsStore-add i.store (owned active (b ∷ []) partial full) b v n' t (λ a ne. ground arith)
            same page far s mine kind;
      current = i.current;
      partials = queue (partial_cell h class) partial i.partials (omega arith);
      fulls = queue (full_cell h class) full i.fulls (omega arith);
      once = λ a. elim (Bool-cases (a == b)) [
        | inl e ↦ let this : a ≡ b = ground arith in rw this (ground arith)
        | inr e ↦ ground (arith, i.once a)
      ];
      ready = λ a has.
          let apart : (a == b) ≡ false = other partial (omega arith) a has in
          let header : n'.header a ≡ n.header a = same a (ground arith) in
          rw (apart, header) (i.ready a has);
      spent = λ a has.
          let apart : (a == b) ≡ false = other full (omega arith) a has in
          let header : n'.header a ≡ n.header a = same a (ground arith) in
          rw (apart, header) (i.spent a has);
      beside =
          Untouched-step i.beside b v n' (update g b t) (owned active (b ∷ []) partial full) free
            page far (λ a ne. ground arith) (λ a real ne out. same a ne) (λ c ne ne'. cells c)
            (λ a ne. ground arith);
    }
  where
    other : (xs : List ℕ) → count b xs ≡ 0 → (a : ℕ) → 0 < count a xs → (a == b) ≡ false
    other xs out a has = elim (Bool-cases (a == b)) [
      | inl e ↦
          let this : a ≡ b = ground arith in absurd (omega (arith, ap (λ (q : ℕ). count q xs) this))
      | inr e ↦ e
    ]

    queue : (c : ℕ) (xs : List ℕ) → IsQueue n c xs → count b xs ≡ 0 → IsQueue n' c xs
    queue c xs q out = record {
      links = rw (cells c) (
          Linked-frame n n' (head_of c) (n.cell c) xs q.links (λ a has.
            let apart = other xs out a has in
            let header : n'.header a ≡ n.header a = same a (ground arith) in
            (
              ap (λ (hd : SlabHeader). hd.next_link) header,
              ap (λ (hd : SlabHeader). hd.prev_link) header,
            )));
      once = q.once;
    }
