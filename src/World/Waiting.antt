-- ===== src/World/Waiting.antt =====
-- `Heap::dealloc` of src/heap.rs for a slot of a slab that its heap has abandoned and that waits for adoption.
use clmalloc.Base.{ℕ, ◌<◌, ◌≡◌, ◌≢◌, ◌∙◌, inl, inr, sym, ap, refl, List, arith, ◌==◌, Bool-cases}
use clmalloc.Base.Fun.{update, update_ne}
use clmalloc.SizeClass.{num_classes}
use clmalloc.SizeClass.Align.{Multiple}
use clmalloc.Slab.Links.{Words, count}
use clmalloc.Slab.Header.{SlabHeader, slab_size}
use clmalloc.Slab.Header.Frame.{SameOutside, IsSlab-frame}
use clmalloc.Slab.Queue.{Nodes}
use clmalloc.Metrics.{HeapMetrics}
use clmalloc.Pool.State.{Machine}
use clmalloc.Heap.State.{Heap}
use clmalloc.Heap.Routes.{stored}
use clmalloc.Heap.Bin.{Slots, Ledger}
use clmalloc.Heap.Bin.Rest.{page_apart}
use clmalloc.Heap.Bin.Store.{put_header}
use clmalloc.Heap.Bin.Moves.{Rewrites}
use clmalloc.Heap.Bin.Adopt.{IsChain, Chained-frame}
use clmalloc.Heap.Bin.Class.{Agree, IsBin-agree, IsChain-agree}
use clmalloc.World.{IsWorld, Lists, held, alone, same_class}
use clmalloc.World.Step.{alone-Untouched}

-- A write to one slab, seen by the others.
write-Agree :
    (P : ℕ → Type 0) (b : ℕ) (w v : Words) (n : Nodes) (g : Ledger) (hd : SlabHeader) (t : Slots)
    → Multiple slab_size b
    → SameOutside b w v
    → ((a : ℕ) → P a → Multiple slab_size a)
    → ((a : ℕ) → P a → a ≢ b)
    → Agree P w v n (put_header n b hd) g (update g b t)
write-Agree P b w v n g hd t at far pages apart = record {
  headers = λ a has. update_ne n.header b a hd (apart a has);
  pages = λ a q has low high.
      far q (page_apart a b q (pages a has) at (λ e. apart a has (sym e)) low high);
  ledgers = λ a has. update_ne g b a t (apart a has);
}

-- A slab of the chain changes, and keeps its link.
IsChain-write :
    {class id : ℕ} {w : Words} {n : Nodes} {g : Ledger} {p : ℕ} {xs : List ℕ} (b : ℕ) (v : Words)
    (hd : SlabHeader) (t : Slots)
    → IsChain class w n g p xs
    → 0 < count b xs
    → Rewrites id w v n b hd t
    → IsChain class v (put_header n b hd) (update g b t) p xs
IsChain-write {n = n} {g = g} {p = p} {xs = xs} b v hd t c mem r = record {
  chain = Chained-frame n (put_header n b hd) p xs c.chain (λ a has. elim (Bool-cases (a == b)) [
    | inl e ↦
        let this : a ≡ b = ground arith in
        let new : update n.header b hd a ≡ hd = rw e refl in
        ap (λ (x : SlabHeader). x.next_link) new
        ∙ r.next
        ∙ ap (λ (q : ℕ). (n.header q).next_link) (sym this)
    | inr e ↦ ap (λ (x : SlabHeader). x.next_link) (update_ne n.header b a hd (ground arith))
  ]);
  aligned = c.aligned;
  slabs = λ a has. elim (Bool-cases (a == b)) [
    | inl e ↦ let this : a ≡ b = ground arith in rw (e, this) (r.slab)
    | inr e ↦
        let apart : b ≢ a = ground arith in
        rw e (
          IsSlab-frame v (c.slabs a has) (λ q low high. r.far q (
            page_apart a b q (c.aligned a has) (c.aligned b mem) apart (omega arith)
              (omega arith))))
  ];
  indexed = λ a has. elim (Bool-cases (a == b)) [
    | inl e ↦ rw e (r.index ∙ c.indexed b mem)
    | inr e ↦ rw e (c.indexed a has)
  ];
}

module _ {H : ℕ → Heap} {m : Machine} {g : Ledger} {L : ℕ → ℕ → Lists} {Q : ℕ → List ℕ}
    (s : IsWorld H m g L Q) (class b : ℕ) (known : class < num_classes)
    (waits : 0 < count b (Q class)) where
  -- A slab that is held is not the one that waits.
  held-apart : (j d : ℕ) → d < num_classes → (a : ℕ) → 0 < held (L j d) a → a ≢ b
  held-apart j d other a has e =
      let mine : 0 < held (L j d) b = rw e at has in
      let same : class ≡ d = same_class s j d class b other known mine waits in
      let both : 0 < count b (Q d) = rw same at waits in omega (arith, s.apart j d other b)

  waiting-apart : (d : ℕ) → d < num_classes → d ≢ class → (a : ℕ) → 0 < count a (Q d) → a ≢ b
  waiting-apart d other ne a has e =
      let there : 0 < count b (Q d) = rw e at has in
      ne (sym ((s.queues d other).indexed b there) ∙ (s.queues class known).indexed b waits)

  -- A write to the slots of a slab that waits leaves all slabs in their places.
  pub write_waiting :
      {id : ℕ} (v : Words) (hd : SlabHeader) (t : Slots) (counters : ℕ → HeapMetrics)
      → Rewrites id m.words v m.nodes b hd t
      → IsWorld H (record (stored m b v hd) { counters = counters }) (update g b t) L Q
  write_waiting v hd t counters r =
      let at = (s.queues class known).aligned b waits in
      let m' = record (stored m b v hd) { counters = counters } in
      record {
        named = s.named;
        bins = λ j d other.
            let agree =
              write-Agree (λ a. 0 < held (L j d) a) b m.words v m.nodes g hd t at r.far
                ((s.bins j d other).store.aligned) (held-apart j d other) in
            IsBin-agree agree (alone m' (update g b t)) (H j) (s.bins j d other) (λ a has. has) refl
              refl refl refl (alone-Untouched m' (update g b t) (H j) d (held (L j d)));
        queues = λ d other. elim (Bool-cases (d == class)) [
          | inl e ↦
              let same : d ≡ class = ground arith in
              rw same (IsChain-write b v hd t (s.queues class known) waits r)
          | inr e ↦
              IsChain-agree
                (write-Agree (λ a. 0 < count a (Q d)) b m.words v m.nodes g hd t at r.far
                  ((s.queues d other).aligned) (waiting-apart d other (ground arith)))
                (s.queues d other) (λ a has. has)
        ];
        apart = s.apart;
      }
