-- ===== src/Heap/Bin/Store.antt =====
-- Changes of the memory that keep a set of slabs well-formed.
use clmalloc.Base.{ℕ, true, ◌≤◌, ◌<◌, ◌≡◌, ◌≢◌, ◌∙◌, ap, inl, inr, arith, ◌==◌, Bool-cases}
use clmalloc.Base.Fun.{update}
use clmalloc.SizeClass.Align.{Multiple}
use clmalloc.Slab.Links.{Words, write_next}
use clmalloc.Slab.Header.{SlabHeader, slab_size}
use clmalloc.Slab.Header.Frame.{SameOutside, IsSlab-frame, pages_apart}
use clmalloc.Slab.Queue.{Nodes}
use clmalloc.Slab.Queue.Bodies.{body, SameBodies}
use clmalloc.Heap.Bin.{Slots, Ledger, SlabIs, IsStore}

-- The memory with another header at `b`.
abbrev pub put_header : Nodes → ℕ → SlabHeader → Nodes
put_header n b hd = record n { header = update n.header b hd }

SlabIs-body :
    (a : ℕ) (w : Words) (hd : SlabHeader) (s : Slots) → SlabIs a w hd s → SlabIs a w (body hd) s
SlabIs-body a w hd s i = record {
  shape = i.shape;
  held = i.held;
  sent = i.sent;
  once = i.once;
  carved = i.carved;
  counted = i.counted;
  cursor = i.cursor;
}

SlabIs-links :
    (a : ℕ) (w : Words) (hd : SlabHeader) (s : Slots) → SlabIs a w (body hd) s → SlabIs a w hd s
SlabIs-links a w hd s i = record {
  shape = i.shape;
  held = i.held;
  sent = i.sent;
  once = i.once;
  carved = i.carved;
  counted = i.counted;
  cursor = i.cursor;
}

-- A slab depends on its header's links in nothing.
pub SlabIs-same_body :
    (a : ℕ) (w : Words) (hd hd' : SlabHeader) (s : Slots)
    → body hd' ≡ body hd
    → SlabIs a w hd s
    → SlabIs a w hd' s
SlabIs-same_body a w hd hd' s e i = SlabIs-links a w hd' s (rw e (SlabIs-body a w hd s i))

module _ {id class : ℕ} {w : Words} {n : Nodes} {g : Ledger} {own : ℕ → ℕ}
    (s : IsStore id class w n g own) where
  pub IsStore-sub : (own' : ℕ → ℕ) → ((a : ℕ) → own' a ≤ own a) → IsStore id class w n g own'
  IsStore-sub own' less = record {
    aligned = λ a h. s.aligned a (omega (arith, less a));
    slabs = λ a h. s.slabs a (omega (arith, less a));
    mine = λ a h. s.mine a (omega (arith, less a));
    indexed = λ a h. s.indexed a (omega (arith, less a));
  }

  pub IsStore-links : (n' : Nodes) → SameBodies n n' → IsStore id class w n' g own
  IsStore-links n' same = record {
    aligned = s.aligned;
    slabs = λ a h. SlabIs-same_body a w (n.header a) (n'.header a) (g a) (same a) (s.slabs a h);
    mine = λ a h. ap (λ (hd : SlabHeader). hd.heap_id) (same a) ∙ s.mine a h;
    indexed = λ a h. ap (λ (hd : SlabHeader). hd.size_class_index) (same a) ∙ s.indexed a h;
  }

  -- A page's first word lies in the header of no slab's slots.
  pub IsStore-page : (b v : ℕ) → Multiple slab_size b → IsStore id class (write_next w b v) n g own
  IsStore-page b v (i, e) = record {
    aligned = s.aligned;
    slabs = λ a h.
        let (j, e') = s.aligned a h in
        IsSlab-frame (write_next w b v) (s.slabs a h) (λ q low high. ground arith);
    mine = s.mine;
    indexed = s.indexed;
  }

  -- One slab is new or changes, and writes inside its page only.
  pub IsStore-add :
      (own' : ℕ → ℕ) (b : ℕ) (v : Words) (n' : Nodes) (t : Slots)
      → ((a : ℕ) → a ≢ b → own' a ≤ own a)
      → ((a : ℕ) → a ≢ b → n'.header a ≡ n.header a)
      → Multiple slab_size b
      → SameOutside b w v
      → SlabIs b v (n'.header b) t
      → (n'.header b).heap_id ≡ id
      → (n'.header b).size_class_index ≡ class
      → IsStore id class v n' (update g b t) own'
  IsStore-add own' b v n' t less same page far i of kind = record {
    aligned = λ a h. elim (Bool-cases (a == b)) [
      | inl e ↦ let this : a ≡ b = ground arith in rw this page
      | inr e ↦ s.aligned a (omega (arith, less a (ground arith)))
    ];
    slabs = λ a h. elim (Bool-cases (a == b)) [
      | inl e ↦ let this : a ≡ b = ground arith in rw (e, this) i
      | inr e ↦
          let apart : b ≢ a = ground arith in
          let other : a ≢ b = ground arith in
          let held : 0 < own a = omega (arith, less a other) in
          rw (e, same a other)
            (IsSlab-frame v (s.slabs a held)
              (λ q low high. far q (pages_apart a b q (s.aligned a held) page apart low high)))
    ];
    mine = λ a h. elim (Bool-cases (a == b)) [
      | inl e ↦ let this : a ≡ b = ground arith in rw this of
      | inr e ↦
          let other : a ≢ b = ground arith in
          rw (same a other) (s.mine a (omega (arith, less a other)))
    ];
    indexed = λ a h. elim (Bool-cases (a == b)) [
      | inl e ↦ let this : a ≡ b = ground arith in rw this kind
      | inr e ↦
          let other : a ≢ b = ground arith in
          rw (same a other) (s.indexed a (omega (arith, less a other)))
    ];
  }

  -- One slab changes, and writes inside its page only.
  pub IsStore-write :
      (b : ℕ) (v : Words) (hd : SlabHeader) (t : Slots)
      → Multiple slab_size b
      → SameOutside b w v
      → SlabIs b v hd t
      → hd.heap_id ≡ id
      → hd.size_class_index ≡ class
      → IsStore id class v (put_header n b hd) (update g b t) own
  IsStore-write b v hd t page far i of kind =
      let self : (b == b) ≡ true = ground arith in
      IsStore-add own b v (put_header n b hd) t (λ a ne. omega arith) (λ a ne. ground arith) page
        far (rw self i) (rw self of) (rw self kind)
