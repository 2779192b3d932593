-- ===== src/Heap/Bin/Rest.antt =====
-- What stands beside a class of a heap survives a change of one of the heap's own slabs.
use clmalloc.Base.{
  ℕ, ◌+◌, ◌^◌, ltb, ltb→lt, ◌≤◌, ◌<◌, ◌≡◌, ◌≢◌, ◌⊎◌, ◌∙◌, inl, inr, sym, arith, refl, Bool-cases,
}
use clmalloc.SizeClass.Align.{Multiple}
use clmalloc.Slab.Links.{Words, null, write_next}
use clmalloc.Slab.Header.{slab_size}
use clmalloc.Slab.Header.Frame.{SameOutside}
use clmalloc.Slab.Queue.{Nodes}
use clmalloc.Pool.State.{Machine}
use clmalloc.Heap.State.{Heap, full_cell, partial_cell, set_bin}
use clmalloc.Heap.Bin.{Beside, Ledger, Untouched}

-- The memory as it is, with the slabs `slabs` and `spare` places of the cache beside it.
abbrev pub around : Machine → Ledger → (ℕ → Type 0) → ℕ → Beside
around m g slabs spare = record {
  slabs = slabs;
  words = m.words;
  nodes = m.nodes;
  ledger = g;
  abandoned = m.pool.abandoned;
  spare = spare;
}

pub around-Untouched :
    (m : Machine) (g : Ledger) (slabs : ℕ → Type 0) (spare : ℕ) (h : Heap) (class : ℕ) (own : ℕ → ℕ)
    → ((a : ℕ) → slabs a → Multiple slab_size a)
    → ((a : ℕ) → slabs a → a ≢ null)
    → ((a : ℕ) → slabs a → own a ≡ 0)
    → Untouched (around m g slabs spare) h class m.words m.nodes g own
around-Untouched m g slabs spare h class own pages real apart = record {
  page = pages;
  real = real;
  apart = apart;
  headers = λ a has. refl;
  pages = λ a q has low high. refl;
  cells = λ c ne ne'. refl;
  ledgers = λ a has. refl;
}

-- No address lies in two pages.
pub page_apart :
    (a b q : ℕ)
    → Multiple slab_size a
    → Multiple slab_size b
    → b ≢ a
    → a ≤ q
    → q < a + 2 ^ 16
    → (q < b) ⊎ (b + 2 ^ 16 ≤ q)
page_apart a b q (i, e) (j, f) ne low high = elim (Bool-cases (ltb j i)) [
  | inl t ↦ inr (omega (arith, ltb→lt _ _ t))
  | inr t ↦ inl (below (ground arith))
]
  where
    below : i ≤ j → q < b
    below le = omega arith

-- The first word of a page is written.
pub write_next-SameOutside : (w : Words) (b v : ℕ) → SameOutside b w (write_next w b v)
write_next-SameOutside w b v q far = ground arith

module _ {f : Beside} {h : Heap} {class : ℕ} {w : Words} {n : Nodes} {g : Ledger} {own : ℕ → ℕ}
    (u : Untouched f h class w n g own) where
  -- A slab of the heap is none of those beside it.
  pub not_beside : (b : ℕ) → 0 < own b → ¬ f.slabs b
  not_beside b mine has = omega (arith, u.apart b has)

  pub is_other : (a b : ℕ) → f.slabs a → ¬ f.slabs b → a ≢ b
  is_other a b has out e = out (rw e at has)

  -- The slab `b` changes, with its page and its place in the two lists.
  pub Untouched-step :
      (b : ℕ) (v : Words) (n' : Nodes) (g' : Ledger) (own' : ℕ → ℕ)
      → ¬ f.slabs b
      → Multiple slab_size b
      → SameOutside b w v
      → ((a : ℕ) → a ≢ b → own' a ≤ own a)
      → ((a : ℕ) → a ≢ null → a ≢ b → own a ≡ 0 → n'.header a ≡ n.header a)
      → ((c : ℕ) → c ≢ full_cell h class → c ≢ partial_cell h class → n'.cell c ≡ n.cell c)
      → ((a : ℕ) → a ≢ b → g' a ≡ g a)
      → Untouched f h class v n' g' own'
  Untouched-step b v n' g' own' out at far less same heads books = record {
    page = u.page;
    real = u.real;
    apart = λ a has. omega (arith, u.apart a has, less a (is_other a b has out));
    headers =
        λ a has. same a (u.real a has) (is_other a b has out) (u.apart a has) ∙ u.headers a has;
    pages = λ a q has low high.
        far q (page_apart a b q (u.page a has) at (λ e. is_other a b has out (sym e)) low high)
        ∙ u.pages a q has low high;
    cells = λ c ne ne'. heads c ne ne' ∙ u.cells c ne ne';
    ledgers = λ a has. books a (is_other a b has out) ∙ u.ledgers a has;
  }

  -- The entry of `bins` is no part of it.
  pub Untouched-bin :
      (slab : ℕ) (own' : ℕ → ℕ)
      → ((a : ℕ) → own' a ≤ own a)
      → Untouched f (set_bin h class slab) class w n g own'
  Untouched-bin slab own' less = record {
    page = u.page;
    real = u.real;
    apart = λ a has. omega (arith, u.apart a has, less a);
    headers = u.headers;
    pages = u.pages;
    cells = u.cells;
    ledgers = u.ledgers;
  }

  -- Only the links and the list heads change.
  pub Untouched-links :
      (n' : Nodes) (own' : ℕ → ℕ)
      → ((a : ℕ) → own' a ≤ own a)
      → ((a : ℕ) → a ≢ null → own a ≡ 0 → n'.header a ≡ n.header a)
      → ((c : ℕ) → c ≢ full_cell h class → c ≢ partial_cell h class → n'.cell c ≡ n.cell c)
      → Untouched f h class w n' g own'
  Untouched-links n' own' less same heads = record {
    page = u.page;
    real = u.real;
    apart = λ a has. omega (arith, u.apart a has, less a);
    headers = λ a has. same a (u.real a has) (u.apart a has) ∙ u.headers a has;
    pages = u.pages;
    cells = λ c ne ne'. heads c ne ne' ∙ u.cells c ne ne';
    ledgers = u.ledgers;
  }

  -- A slab leaves the heap's lists, or moves between them.
  pub Untouched-less : (own' : ℕ → ℕ) → ((a : ℕ) → own' a ≤ own a) → Untouched f h class w n g own'
  Untouched-less own' less = Untouched-links n own' less (λ a real out. refl) (λ c ne ne'. refl)
