-- ===== src/Slab/Queue/Linked.antt =====
-- What a slab list stands for: the bases of its slabs, in order.
use clmalloc.Base.{ℕ, ◌≤◌, ◌<◌, ◌≡◌, ◌≢◌, List, [], ◌∷◌, arith}
use clmalloc.Slab.Links.{null, count}
use clmalloc.Slab.Header.{LinkPtr, head_of, next_of}
use clmalloc.Slab.Queue.{Nodes, next_link, prev_link}

-- From the pointer `p`, which is stored at `at`, forward links lead through `xs` to null, and the
-- back link of each slab points at the place where the pointer to it is stored.
abbrev pub Linked : Nodes → LinkPtr → ℕ → List ℕ → Type 0
Linked n at p [] = p ≡ null
Linked n at p (x ∷ xs) =
    (p ≡ x) × (x ≢ null) × (prev_link n x ≡ at) × Linked n (next_of x) (next_link n x) xs

-- The list whose head is the cell `c`.
pub record IsQueue (n : Nodes) (c : ℕ) (xs : List ℕ) : Type 0 where
  pub links : Linked n (head_of c) (n.cell c) xs
  pub once : (a : ℕ) → count a xs ≤ 1

-- The two memories agree on the links of `a`.
abbrev pub SameLinks : Nodes → Nodes → ℕ → Type 0
SameLinks n m a = (next_link m a ≡ next_link n a) × (prev_link m a ≡ prev_link n a)

-- A list depends on the links of its own slabs alone.
pub Linked-frame :
    (n m : Nodes) (at : LinkPtr) (p : ℕ) (xs : List ℕ)
    → Linked n at p xs
    → ((a : ℕ) → 0 < count a xs → SameLinks n m a)
    → Linked m at p xs
Linked-frame n m at p [] l same = l
Linked-frame n m at p (x ∷ xs) l same =
    let (next, prev) = same x (ground arith) in
    ground
      (arith, Linked-frame n m (next_of x) (next_link n x) xs l.3 (λ a h. same a (ground arith)))
