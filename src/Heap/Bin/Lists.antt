-- ===== src/Heap/Bin/Lists.antt =====
-- Lists of slabs split at the slab that a walk has come to.
use clmalloc.Base.{ℕ, ◌+◌, ◌≡◌, ap, refl, List, [], ◌∷◌, ◌++◌, arith, ◌==◌, true, false}
use clmalloc.Slab.Links.{null, count}
use clmalloc.Slab.Header.{LinkPtr, next_of}
use clmalloc.Slab.Header.Ops.Remove.{remove}
use clmalloc.Slab.Queue.{Nodes, next_link}
use clmalloc.Slab.Queue.Linked.{Linked}

-- What a pointer to the first slab of a list holds.
abbrev pub first : List ℕ → ℕ
first [] = null
first (x ∷ xs) = x

pub count-append :
    (a : ℕ) (kept todo : List ℕ) → count a (kept ++ todo) ≡ count a kept + count a todo
count-append a [] todo = omega arith
count-append a (k ∷ kept) todo = omega (arith, count-append a kept todo)

pub remove-middle :
    (b : ℕ) (kept todo : List ℕ) → count b kept ≡ 0 → remove b (kept ++ b ∷ todo) ≡ kept ++ todo
remove-middle b [] todo out = let self : (b == b) ≡ true = ground arith in rw self refl
remove-middle b (k ∷ kept) todo out =
    let apart : (b == k) ≡ false = ground arith in
    rw apart (ap (λ (ys : List ℕ). k ∷ ys) (remove-middle b kept todo (ground arith)))

-- Shifting the border of the two parts.
pub step_over : (b : ℕ) (kept todo : List ℕ) → kept ++ b ∷ todo ≡ (kept ++ b ∷ []) ++ todo
step_over b [] todo = refl
step_over b (k ∷ kept) todo = ap (λ (ys : List ℕ). k ∷ ys) (step_over b kept todo)

pub Linked-first :
    (n : Nodes) (at : LinkPtr) (p : ℕ) (xs : List ℕ) → Linked n at p xs → p ≡ first xs
Linked-first n at p [] l = l
Linked-first n at p (x ∷ xs) l = l.0

-- The forward link of a slab leads to the part behind it.
pub next-first :
    (n : Nodes) (at : LinkPtr) (p b : ℕ) (kept todo : List ℕ)
    → Linked n at p (kept ++ b ∷ todo)
    → next_link n b ≡ first todo
next-first n at p b [] todo l = Linked-first n (next_of b) (next_link n b) todo l.3
next-first n at p b (k ∷ kept) todo l = next-first n (next_of k) (next_link n k) b kept todo l.3
