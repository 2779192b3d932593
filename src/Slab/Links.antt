-- ===== src/Slab/Links.antt =====
-- The link words of src/slab.rs. A free slot keeps a pointer in its first eight bytes; `Words` maps
-- an address to that pointer, and 0 is null. Slots are at least eight bytes apart, so no two links
-- overlap.
use clmalloc.Base.{ℕ, ◌+◌, ◌≡◌, ◌≢◌, refl, List, [], ◌∷◌, arith, ◌==◌, if◌then◌else◌}
use clmalloc.Base.Fun.{update}

abbrev pub null : ℕ
null = 0

abbrev pub Words : Type 0
Words = ℕ → ℕ

abbrev pub read_next : Words → ℕ → ℕ
read_next w slot = w slot

abbrev pub write_next : Words → ℕ → ℕ → Words
write_next w slot next = update w slot next

-- How often an address stands in a list.
abbrev pub count : ℕ → List ℕ → ℕ
count a [] = 0
count a (x ∷ xs) = (if a == x then 1 else 0) + count a xs

-- From `p` the links lead through the slots `xs`, in order, to null.
abbrev pub Chain : Words → ℕ → List ℕ → Type 0
Chain w p [] = p ≡ null
Chain w p (x ∷ xs) = (p ≡ x) × (x ≢ null) × Chain w (w x) xs

-- A chain survives a write to a word that is none of its own.
pub Chain-update :
    (w : Words) (a v p : ℕ) (xs : List ℕ)
    → Chain w p xs
    → count a xs ≡ 0
    → Chain (update w a v) p xs
Chain-update w a v p [] c h = c
Chain-update w a v p (x ∷ xs) c h = ground (arith, Chain-update w a v (w x) xs c.2)

-- One pointer heads one chain at most.
pub Chain-unique : (w : Words) (p : ℕ) (xs ys : List ℕ) → Chain w p xs → Chain w p ys → xs ≡ ys
Chain-unique w p [] [] c d = refl
Chain-unique w p [] (y ∷ ys) c d = absurd (d.1 (ground arith))
Chain-unique w p (x ∷ xs) [] c d = absurd (c.1 (ground arith))
Chain-unique w p (x ∷ xs) (y ∷ ys) c d =
    let same : x ≡ y = ground arith in ground (arith, Chain-unique w (w x) xs ys c.2 (rw same d.2))
