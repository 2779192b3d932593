-- ===== src/Slab/Header/Ops/Remove.antt =====
-- Taking one occurrence of an address out of a list.
use clmalloc.Base.{ℕ, suc, ◌+◌, ◌<◌, ◌≡◌, List, [], ◌∷◌, arith, ◌==◌, if◌then◌else◌, length}
use clmalloc.Slab.Links.{count}

abbrev pub remove : ℕ → List ℕ → List ℕ
remove p [] = []
remove p (x ∷ xs) = if p == x then xs else x ∷ remove p xs

pub count-remove :
    (p : ℕ) (xs : List ℕ) (a : ℕ)
    → 0 < count p xs
    → count a xs ≡ (if a == p then 1 else 0) + count a (remove p xs)
count-remove p [] a h = absurd (omega arith)
count-remove p (x ∷ xs) a h = ground (arith, count-remove p xs a)

pub length-remove : (p : ℕ) (xs : List ℕ) → 0 < count p xs → length xs ≡ suc (length (remove p xs))
length-remove p [] h = absurd (omega arith)
length-remove p (x ∷ xs) h = ground (arith, length-remove p xs)
