-- ===== src/Pool/PageList/Laws.antt =====
-- The lists of free pages as lists of addresses.
use clmalloc.Base.{
  ℕ, ◌+◌, ◌^◌, ◌≤◌, ◌<◌, ◌≡◌, ◌≢◌, Bool, none, some, List, [], ◌∷◌, arith, if◌then◌else◌, length,
}
use clmalloc.Slab.Links.{Words, null, count, Chain, Chain-update}
use clmalloc.Pool.PageList.{PageFreeList, pop, push}

-- In the memory `w` the list `l` holds the pages `xs`, each once.
pub record HasPages (w : Words) (l : PageFreeList) (xs : List ℕ) : Type 0 where
  pub chain : Chain w l.head xs
  pub counted : l.len ≡ length xs
  pub once : (a : ℕ) → count a xs ≤ 1

pub push-HasPages :
    (w : Words) (l : PageFreeList) (page : ℕ) (xs : List ℕ)
    → HasPages w l xs
    → page ≢ null
    → count page xs ≡ 0
    → length xs + 1 < 2 ^ 64
    → HasPages (push w l page).0 (push w l page).1 (page ∷ xs)
unfolding push
push-HasPages w l page xs h ne new fits = record {
  chain = ground (arith, Chain-update w page l.head l.head xs h.chain new);
  counted = omega (arith, h.counted);
  once = λ a. ground (arith, h.once a);
}

pub pop-HasPages :
    (w : Words) (l : PageFreeList) (page : ℕ) (xs : List ℕ)
    → HasPages w l (page ∷ xs)
    → ((pop w l).0 ≡ some page) × HasPages w (pop w l).1 xs
unfolding pop
pop-HasPages w l page xs h =
    let (at, some_page, rest) = h.chain in
    (
      ground arith,
      record {
        chain = ground arith;
        counted = ground (arith, h.counted);
        once = λ a. ground (arith, h.once a);
      },
    )

pub pop-no_pages : (w : Words) (l : PageFreeList) → HasPages w l [] → pop w l ≡ (none, l)
unfolding pop
pop-no_pages w l h = ground (arith, h.chain)

-- The elements that fail the test, in order.
abbrev pub keep : (ℕ → Bool) → List ℕ → List ℕ
keep pred [] = []
keep pred (x ∷ xs) = if pred x then keep pred xs else x ∷ keep pred xs

pub count-keep : (pred : ℕ → Bool) (a : ℕ) (xs : List ℕ) → count a (keep pred xs) ≤ count a xs
count-keep pred a [] = omega arith
count-keep pred a (x ∷ xs) = ground (arith, count-keep pred a xs)
