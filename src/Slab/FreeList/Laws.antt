-- ===== src/Slab/FreeList/Laws.antt =====
-- The free list as a stack of addresses.
use clmalloc.Base.{ℕ, ◌+◌, ◌^◌, ◌<◌, ◌≡◌, ◌≢◌, none, some, List, [], ◌∷◌, arith, length}
use clmalloc.Slab.Links.{Words, null, count, Chain, Chain-update}
use clmalloc.Slab.FreeList.{SlotFreeList, pop, push}

-- In the memory `w` the list `l` holds the slots `xs`.
pub record Holds (w : Words) (l : SlotFreeList) (xs : List ℕ) : Type 0 where
  pub chain : Chain w l.head xs
  pub counted : l.len ≡ length xs

-- Popping takes the slot that was pushed last, and keeps the others.
pub pop-cons :
    (w : Words) (l : SlotFreeList) (x : ℕ) (xs : List ℕ)
    → Holds w l (x ∷ xs)
    → l.len < 2 ^ 16
    → ((pop w l).0 ≡ some x) × Holds w (pop w l).1 xs
unfolding pop
pop-cons w l x xs h small = ground arith

-- An empty list gives nothing and stays as it is.
pub pop-nil : (w : Words) (l : SlotFreeList) → Holds w l [] → pop w l ≡ (none, l)
unfolding pop
pop-nil w l h = ground arith

-- Pushing a slot that the list does not hold puts it in front.
pub push-cons :
    (w : Words) (l : SlotFreeList) (slot : ℕ) (xs : List ℕ)
    → Holds w l xs
    → slot ≢ null
    → count slot xs ≡ 0
    → length xs + 1 < 2 ^ 16
    → Holds (push w l slot).0 (push w l slot).1 (slot ∷ xs)
unfolding push
push-cons w l slot xs h ne out small = record {
  chain = ground (arith, Chain-update w slot l.head l.head xs h.chain out);
  counted = omega (arith, h.counted);
}

-- A push leaves every chain alone that does not hold the slot.
pub push-keeps :
    (w : Words) (l : SlotFreeList) (slot p : ℕ) (ys : List ℕ)
    → Chain w p ys
    → count slot ys ≡ 0
    → Chain (push w l slot).0 p ys
unfolding push
push-keeps w l slot p ys c out = Chain-update w slot l.head p ys c out
