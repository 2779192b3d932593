-- ===== src/Slab/Treiber/Laws.antt =====
-- The stack of remotely freed slots as a list of addresses.
use clmalloc.Base.{ℕ, ◌≡◌, ◌≢◌, List, [], ◌∷◌, ◌++◌, arith}
use clmalloc.Slab.Links.{Words, null, count, Chain, Chain-update}
use clmalloc.Slab.Treiber.{push, push_chain}

-- A pushed slot that the stack does not hold comes out first.
pub push-Chain :
    (w : Words) (head slot : ℕ) (xs : List ℕ)
    → Chain w head xs
    → slot ≢ null
    → count slot xs ≡ 0
    → Chain (push w head slot).0 (push w head slot).1 (slot ∷ xs)
unfolding push
push-Chain w head slot xs c ne out = ground (arith, Chain-update w slot head head xs c out)

-- A segment from `first` to `last`, whose last link is not yet written.
abbrev pub Segment : Words → ℕ → List ℕ → ℕ → Type 0
Segment w p [] last = (p ≡ last) × (last ≢ null)
Segment w p (x ∷ xs) last = (p ≡ x) × (x ≢ null) × Segment w (w x) xs last

-- Pushing a linked chain of slots that the stack does not hold puts all of them in front, in order.
pub push_chain-Chain :
    (w : Words) (head first last : ℕ) (inner xs : List ℕ)
    → Chain w head xs
    → Segment w first inner last
    → count last xs ≡ 0
    → count last inner ≡ 0
    → Chain (push_chain w head first last).0 (push_chain w head first last).1 (inner ++ last ∷ xs)
unfolding push_chain
push_chain-Chain w head first last [] xs c s out own =
    ground (arith, Chain-update w last head head xs c out)
push_chain-Chain w head first last (x ∷ inner) xs c s out own =
    ground (arith, push_chain-Chain w head (w x) last inner xs c s.2 out)

-- A push leaves every chain alone that does not hold the slot.
pub remote_push-keeps :
    (w : Words) (head slot p : ℕ) (ys : List ℕ)
    → Chain w p ys
    → count slot ys ≡ 0
    → Chain (push w head slot).0 p ys
unfolding push
remote_push-keeps w head slot p ys c out = Chain-update w slot head p ys c out
