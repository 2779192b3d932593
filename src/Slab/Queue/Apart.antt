-- ===== src/Slab/Queue/Apart.antt =====
-- What the list operations leave of a slab that is on no list they touch: its whole header.
use clmalloc.Base.{ℕ, ◌<◌, ◌≡◌, ◌≢◌, ◌⊎◌, inl, inr, ◌∙◌, ap, List, ◌∷◌, arith}
use clmalloc.Slab.Links.{null, count}
use clmalloc.Slab.Header.{SlabHeader, LinkPtr}
use clmalloc.Slab.Queue.{Nodes, next_link, slab_list_push, slab_list_pop, slab_list_remove}
use clmalloc.Slab.Queue.Linked.{IsQueue, SameLinks}
use clmalloc.Slab.Queue.Removal.{next_inside}
use clmalloc.Slab.Queue.Bodies.{SameBodies, push-SameBodies, pop-SameBodies, remove-SameBodies}
use clmalloc.Slab.Queue.Frame.{
  push-SameLinks, head_apart, pop-other, back_link, remove-SameLinks, remove-cell,
}

with_links : SlabHeader → ℕ → LinkPtr → SlabHeader
with_links hd next prev = record hd { next_link = next; prev_link = prev }

-- A header is its links and the rest of it.
same_header : (n m : Nodes) (a : ℕ) → SameBodies n m → SameLinks n m a → m.header a ≡ n.header a
unfolding with_links
same_header n m a bodies (next, prev) =
    ap (λ (hd : SlabHeader). with_links hd (m.header a).next_link (m.header a).prev_link) (bodies a)
    ∙ ap (λ (p : ℕ). with_links (n.header a) p (m.header a).prev_link) next
    ∙ ap (λ (p : LinkPtr). with_links (n.header a) (n.header a).next_link p) prev

pub push-apart :
    (n : Nodes) (c s a : ℕ) (xs : List ℕ)
    → IsQueue n c xs
    → a ≢ null
    → a ≢ s
    → count a xs ≡ 0
    → (slab_list_push n c s).header a ≡ n.header a
push-apart n c s a xs q some_slab other out =
    same_header n (slab_list_push n c s) a (push-SameBodies n c s)
      (push-SameLinks n c s a other (head_apart n c a xs q some_slab out))

pub pop-apart :
    (n : Nodes) (c x a : ℕ) (xs : List ℕ)
    → IsQueue n c (x ∷ xs)
    → a ≢ null
    → count a (x ∷ xs) ≡ 0
    → (slab_list_pop n c).1.header a ≡ n.header a
pop-apart n c x a xs q some_slab out =
    same_header n (slab_list_pop n c).1 a (pop-SameBodies n c)
      (pop-other n c x a xs q some_slab out)

differ : (xs : List ℕ) (a b : ℕ) → count a xs ≡ 0 → 0 < count b xs → a ≢ b
differ xs a b out has e =
    let e' : count a xs ≡ count b xs = ap (λ (t : ℕ). count t xs) e in omega (arith, e')

pub remove-apart :
    (n : Nodes) (c s a : ℕ) (xs : List ℕ)
    → IsQueue n c xs
    → 0 < count s xs
    → a ≢ null
    → count a xs ≡ 0
    → (slab_list_remove n s).header a ≡ n.header a
remove-apart n c s a xs q mem some_slab out =
    let (p, at, back) = back_link n c s xs q mem in
    same_header n (slab_list_remove n s) a (remove-SameBodies n s) (
      remove-SameLinks n c s a xs p at back (differ xs a s out mem)
        (behind (next_inside n _ (n.cell c) s xs q.links mem)) out)
  where
    behind : (next_link n s ≡ null) ⊎ (0 < count (next_link n s) xs) → a ≢ next_link n s
    behind (inl z) e = some_slab (e ∙ z)
    behind (inr m) e = differ xs a (next_link n s) out m e

-- A removal writes no head of another list.
pub remove-heads :
    (n : Nodes) (c s d : ℕ) (xs : List ℕ)
    → IsQueue n c xs
    → 0 < count s xs
    → d ≢ c
    → (slab_list_remove n s).cell d ≡ n.cell d
remove-heads n c s d xs q mem apart =
    let (p, at, back) = back_link n c s xs q mem in remove-cell n c s d xs p at back apart
