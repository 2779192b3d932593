-- ===== src/Slab/Queue/Laws.antt =====
-- The list operations against lists of bases.
use clmalloc.Base.{ℕ, ◌≡◌, ◌≢◌, none, some, List, [], ◌∷◌, arith}
use clmalloc.Slab.Links.{null, count}
use clmalloc.Slab.Header.{nowhere, next_of}
use clmalloc.Slab.Queue.{
  Nodes, next_link, prev_link, set_next_link, set_prev_link, set_cell, relink, slab_list_push,
  slab_list_pop, clear_links,
}
use clmalloc.Slab.Queue.Linked.{IsQueue, Linked-frame}

-- A pushed slab becomes the head, and the old head's back link points at its `next_link` field.
pub push-IsQueue :
    (n : Nodes) (c s : ℕ) (xs : List ℕ)
    → IsQueue n c xs
    → s ≢ null
    → count s xs ≡ 0
    → IsQueue (slab_list_push n c s) c (s ∷ xs)
unfolding slab_list_push set_next_link set_prev_link relink set_cell
push-IsQueue n c s [] q ne out = record {
  links = ground (arith, q.links);
  once = λ a. ground arith;
}
push-IsQueue n c s (x ∷ xs) q ne out =
    let (at, some_x, back, rest) = q.links in
    let apart : s ≢ x = ground arith in
    record {
      links = ground (
        arith,
        Linked-frame n (slab_list_push n c s) (next_of x) (next_link n x) xs rest
            (λ a h. ground (arith, q.once a)),
      );
      once = λ a. ground (arith, q.once a);
    }

-- Popping takes the head, clears its links, and leaves the rest.
pub pop-IsQueue :
    (n : Nodes) (c x : ℕ) (xs : List ℕ)
    → IsQueue n c (x ∷ xs)
    → ((slab_list_pop n c).0 ≡ some x)
      × IsQueue (slab_list_pop n c).1 c xs
      × (next_link (slab_list_pop n c).1 x ≡ null)
      × (prev_link (slab_list_pop n c).1 x ≡ nowhere)
unfolding slab_list_pop set_next_link set_prev_link relink set_cell clear_links
pop-IsQueue n c x [] q = (
  ground (arith, q.links),
  record { links = ground (arith, q.links); once = λ a. omega arith },
  ground (arith, q.links),
  ground (arith, q.links),
)
pop-IsQueue n c x (y ∷ xs) q =
    let (at, some_x, back, more) = q.links in
    let (at', some_y, back', rest) = more in
    (
      ground arith,
      record {
        links = ground (
          arith,
          Linked-frame n (slab_list_pop n c).1 (next_of y) (next_link n y) xs rest
              (λ a h. ground (arith, q.once a)),
          q.once x,
        );
        once = λ a. omega (arith, q.once a);
      },
      ground arith,
      ground arith,
    )

-- An empty list gives nothing and stays.
pub pop-empty : (n : Nodes) (c : ℕ) → IsQueue n c [] → slab_list_pop n c ≡ (none, n)
unfolding slab_list_pop
pop-empty n c q = ground (arith, q.links)
