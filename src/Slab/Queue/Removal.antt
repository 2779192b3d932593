-- ===== src/Slab/Queue/Removal.antt =====
-- `slab_list_remove` takes a slab out of the middle of a list without walking it.
use clmalloc.Base.{
  ℕ, ◌≤◌, ◌<◌, ◌≡◌, ◌≢◌, ◌⊎◌, inl, inr, refl, ◌∙◌, List, [], ◌∷◌, arith, ◌==◌, Bool-cases,
}
use clmalloc.Slab.Links.{null, count}
use clmalloc.Slab.Header.{LinkPtr, nowhere, head_of, next_of}
use clmalloc.Slab.Header.Ops.Remove.{remove, count-remove}
use clmalloc.Slab.Queue.{
  Nodes, next_link, prev_link, set_next_link, set_prev_link, set_cell, write_link, relink,
  slab_list_remove, clear_links,
}
use clmalloc.Slab.Queue.Linked.{Linked, IsQueue, Linked-frame}

-- What is stored at a location.
abbrev value : Nodes → LinkPtr → ℕ
value n nowhere = null
value n (head_of c) = n.cell c
value n (next_of b) = next_link n b

-- A location that is no field of the slabs `xs`.
abbrev Outside : LinkPtr → List ℕ → Type 0
Outside nowhere xs = ⊥
Outside (head_of c) xs = Unit
Outside (next_of b) xs = count b xs ≡ 0

-- Behind `b` the back link of a slab is a field of `b` or of a slab of the list.
pub back_inside :
    (n : Nodes) (b p s : ℕ) (xs : List ℕ)
    → Linked n (next_of b) p xs
    → 0 < count s xs
    → (d : ℕ) × (prev_link n s ≡ next_of d) × (0 < count d (b ∷ xs))
back_inside n b p s [] l h = absurd (omega arith)
back_inside n b p s (x ∷ xs) l h = elim (Bool-cases (s == x)) [
  | inl e ↦ (b, ground arith, ground arith)
  | inr e ↦
      let (d, is, mem) = back_inside n x (next_link n x) s xs l.3 (ground arith) in
      (d, is, ground arith)
]

-- The forward link of a slab of the list is null or leads to a slab of the list.
pub next_inside :
    (n : Nodes) (at : LinkPtr) (p s : ℕ) (xs : List ℕ)
    → Linked n at p xs
    → 0 < count s xs
    → (next_link n s ≡ null) ⊎ (0 < count (next_link n s) xs)
next_inside n at p s [] l h = absurd (omega arith)
next_inside n at p s (x ∷ []) l h = ground arith
next_inside n at p s (x ∷ y ∷ xs) l h = elim (Bool-cases (s == x)) [
  | inl e ↦ ground arith
  | inr e ↦ ground (arith, next_inside n (next_of x) (next_link n x) s (y ∷ xs) l.3)
]

-- Taking out the first slab.
remove_first :
    (n : Nodes) (at : LinkPtr) (x : ℕ) (xs : List ℕ)
    → Linked n at x (x ∷ xs)
    → ((a : ℕ) → count a (x ∷ xs) ≤ 1)
    → Outside at (x ∷ xs)
    → Linked (slab_list_remove n x) at (value (slab_list_remove n x) at) xs
unfolding slab_list_remove set_next_link set_prev_link relink set_cell clear_links write_link
remove_first n nowhere x xs l once out = absurd out
remove_first n (head_of c) x [] l once out = ground arith
remove_first n (next_of b) x [] l once out = ground arith
remove_first n (head_of c) x (y ∷ xs) l once out = ground (
  arith,
  Linked-frame n (slab_list_remove n x) (next_of y) (next_link n y) xs l.3.3
      (λ a h. ground (arith, once a)),
  once x,
)
remove_first n (next_of b) x (y ∷ xs) l once out = ground (
  arith,
  Linked-frame n (slab_list_remove n x) (next_of y) (next_link n y) xs l.3.3
      (λ a h. ground (arith, once a)),
  once x,
)

-- Taking out a slab whose back link is a field of `d` writes the forward links of that slab and of
-- `d`, the back links of that slab and of its successor, and no list head.
record Effect (n : Nodes) (s d : ℕ) : Type 0 where
  forward : (a : ℕ) → a ≢ s → a ≢ d → next_link (slab_list_remove n s) a ≡ next_link n a
  backward :
      (a : ℕ) → a ≢ s → a ≢ next_link n s → prev_link (slab_list_remove n s) a ≡ prev_link n a
  heads : (c : ℕ) → (slab_list_remove n s).cell c ≡ n.cell c

remove-Effect : (n : Nodes) (s d : ℕ) → prev_link n s ≡ next_of d → Effect n s d
unfolding slab_list_remove set_next_link set_prev_link relink set_cell clear_links write_link
remove-Effect n s d e = record {
  forward = λ a h k. ground arith;
  backward = λ a h k. ground arith;
  heads = λ c. ground arith;
}

-- The pointer at a location outside the list stays where a later slab is taken out.
value_kept :
    (n : Nodes) (at : LinkPtr) (x s d : ℕ) (xs : List ℕ)
    → Outside at (x ∷ xs)
    → Effect n s d
    → 0 < count s xs
    → 0 < count d (x ∷ xs)
    → value (slab_list_remove n s) at ≡ value n at
value_kept n nowhere x s d xs out f hs hd = absurd out
value_kept n (head_of c) x s d xs out f hs hd = f.heads c
value_kept n (next_of b) x s d xs out f hs hd = f.forward b (λ e. ground arith) (λ e. ground arith)

remove-Linked :
    (n : Nodes) (at : LinkPtr) (p s : ℕ) (xs : List ℕ)
    → Linked n at p xs
    → ((a : ℕ) → count a xs ≤ 1)
    → Outside at xs
    → value n at ≡ p
    → 0 < count s xs
    → Linked (slab_list_remove n s) at (value (slab_list_remove n s) at) (remove s xs)
remove-Linked n at p s [] l once out stored h = absurd (omega arith)
remove-Linked n at p s (x ∷ xs) l once out stored h = elim (Bool-cases (s == x)) [
  | inl e ↦
      let same : s ≡ x = ground arith in
      rw e (rw same (remove_first n at x xs (refl, l.1, l.2, l.3) once out))
  | inr e ↦
      let later : 0 < count s xs = ground arith in
      let (d, back, mem) = back_inside n x (next_link n x) s xs l.3 later in
      let f = remove-Effect n s d back in
      let rest =
        remove-Linked n (next_of x) (next_link n x) s xs l.3 (λ a. ground (arith, once a))
          (ground (arith, once x)) refl later in
      let ahead : x ≢ next_link n s =
        not_next x (next_link n s) xs l.1 (once x)
          (next_inside n (next_of x) (next_link n x) s xs l.3 later) in
      rw e (
        value_kept n at x s d xs out f later mem ∙ stored ∙ l.0,
        l.1,
        f.backward x (λ k. ground arith) ahead ∙ l.2,
        rest,
      )
]
  where
    not_next :
        (x y : ℕ) (xs : List ℕ)
        → x ≢ null
        → count x (x ∷ xs) ≤ 1
        → (y ≡ null) ⊎ (0 < count y xs)
        → x ≢ y
    not_next x y xs some_x one (inl z) e = some_x (e ∙ z)
    not_next x y xs some_x one (inr m) e = ground arith

-- Whatever its place in a list, a removed slab is gone from the list, the others keep their order,
-- and both of its links are cleared.
pub remove-IsQueue :
    (n : Nodes) (c s : ℕ) (xs : List ℕ)
    → IsQueue n c xs
    → 0 < count s xs
    → IsQueue (slab_list_remove n s) c (remove s xs)
      × (next_link (slab_list_remove n s) s ≡ null)
      × (prev_link (slab_list_remove n s) s ≡ nowhere)
remove-IsQueue n c s xs q mem = (
  record {
    links = remove-Linked n (head_of c) (n.cell c) s xs q.links q.once tt refl mem;
    once = λ a. omega (arith, q.once a, count-remove s xs a mem);
  },
  cleared_next,
  cleared_prev,
)
  where
    cleared_next : next_link (slab_list_remove n s) s ≡ null
    cleared_next = unfold slab_list_remove clear_links set_next_link set_prev_link in ground arith

    cleared_prev : prev_link (slab_list_remove n s) s ≡ nowhere
    cleared_prev = unfold slab_list_remove clear_links set_next_link set_prev_link in ground arith
