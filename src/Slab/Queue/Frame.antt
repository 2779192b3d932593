-- ===== src/Slab/Queue/Frame.antt =====
-- What the list operations leave alone: the other lists, and all of a header but its two links.
use clmalloc.Base.{
  ℕ, ◌+◌, ◌≤◌, ◌<◌, ◌≡◌, ◌≢◌, ◌⊎◌, inl, inr, ◌∙◌, ap, List, [], ◌∷◌, arith, ◌==◌, Bool-cases,
}
use clmalloc.Slab.Links.{null, count}
use clmalloc.Slab.Header.{LinkPtr, nowhere, head_of, next_of}
use clmalloc.Slab.Queue.{
  Nodes, next_link, prev_link, set_next_link, set_prev_link, set_cell, write_link, relink,
  slab_list_push, slab_list_pop, slab_list_remove, clear_links,
}
use clmalloc.Slab.Queue.Linked.{Linked, IsQueue, SameLinks, Linked-frame}
use clmalloc.Slab.Queue.Removal.{back_inside, next_inside}

pub Linked-not_null :
    (n : Nodes) (at : LinkPtr) (p a : ℕ) (xs : List ℕ)
    → Linked n at p xs
    → 0 < count a xs
    → a ≢ null
Linked-not_null n at p a [] l h = absurd (omega arith)
Linked-not_null n at p a (x ∷ xs) l h =
    ground (arith, Linked-not_null n (next_of x) (next_link n x) a xs l.3)

-- Another list stays when its head and the links of its slabs do.
IsQueue-frame :
    (n m : Nodes) (c : ℕ) (ys : List ℕ)
    → IsQueue n c ys
    → m.cell c ≡ n.cell c
    → ((a : ℕ) → 0 < count a ys → SameLinks n m a)
    → IsQueue m c ys
IsQueue-frame n m c ys q head same = record {
  links = rw head (Linked-frame n m (head_of c) (n.cell c) ys q.links same);
  once = q.once;
}

pub push-SameLinks :
    (n : Nodes) (c s a : ℕ) → a ≢ s → a ≢ n.cell c → SameLinks n (slab_list_push n c s) a
unfolding slab_list_push set_next_link set_prev_link relink set_cell
push-SameLinks n c s a h k = ground arith

pub push-cell : (n : Nodes) (c s d : ℕ) → d ≢ c → (slab_list_push n c s).cell d ≡ n.cell d
unfolding slab_list_push set_next_link set_prev_link relink set_cell
push-cell n c s d h = ground arith

-- The head of a list is no slab of a list that shares none with it.
pub head_apart :
    (n : Nodes) (c a : ℕ) (xs : List ℕ) → IsQueue n c xs → a ≢ null → count a xs ≡ 0 → a ≢ n.cell c
head_apart n c a [] q some_slab out e = some_slab (e ∙ q.links)
head_apart n c a (x ∷ xs) q some_slab out e = ground (arith, q.links.0)

-- Pushing onto one list leaves another one alone.
pub push-frame :
    (n : Nodes) (c s d : ℕ) (xs ys : List ℕ)
    → IsQueue n c xs
    → IsQueue n d ys
    → d ≢ c
    → count s ys ≡ 0
    → ((a : ℕ) → count a xs + count a ys ≤ 1)
    → IsQueue (slab_list_push n c s) d ys
push-frame n c s d xs ys q r apart out once =
    IsQueue-frame n (slab_list_push n c s) d ys r (push-cell n c s d apart) λ a mem.
      push-SameLinks n c s a (λ e. ground arith)
        (head_apart n c a xs q (Linked-not_null n (head_of d) (n.cell d) a ys r.links mem)
          (omega (arith, once a)))

pop-SameLinks :
    (n : Nodes) (c a : ℕ)
    → a ≢ n.cell c
    → a ≢ next_link n (n.cell c)
    → SameLinks n (slab_list_pop n c).1 a
unfolding slab_list_pop set_next_link set_prev_link relink set_cell clear_links
pop-SameLinks n c a h k = ground arith

pub pop-cell : (n : Nodes) (c d : ℕ) → d ≢ c → (slab_list_pop n c).1.cell d ≡ n.cell d
unfolding slab_list_pop set_next_link set_prev_link relink set_cell clear_links
pop-cell n c d h = ground arith

-- Popping keeps the links of what is not on the list.
pub pop-other :
    (n : Nodes) (c x a : ℕ) (xs : List ℕ)
    → IsQueue n c (x ∷ xs)
    → a ≢ null
    → count a (x ∷ xs) ≡ 0
    → SameLinks n (slab_list_pop n c).1 a
pop-other n c x a xs q some_slab out =
    let inside = next_inside n (head_of c) (n.cell c) x (x ∷ xs) q.links (ground arith) in
    let first : a ≢ n.cell c = head_apart n c a (x ∷ xs) q some_slab out in
    pop-SameLinks n c a first (rw q.links.0 (second inside))
  where
    second : (next_link n x ≡ null) ⊎ (0 < count (next_link n x) (x ∷ xs)) → a ≢ next_link n x
    second (inl z) e = some_slab (e ∙ z)
    second (inr m) e =
        let e' : count a (x ∷ xs) ≡ count (next_link n x) (x ∷ xs) =
          ap (λ (t : ℕ). count t (x ∷ xs)) e in
        omega (arith, e', out)

-- Popping from one list leaves another one alone.
pub pop-frame :
    (n : Nodes) (c d x : ℕ) (xs ys : List ℕ)
    → IsQueue n c (x ∷ xs)
    → IsQueue n d ys
    → d ≢ c
    → ((a : ℕ) → count a (x ∷ xs) + count a ys ≤ 1)
    → IsQueue (slab_list_pop n c).1 d ys
pop-frame n c d x xs ys q r apart once =
    IsQueue-frame n (slab_list_pop n c).1 d ys r (pop-cell n c d apart) λ a mem.
      pop-other n c x a xs q (Linked-not_null n (head_of d) (n.cell d) a ys r.links mem)
        (omega (arith, once a))

-- The links that a removal writes, by where the back link of the slab points.
record RemoveEffect (n : Nodes) (s : ℕ) (p : LinkPtr) : Type 0 where
  links : (a : ℕ) → a ≢ s → a ≢ next_link n s → p ≢ next_of a → SameLinks n (slab_list_remove n s) a
  cells : (d : ℕ) → p ≢ head_of d → (slab_list_remove n s).cell d ≡ n.cell d

remove-RemoveEffect : (n : Nodes) (s : ℕ) (p : LinkPtr) → prev_link n s ≡ p → RemoveEffect n s p
unfolding slab_list_remove set_next_link set_prev_link relink set_cell clear_links write_link
remove-RemoveEffect n s nowhere e = record {
  links = λ a h k l. ground arith;
  cells = λ d l. ground arith;
}
remove-RemoveEffect n s (head_of c) e = record {
  links = λ a h k l. ground arith;
  cells = λ d l. ground (arith, l);
}
remove-RemoveEffect n s (next_of b) e = record {
  links = λ a h k l. ground (arith, l);
  cells = λ d l. ground arith;
}

-- Where the back link of a slab of a list points: at the head, or into a slab of the list.
pub data BackLink (c : ℕ) (xs : List ℕ) : LinkPtr → Type 0 where
  first : BackLink c xs (head_of c)
  inner : (d : ℕ) → 0 < count d xs → BackLink c xs (next_of d)

pub back_link :
    (n : Nodes) (c s : ℕ) (xs : List ℕ)
    → IsQueue n c xs
    → 0 < count s xs
    → (p : LinkPtr) × (prev_link n s ≡ p) × BackLink c xs p
back_link n c s [] q mem = absurd (omega arith)
back_link n c s (x ∷ xs) q mem = elim (Bool-cases (s == x)) [
  | inl e ↦ let same : s ≡ x = ground arith in (head_of c, rw same q.links.2, first)
  | inr e ↦
      let (d, at, has) = back_inside n x (next_link n x) s xs q.links.3 (ground arith) in
      (next_of d, at, inner d has)
]

pub remove-SameLinks :
    (n : Nodes) (c s a : ℕ) (xs : List ℕ) (p : LinkPtr)
    → prev_link n s ≡ p
    → BackLink c xs p
    → a ≢ s
    → a ≢ next_link n s
    → count a xs ≡ 0
    → SameLinks n (slab_list_remove n s) a
remove-SameLinks n c s a xs p at first h k out =
    (remove-RemoveEffect n s _ at).links a h k (ground arith)
remove-SameLinks n c s a xs p at (inner d has) h k out =
    (remove-RemoveEffect n s _ at).links a h k (λ e. differ d has e)
  where
    slab_at : LinkPtr → ℕ
    slab_at (next_of b) = b
    slab_at _ = null

    differ : (d : ℕ) → 0 < count d xs → next_of d ≡ next_of a → ⊥
    differ d has e =
        let e' : count d xs ≡ count a xs = ap (λ (q : LinkPtr). count (slab_at q) xs) e in
        omega (arith, e')

pub remove-cell :
    (n : Nodes) (c s d : ℕ) (xs : List ℕ) (p : LinkPtr)
    → prev_link n s ≡ p
    → BackLink c xs p
    → d ≢ c
    → (slab_list_remove n s).cell d ≡ n.cell d
remove-cell n c s d xs p at first h = (remove-RemoveEffect n s _ at).cells d (λ e. ground arith)
remove-cell n c s d xs p at (inner b has) h = (remove-RemoveEffect n s _ at).cells d (ground arith)

-- Removing a slab from one list leaves another one alone.
pub remove-frame :
    (n : Nodes) (c d s : ℕ) (xs ys : List ℕ)
    → IsQueue n c xs
    → IsQueue n d ys
    → d ≢ c
    → 0 < count s xs
    → ((a : ℕ) → count a xs + count a ys ≤ 1)
    → IsQueue (slab_list_remove n s) d ys
remove-frame n c d s xs ys q r apart mem once =
    let (p, at, back) = back_link n c s xs q mem in
    IsQueue-frame n (slab_list_remove n s) d ys r (remove-cell n c s d xs p at back apart) λ a has.
      let some_slab = Linked-not_null n (head_of d) (n.cell d) a ys r.links has in
      let out : count a xs ≡ 0 = omega (arith, once a) in
      remove-SameLinks n c s a xs p at back (differ a s out mem)
        (behind a (next_inside n (head_of c) (n.cell c) s xs q.links mem) some_slab out) out
  where
    differ : (a b : ℕ) → count a xs ≡ 0 → 0 < count b xs → a ≢ b
    differ a b out has e =
        let e' : count a xs ≡ count b xs = ap (λ (t : ℕ). count t xs) e in omega (arith, e')

    behind :
        (a : ℕ)
        → (next_link n s ≡ null) ⊎ (0 < count (next_link n s) xs)
        → a ≢ null
        → count a xs ≡ 0
        → a ≢ next_link n s
    behind a (inl z) some_slab out e = some_slab (e ∙ z)
    behind a (inr m) some_slab out e = differ a (next_link n s) out m e
