-- ===== src/Slab/Queue/Bodies.antt =====
-- What the list operations leave of each header: all but its two links.
use clmalloc.Base.{ℕ, ◌≡◌, inl, inr, ◌∙◌, ap, sym, refl, arith, ◌==◌, Bool-cases}
use clmalloc.Base.Fun.{update}
use clmalloc.Slab.Links.{null}
use clmalloc.Slab.Header.{SlabHeader, LinkPtr, nowhere, head_of, next_of}
use clmalloc.Slab.Queue.{
  Nodes, next_link, prev_link, set_next_link, set_prev_link, set_cell, write_link, relink,
  slab_list_push, slab_list_pop, slab_list_remove, clear_links,
}

-- A header without its links.
abbrev pub body : SlabHeader → SlabHeader
body h = record h { next_link = null; prev_link = nowhere }

abbrev pub SameBodies : Nodes → Nodes → Type 0
SameBodies n m = (a : ℕ) → body (m.header a) ≡ body (n.header a)

update-SameBodies :
    (n : Nodes) (b : ℕ) (hd : SlabHeader)
    → body hd ≡ body (n.header b)
    → SameBodies n (record n { header = update n.header b hd })
update-SameBodies n b hd e a = elim (Bool-cases (a == b)) [
  | inl t ↦
      let same : a ≡ b = ground arith in rw t (e ∙ ap (λ (q : ℕ). body (n.header q)) (sym same))
  | inr t ↦ rw t refl
]

set_next_link-SameBodies : (n : Nodes) (b v : ℕ) → SameBodies n (set_next_link n b v)
unfolding set_next_link
set_next_link-SameBodies n b v = update-SameBodies n b _ refl

set_prev_link-SameBodies : (n : Nodes) (b : ℕ) (v : LinkPtr) → SameBodies n (set_prev_link n b v)
unfolding set_prev_link
set_prev_link-SameBodies n b v = update-SameBodies n b _ refl

set_cell-SameBodies : (n : Nodes) (c v : ℕ) → SameBodies n (set_cell n c v)
unfolding set_cell
set_cell-SameBodies n c v a = refl

write_link-SameBodies : (n : Nodes) (p : LinkPtr) (v : ℕ) → SameBodies n (write_link n p v)
unfolding write_link
write_link-SameBodies n nowhere v a = refl
write_link-SameBodies n (head_of c) v a = set_cell-SameBodies n c v a
write_link-SameBodies n (next_of b) v a = set_next_link-SameBodies n b v a

relink-SameBodies : (n : Nodes) (b : ℕ) (p : LinkPtr) → SameBodies n (relink n b p)
unfolding relink
relink-SameBodies n b p a = elim (Bool-cases (b == null)) [
  | inl t ↦ rw t refl
  | inr t ↦ rw t (set_prev_link-SameBodies n b p a)
]

clear_links-SameBodies : (n : Nodes) (b : ℕ) → SameBodies n (clear_links n b)
unfolding clear_links
clear_links-SameBodies n b a =
    set_prev_link-SameBodies (set_next_link n b null) b nowhere a
    ∙ set_next_link-SameBodies n b null a

pub push-SameBodies : (n : Nodes) (c s : ℕ) → SameBodies n (slab_list_push n c s)
unfolding slab_list_push
push-SameBodies n c s a =
    let n1 = set_next_link n s (n.cell c) in
    let n2 = set_prev_link n1 s (head_of c) in
    let n3 = relink n2 (n2.cell c) (next_of s) in
    set_cell-SameBodies n3 c s a
    ∙ relink-SameBodies n2 (n2.cell c) (next_of s) a
    ∙ set_prev_link-SameBodies n1 s (head_of c) a
    ∙ set_next_link-SameBodies n s (n.cell c) a

pub pop-SameBodies : (n : Nodes) (c : ℕ) → SameBodies n (slab_list_pop n c).1
unfolding slab_list_pop
pop-SameBodies n c a = elim (Bool-cases (n.cell c == null)) [
  | inl t ↦ rw t refl
  | inr t ↦
      let n1 = set_cell n c (next_link n (n.cell c)) in
      let n2 = relink n1 (n1.cell c) (head_of c) in
      rw t (
        clear_links-SameBodies n2 (n.cell c) a
        ∙ relink-SameBodies n1 (n1.cell c) (head_of c) a
        ∙ set_cell-SameBodies n c (next_link n (n.cell c)) a)
]

pub remove-SameBodies : (n : Nodes) (s : ℕ) → SameBodies n (slab_list_remove n s)
unfolding slab_list_remove
remove-SameBodies n s a =
    let prev = prev_link n s in
    let next = next_link n s in
    let n1 = write_link n prev next in
    let n2 = relink n1 next prev in
    clear_links-SameBodies n2 s a
    ∙ relink-SameBodies n1 next prev a
    ∙ write_link-SameBodies n prev next a
