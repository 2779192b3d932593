-- ===== src/Slab/Queue.antt =====
-- The intrusive doubly linked lists of slabs of src/slab.rs. `header` gives the header at a slab's
-- base, and `cell` what a `SlabList` variable holds; a base of 0 is `None`.
pub mod Linked
pub mod Laws
pub mod Removal
pub mod Bodies
pub mod Frame
pub mod Apart
use clmalloc.Base.{ℕ, Bool, Option, none, some, ◌==◌, if◌then◌else◌}
use clmalloc.Base.Fun.{update}
use clmalloc.Slab.Links.{null}
use clmalloc.Slab.Header.{SlabHeader, LinkPtr, nowhere, head_of, next_of}

pub record Nodes : Type 0 where
  pub header : ℕ → SlabHeader
  pub cell : ℕ → ℕ

abbrev pub next_link : Nodes → ℕ → ℕ
next_link n base = (n.header base).next_link

abbrev pub prev_link : Nodes → ℕ → LinkPtr
prev_link n base = (n.header base).prev_link

unfoldable pub set_next_link : Nodes → ℕ → ℕ → Nodes
set_next_link n base v = record n {
  header = update n.header base (record (n.header base) { next_link = v });
}

unfoldable pub set_prev_link : Nodes → ℕ → LinkPtr → Nodes
set_prev_link n base v = record n {
  header = update n.header base (record (n.header base) { prev_link = v });
}

unfoldable pub set_cell : Nodes → ℕ → ℕ → Nodes
set_cell n c v = record n { cell = update n.cell c v }

-- `*prev = v`
unfoldable pub write_link : Nodes → LinkPtr → ℕ → Nodes
write_link n nowhere v = n
write_link n (head_of c) v = set_cell n c v
write_link n (next_of base) v = set_next_link n base v

-- `if let Some(base) = o { base.set_prev_link(prev) }`
unfoldable pub relink : Nodes → ℕ → LinkPtr → Nodes
relink n base prev = if base == null then n else set_prev_link n base prev

unfoldable pub slab_list_push : Nodes → ℕ → ℕ → Nodes
slab_list_push n head slab =
    let n1 = set_next_link n slab (n.cell head) in
    let n2 = set_prev_link n1 slab (head_of head) in
    let n3 = relink n2 (n2.cell head) (next_of slab) in set_cell n3 head slab

-- Both links of a slab that leaves a list.
unfoldable pub clear_links : Nodes → ℕ → Nodes
clear_links n slab = set_prev_link (set_next_link n slab null) slab nowhere

unfoldable pub slab_list_pop : Nodes → ℕ → Option ℕ × Nodes
slab_list_pop n head =
    let base = n.cell head in
    let n1 = set_cell n head (next_link n base) in
    let n2 = relink n1 (n1.cell head) (head_of head) in
    if base == null then (none, n) else (some base, clear_links n2 base)

unfoldable pub slab_list_remove : Nodes → ℕ → Nodes
slab_list_remove n slab =
    let prev = prev_link n slab in
    let next = next_link n slab in
    let n1 = write_link n prev next in let n2 = relink n1 next prev in clear_links n2 slab
