-- ===== src/Pool/PageList.antt =====
-- `PageFreeList` of src/pool.rs: a list of free pages, each with its link in its first word.
pub mod Laws
pub mod Removal
use clmalloc.Base.{ℕ, zero, suc, ◌-◌, ◌^◌, Bool, Option, none, some, ◌==◌, if◌then◌else◌}
use clmalloc.Base.Words64.{add64}
use clmalloc.Slab.Links.{Words, null, read_next, write_next}

pub record PageFreeList : Type 0 where
  pub head : ℕ
  pub len : ℕ

abbrev pub empty : PageFreeList
empty = record { head = null; len = 0 }

-- `len -= 1` on a `usize`.
abbrev pub less_one : ℕ → ℕ
less_one len = if len == 0 then 2 ^ 64 - 1 else len - 1

unfoldable pub push : Words → PageFreeList → ℕ → Words × PageFreeList
push w l slab = (write_next w slab l.head, record { head = slab; len = add64 l.len 1 })

unfoldable pub pop : Words → PageFreeList → Option ℕ × PageFreeList
pop w l =
    if l.head == null
    then (none, l)
    else (some l.head, record { head = read_next w l.head; len = less_one l.len })

-- Where the `cursor` of `remove_if` points: at the list's head, or at the link of a page.
pub data Cursor : Type 0 where
  at_head : Cursor
  at_link : ℕ → Cursor

unfoldable pub read_cursor : Words → PageFreeList → Cursor → ℕ
read_cursor w l at_head = l.head
read_cursor w l (at_link page) = read_next w page

-- `*cursor = v`, with one page less in the list.
unfoldable pub unlink : Words → PageFreeList → Cursor → ℕ → Words × PageFreeList
unlink w l at_head v = (w, record { head = v; len = less_one l.len })
unlink w l (at_link page) v = (write_next w page v, record l { len = less_one l.len })

-- The loop of `remove_if`; the fuel bounds the length of the list.
unfoldable pub remove_loop : (ℕ → Bool) → ℕ → Words → PageFreeList → Cursor → Words × PageFreeList
remove_loop pred zero w l cursor = (w, l)
remove_loop pred (suc fuel) w l cursor =
    let slab = read_cursor w l cursor in
    let (w', l') = unlink w l cursor (read_next w slab) in
    let removed = remove_loop pred fuel w' l' cursor in
    let kept = remove_loop pred fuel w l (at_link slab) in
    if slab == null then (w, l) else if pred slab then removed else kept

unfoldable pub remove_if : (ℕ → Bool) → Words → PageFreeList → Words × PageFreeList
remove_if pred w l = remove_loop pred l.len w l at_head
