-- ===== src/Slab/Header.antt =====
-- `SlabHeader`, `Slab` and `SlabRef` of src/slab.rs: the header of a slab and the operations on its
-- slots. A handle is the slab's base address. The operations take the memory of link words and the
-- header, and return what they change. `u16` fields wrap at 2 ^ 16.
pub mod Region
pub mod Init
pub mod Ops
pub mod Lifecycle
pub mod Frame
pub mod Spec
use clmalloc.Base.{
  ℕ, zero, suc, ◌+◌, ◌-◌, ◌*◌, ◌/◌, ◌%◌, ◌^◌, Bool, not, Option, none, some, ltb, ◌==◌,
  if◌then◌else◌,
}
use clmalloc.SizeClass.{class_size, next_multiple_of}
use clmalloc.Slab.Links.{Words, null, read_next}
use clmalloc.Slab.FreeList.{SlotFreeList, empty, pop, push}
use clmalloc.Slab.Treiber

abbrev pub slab_size : ℕ
slab_size = 2 ^ 16

-- `size_of::<SlabHeader>()` on a 64-bit target: `repr(C)` puts `local` at 0x28, `remote` at 0x40.
abbrev pub header_size : ℕ
header_size = 72

abbrev pub u16 : ℕ → ℕ
u16 n = n % 2 ^ 16

-- Where a `prev_link` points: at a list's head, or at the `next_link` field of a slab.
pub data LinkPtr : Type 0 where
  nowhere : LinkPtr
  head_of : ℕ → LinkPtr
  next_of : ℕ → LinkPtr

-- `next_link` is the base of the next slab, 0 for `None`; `remote` is the head of the stack.
pub record SlabHeader : Type 0 where
  pub slot_size : ℕ
  pub slot_count : ℕ
  pub slots_offset : ℕ
  pub size_class_index : ℕ
  pub heap_id : ℕ
  pub next_link : ℕ
  pub prev_link : LinkPtr
  pub bump_cursor : ℕ
  pub bump_remaining : ℕ
  pub «local» : SlotFreeList
  pub remote : ℕ

unfoldable pub init : ℕ → ℕ → SlabHeader
init size_class_index heap_id =
    let slot_size = class_size size_class_index in
    let slots_offset = next_multiple_of header_size slot_size in
    let slot_count = (slab_size - slots_offset) / slot_size in
    record {
      slot_size = u16 slot_size;
      slot_count = u16 slot_count;
      slots_offset = u16 slots_offset;
      size_class_index = size_class_index;
      heap_id = heap_id;
      next_link = null;
      prev_link = nowhere;
      bump_cursor = u16 slots_offset;
      bump_remaining = u16 slot_count;
      «local» = empty;
      remote = Treiber.new_stack;
    }

-- `ptr & SLAB_MASK`: the base of the slab that an interior pointer lies in.
abbrev pub from_ptr : ℕ → ℕ
from_ptr ptr = ptr / slab_size * slab_size

abbrev pub free_count : SlabHeader → ℕ
free_count h = u16 (h.«local».len + h.bump_remaining)

abbrev pub is_fully_free : SlabHeader → Bool
is_fully_free h = free_count h == h.slot_count

-- The bump path: carve the slot at the cursor.
unfoldable pub bump : ℕ → SlabHeader → Option ℕ × SlabHeader
bump base h =
    if ltb 0 h.bump_remaining
    then (
      some (base + h.bump_cursor),
      record h {
        bump_cursor = u16 (h.bump_cursor + h.slot_size);
        bump_remaining = h.bump_remaining - 1;
      },
    )
    else (none, h)

-- First the free list, then the bump pointer.
unfoldable pub alloc : ℕ → Words → SlabHeader → Option ℕ × SlabHeader
alloc base w h =
    let popped = pop w h.«local» in
    let carved = bump base h in
    elim popped.0 [ some slot ↦ (some slot, record h { «local» = popped.1 }) | none ↦ carved ]

unfoldable pub dealloc_local : Words → SlabHeader → ℕ → Words × SlabHeader
dealloc_local w h ptr =
    let (w', free_list) = push w h.«local» ptr in (w', record h { «local» = free_list })

abbrev pub has_pending_remote : SlabHeader → Bool
has_pending_remote h = not (Treiber.is_empty h.remote)

-- The `while let` of `drain_remote`: `read_next` before the push overwrites the link. The fuel
-- bounds the length of the chain; the count is a u16.
unfoldable pub drain_loop : ℕ → Words → SlotFreeList → ℕ → ℕ → ℕ × Words × SlotFreeList
drain_loop zero w l count cursor = (count, w, l)
drain_loop (suc fuel) w l count cursor =
    let next = read_next w cursor in
    let (w', l') = push w l cursor in
    let rest = drain_loop fuel w' l' (u16 (count + 1)) next in
    if cursor == null then (count, w, l) else rest

-- A chain holds slots of its slab, so `slot_count` rounds reach its end.
unfoldable pub drain_remote : Words → SlabHeader → ℕ × Words × SlabHeader
drain_remote w h =
    let (chain, left) = Treiber.swap_drain h.remote in
    let (count, w', l) = drain_loop h.slot_count w h.«local» 0 chain in
    (count, w', record h { «local» = l; remote = left })

unfoldable pub dealloc_remote : Words → SlabHeader → ℕ → Words × SlabHeader
dealloc_remote w h ptr =
    let (w', head) = Treiber.push w h.remote ptr in (w', record h { remote = head })

unfoldable pub push_chain_remote : Words → SlabHeader → ℕ → ℕ → Words × SlabHeader
push_chain_remote w h first last =
    let (w', head) = Treiber.push_chain w h.remote first last in (w', record h { remote = head })
