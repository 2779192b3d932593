-- ===== src/Slab/FreeList.antt =====
-- `SlotFreeList` of src/slab.rs: the intrusive list of free slots of one thread.
pub mod Laws
use clmalloc.Base.{ℕ, ◌+◌, ◌%◌, ◌^◌, Option, none, some, ◌==◌, if◌then◌else◌}
use clmalloc.Slab.Links.{Words, null, read_next, write_next}

-- `len` is a u16.
pub record SlotFreeList : Type 0 where
  pub head : ℕ
  pub len : ℕ

abbrev pub empty : SlotFreeList
empty = record { head = null; len = 0 }

unfoldable pub pop : Words → SlotFreeList → Option ℕ × SlotFreeList
pop w l =
    if l.head == null
    then (none, l)
    else (some l.head, record { head = read_next w l.head; len = (l.len + 65535) % 2 ^ 16 })

unfoldable pub push : Words → SlotFreeList → ℕ → Words × SlotFreeList
push w l slot = (write_next w slot l.head, record { head = slot; len = (l.len + 1) % 2 ^ 16 })
