-- ===== src/Slab/Header/Region.antt =====
-- The invariant of a slab: each carved slot is in exactly one place.
use clmalloc.Base.{ℕ, ◌+◌, ◌-◌, ◌*◌, ◌^◌, ◌≤◌, ◌<◌, ◌≡◌, List, length}
use clmalloc.SizeClass.Align.{Multiple}
use clmalloc.Slab.Links.{Words, count, Chain}
use clmalloc.Slab.FreeList.Laws.{Holds}
use clmalloc.Slab.Header.{SlabHeader, u16}

-- The address of slot `i`, and the slots that the bump pointer has passed.
abbrev pub slot_at : ℕ → SlabHeader → ℕ → ℕ
slot_at base h i = base + h.slots_offset + i * h.slot_size

abbrev pub IsCarved : ℕ → SlabHeader → ℕ → Type 0
IsCarved base h a = (i : ℕ) × (i + h.bump_remaining < h.slot_count) × (a ≡ slot_at base h i)

-- What never changes after `init`: slots of at least eight bytes, behind the header, inside the slab.
pub record IsShape (base size offset number : ℕ) : Type 0 where
  pub at : 0 < base
  pub wide : 8 ≤ size
  pub behind : 72 ≤ offset
  pub inside : offset + number * size ≤ 2 ^ 16
  pub some_slots : 0 < number
  pub few : number < 2 ^ 16
  pub stride : Multiple size offset

-- `frees` are the slots of the local list, `remotes` those of the remote stack, `outs` those that
-- are allocated.
pub record IsSlab (base : ℕ) (w : Words) (h : SlabHeader) (frees remotes outs : List ℕ)
    : Type 0 where
  pub shape : IsShape base h.slot_size h.slots_offset h.slot_count
  pub held : Holds w h.«local» frees
  pub sent : Chain w h.remote remotes
  pub once : (a : ℕ) → count a frees + count a remotes + count a outs ≤ 1
  pub carved : (a : ℕ) → 0 < count a frees + count a remotes + count a outs → IsCarved base h a
  pub counted : length frees + length remotes + length outs + h.bump_remaining ≡ h.slot_count
  pub cursor :
      h.bump_cursor ≡ u16 (h.slots_offset + (h.slot_count - h.bump_remaining) * h.slot_size)
