-- ===== src/Slab/Treiber.antt =====
-- `TreiberStack` of src/slab.rs, run with no other thread in between: the compare-and-swap finds the
-- head that was loaded. `Interleave` has pushes and drains one memory access at a time.
pub mod Laws
pub mod Interleave
use clmalloc.Base.{ℕ, Bool, ◌==◌}
use clmalloc.Slab.Links.{Words, null, read_next, write_next}

-- `TreiberStack::new`
abbrev pub new_stack : ℕ
new_stack = null

abbrev pub is_empty : ℕ → Bool
is_empty head = head == null

-- The new memory and head.
unfoldable pub push : Words → ℕ → ℕ → Words × ℕ
push w head slot = (write_next w slot head, slot)

-- A chain that is already linked from `first` to `last` goes on in one exchange.
unfoldable pub push_chain : Words → ℕ → ℕ → ℕ → Words × ℕ
push_chain w head first last = (write_next w last head, first)

-- The chain that was taken, and the head that is left.
abbrev pub swap_drain : ℕ → ℕ × ℕ
swap_drain head = (head, null)
