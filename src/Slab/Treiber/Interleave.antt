-- ===== src/Slab/Treiber/Interleave.antt =====
-- `TreiberStack::push` and the drain of src/slab.rs, one access to the shared memory at a time, by any
-- number of threads that push and the owner that drains. Memory is sequentially consistent: the
-- orderings Release and Acquire of the source are not modelled.
pub mod Invariant
pub mod Moves
pub mod Delivery
use clmalloc.Base.{ℕ, ◌≡◌, ◌≢◌, List, [], ◌∷◌}
use clmalloc.Base.Fun.{update}
use clmalloc.Slab.Links.{Words, null, count, read_next, write_next}

-- Where a thread stands in `push`: outside, with the head loaded, or with the link written and the
-- compare-and-swap to come. Each state has the slot and the local variable `head`.
pub data Pc : Type 0 where
  idle : Pc
  loaded : (slot head : ℕ) → Pc
  linked : (slot head : ℕ) → Pc

-- The slot that a thread is pushing, null for none.
abbrev pub slot_of : Pc → ℕ
slot_of idle = null
slot_of (loaded slot head) = slot
slot_of (linked slot head) = slot

-- The memory, the head of the stack, and where each thread stands; the owner's variable `cursor` and
-- the head of its free list. `pushed` and `received` are the slots that were pushed, and those that
-- the owner has walked past, the latest first.
pub record Remote : Type 0 where
  pub words : Words
  pub head : ℕ
  pub pc : ℕ → Pc
  pub cursor : ℕ
  pub free_list : ℕ
  pub pushed : List ℕ
  pub received : List ℕ

-- Nobody pushes the slot, and the owner has received it as often as it was pushed: it belongs to the
-- program.
pub record IsOutside (s : Remote) (slot : ℕ) : Type 0 where
  pub not_null : slot ≢ null
  pub returned : count slot s.pushed ≡ count slot s.received
  pub not_pushing : (u : ℕ) → slot_of (s.pc u) ≢ slot

-- The steps of a thread in `push`.
pub data PushStep (s : Remote) : Remote → Type 0 where
  -- `push` is called for a slot of the program, and loads the head.
  load :
      (t slot : ℕ)
      → s.pc t ≡ idle
      → IsOutside s slot
      → PushStep s (record s { pc = update s.pc t (loaded slot s.head) })
  -- `write_next(slot, head)`
  link :
      (t slot head : ℕ)
      → s.pc t ≡ loaded slot head
      → PushStep s
          (record s { words = write_next s.words slot head; pc = update s.pc t (linked slot head) })
  -- The compare-and-swap finds the head that was loaded.
  exchange :
      (t slot head : ℕ)
      → s.pc t ≡ linked slot head
      → s.head ≡ head
      → PushStep s (record s { head = slot; pc = update s.pc t idle; pushed = slot ∷ s.pushed })
  -- It fails, for another head or spuriously, and the loop goes on with the head that it found.
  retry :
      (t slot head : ℕ)
      → s.pc t ≡ linked slot head
      → PushStep s (record s { pc = update s.pc t (loaded slot s.head) })

-- The steps of the owner in `drain_remote`.
pub data DrainStep (s : Remote) : Remote → Type 0 where
  -- The owner, between two drains, takes the whole chain.
  swap : s.cursor ≡ null → DrainStep s (record s { head = null; cursor = s.head })
  -- One round of the owner's loop: read the link, push the slot on the free list, move on.
  take :
      s.cursor ≢ null
      → DrainStep s (record s {
        words = write_next s.words s.cursor s.free_list;
        cursor = read_next s.words s.cursor;
        free_list = s.cursor;
        received = s.cursor ∷ s.received;
      })

-- A step of the whole: of some thread, of the owner, or a write of the program into a slot that is
-- outside.
pub data Step (s : Remote) : Remote → Type 0 where
  by_push : {t : Remote} → PushStep s t → Step s t
  by_owner : {t : Remote} → DrainStep s t → Step s t
  write : (slot v : ℕ) → IsOutside s slot → Step s (record s { words = update s.words slot v })

-- An empty stack, and no thread at work.
abbrev pub start : Words → Remote
start words = record {
  words = words;
  head = null;
  pc = λ t. idle;
  cursor = null;
  free_list = null;
  pushed = [];
  received = [];
}

pub data Reach (words : Words) : Remote → Type 0 where
  here : Reach words (start words)
  later : {s t : Remote} → Reach words s → Step s t → Reach words t
