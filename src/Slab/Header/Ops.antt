-- ===== src/Slab/Header/Ops.antt =====
-- Allocating and freeing slots keep the invariant, and say which slot moves where.
pub mod Remove
use Remove.{remove, count-remove, length-remove}
use clmalloc.Base.{
  ℕ, zero, suc, ◌+◌, ◌-◌, ◌*◌, ◌%◌, ◌^◌, ◌≤◌, ◌<◌, ◌≡◌, ◌≢◌, ◌∙◌, ap, refl, none, some, List, [],
  ◌∷◌, arith, ltb, ◌==◌, if◌then◌else◌, length, inl, inr, true, Bool-cases, ltb→lt,
}
use clmalloc.Slab.Links.{Words, null, count, Chain, Chain-update}
use clmalloc.Slab.FreeList.{pop}
use clmalloc.Slab.FreeList.Laws.{Holds, pop-cons, pop-nil, push-cons, push-keeps}
use clmalloc.Slab.Treiber.Laws.{push-Chain, remote_push-keeps}
use clmalloc.Slab.Header.{SlabHeader, u16, alloc, bump, dealloc_local, dealloc_remote}
use clmalloc.Slab.Header.Region.{slot_at, IsCarved, IsShape, IsSlab}

pub mul_gap : (a b q : ℕ) → a < b → a * q + q ≤ b * q
mul_gap a b q h = grind arith

-- A carved slot is no null pointer, and lies wholly inside the slab and behind its header.
pub IsCarved-bounds :
    {base : ℕ} (h : SlabHeader) (a : ℕ)
    → IsShape base h.slot_size h.slots_offset h.slot_count
    → IsCarved base h a
    → (base + 72 ≤ a) × (a + h.slot_size ≤ base + 2 ^ 16)
IsCarved-bounds h a shape (i, lt, is) =
    let gap = mul_gap i h.slot_count h.slot_size (omega arith) in
    (omega (arith, shape.behind, is), omega (arith, gap, shape.inside, is))

slot_at-injective :
    (base : ℕ) (h : SlabHeader) (i j : ℕ)
    → 8 ≤ h.slot_size
    → i < j
    → slot_at base h i ≢ slot_at base h j
slot_at-injective base h i j wide lt e = absurd (omega (arith, mul_gap i j h.slot_size lt))

-- The first slot that is not carved yet.
abbrev pub next_slot : ℕ → SlabHeader → ℕ
next_slot base h = slot_at base h (h.slot_count - h.bump_remaining)

module _ {base : ℕ} {w : Words} {h : SlabHeader} where
  -- A slot on the free list is handed out first, also while slots are left to carve, and nothing is carved.
  pub alloc-free :
      {x : ℕ} {frees remotes outs : List ℕ}
      → IsSlab base w h (x ∷ frees) remotes outs
      → ((alloc base w h).0 ≡ some x) × IsSlab base w (alloc base w h).1 frees remotes (x ∷ outs)
  unfolding alloc
  alloc-free {x} {frees} {remotes} {outs} s =
      let (got, kept) =
        pop-cons w h.«local» x frees s.held
          (omega (arith, s.held.counted, s.counted, s.shape.few)) in
      rw (got, alloc)
        (
          refl,
          record {
            shape = s.shape;
            held = kept;
            sent = s.sent;
            once = λ a. omega (arith, s.once a);
            carved = λ a p. s.carved a (omega arith);
            counted = omega (arith, s.counted);
            cursor = s.cursor;
          },
        )

  -- The cursor stands at the first slot that is not carved yet.
  cursor-next_slot :
      {frees remotes outs : List ℕ}
      → IsSlab base w h frees remotes outs
      → 0 < h.bump_remaining
      → base + h.bump_cursor ≡ next_slot base h
  cursor-next_slot s pos =
      let next = h.slot_count - h.bump_remaining in
      let gap = mul_gap next h.slot_count h.slot_size (omega (arith, s.counted)) in
      omega (arith, s.cursor, gap, s.shape.inside, s.shape.wide)

  -- That slot is in no list.
  next_slot-fresh :
      {frees remotes outs : List ℕ}
      → IsSlab base w h frees remotes outs
      → 0 < h.bump_remaining
      → (a : ℕ) → a ≡ next_slot base h
      → count a frees + count a remotes + count a outs ≡ 0
  next_slot-fresh {frees} {remotes} {outs} s pos a is =
      elim (Bool-cases (ltb 0 (count a frees + count a remotes + count a outs))) [
        | inl e ↦
            let (i, lt, at) = s.carved a (ltb→lt _ _ e) in
            absurd (
              slot_at-injective base h i (h.slot_count - h.bump_remaining) s.shape.wide
                (omega arith) (omega (arith, is, at)))
        | inr e ↦ ground arith
      ]

  -- With the free list empty and slots left to carve, the next slot of the bump region is carved.
  pub alloc-bump :
      {remotes outs : List ℕ}
      → IsSlab base w h [] remotes outs
      → 0 < h.bump_remaining
      → (slot : ℕ) × ((alloc base w h).0 ≡ some slot)
        × (slot ≡ next_slot base h)
        × IsSlab base w (alloc base w h).1 [] remotes (slot ∷ outs)
  unfolding alloc bump
  alloc-bump {remotes} {outs} s pos =
      let empty = pop-nil w h.«local» s.held in
      let open_end : ltb 0 h.bump_remaining ≡ true = ground arith in
      let is = cursor-next_slot s pos in
      let new = next_slot-fresh s pos (base + h.bump_cursor) is in
      let step : h.slot_count - (h.bump_remaining - 1) ≡ suc (h.slot_count - h.bump_remaining) =
        omega (arith, s.counted) in
      let more : (h.slot_count - (h.bump_remaining - 1)) * h.slot_size
          ≡ (h.slot_count - h.bump_remaining) * h.slot_size + h.slot_size =
        rw step (omega arith) in
      rw (empty, alloc, open_end)
        (
          base + h.bump_cursor,
          refl,
          is,
          record {
            shape = s.shape;
            held = s.held;
            sent = s.sent;
            once = λ a. ground (arith, s.once a);
            carved = λ a p. elim (Bool-cases (a == base + h.bump_cursor)) [
              | inl e ↦
                  let this : a ≡ base + h.bump_cursor = ground arith in
                  (h.slot_count - h.bump_remaining, omega (arith, s.counted), this ∙ is)
              | inr e ↦ let (i, lt, at) = s.carved a (ground arith) in (i, omega arith, at)
            ];
            counted = omega (arith, s.counted);
            cursor = omega (arith, s.cursor, more);
          },
        )

  -- When no slot is free and none is left to carve, nothing is allocated and nothing changes.
  pub alloc-full :
      {remotes outs : List ℕ}
      → IsSlab base w h [] remotes outs
      → h.bump_remaining ≡ 0
      → alloc base w h ≡ (none, h)
  unfolding alloc bump
  alloc-full s full = rw (pop-nil w h.«local» s.held, alloc) (ground arith)

  -- What `dealloc_local` and `dealloc_remote` need of the freed slot.
  out-fresh :
      {frees remotes outs : List ℕ}
      → IsSlab base w h frees remotes outs
      → (ptr : ℕ) → 0 < count ptr outs
      → (count ptr frees ≡ 0)
        × (count ptr remotes ≡ 0)
        × (ptr ≢ null)
        × (length frees + length remotes < h.slot_count)
  out-fresh {frees} {remotes} {outs} s ptr out =
      let (low, high) = IsCarved-bounds h ptr s.shape (s.carved ptr (omega arith)) in
      (
        omega (arith, s.once ptr),
        omega (arith, s.once ptr),
        omega (arith, low),
        omega (arith, length-remove ptr outs out, s.counted),
      )

  -- Freeing an allocated slot locally puts it on the free list.
  pub dealloc_local-IsSlab :
      {frees remotes outs : List ℕ}
      → IsSlab base w h frees remotes outs
      → (ptr : ℕ) → 0 < count ptr outs
      → IsSlab base
          (dealloc_local w h ptr).0
          (dealloc_local w h ptr).1
          (ptr ∷ frees)
          remotes
          (remove ptr outs)
  unfolding dealloc_local
  dealloc_local-IsSlab {frees} {remotes} {outs} s ptr out =
      let (new, apart, some_ptr, room) = out-fresh s ptr out in
      record {
        shape = s.shape;
        held =
            push-cons w h.«local» ptr frees s.held some_ptr new (omega (arith, room, s.shape.few));
        sent = push-keeps w h.«local» ptr h.remote remotes s.sent apart;
        once = λ a. ground (arith, s.once a, count-remove ptr outs a out);
        carved = λ a p. s.carved a (ground (arith, count-remove ptr outs a out));
        counted = omega (arith, s.counted, length-remove ptr outs out);
        cursor = s.cursor;
      }

  -- Freeing an allocated slot from another thread puts it on the remote stack.
  pub dealloc_remote-IsSlab :
      {frees remotes outs : List ℕ}
      → IsSlab base w h frees remotes outs
      → (ptr : ℕ) → 0 < count ptr outs
      → IsSlab base
          (dealloc_remote w h ptr).0
          (dealloc_remote w h ptr).1
          frees
          (ptr ∷ remotes)
          (remove ptr outs)
  unfolding dealloc_remote
  dealloc_remote-IsSlab {frees} {remotes} {outs} s ptr out =
      let (apart, new, some_ptr, room) = out-fresh s ptr out in
      record {
        shape = s.shape;
        held = record {
          chain = remote_push-keeps w h.remote ptr h.«local».head frees s.held.chain apart;
          counted = s.held.counted;
        };
        sent = push-Chain w h.remote ptr remotes s.sent some_ptr new;
        once = λ a. ground (arith, s.once a, count-remove ptr outs a out);
        carved = λ a p. s.carved a (ground (arith, count-remove ptr outs a out));
        counted = omega (arith, s.counted, length-remove ptr outs out);
        cursor = s.cursor;
      }
