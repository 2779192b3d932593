-- ===== src/Slab/Header/Spec.antt =====
-- The contract of `Slab` of src/slab.rs: an abstract store of slots, and sequences of calls on a slab.
use mathlib.Core.List.{reverse_aux}
use clmalloc.Base.{
  ℕ, suc, ◌+◌, ◌<◌, ◌≡◌, ◌∙◌, refl, inl, inr, Option, none, some, List, [], ◌∷◌, arith, ltb, length,
  Bool-cases,
}
use clmalloc.Slab.Links.{Words, count}
use clmalloc.Slab.Header.{
  SlabHeader, init, alloc, bump, dealloc_local, dealloc_remote, drain_remote,
}
use clmalloc.Slab.FreeList.{pop}
use clmalloc.Slab.Header.Region.{IsSlab}
use clmalloc.Slab.Header.Init.{init-IsSlab}
use clmalloc.Slab.Header.Frame.{alloc-room}
use clmalloc.Slab.Header.Ops.{alloc-full, dealloc_local-IsSlab, dealloc_remote-IsSlab}
use clmalloc.Slab.Header.Ops.Remove.{remove}
use clmalloc.Slab.Header.Lifecycle.{drain_remote-IsSlab}

-- The calls on a slab, by its owner and by other threads.
pub data Call : Type 0 where
  allocate : Call
  free_local : ℕ → Call
  free_remote : ℕ → Call
  drain : Call

abbrev pub Memory : Type 0
Memory = Words × SlabHeader

abbrev pub perform : ℕ → Call → Memory → Option ℕ × Memory
perform base allocate (w, h) = ((alloc base w h).0, (w, (alloc base w h).1))
perform base (free_local ptr) (w, h) = (none, dealloc_local w h ptr)
perform base (free_remote ptr) (w, h) = (none, dealloc_remote w h ptr)
perform base drain (w, h) = (none, ((drain_remote w h).1, (drain_remote w h).2))

-- The results of the calls, in order.
abbrev pub perform_all : ℕ → List Call → Memory → List (Option ℕ)
perform_all base [] m = []
perform_all base (c ∷ calls) m = (perform base c m).0 ∷ perform_all base calls (perform base c m).1

-- The allocated slots, in no order that the calls depend on, and the number of those that other threads
-- freed and the owner has not drained.
pub record Store : Type 0 where
  pub outs : List ℕ
  pub sent : ℕ

-- A store of `size` slots: an allocation gives a slot that is not allocated, or nothing when no slot is
-- left but those still to drain; a free takes an allocated slot back.
pub data StoreStep (size : ℕ) : Call → Option ℕ → Store → Store → Type 0 where
  gives :
      (outs : List ℕ) (sent slot : ℕ)
      → count slot outs ≡ 0
      → length outs + sent < size
      → StoreStep size allocate
          (some slot)
          (record { outs = outs; sent = sent })
          (record { outs = slot ∷ outs; sent = sent })
  refuses :
      (outs : List ℕ) (sent : ℕ)
      → length outs + sent ≡ size
      → StoreStep size allocate none
          (record { outs = outs; sent = sent })
          (record { outs = outs; sent = sent })
  takes_back :
      (outs : List ℕ) (sent ptr : ℕ)
      → 0 < count ptr outs
      → StoreStep size
          (free_local ptr)
          none
          (record { outs = outs; sent = sent })
          (record { outs = remove ptr outs; sent = sent })
  is_sent :
      (outs : List ℕ) (sent ptr : ℕ)
      → 0 < count ptr outs
      → StoreStep size
          (free_remote ptr)
          none
          (record { outs = outs; sent = sent })
          (record { outs = remove ptr outs; sent = suc sent })
  collects :
      (outs : List ℕ) (sent : ℕ)
      → StoreStep size drain none
          (record { outs = outs; sent = sent })
          (record { outs = outs; sent = 0 })

pub data StoreRun (size : ℕ) : List Call → List (Option ℕ) → Store → Type 0 where
  done : (s : Store) → StoreRun size [] [] s
  next :
      (c : Call) (calls : List Call) (r : Option ℕ) (results : List (Option ℕ)) (s t : Store)
      → StoreStep size c r s t
      → StoreRun size calls results t
      → StoreRun size (c ∷ calls) (r ∷ results) s

-- What a caller may free, and what it holds after a call, given what the calls have returned.
abbrev pub Allowed : Call → List ℕ → Type 0
Allowed allocate outs = Unit {0}
Allowed (free_local ptr) outs = 0 < count ptr outs
Allowed (free_remote ptr) outs = 0 < count ptr outs
Allowed drain outs = Unit {0}

abbrev pub holds_after : Call → Option ℕ → List ℕ → List ℕ
holds_after allocate (some slot) outs = slot ∷ outs
holds_after allocate none outs = outs
holds_after (free_local ptr) r outs = remove ptr outs
holds_after (free_remote ptr) r outs = remove ptr outs
holds_after drain r outs = outs

-- The caller frees only what it holds.
abbrev pub Behaves : ℕ → List Call → Memory → List ℕ → Type 0
Behaves base [] m outs = Unit {0}
Behaves base (c ∷ calls) m outs =
    Allowed c outs
    × Behaves base calls (perform base c m).1 (holds_after c (perform base c m).0 outs)

-- Where a call leaves the slab.
abbrev Performed : ℕ → Call → Memory → List ℕ → List ℕ → Type 0
Performed base c m remotes outs =
    (frees' remotes' : List ℕ) × StoreStep (m.1.slot_count) c (perform base c m).0
      (record { outs = outs; sent = length remotes })
      (record { outs = holds_after c (perform base c m).0 outs; sent = length remotes' })
    × IsSlab base (perform base c m).1.0 (perform base c m).1.1 frees' remotes'
        (holds_after c (perform base c m).0 outs)
    × ((perform base c m).1.1.slot_count ≡ m.1.slot_count)

alloc-slot_count :
    (base : ℕ) (w : Words) (h : SlabHeader) → (alloc base w h).1.slot_count ≡ h.slot_count
unfolding alloc bump pop
alloc-slot_count base w h = ground arith

length_zero : (xs : List ℕ) → length xs ≡ 0 → xs ≡ []
length_zero [] e = refl
length_zero (x ∷ xs) e = absurd (omega arith)

perform-allocate :
    (base : ℕ) (w : Words) (h : SlabHeader) (frees remotes outs : List ℕ)
    → IsSlab base w h frees remotes outs
    → Performed base allocate (w, h) remotes outs
perform-allocate base w h frees remotes outs s =
    elim (Bool-cases (ltb 0 (length frees + h.bump_remaining))) [
      | inl e ↦
          let (slot, frees', got, after) = alloc-room frees s (ground arith) in
          let fresh : count slot outs ≡ 0 = ground (arith, after.once slot) in
          rw got (
            frees',
            remotes,
            gives outs (length remotes) slot fresh (ground (arith, s.counted)),
            after,
            alloc-slot_count base w h,
          )
      | inr e ↦
          let s' = rw (length_zero frees (ground arith)) at s in
          let full = alloc-full s' (ground arith) in
          rw full ([], remotes, refuses outs (length remotes) (ground (arith, s.counted)), s', refl)
    ]

perform-Performed :
    (base : ℕ) (c : Call) (w : Words) (h : SlabHeader) (frees remotes outs : List ℕ)
    → IsSlab base w h frees remotes outs
    → Allowed c outs
    → Performed base c (w, h) remotes outs
unfolding dealloc_local dealloc_remote drain_remote
perform-Performed base allocate w h frees remotes outs s ok =
    perform-allocate base w h frees remotes outs s
perform-Performed base (free_local ptr) w h frees remotes outs s ok = (
  ptr ∷ frees,
  remotes,
  takes_back outs (length remotes) ptr ok,
  dealloc_local-IsSlab s ptr ok,
  refl,
)
perform-Performed base (free_remote ptr) w h frees remotes outs s ok = (
  frees,
  ptr ∷ remotes,
  is_sent outs (length remotes) ptr ok,
  dealloc_remote-IsSlab s ptr ok,
  refl,
)
perform-Performed base drain w h frees remotes outs s ok =
    (reverse_aux remotes frees, [], collects outs (length remotes), (drain_remote-IsSlab s).1, refl)

StoreStep-size :
    {c : Call} {r : Option ℕ} {s t : Store} (size size' : ℕ)
    → size ≡ size'
    → StoreStep size c r s t
    → StoreStep size' c r s t
StoreStep-size size size' e step = rw e at step

-- Any calls of a caller that frees only what it holds are a run of the abstract store.
perform_all-run :
    (base : ℕ) (calls : List Call) (w : Words) (h : SlabHeader) (size : ℕ)
    (frees remotes outs : List ℕ)
    → IsSlab base w h frees remotes outs
    → h.slot_count ≡ size
    → Behaves base calls (w, h) outs
    → StoreRun size calls
        (perform_all base calls (w, h))
        (record { outs = outs; sent = length remotes })
perform_all-run base [] w h size frees remotes outs s same ok = done _
perform_all-run base (c ∷ calls) w h size frees remotes outs s same (allowed, ok) =
    let (frees', remotes', step, s', kept) =
      perform-Performed base c w h frees remotes outs s allowed in
    next c calls (perform base c (w, h)).0 _ _ _ (StoreStep-size h.slot_count size same step) (
      perform_all-run base calls (perform base c (w, h)).1.0 (perform base c (w, h)).1.1 size frees'
        remotes' (holds_after c (perform base c (w, h)).0 outs) s' (kept ∙ same) ok)

-- A new slab of a class refines the abstract store of as many slots: whatever calls its owner and other
-- threads make, as long as they free only what they hold, their results are those of a run of the store.
pub perform_all-StoreRun :
    (base : ℕ) (w : Words) (class heap_id : ℕ) (calls : List Call)
    → 0 < base
    → class < 49
    → Behaves base calls (w, init class heap_id) []
    → StoreRun
        ((init class heap_id).slot_count)
        calls
        (perform_all base calls (w, init class heap_id))
        (record { outs = []; sent = 0 })
perform_all-StoreRun base w class heap_id calls pos known ok =
    perform_all-run base calls w (init class heap_id) ((init class heap_id).slot_count) [] [] []
      (init-IsSlab base w class heap_id pos known) refl ok
