-- ===== src/Slab/Treiber/Interleave/Invariant.antt =====
-- What holds between the steps of the pushing threads and of the owner.
use clmalloc.Base.{
  ℕ, ◌+◌, ◌≤◌, ◌≡◌, ◌≢◌, refl, sym, List, [], ◌∷◌, arith, ◌==◌, Bool-cases, inl, inr,
}
use clmalloc.Base.Fun.{update}
use clmalloc.Slab.Links.{Words, null, count, Chain}
use clmalloc.Slab.Treiber.Interleave.{Pc, idle, loaded, linked, slot_of, Remote}

-- What a thread knows of the slot that it pushes.
abbrev pub IsWritten : Words → Pc → Type 0
IsWritten w idle = Unit
IsWritten w (loaded slot head) = slot ≢ null
IsWritten w (linked slot head) = (slot ≢ null) × (w slot ≡ head)

-- `stack` are the slots on the stack, `rest` those that the owner has taken and not yet walked past.
pub record IsRemote (s : Remote) (stack rest : List ℕ) : Type 0 where
  pub stacked : Chain s.words s.head stack
  pub taken : Chain s.words s.cursor rest
  pub once : (a : ℕ) → count a stack + count a rest ≤ 1
  pub apart : (t : ℕ) → count (slot_of (s.pc t)) stack + count (slot_of (s.pc t)) rest ≡ 0
  pub alone : (t u : ℕ) → t ≢ u → slot_of (s.pc t) ≡ slot_of (s.pc u) → slot_of (s.pc t) ≡ null
  pub written : (t : ℕ) → IsWritten s.words (s.pc t)
  pub kept : (a : ℕ) → count a s.pushed ≡ count a stack + count a rest + count a s.received

-- No chain holds null.
pub count-null : (w : Words) (p : ℕ) (xs : List ℕ) → Chain w p xs → count null xs ≡ 0
count-null w p [] c = refl
count-null w p (x ∷ xs) c = ground (arith, count-null w (w x) xs c.2)

pub Chain-null : (w : Words) (xs : List ℕ) → Chain w null xs → xs ≡ []
Chain-null w [] c = refl
Chain-null w (x ∷ xs) c = absurd (c.1 (sym c.0))

-- A write elsewhere does not change what a thread knows.
pub IsWritten-update :
    (w : Words) (a v : ℕ) (p : Pc) → IsWritten w p → slot_of p ≢ a → IsWritten (update w a v) p
IsWritten-update w a v idle i ne = tt
IsWritten-update w a v (loaded slot head) i ne = i
IsWritten-update w a v (linked slot head) i ne = ground arith

-- What holds for a thread's new state and for the other threads holds for all.
pub updated :
    (P : Pc → Type 0) (f : ℕ → Pc) (t : ℕ) (p : Pc)
    → P p
    → ((u : ℕ) → u ≢ t → P (f u))
    → (u : ℕ) → P (update f t p u)
updated P f t p new old u = elim (Bool-cases (u == t)) [
  | inl e ↦ rw e new
  | inr e ↦ rw e (old u (ground arith))
]
