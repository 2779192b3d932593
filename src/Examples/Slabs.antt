-- ===== src/Examples/Slabs.antt =====
-- The life of one slab of class 15 at address 65536, from `init` to a drain.
use clmalloc.Base.{ℕ, ◌<◌, ◌≡◌, some, true, List, [], ◌∷◌, arith}
use clmalloc.SizeClass.{class_size, next_multiple_of}
use clmalloc.Slab.Links.{Words}
use clmalloc.Slab.Header.{
  SlabHeader, init, alloc, dealloc_local, dealloc_remote, drain_remote, is_fully_free,
}
use clmalloc.Slab.Header.Region.{IsSlab}
use clmalloc.Slab.Header.Init.{init-IsSlab}
use clmalloc.Slab.Header.Ops.{
  next_slot, alloc-free, alloc-bump, dealloc_local-IsSlab, dealloc_remote-IsSlab,
}
use clmalloc.Slab.Header.Ops.Remove.{remove}
use clmalloc.Slab.Header.Lifecycle.{drain_remote-IsSlab, is_fully_free_lem}

abbrev pub blank : Words
blank a = 0

init-IsSlab_example : IsSlab 65536 blank (init 15 7) [] [] []
init-IsSlab_example = init-IsSlab 65536 blank 15 7 (omega arith) (omega arith)

fresh : IsSlab 65536 blank (init 15 7) [] [] []
fresh = init-IsSlab 65536 blank 15 7 (omega arith) (omega arith)

abbrev none_out : List ℕ
none_out = []

is_fully_free_lem_example :
    (is_fully_free (init 15 7) ≡ true → (none_out ≡ []) × (none_out ≡ []))
    × (none_out ≡ [] → none_out ≡ [] → is_fully_free (init 15 7) ≡ true)
is_fully_free_lem_example = is_fully_free_lem fresh

fresh_room : 0 < (init 15 7).bump_remaining
unfolding init class_size next_multiple_of
fresh_room = omega arith

alloc-bump_example :
    (slot : ℕ) × ((alloc 65536 blank (init 15 7)).0 ≡ some slot)
    × (slot ≡ next_slot 65536 (init 15 7))
    × IsSlab 65536 blank (alloc 65536 blank (init 15 7)).1 [] [] (slot ∷ [])
alloc-bump_example = alloc-bump fresh fresh_room

-- The slab with its first slot out.
abbrev pub used : SlabHeader
used = (alloc 65536 blank (init 15 7)).1

pub used-IsSlab : IsSlab 65536 blank used [] [] (65648 ∷ [])
unfolding init class_size next_multiple_of
used-IsSlab =
    let (slot, _, is, s) = alloc-bump fresh fresh_room in
    let this : slot ≡ 65648 = omega (arith, is) in rw this at s

dealloc_local-IsSlab_example :
    IsSlab 65536
      (dealloc_local blank used 65648).0
      (dealloc_local blank used 65648).1
      (65648 ∷ [])
      []
      (remove 65648 (65648 ∷ []))
dealloc_local-IsSlab_example = dealloc_local-IsSlab used-IsSlab 65648 (omega arith)

pub freed :
    IsSlab 65536
      (dealloc_local blank used 65648).0
      (dealloc_local blank used 65648).1
      (65648 ∷ [])
      []
      []
freed = dealloc_local-IsSlab used-IsSlab 65648 (omega arith)

alloc-free_example :
    ((alloc 65536 (dealloc_local blank used 65648).0 (dealloc_local blank used 65648).1).0
      ≡ some 65648)
    × IsSlab 65536
        (dealloc_local blank used 65648).0
        (alloc 65536 (dealloc_local blank used 65648).0 (dealloc_local blank used 65648).1).1
        []
        []
        (65648 ∷ [])
alloc-free_example = alloc-free freed

dealloc_remote-IsSlab_example :
    IsSlab 65536
      (dealloc_remote blank used 65648).0
      (dealloc_remote blank used 65648).1
      []
      (65648 ∷ [])
      (remove 65648 (65648 ∷ []))
dealloc_remote-IsSlab_example = dealloc_remote-IsSlab used-IsSlab 65648 (omega arith)

pub sent :
    IsSlab 65536
      (dealloc_remote blank used 65648).0
      (dealloc_remote blank used 65648).1
      []
      (65648 ∷ [])
      []
sent = dealloc_remote-IsSlab used-IsSlab 65648 (omega arith)

drain_remote-IsSlab_example :
    ((drain_remote (dealloc_remote blank used 65648).0 (dealloc_remote blank used 65648).1).0 ≡ 1)
    × IsSlab 65536
        (drain_remote (dealloc_remote blank used 65648).0 (dealloc_remote blank used 65648).1).1
        (drain_remote (dealloc_remote blank used 65648).0 (dealloc_remote blank used 65648).1).2
        (65648 ∷ [])
        []
        []
drain_remote-IsSlab_example = drain_remote-IsSlab sent
