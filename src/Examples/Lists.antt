-- ===== src/Examples/Lists.antt =====
-- A list of two slabs, a free list and a chain, built by the operations.
use clmalloc.Base.{◌≡◌, refl, some, [], ◌∷◌, arith}
use clmalloc.Base.Fun.{update}
use clmalloc.Slab.Links.{Words, null, Chain}
use clmalloc.Slab.Treiber.{push_chain}
use clmalloc.Slab.Treiber.Laws.{push_chain-Chain}
use clmalloc.Slab.Header.{nowhere, init}
use clmalloc.Slab.Header.Ops.Remove.{remove}
use clmalloc.Slab.Queue.{
  Nodes, next_link, prev_link, slab_list_push, slab_list_pop, slab_list_remove,
}
use clmalloc.Slab.Queue.Linked.{IsQueue}
use clmalloc.Slab.Queue.Laws.{push-IsQueue, pop-IsQueue}
use clmalloc.Slab.Queue.Removal.{remove-IsQueue}

-- Three fresh slabs, at the addresses 65536, 131072 and so on, and empty lists.
abbrev nodes : Nodes
nodes = record { header = λ base. init 15 7; cell = λ c. 0 }

none-IsQueue : IsQueue nodes 1 []
none-IsQueue = record { links = refl; once = λ a. omega arith }

abbrev one : Nodes
one = slab_list_push nodes 1 65536

push-IsQueue_example : IsQueue one 1 (65536 ∷ [])
push-IsQueue_example = push-IsQueue nodes 1 65536 [] none-IsQueue (omega arith) (omega arith)

one-IsQueue : IsQueue one 1 (65536 ∷ [])
one-IsQueue = push-IsQueue nodes 1 65536 [] none-IsQueue (omega arith) (omega arith)

abbrev two : Nodes
two = slab_list_push one 1 131072

two-IsQueue : IsQueue two 1 (131072 ∷ 65536 ∷ [])
two-IsQueue = push-IsQueue one 1 131072 (65536 ∷ []) one-IsQueue (omega arith) (omega arith)

pop-IsQueue_example :
    ((slab_list_pop two 1).0 ≡ some 131072)
    × IsQueue (slab_list_pop two 1).1 1 (65536 ∷ [])
    × (next_link (slab_list_pop two 1).1 131072 ≡ null)
    × (prev_link (slab_list_pop two 1).1 131072 ≡ nowhere)
pop-IsQueue_example = pop-IsQueue two 1 131072 (65536 ∷ []) two-IsQueue

remove-IsQueue_example :
    IsQueue (slab_list_remove two 65536) 1 (remove 65536 (131072 ∷ 65536 ∷ []))
    × (next_link (slab_list_remove two 65536) 65536 ≡ null)
    × (prev_link (slab_list_remove two 65536) 65536 ≡ nowhere)
remove-IsQueue_example = remove-IsQueue two 1 65536 (131072 ∷ 65536 ∷ []) two-IsQueue (omega arith)

-- The stack holds 16; the slots 32 and 48 are linked.
abbrev words : Words
words = update (λ a. 0) 32 48

push_chain-Chain_example :
    Chain (push_chain words 16 32 48).0 (push_chain words 16 32 48).1 (32 ∷ 48 ∷ 16 ∷ [])
push_chain-Chain_example =
    push_chain-Chain words 16 32 48 (32 ∷ []) (16 ∷ []) (refl, omega arith, refl)
      (refl, omega arith, (refl, omega arith)) (omega arith) (omega arith)
