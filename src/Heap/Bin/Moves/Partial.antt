-- ===== src/Heap/Bin/Moves/Partial.antt =====
-- A slab of the partial list that an operation on its slots rewrites, there or on its way out of the list.
use clmalloc.Base.{
  ℕ, false, ◌+◌, ◌≤◌, ◌<◌, ◌≡◌, ◌∙◌, refl, inl, inr, List, [], ◌∷◌, length, arith, ◌==◌, Bool-cases,
}
use clmalloc.Base.Fun.{update}
use clmalloc.Slab.Links.{Words, count}
use clmalloc.Slab.Header.{SlabHeader}
use clmalloc.Slab.Header.Ops.Remove.{remove, count-remove}
use clmalloc.Slab.Queue.{Nodes, slab_list_remove}
use clmalloc.Slab.Queue.Removal.{remove-IsQueue}
use clmalloc.Slab.Queue.Frame.{remove-frame}
use clmalloc.Slab.Queue.Bodies.{remove-SameBodies}
use clmalloc.Heap.State.{Heap, full_cell, partial_cell}
use clmalloc.Heap.Bin.{Beside, Slots, Ledger, room, owned, Untouched, IsBin}
use clmalloc.Slab.Queue.Apart.{remove-apart, remove-heads}
use clmalloc.Heap.Bin.Rest.{Untouched-step, Untouched-links, not_beside}
use clmalloc.Heap.Bin.Store.{put_header, IsStore-sub, IsStore-links, IsStore-write}
use clmalloc.Heap.Bin.Moves.{Rewrites, IsQueue-write, room-same}

module _ {f : Beside} {h : Heap} {class : ℕ} {w : Words} {n : Nodes} {g : Ledger}
    {active partial full : List ℕ} (b : ℕ) (v : Words) (hd : SlabHeader) (t : Slots)
    (i : IsBin f h class w n g active [] partial full) (mem : 0 < count b partial)
    (r : Rewrites h.id w v n b hd t) where
  abbrev n1 : Nodes
  n1 = put_header n b hd

  abbrev g1 : Ledger
  g1 = update g b t

  room-other : (a : ℕ) → (a == b) ≡ false → room n1 g1 a ≡ room n g a
  room-other a apart = rw apart refl

  beside_write : Untouched f h class v n1 g1 (owned active [] partial full)
  beside_write =
      Untouched-step i.beside b v n1 g1 (owned active [] partial full)
        (not_beside i.beside b (omega arith)) (i.store.aligned b (omega arith)) r.far
        (λ a ne. omega arith) (λ a real ne out. ground arith) (λ c ne ne'. refl)
        (λ a ne. ground arith)

  pub write_partial :
      0 < length t.frees + hd.bump_remaining → IsBin f h class v n1 g1 active [] partial full
  write_partial left = record {
    store =
        IsStore-write i.store b v hd t (i.store.aligned b (omega arith)) r.far r.slab r.mine
          (r.index ∙ i.store.indexed b (omega arith));
    current = i.current;
    partials = IsQueue-write n (partial_cell h class) b hd partial i.partials r.next r.prev;
    fulls = IsQueue-write n (full_cell h class) b hd full i.fulls r.next r.prev;
    once = i.once;
    ready = λ a has. elim (Bool-cases (a == b)) [
      | inl e ↦ rw e left
      | inr e ↦ omega (arith, room-other a e, i.ready a has)
    ];
    spent = λ a has.
        let apart : (a == b) ≡ false = ground (arith, i.once a) in
        room-other a apart ∙ i.spent a has;
    beside = beside_write;
  }

  pub take_partial :
      IsBin f h class v (slab_list_remove n1 b) g1 active (b ∷ []) (remove b partial) full
  take_partial =
      let n' = slab_list_remove n1 b in
      let same = remove-SameBodies n1 b in
      let p1 = IsQueue-write n (partial_cell h class) b hd partial i.partials r.next r.prev in
      let f1 = IsQueue-write n (full_cell h class) b hd full i.fulls r.next r.prev in
      let less : (a : ℕ)
          → owned active (b ∷ []) (remove b partial) full a ≤ owned active [] partial full a =
        λ a. omega (arith, count-remove b partial a mem) in
      let s1 =
        IsStore-write i.store b v hd t (i.store.aligned b (omega arith)) r.far r.slab r.mine
          (r.index ∙ i.store.indexed b (omega arith)) in
      record {
        store =
            IsStore-links (IsStore-sub s1 (owned active (b ∷ []) (remove b partial) full) less) n'
              same;
        current = i.current;
        partials = (remove-IsQueue n1 (partial_cell h class) b partial p1 mem).0;
        fulls =
            remove-frame n1 (partial_cell h class) (full_cell h class) b partial full p1 f1
              (omega arith) mem (λ a. omega (arith, i.once a));
        once = λ a. omega (arith, i.once a, less a);
        ready = λ a has.
            let apart : (a == b) ≡ false = ground (arith, i.once a, count-remove b partial a mem) in
            omega (
              arith,
              room-same n1 n' g1 a same,
              room-other a apart,
              i.ready a (omega (arith, count-remove b partial a mem)),
            );
        spent = λ a has.
            let apart : (a == b) ≡ false = ground (arith, i.once a) in
            room-same n1 n' g1 a same ∙ room-other a apart ∙ i.spent a has;
        beside =
            Untouched-links beside_write n' (owned active (b ∷ []) (remove b partial) full) less
              (λ a real out.
                remove-apart n1 (partial_cell h class) b a partial p1 mem real (omega arith))
              (λ c ne ne'. remove-heads n1 (partial_cell h class) b c partial p1 mem ne');
      }
