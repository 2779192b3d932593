-- ===== src/Heap/Bin/Moves/Remote.antt =====
-- A slot freed by a thread that does not own its slab (src/heap.rs, src/slab.rs): the slab keeps its place.
use clmalloc.Base.{
  ℕ, ◌+◌, ◌<◌, ◌≡◌, ◌∙◌, refl, inl, inr, List, [], ◌∷◌, length, arith, ◌==◌, Bool-cases,
}
use clmalloc.Base.Fun.{update}
use clmalloc.Slab.Links.{Words, count}
use clmalloc.Slab.Treiber.{push}
use clmalloc.Slab.Header.{SlabHeader, dealloc_remote}
use clmalloc.Slab.Header.Ops.{IsCarved-bounds, dealloc_remote-IsSlab}
use clmalloc.Slab.Header.Ops.Remove.{remove}
use clmalloc.Slab.Queue.{Nodes}
use clmalloc.Pool.State.{Machine}
use clmalloc.Heap.State.{Heap, header_at, full_cell, partial_cell}
use clmalloc.Heap.Bin.{Beside, Slots, Ledger, SlabIs, room, owned, IsBin}
use clmalloc.Heap.Bin.Rest.{Untouched-step, not_beside}
use clmalloc.Heap.Bin.Store.{put_header, IsStore-write}
use clmalloc.Heap.Bin.Moves.{Rewrites, IsQueue-write}

-- An operation that leaves a slab as many slots to allocate leaves it in its place, whichever that is.
pub write_same_room :
    {f : Beside} {h : Heap} {class : ℕ} {w : Words} {n : Nodes} {g : Ledger}
    {active partial full : List ℕ} (b : ℕ) (v : Words) (hd : SlabHeader) (t : Slots)
    → IsBin f h class w n g active [] partial full
    → 0 < owned active [] partial full b
    → Rewrites h.id w v n b hd t
    → length t.frees + hd.bump_remaining ≡ room n g b
    → IsBin f h class v (put_header n b hd) (update g b t) active [] partial full
write_same_room {f} {h} {class} {w} {n} {g} {active} {partial} {full} b v hd t i mem r same =
    record {
      store =
          IsStore-write i.store b v hd t (i.store.aligned b mem) r.far r.slab r.mine
            (r.index ∙ i.store.indexed b mem);
      current = i.current;
      partials = IsQueue-write n (partial_cell h class) b hd partial i.partials r.next r.prev;
      fulls = IsQueue-write n (full_cell h class) b hd full i.fulls r.next r.prev;
      once = i.once;
      ready = λ a has. omega (arith, as_before a, i.ready a has);
      spent = λ a has. as_before a ∙ i.spent a has;
      beside =
          Untouched-step i.beside b v (put_header n b hd) (update g b t)
            (owned active [] partial full) (not_beside i.beside b mem) (i.store.aligned b mem) r.far
            (λ a ne. omega arith) (λ a real ne out. ground arith) (λ c ne ne'. refl)
            (λ a ne. ground arith);
    }
  where
    as_before : (a : ℕ) → room (put_header n b hd) (update g b t) a ≡ room n g a
    as_before a = elim (Bool-cases (a == b)) [
      | inl e ↦ let this : a ≡ b = ground arith in rw (e, this) same
      | inr e ↦ rw e refl
    ]

-- The ledger of a slab after a remote free of `ptr`.
abbrev pub sent_slots : Slots → ℕ → Slots
sent_slots s ptr = record { frees = s.frees; remotes = ptr ∷ s.remotes; outs = remove ptr s.outs }

pub dealloc_remote-Rewrites :
    (m : Machine) (base ptr : ℕ) (s : Slots) {id : ℕ}
    → SlabIs base m.words (header_at m base) s
    → (header_at m base).heap_id ≡ id
    → 0 < count ptr s.outs
    → Rewrites id m.words
        (dealloc_remote m.words (header_at m base) ptr).0
        m.nodes
        base
        (dealloc_remote m.words (header_at m base) ptr).1
        (sent_slots s ptr)
unfolding dealloc_remote push
dealloc_remote-Rewrites m base ptr s i mine out =
    let (low, high) = IsCarved-bounds (header_at m base) ptr i.shape (i.carved ptr (omega arith)) in
    record {
      far = λ a far. ground (arith, i.shape.wide);
      slab = dealloc_remote-IsSlab i ptr out;
      mine = mine;
      index = refl;
      next = refl;
      prev = refl;
    }

pub dealloc_remote-room :
    (w : Words) (hd : SlabHeader) (ptr : ℕ)
    → (dealloc_remote w hd ptr).1.bump_remaining ≡ hd.bump_remaining
unfolding dealloc_remote
dealloc_remote-room w hd ptr = refl
